-- ===== src/Track/Keys.antt =====
-- rekordbox's key ids are another name for the 24 keys.
use bvault_app.Prelude.{
  ℕ, zero, suc, ◌≤◌, ◌<◌, ◌≡◌, refl, subst, arith, Bool, true, false, some, ltb, ltb→lt,
  ltb_false→le, Bool-cases, inl, inr,
}
use bvault_app.Track.{Key, to_rekordbox_id, from_rekordbox_id, minor_map, inverse_map, inverse_key}

abbrev pub key_of : ℕ → Bool → Key
key_of p m = record { pitch_class = p; is_major = m }

-- A statement for every number below a bound, as a tuple.
AllBelow : (ℕ → Type 0) → ℕ → Type 0
AllBelow P zero = Unit
AllBelow P (suc n) = AllBelow P n × P n

below : (P : ℕ → Type 0) (n : ℕ) → AllBelow P n → (i : ℕ) → i < n → P i
unfolding AllBelow
below P zero all i h = ground (arith, h)
below P (suc n) (all, last) i h = elim (Bool-cases (ltb i n)) [
  | inl t ↦ below P n all i (ltb→lt i n t)
  | inr f ↦ subst P (let same : n ≡ i = omega (arith, ltb_false→le i n f) in same) last
]

-- The key has an id from 1 to 24, and the id gives the key back.
pub HasId : Bool → ℕ → Type 0
HasId m p =
    (id : ℕ) × (to_rekordbox_id (key_of p m) ≡ some id)
    × (from_rekordbox_id id ≡ some (key_of p m))
    × (1 ≤ id)
    × (id ≤ 24)

-- The id (less one) names a key, and the key's id is that id.
pub HasKey : ℕ → Type 0
HasKey i =
    (p : ℕ) × (m : Bool) × (from_rekordbox_id (suc i) ≡ some (key_of p m))
    × (to_rekordbox_id (key_of p m) ≡ some (suc i))
    × (p < 12)

minor_ids : AllBelow (HasId false) 12
unfolding AllBelow HasId to_rekordbox_id from_rekordbox_id minor_map inverse_map inverse_key
minor_ids = (
  (
    (
      (
        (
          (
            (
              (
                (
                  (
                    (
                      (tt, (1, refl, refl, omega arith, omega arith)),
                      (8, refl, refl, omega arith, omega arith),
                    ),
                    (3, refl, refl, omega arith, omega arith),
                  ),
                  (10, refl, refl, omega arith, omega arith),
                ),
                (5, refl, refl, omega arith, omega arith),
              ),
              (12, refl, refl, omega arith, omega arith),
            ),
            (7, refl, refl, omega arith, omega arith),
          ),
          (2, refl, refl, omega arith, omega arith),
        ),
        (9, refl, refl, omega arith, omega arith),
      ),
      (4, refl, refl, omega arith, omega arith),
    ),
    (11, refl, refl, omega arith, omega arith),
  ),
  (6, refl, refl, omega arith, omega arith),
)

major_ids : AllBelow (HasId true) 12
unfolding AllBelow HasId to_rekordbox_id from_rekordbox_id minor_map inverse_map inverse_key
major_ids = (
  (
    (
      (
        (
          (
            (
              (
                (
                  (
                    (
                      (tt, (13, refl, refl, omega arith, omega arith)),
                      (20, refl, refl, omega arith, omega arith),
                    ),
                    (15, refl, refl, omega arith, omega arith),
                  ),
                  (22, refl, refl, omega arith, omega arith),
                ),
                (17, refl, refl, omega arith, omega arith),
              ),
              (24, refl, refl, omega arith, omega arith),
            ),
            (19, refl, refl, omega arith, omega arith),
          ),
          (14, refl, refl, omega arith, omega arith),
        ),
        (21, refl, refl, omega arith, omega arith),
      ),
      (16, refl, refl, omega arith, omega arith),
    ),
    (23, refl, refl, omega arith, omega arith),
  ),
  (18, refl, refl, omega arith, omega arith),
)

id_keys : AllBelow HasKey 24
unfolding AllBelow HasKey to_rekordbox_id from_rekordbox_id minor_map inverse_map inverse_key
id_keys = (
  (
    (
      (
        (
          (
            (
              (
                (
                  (
                    (
                      (
                        (
                          (
                            (
                              (
                                (
                                  (
                                    (
                                      (
                                        (
                                          (
                                            (
                                              (tt, (0, false, refl, refl, omega arith)),
                                              (7, false, refl, refl, omega arith),
                                            ),
                                            (2, false, refl, refl, omega arith),
                                          ),
                                          (9, false, refl, refl, omega arith),
                                        ),
                                        (4, false, refl, refl, omega arith),
                                      ),
                                      (11, false, refl, refl, omega arith),
                                    ),
                                    (6, false, refl, refl, omega arith),
                                  ),
                                  (1, false, refl, refl, omega arith),
                                ),
                                (8, false, refl, refl, omega arith),
                              ),
                              (3, false, refl, refl, omega arith),
                            ),
                            (10, false, refl, refl, omega arith),
                          ),
                          (5, false, refl, refl, omega arith),
                        ),
                        (0, true, refl, refl, omega arith),
                      ),
                      (7, true, refl, refl, omega arith),
                    ),
                    (2, true, refl, refl, omega arith),
                  ),
                  (9, true, refl, refl, omega arith),
                ),
                (4, true, refl, refl, omega arith),
              ),
              (11, true, refl, refl, omega arith),
            ),
            (6, true, refl, refl, omega arith),
          ),
          (1, true, refl, refl, omega arith),
        ),
        (8, true, refl, refl, omega arith),
      ),
      (3, true, refl, refl, omega arith),
    ),
    (10, true, refl, refl, omega arith),
  ),
  (5, true, refl, refl, omega arith),
)

has_id : (m : Bool) (p : ℕ) → p < 12 → HasId m p
has_id false p h = below (HasId false) 12 minor_ids p h
has_id true p h = below (HasId true) 12 major_ids p h

-- The 24 keys and the ids 1 to 24 are in bijection: the id of a key gives the key back, and the
-- key of an id (written one more than `i`) gives the id back.
pub key_id_bijection : (m : Bool) (p i : ℕ) → p < 12 → i < 24 → HasId m p × HasKey i
key_id_bijection m p i h h' = (has_id m p h, below HasKey 24 id_keys i h')
