-- ===== src/Pdb/Entities.antt =====
-- crates/bvault-core/src/pdb.rs: the maps from names to row ids and their counters. A `HashMap` is
-- the list of its entries in the order in which they were inserted.
pub mod Numbering
use bvault_app.Prelude.{
  ℕ, ◌+◌, ◌≡◌, refl, ap₂, arith, Bool, true, false, ◌&&◌, Option, some, none, List, [], ◌∷◌, ◌++◌,
  ◌==◌, leb, if◌then◌else◌, u32, ==_iff,
}
use bvault_app.Text.{
  Text, text_equal, text_equal_sound, text_equal_reflexive, number_equal_sound,
  number_equal_reflexive,
}

-- The equality that a map's keys have.
pub record KeyEq (K : Type 0) : Type 0 where
  pub equal : K → K → Bool
  pub sound : (a b : K) → equal a b ≡ true → a ≡ b
  pub reflexive : (a : K) → equal a a ≡ true

abbrev pub number_key : KeyEq ℕ
number_key = record { equal = ◌==◌; sound = number_equal_sound; reflexive = number_equal_reflexive }

abbrev pub text_key : KeyEq Text
text_key = record { equal = text_equal; sound = text_equal_sound; reflexive = text_equal_reflexive }

unfoldable pub album_equal : Text × ℕ → Text × ℕ → Bool
album_equal (name, artist) (name', artist') = text_equal name name' && artist == artist'

pub album_equal_sound : (a b : Text × ℕ) → album_equal a b ≡ true → a ≡ b
unfolding album_equal
album_equal_sound (name, artist) (name', artist') e =
    let both : (text_equal name name' ≡ true) × ((artist == artist') ≡ true) = ground arith in
    ap₂ (λ x (y : ℕ). (x, y)) (text_equal_sound name name' both.0)
      (number_equal_sound artist artist' both.1)

pub album_equal_reflexive : (a : Text × ℕ) → album_equal a a ≡ true
unfolding album_equal
album_equal_reflexive (name, artist) =
    ground (arith, text_equal_reflexive name, number_equal_reflexive artist)

-- An album is known by its name and its artist.
abbrev pub album_key : KeyEq (Text × ℕ)
album_key = record {
  equal = album_equal;
  sound = album_equal_sound;
  reflexive = album_equal_reflexive;
}

-- A map and the counter beside it, as `artists` and `next_artist_id`.
pub record EntityMap (K : Type 0) : Type 0 where
  pub ids : List (K × ℕ)
  pub next_id : ℕ

module _ {K : Type 0} where
  unfoldable pub no_entities : EntityMap K
  no_entities = record { ids = []; next_id = 1 }

  module _ (key : KeyEq K) where
    -- `map.get(&k)`
    unfoldable pub find : K → List (K × ℕ) → Option ℕ
    find k [] = none
    find k ((k', id) ∷ ids) = if key.equal k k' then some id else find k ids

    -- The new state and the id, for what `get` has found.
    unfoldable pub created : K → EntityMap K → Option ℕ → EntityMap K × ℕ
    created k s (some id) = (s, id)
    created k s none =
        (record { ids = s.ids ++ (k, s.next_id) ∷ []; next_id = u32 (s.next_id + 1) }, s.next_id)

    unfoldable pub get_or_create : K → EntityMap K → EntityMap K × ℕ
    get_or_create k s = created k s (find k s.ids)

  unfoldable pub insert_by_id : K × ℕ → List (K × ℕ) → List (K × ℕ)
  insert_by_id entry [] = entry ∷ []
  insert_by_id (k, id) ((k', id') ∷ ids) =
      if leb id id' then (k, id) ∷ (k', id') ∷ ids else (k', id') ∷ insert_by_id (k, id) ids

  -- `sort_by_key(|(_, &id)| id)`
  unfoldable pub sort_by_id : List (K × ℕ) → List (K × ℕ)
  unfolding insert_by_id
  sort_by_id [] = []
  sort_by_id (entry ∷ ids) = insert_by_id entry (sort_by_id ids)
