-- ===== src/Catalog/Rows/Laws.antt =====
-- What a statement leaves of the rows that it does not concern.
use bvault_app.Prelude.{
  ◌≡◌, refl, ap, inl, inr, arith, Bool, true, false, ◌||◌, some, List, [], ◌∷◌, ◌++◌, if◌then◌else◌,
  Bool-cases,
}
use bvault_app.Catalog.Rows.{find_first, select, delete_where, update_where, any}

module _ {A : Type 0} where
  pub select-eq : (p q : A → Bool) (rs : List A) → ((r : A) → p r ≡ q r) → select p rs ≡ select q rs
  unfolding select
  select-eq p q [] h = refl
  select-eq p q (r ∷ rs) h = ground (arith, h r, select-eq p q rs h)

  pub select-append_none :
      (p : A → Bool) (rs : List A) (r : A) → p r ≡ false → select p (rs ++ r ∷ []) ≡ select p rs
  unfolding select
  select-append_none p [] r h = rw h refl
  select-append_none p (s ∷ rs) r h = ground (arith, select-append_none p rs r h)

  pub select-update_none :
      (p q : A → Bool) (f : A → A) (rs : List A)
      → ((r : A) → q r ≡ true → (p r ≡ false) × (p (f r) ≡ false))
      → select p (update_where q f rs) ≡ select p rs
  unfolding select update_where
  select-update_none p q f [] h = refl
  select-update_none p q f (r ∷ rs) h = elim (Bool-cases (q r)) [
    | inl hit ↦ rw (hit, (h r hit).0, (h r hit).1) (select-update_none p q f rs h)
    | inr miss ↦
        rw miss (ap (λ rest. if p r then r ∷ rest else rest) (select-update_none p q f rs h))
  ]

  pub select-delete_none :
      (p q : A → Bool) (rs : List A)
      → ((r : A) → q r ≡ true → p r ≡ false)
      → select p (delete_where q rs) ≡ select p rs
  unfolding select delete_where
  select-delete_none p q [] h = refl
  select-delete_none p q (r ∷ rs) h = elim (Bool-cases (q r)) [
    | inl hit ↦ rw (hit, h r hit) (select-delete_none p q rs h)
    | inr miss ↦ rw miss (ap (λ rest. if p r then r ∷ rest else rest) (select-delete_none p q rs h))
  ]

  pub any-append : (p : A → Bool) (rs : List A) (r : A) → any p (rs ++ r ∷ []) ≡ any p rs || p r
  unfolding any
  any-append p [] r = ground arith
  any-append p (s ∷ rs) r = ground (arith, any-append p rs r)

  pub any-delete_none :
      (p q : A → Bool) (rs : List A)
      → ((r : A) → q r ≡ true → p r ≡ false)
      → any p (delete_where q rs) ≡ any p rs
  unfolding any delete_where select
  any-delete_none p q [] h = refl
  any-delete_none p q (r ∷ rs) h = elim (Bool-cases (q r)) [
    | inl hit ↦ rw (hit, h r hit) (any-delete_none p q rs h)
    | inr miss ↦ rw miss (ap (◌||◌ (p r)) (any-delete_none p q rs h))
  ]

  -- No row passes a test that is stricter than one that none passes.
  pub any-none :
      (p q : A → Bool) (rs : List A)
      → ((r : A) → p r ≡ true → q r ≡ true)
      → any q rs ≡ false
      → any p rs ≡ false
  unfolding any
  any-none p q [] h e = refl
  any-none p q (r ∷ rs) h e = ground (arith, h r, any-none p q rs h)

  pub find_first_passes :
      (p : A → Bool) (rs : List A) (r : A)
      → find_first p rs ≡ some r
      → (p r ≡ true) × (any p rs ≡ true)
  unfolding find_first any
  find_first_passes p [] r e = absurd (cc)
  find_first_passes p (s ∷ rs) r e = ground (arith, find_first_passes p rs r)
