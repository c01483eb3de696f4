-- ===== src/Catalog/Rows/Finding.antt =====
-- Which row a statement finds after a change.
use bvault_app.Prelude.{
  ◌≡◌, refl, ap, inl, inr, arith, Bool, true, false, some, none, List, [], ◌∷◌, ◌++◌, if◌then◌else◌,
  Bool-cases,
}
use bvault_app.Catalog.Rows.{find_first, update_where, any}

module _ {A : Type 0} (p : A → Bool) where
  -- A change that keeps the test changes the row that is found.
  pub find_first-update :
      (f : A → A) (rs : List A) (r : A)
      → ((r : A) → p (f r) ≡ p r)
      → find_first p rs ≡ some r
      → find_first p (update_where p f rs) ≡ some (f r)
  unfolding find_first update_where
  find_first-update f [] r h e = absurd (cc)
  find_first-update f (s ∷ rs) r h e = elim (Bool-cases (p s)) [
    | inl here ↦
        let same : some s ≡ some r = rw (here) at e in
        let equal : s ≡ r = cc in rw (here, h s, here) (ap (λ r. some (f r)) equal)
    | inr later ↦
        let rest : find_first p rs ≡ some r = rw (later) at e in
        rw (later, later) (find_first-update f rs r h rest)
  ]

  pub find_first-update_other :
      (q : A → Bool) (f : A → A) (rs : List A)
      → ((r : A) → q r ≡ true → (p r ≡ false) × (p (f r) ≡ false))
      → find_first p (update_where q f rs) ≡ find_first p rs
  unfolding find_first update_where
  find_first-update_other q f [] h = refl
  find_first-update_other q f (r ∷ rs) h = elim (Bool-cases (q r)) [
    | inl hit ↦ rw (hit, (h r hit).0, (h r hit).1) (find_first-update_other q f rs h)
    | inr miss ↦ rw miss (ap (λ o. if p r then some r else o) (find_first-update_other q f rs h))
  ]

  pub find_first-none-any : (rs : List A) → any p rs ≡ false → find_first p rs ≡ none
  unfolding find_first any
  find_first-none-any [] e = refl
  find_first-none-any (r ∷ rs) e = ground (arith, find_first-none-any rs)

  pub any-find_first-none : (rs : List A) → find_first p rs ≡ none → any p rs ≡ false
  unfolding find_first any
  any-find_first-none [] e = refl
  any-find_first-none (r ∷ rs) e = ground (arith, any-find_first-none rs)

  pub find_first-some-any : (rs : List A) → any p rs ≡ true → (r : A) × (find_first p rs ≡ some r)
  unfolding find_first any
  find_first-some-any [] e = absurd (cc)
  find_first-some-any (r ∷ rs) e = elim (Bool-cases (p r)) [
    | inl here ↦ (r, rw here refl)
    | inr later ↦
        let rest : any p rs ≡ true = ground arith in
        let (s, found) = find_first-some-any rs rest in (s, rw later found)
  ]

  pub find_first-append_here :
      (rs : List A) (r : A)
      → find_first p rs ≡ none
      → p r ≡ true
      → find_first p (rs ++ r ∷ []) ≡ some r
  unfolding find_first
  find_first-append_here [] r e h = rw h refl
  find_first-append_here (s ∷ rs) r e h = ground (arith, find_first-append_here rs r)

  pub find_first-append_other :
      (rs : List A) (r : A) → p r ≡ false → find_first p (rs ++ r ∷ []) ≡ find_first p rs
  unfolding find_first
  find_first-append_other [] r h = rw h refl
  find_first-append_other (s ∷ rs) r h =
      ap (λ o. if p s then some s else o) (find_first-append_other rs r h)
