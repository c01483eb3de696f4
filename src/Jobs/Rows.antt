-- ===== src/Jobs/Rows.antt =====
-- Lookups, updates and the order of a claim, over the rows of the table.
use mathlib.Core.Option
use bvault_app.Prelude.{
  ℕ, ◌≤◌, Bool, true, false, ◌≡◌, refl, subst, ◌≢◌, ◌⊎◌, inl, inr, some, none, List, [], ◌∷◌, ◌++◌,
  All, All-append, All-zip, arith, leb, if◌then◌else◌, Bool-cases, Option-cases,
}
use bvault_app.Jobs.{Job, find_first, update_where, oldest, older, has_id}

-- `r` is one of the rows.
abbrev pub In : Job → List Job → Type 0
In r [] = ⊥
In r (x ∷ rs) = (x ≡ r) ⊎ In r rs

-- A relation that holds between each row and every later one.
abbrev pub Pairs : (Job → Job → Type 0) → List Job → Type 0
Pairs R [] = Unit {0}
Pairs R (x ∷ rs) = All (R x) rs × Pairs R rs

-- No two rows have one id.
abbrev pub Distinct : List Job → Type 0
Distinct = Pairs (λ x y. y.id ≢ x.id)

abbrev pub updated : (Job → Bool) → (Job → Job) → Job → Job
updated q f x = if q x then f x else x

pub All-In : (P : Job → Type 0) {r : Job} (rs : List Job) → All P rs → In r rs → P r
All-In P [] a i = absurd i
All-In P (x ∷ rs) a (inl e) = subst P e a.0
All-In P (x ∷ rs) a (inr i) = All-In P rs a.1 i

module _ (q : Job → Bool) (f : Job → Job) where
  pub All-update_where :
      (P Q : Job → Type 0) (rs : List Job)
      → ((x : Job) → P x → Q (updated q f x))
      → All P rs
      → All Q (update_where q f rs)
  unfolding update_where
  All-update_where P Q [] h a = tt
  All-update_where P Q (x ∷ rs) h a = (h x a.0, All-update_where P Q rs h a.1)

  pub Pairs-update_where :
      (P : Job → Type 0) (R S : Job → Job → Type 0) (rs : List Job)
      → ((x y : Job) → P x → P y → R x y → S (updated q f x) (updated q f y))
      → All P rs
      → Pairs R rs
      → Pairs S (update_where q f rs)
  unfolding update_where
  Pairs-update_where P R S [] h a d = tt
  Pairs-update_where P R S (x ∷ rs) h a d = (
    All-update_where (λ y. P y × R x y) (S (updated q f x)) rs (λ y b. h x y a.0 b.0 b.1)
        (All-zip P (R x) rs a.1 d.0),
    Pairs-update_where P R S rs h a.1 d.1,
  )

pub Pairs-zip :
    (R S : Job → Job → Type 0) (rs : List Job)
    → Pairs R rs
    → Pairs S rs
    → Pairs (λ x y. R x y × S x y) rs
Pairs-zip R S [] a b = tt
Pairs-zip R S (x ∷ rs) a b = (All-zip (R x) (S x) rs a.0 b.0, Pairs-zip R S rs a.1 b.1)

pub Pairs-append :
    (R : Job → Job → Type 0) (rs : List Job) (n : Job)
    → Pairs R rs
    → All (λ x. R x n) rs
    → Pairs R (rs ++ n ∷ [])
Pairs-append R [] n d a = (tt, tt)
Pairs-append R (x ∷ rs) n d a =
    (All-append (R x) rs (n ∷ []) d.0 (a.0, tt), Pairs-append R rs n d.1 a.1)

pub find_first-In :
    (p : Job → Bool) (rs : List Job) (r : Job) → find_first p rs ≡ some r → In r rs × (p r ≡ true)
unfolding find_first
find_first-In p [] r e = cc
find_first-In p (x ∷ rs) r e = elim (Bool-cases (p x)) [
  | inl yes' ↦ let same : x ≡ r = ground arith in (inl same, rw (← same) yes')
  | inr no' ↦ let (i, h) = find_first-In p rs r (ground arith) in (inr i, h)
]

pub find_first-none :
    (p : Job → Bool) (rs : List Job) → find_first p rs ≡ none → All (λ x. p x ≡ false) rs
unfolding find_first
find_first-none p [] e = tt
find_first-none p (x ∷ rs) e = elim (Bool-cases (p x)) [
  | inl yes' ↦ absurd (ground arith)
  | inr no' ↦ (no', find_first-none p rs (ground arith))
]

pub find_first_id :
    (r : Job) (rs : List Job) → Distinct rs → In r rs → find_first (has_id r.id) rs ≡ some r
unfolding find_first
find_first_id r [] d i = absurd i
find_first_id r (x ∷ rs) d (inl e) = ground (arith, e)
find_first_id r (x ∷ rs) d (inr i) =
    let other = All-In (λ y. y.id ≢ x.id) rs d.0 i in
    ground (arith, other, find_first_id r rs d.1 i)

-- An update that leaves a test alone is seen through a lookup by that test.
pub find_first-update_where :
    (p q : Job → Bool) (f : Job → Job) (rs : List Job)
    → ((x : Job) → p (updated q f x) ≡ p x)
    → find_first p (update_where q f rs) ≡ Option.map (updated q f) (find_first p rs)
unfolding find_first update_where
find_first-update_where p q f [] h = refl
find_first-update_where p q f (x ∷ rs) h = elim (Bool-cases (p x)) [
  | inl yes' ↦ rw (h x, yes') refl
  | inr no' ↦ rw (h x, no') (find_first-update_where p q f rs h)
]

pub find_first-append :
    (p : Job → Bool) (rs : List Job) (x : Job)
    → find_first p rs ≡ none
    → p x ≡ true
    → find_first p (rs ++ x ∷ []) ≡ some x
unfolding find_first
find_first-append p [] x e h = rw h
find_first-append p (y ∷ rs) x e h = elim (Bool-cases (p y)) [
  | inl yes' ↦ absurd (ground arith)
  | inr no' ↦ rw no' (find_first-append p rs x (ground arith) h)
]

-- The row that a claim picks passes the test, and no row that passes is older.
pub record IsOldest (p : Job → Bool) (rs : List Job) (r : Job) : Type 0 where
  pub present : In r rs
  pub passes : p r ≡ true
  pub first : All (λ x. p x ≡ true → r.created_at ≤ x.created_at) rs

Oldest-mono :
    (p : Job → Bool) (rs : List Job) (a b : ℕ)
    → a ≤ b
    → All (λ x. p x ≡ true → b ≤ x.created_at) rs
    → All (λ x. p x ≡ true → a ≤ x.created_at) rs
Oldest-mono p [] a b h f = tt
Oldest-mono p (x ∷ rs) a b h f = (λ e. ground (arith, f.0 e), Oldest-mono p rs a b h f.1)

none_pass :
    (p : Job → Bool) (rs : List Job) (a : ℕ)
    → All (λ x. p x ≡ false) rs
    → All (λ x. p x ≡ true → a ≤ x.created_at) rs
none_pass p [] a f = tt
none_pass p (x ∷ rs) a f = (λ e. absurd (ground (arith, f.0)), none_pass p rs a f.1)

pub oldest-none : (p : Job → Bool) (rs : List Job) → oldest p rs ≡ none → All (λ x. p x ≡ false) rs
unfolding oldest
oldest-none p [] e = tt
oldest-none p (x ∷ rs) e = elim (Bool-cases (p x)) [
  | inl yes' ↦ elim (Option-cases (oldest p rs)) [
    | inl none' ↦ absurd (ground arith)
    | inr (s, some') ↦ absurd (ground arith)
  ]
  | inr no' ↦ (no', oldest-none p rs (ground arith))
]

newer_last :
    (p : Job → Bool) (x r : Job) (rs : List Job)
    → p x ≡ true
    → oldest p rs ≡ none
    → older x (oldest p rs) ≡ some r
    → IsOldest p (x ∷ rs) r
unfolding older
newer_last p x r rs px e h =
    let same : x ≡ r = ground arith in
    subst (IsOldest p (x ∷ rs)) same (record {
      present = inl refl;
      passes = px;
      first = (λ _. omega arith, none_pass p rs x.created_at (oldest-none p rs e));
    })

older_wins :
    (p : Job → Bool) (x r s : Job) (rs : List Job)
    → p x ≡ true
    → IsOldest p rs s
    → older x (some s) ≡ some r
    → IsOldest p (x ∷ rs) r
unfolding older
older_wins p x r s rs px o h = elim (Bool-cases (leb x.created_at s.created_at)) [
  | inl first' ↦
      let same : x ≡ r = ground arith in
      subst (IsOldest p (x ∷ rs)) same (record {
        present = inl refl;
        passes = px;
        first =
            (λ _. omega arith, Oldest-mono p rs x.created_at s.created_at (ground arith) o.first);
      })
  | inr later ↦
      let same : s ≡ r = ground arith in
      subst (IsOldest p (x ∷ rs)) same (record {
        present = inr o.present;
        passes = o.passes;
        first = (λ _. ground arith, o.first);
      })
]

pub oldest-IsOldest :
    (p : Job → Bool) (rs : List Job) (r : Job) → oldest p rs ≡ some r → IsOldest p rs r
unfolding oldest
oldest-IsOldest p [] r e = cc
oldest-IsOldest p (x ∷ rs) r e = elim (Bool-cases (p x)) [
  | inl px ↦ elim (Option-cases (oldest p rs)) [
    | inl n ↦ newer_last p x r rs px n (ground arith)
    | inr (s, o) ↦ older_wins p x r s rs px (oldest-IsOldest p rs s o) (ground arith)
  ]
  | inr skip ↦
      let o = oldest-IsOldest p rs r (ground arith) in
      record {
        present = inr o.present;
        passes = o.passes;
        first = (λ e'. absurd (ground arith), o.first);
      }
]
