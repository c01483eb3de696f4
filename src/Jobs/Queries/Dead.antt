-- ===== src/Jobs/Queries/Dead.antt =====
-- queue.rs: the dead rows of several keys are those of each key, added up.
use Prim.Native.String.{String}
use text.Mathlib.Text.{◌==◌ as str_eq}
use text.Mathlib.TextEquality.{eq_iff}
use bvault_app.Prelude.{
  ◌+◌, ◌≡◌, refl, inl, inr, arith, Bool, false, List, [], ◌∷◌, Bool-cases, if◌then◌else◌,
}
use bvault_app.Jobs.{Job, JobKind, Table}
use bvault_app.Jobs.Queries.{count_where, any_key, count_dead}

-- No key is listed twice.
unfoldable pub AreDistinctKeys : List String → Type 0
AreDistinctKeys [] = Unit {0}
AreDistinctKeys (k ∷ ks) = (any_key ks k ≡ false) × AreDistinctKeys ks

count_where_split :
    (p q r : Job → Bool) (rs : List Job)
    → ((x : Job) → (if p x then 1 else 0) ≡ (if q x then 1 else 0) + (if r x then 1 else 0))
    → count_where p rs ≡ count_where q rs + count_where r rs
unfolding count_where
count_where_split p q r [] h = omega arith
count_where_split p q r (x ∷ rs) h = ground (arith, h x, count_where_split p q r rs h)

pub count_dead-cons :
    (kind : JobKind) (k : String) (ks : List String) (t : Table)
    → any_key ks k ≡ false
    → count_dead kind (k ∷ ks) t ≡ count_dead kind (k ∷ []) t + count_dead kind ks t
unfolding count_dead any_key
count_dead-cons kind k ks t apart = count_where_split _ _ _ t.rows (λ x.
    elim (Bool-cases (str_eq k x.dedup_key)) [
      | inr differs ↦ rw differs (ground arith)
      | inl same ↦
          let equal = (eq_iff k x.dedup_key).0 same in
          let elsewhere : any_key ks x.dedup_key ≡ false = rw (← equal) apart in
          rw same (rw elsewhere (ground arith))
    ])

count_where_none :
    (p : Job → Bool) (rs : List Job) → ((x : Job) → p x ≡ false) → count_where p rs ≡ 0
unfolding count_where
count_where_none p [] h = refl
count_where_none p (x ∷ rs) h = rw (h x) (count_where_none p rs h)

pub count_dead-nil : (kind : JobKind) (t : Table) → count_dead kind [] t ≡ 0
unfolding count_dead any_key
count_dead-nil kind t = count_where_none _ t.rows (λ x. ground arith)
