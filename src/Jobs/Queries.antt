-- ===== src/Jobs/Queries.antt =====
-- queue.rs: the counts and the lists of keys that the probes and the command line read.
pub mod Dead
use Prim.Native.String.{String}
use text.Mathlib.Text.{◌==◌ as str_eq, starts_with}
use bvault_app.Prelude.{
  ◌||◌, ℕ, suc, ◌+◌, ◌<◌, Bool-cases, ◌≡◌, refl, inl, inr, arith, Bool, false, ◌&&◌, List, [], ◌∷◌,
  All, ◌==◌, if◌then◌else◌,
}
use bvault_app.Jobs.{
  Job, JobKind, JobStatus, pending, running, succeeded, failed, dead, Table, same_kind, same_status,
}

unfoldable pub count_where : (Job → Bool) → List Job → ℕ
count_where p [] = 0
count_where p (r ∷ rs) = if p r then suc (count_where p rs) else count_where p rs

-- The rows of a kind that have a status.
pub of_status : JobKind → JobStatus → List Job → ℕ
unfolding count_where
of_status kind s rs = count_where (λ r. same_kind kind r.kind && same_status r.status s) rs

-- One group of the result; a status without rows has none.
group : JobStatus → ℕ → List (JobStatus × ℕ) → List (JobStatus × ℕ)
group s n rest = if n == 0 then rest else (s, n) ∷ rest

-- `group by status` lists the statuses that occur.
pub counts : JobKind → Table → List (JobStatus × ℕ)
unfolding of_status group
counts kind t = group pending (of_status kind pending t.rows) (
    group running (of_status kind running t.rows) (
      group succeeded (of_status kind succeeded t.rows)
        (group failed (of_status kind failed t.rows) (group dead (of_status kind dead t.rows) []))))

-- `dedup_key = any($2)`
unfoldable pub any_key : List String → String → Bool
any_key [] key = false
any_key (k ∷ ks) key = str_eq k key || any_key ks key

unfoldable pub count_dead : JobKind → List String → Table → ℕ
unfolding count_where any_key
count_dead kind dedup_keys t =
    count_where
      (λ r. same_kind kind r.kind && same_status r.status dead && any_key dedup_keys r.dedup_key)
      t.rows

-- `dedup_key like '<prefix>%'`, for a prefix with no `%` and no `_`.
keys_where : (Job → Bool) → List Job → List String
keys_where p [] = []
keys_where p (r ∷ rs) = if p r then r.dedup_key ∷ keys_where p rs else keys_where p rs

pub completed_keys : JobKind → String → Table → List String
unfolding keys_where
completed_keys kind key_prefix t =
    keys_where
      (λ r.
        same_kind kind r.kind
        && same_status r.status succeeded
        && starts_with r.dedup_key key_prefix)
      t.rows

pub total : List (JobStatus × ℕ) → ℕ
total [] = 0
total ((s, n) ∷ rest) = n + total rest

-- Every row has one status.
statuses_sum :
    (kind : JobKind) (rs : List Job)
    → of_status kind pending rs
        + (of_status kind running rs
            + (of_status kind succeeded rs + (of_status kind failed rs + of_status kind dead rs)))
      ≡ count_where (λ r. same_kind kind r.kind) rs
unfolding count_where of_status
statuses_sum kind [] = omega arith
statuses_sum kind (r ∷ rs) = ground (arith, statuses_sum kind rs)

total-group :
    (s : JobStatus) (n : ℕ) (rest : List (JobStatus × ℕ)) → total (group s n rest) ≡ n + total rest
unfolding group total
total-group s n rest = elim (Bool-cases (n == 0)) [
  | inl t ↦ rw (t, group) (ground (arith, t))
  | inr f ↦ rw (f, group) refl
]

group-All :
    (s : JobStatus) (n : ℕ) (rest : List (JobStatus × ℕ))
    → All (λ x. 0 < x.1) rest
    → All (λ x. 0 < x.1) (group s n rest)
unfolding group
group-All s n rest h = elim (Bool-cases (n == 0)) [
  | inl t ↦ rw (t, group) h
  | inr f ↦ rw (f, group) (ground (arith, f), h)
]

-- The counts by status add up to the rows of the kind, and no status is listed with a count of 0.
pub counts-total :
    (kind : JobKind) (t : Table)
    → (total (counts kind t) ≡ count_where (λ r. same_kind kind r.kind) t.rows)
      × All (λ x. 0 < x.1) (counts kind t)
unfolding counts
counts-total kind t =
    let n : JobStatus → ℕ = λ s. of_status kind s t.rows in
    let l1 = group dead (n dead) [] in
    let l2 = group failed (n failed) l1 in
    let l3 = group succeeded (n succeeded) l2 in
    let l4 = group running (n running) l3 in
    let none_left : total [] ≡ 0 = unfold total in refl in
    (
      omega (
        arith,
        total-group pending (n pending) l4,
        total-group running (n running) l3,
        total-group succeeded (n succeeded) l2,
        total-group failed (n failed) l1,
        total-group dead (n dead) [],
        none_left,
        statuses_sum kind t.rows,
      ),
      group-All pending (n pending) l4 (
          group-All running (n running) l3 (
            group-All succeeded (n succeeded) l2
              (group-All failed (n failed) l1 (group-All dead (n dead) [] tt)))),
    )
