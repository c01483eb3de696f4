-- ===== src/Jobs/Stuck.antt =====
-- A job that failed and was submitted again blocks its kind of work: the claim's select picks the
-- failed row, and the update meets the unique index.
use bvault_app.Prelude.{
  ℕ, ◌≤◌, Bool, true, false, ◌≡◌, refl, ap, ◌∙◌, ◌≢◌, inl, inr, some, none, All, arith,
  Option-cases,
}
use bvault_app.Jobs.{
  Job, JobKind, failed, Table, unique_violation, is_active, active_of, find_first, oldest,
  claimable, rival, claim,
}
use bvault_app.Jobs.Rows.{In, find_first-none, All-In, oldest-none, oldest-IsOldest}
use bvault_app.Jobs.History.{of_key_iff, same_kind_iff}

-- `r` failed, an active row of another id has its kind and key, and no other job of the kind, in any
-- status, is as old.
pub record IsBlocked (t : Table) (r s : Job) : Type 0 where
  pub failing : In r t.rows
  pub has_failed : r.status ≡ failed
  pub waiting : In s t.rows
  pub active : is_active s.status ≡ true
  pub same_kind' : r.kind ≡ s.kind
  pub same_key : r.dedup_key ≡ s.dedup_key
  pub two_rows : s.id ≢ r.id
  pub eldest : All (λ x. x.kind ≡ r.kind → x.created_at ≤ r.created_at → x ≡ r) t.rows

rival_found : (t : Table) (r s : Job) → IsBlocked t r s → find_first (rival r) t.rows ≢ none
unfolding rival active_of
rival_found t r s b e =
    let quiet =
      All-In (λ x. rival r x ≡ false) t.rows (find_first-none (rival r) t.rows e) b.waiting in
    let key = (of_key_iff r.kind r.dedup_key s).1 (b.same_kind', b.same_key) in
    let active = b.active in let two = b.two_rows in ground arith

failed_claimable :
    (skipped : ℕ → Bool) (now : ℕ) (r : Job)
    → r.status ≡ failed
    → skipped r.id ≡ false
    → claimable skipped r.kind now r ≡ true
unfolding claimable
failed_claimable skipped now r h free = ground (arith, same_kind_iff r.kind r.kind)

claimable_kind :
    (skipped : ℕ → Bool) (kind : JobKind) (now : ℕ) (x : Job)
    → claimable skipped kind now x ≡ true
    → x.kind ≡ kind
unfolding claimable
claimable_kind skipped kind now x h = ground (arith, same_kind_iff kind x.kind)

-- A job has failed, an active row of another id has its kind and key, and no other job of the kind,
-- whatever its status, is as old: then a claim of the kind fails with a unique violation, at every
-- time, for every lease and whatever rows other transactions have locked, as long as the failed row
-- is not one of them.
pub claim_blocked :
    (skipped : ℕ → Bool) (lease now : ℕ) (t : Table) (r s : Job)
    → IsBlocked t r s
    → skipped r.id ≡ false
    → claim skipped r.kind lease now t ≡ unique_violation
unfolding claim
claim_blocked skipped lease now t r s b free =
    let could = failed_claimable skipped now r b.has_failed free in
    elim (Option-cases (oldest (claimable skipped r.kind now) t.rows)) [
      | inl n ↦
          let never =
            All-In (λ x. claimable skipped r.kind now x ≡ false) t.rows (oldest-none _ t.rows n)
              b.failing in
          absurd (ground arith)
      | inr (x, o) ↦
          let picked = oldest-IsOldest (claimable skipped r.kind now) t.rows x o in
          let age =
            All-In (λ y. claimable skipped r.kind now y ≡ true → x.created_at ≤ y.created_at) t.rows
              picked.first b.failing could in
          let same : x ≡ r =
            All-In (λ y. y.kind ≡ r.kind → y.created_at ≤ r.created_at → y ≡ r) t.rows b.eldest
              picked.present (claimable_kind skipped r.kind now x picked.passes) age in
          refused x o same
    ]
  where
    refused :
        (x : Job)
        → oldest (claimable skipped r.kind now) t.rows ≡ some x
        → x ≡ r
        → claim skipped r.kind lease now t ≡ unique_violation
    refused x o same = elim (Option-cases (find_first (rival r) t.rows)) [
      | inl free' ↦ absurd (rival_found t r s b free')
      | inr (y, e) ↦ rw (o ∙ ap some same, claim) (rw (e, claim) refl)
    ]
