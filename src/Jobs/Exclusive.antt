-- ===== src/Jobs/Exclusive.antt =====
-- While the lease of a served job runs, nobody else is served the same job.
use Prim.Native.String.{String}
use bvault_app.Prelude.{
  ℕ, suc, ◌+◌, ◌*◌, ◌≤◌, ◌<◌, Bool, true, ◌≡◌, ◌≢◌, refl, ap, ◌∙◌, inl, inr, Option, some, List, [],
  ◌∷◌, All, All-append, All-map, arith, Bool-cases, Option-cases,
}
use bvault_app.Jobs.{
  Job, JobKind, running, Table, ok, find_first, update_where, has_id, active_of, new_row, enqueue,
  oldest, claimable, rival, leased, claim, heartbeat, complete, mark_dead, fail, failed_row, micros,
  get,
}
use bvault_app.Jobs.Rows.{All-In, All-update_where, find_first-In, oldest-IsOldest}
use bvault_app.Jobs.Consistency.{IsConsistent}
use bvault_app.Jobs.History.{
  Statement, enqueues, claims, heartbeats, completes, marks_dead, fails, after, execute,
  execute_all, only_row, claim-IsConsistent,
}
use bvault_app.Jobs.Claim.{claim-Served}

-- The statement is no worker's report on the job; enqueues and claims are none.
abbrev pub Spares : ℕ → Statement → Type 0
Spares id (enqueues kind key payload max_attempts tp) = Unit {0}
Spares id (claims skipped kind lease) = Unit {0}
Spares id (heartbeats job_id lease) = job_id ≢ id
Spares id (completes job_id) = job_id ≢ id
Spares id (marks_dead job_id error) = job_id ≢ id
Spares id (fails job_id error) = job_id ≢ id

-- The statement runs before the lease ends, and is no report on the job.
abbrev pub IsMeanwhile : ℕ → ℕ → ℕ × Statement → Type 0
IsMeanwhile id until (now, s) = (now ≤ until) × Spares id s

module _ (id until : ℕ) where
  -- If the row has the id, it is running with the lease.
  abbrev Keeps : Job → Type 0
  Keeps r = r.id ≡ id → (r.status ≡ running) × (r.locked_until ≡ some until)

  -- The row of the id, if there is one, has the lease, and no later row gets the id.
  record IsHeld (t : Table) : Type 0 where
    old : id < t.next_id
    kept : All Keeps t.rows

  -- A change that is made to no row of the id, or leaves its lease, keeps it held.
  record IsMild (q : Job → Bool) (f : Job → Job) : Type 0 where
    same_id : (x : Job) → (f x).id ≡ x.id
    same_lease : (x : Job) → q x ≡ true → Keeps x → Keeps (f x)

  update_where-IsHeld :
      (q : Job → Bool) (f : Job → Job) (t : Table)
      → IsMild q f
      → IsHeld t
      → IsHeld (record t { rows = update_where q f t.rows })
  update_where-IsHeld q f t m h = record {
    old = h.old;
    kept =
        All-update_where q f Keeps Keeps t.rows
          (λ x k. elim (Bool-cases (q x)) [
            | inl changed ↦ rw (changed) (m.same_lease x changed k)
            | inr left ↦ rw (left) k
          ])
          h.kept;
  }

  -- A change to rows of another id only.
  other-IsMild :
      (job_id : ℕ) (q : Job → Bool) (f : Job → Job)
      → job_id ≢ id
      → ((x : Job) → q x ≡ true → has_id job_id x ≡ true)
      → ((x : Job) → (f x).id ≡ x.id)
      → IsMild q f
  other-IsMild job_id q f apart names same = record {
    same_id = same;
    same_lease = λ x here k e. absurd (ground (arith, same x, names x here));
  }

  enqueue-IsHeld :
      (kind : JobKind) (key payload : String) (max_attempts : ℕ) (tp : Option String) (now : ℕ)
      (t : Table)
      → IsHeld t
      → IsHeld (enqueue kind key payload max_attempts tp now t).0
  unfolding enqueue new_row
  enqueue-IsHeld kind key payload max_attempts tp now t h =
      elim (Option-cases (find_first (active_of kind key) t.rows)) [
        | inl e ↦
            rw (e, enqueue)
              (record {
                old = omega (arith, h.old);
                kept =
                    All-append Keeps t.rows _ h.kept ((λ e. absurd (omega (arith, h.old, e))), tt);
              })
        | inr (r, e) ↦
            rw (e, enqueue)
              (update_where-IsHeld (has_id r.id) _ (record t { next_id = suc t.next_id })
                (record { same_id = λ x. refl; same_lease = λ x here k. k })
                (record { old = omega (arith, h.old); kept = h.kept }))
      ]

  -- A row that is held cannot be claimed.
  held_not_claimable :
      (skipped : ℕ → Bool) (kind : JobKind) (now : ℕ) (r : Job)
      → now ≤ until
      → (r.status ≡ running) × (r.locked_until ≡ some until)
      → claimable skipped kind now r ≢ true
  unfolding claimable
  held_not_claimable skipped kind now r early (runs, lease) could = ground arith

  picked_apart :
      (skipped : ℕ → Bool) (kind : JobKind) (now : ℕ) (t : Table) (r : Job)
      → now ≤ until
      → IsHeld t
      → oldest (claimable skipped kind now) t.rows ≡ some r
      → r.id ≢ id
  picked_apart skipped kind now t r early h e same =
      let o = oldest-IsOldest (claimable skipped kind now) t.rows r e in
      held_not_claimable skipped kind now r early (All-In Keeps t.rows h.kept o.present same)
        o.passes

  claim-IsHeld :
      (skipped : ℕ → Bool) (kind : JobKind) (lease now : ℕ) (t : Table)
      → now ≤ until
      → IsHeld t
      → IsHeld (after t (claim skipped kind lease now t))
  unfolding claim leased
  claim-IsHeld skipped kind lease now t early h =
      elim (Option-cases (oldest (claimable skipped kind now) t.rows)) [
        | inl n ↦ rw (n, claim) h
        | inr (r, o) ↦ elim (Option-cases (find_first (rival r) t.rows)) [
          | inl free ↦
              rw (o, claim)
                (rw (free, claim)
                  (update_where-IsHeld (has_id r.id) (leased lease now) t
                    (other-IsMild r.id (has_id r.id) (leased lease now)
                      (picked_apart skipped kind now t r early h o) (λ x e. e) (λ x. refl))
                    h))
          | inr (s, taken) ↦ rw (o, claim) (rw (taken, claim) h)
        ]
      ]

  -- A claim serves a job of another id.
  served_apart :
      (skipped : ℕ → Bool) (kind : JobKind) (lease now : ℕ) (t t' : Table) (k : Job)
      → now ≤ until
      → IsHeld t
      → claim skipped kind lease now t ≡ ok (t', some k)
      → k.id ≢ id
  unfolding claim leased
  served_apart skipped kind lease now t t' k early h e =
      elim (Option-cases (oldest (claimable skipped kind now) t.rows)) [
        | inl n ↦ absurd (ground arith)
        | inr (r, o) ↦ elim (Option-cases (find_first (rival r) t.rows)) [
          | inl free ↦
              let apart = picked_apart skipped kind now t r early h o in
              let same : leased lease now r ≡ k = ground arith in
              λ e. apart (ap (λ (j : Job). j.id) same ∙ e)
          | inr (s, taken) ↦ absurd (ground arith)
        ]
      ]

  execute-IsHeld :
      (now : ℕ) (s : Statement) (t : Table)
      → IsMeanwhile id until (now, s)
      → IsHeld t
      → IsHeld (execute now s t)
  unfolding execute heartbeat complete mark_dead fail failed_row
  execute-IsHeld now (enqueues kind key payload max_attempts tp) t m h =
      enqueue-IsHeld kind key payload max_attempts tp now t h
  execute-IsHeld now (claims skipped kind lease) t m h = claim-IsHeld skipped kind lease now t m.0 h
  execute-IsHeld now (heartbeats job_id lease) t m h =
      update_where-IsHeld _ _ t (other-IsMild job_id _ _ m.1 (λ x e. ground arith) (λ x. refl)) h
  execute-IsHeld now (completes job_id) t m h =
      update_where-IsHeld _ _ t (other-IsMild job_id _ _ m.1 (λ x e. e) (λ x. refl)) h
  execute-IsHeld now (marks_dead job_id error) t m h =
      update_where-IsHeld _ _ t (other-IsMild job_id _ _ m.1 (λ x e. e) (λ x. refl)) h
  execute-IsHeld now (fails job_id error) t m h =
      update_where-IsHeld _ _ t (other-IsMild job_id _ _ m.1 (λ x e. e) (λ x. refl)) h

  execute_all-IsHeld :
      (ss : List (ℕ × Statement)) (t : Table)
      → All (IsMeanwhile id until) ss
      → IsHeld t
      → IsHeld (execute_all ss t)
  unfolding execute_all
  execute_all-IsHeld [] t m h = h
  execute_all-IsHeld ((now, s) ∷ ss) t m h =
      execute_all-IsHeld ss (execute now s t) m.1 (execute-IsHeld now s t m.0 h)

-- The row that a claim has served is held by its lease.
claimed-IsHeld :
    (skipped : ℕ → Bool) (kind : JobKind) (lease now : ℕ) (t t' : Table) (j : Job)
    → IsConsistent t
    → claim skipped kind lease now t ≡ ok (t', some j)
    → IsHeld j.id (now + lease * micros) t'
unfolding leased
claimed-IsHeld skipped kind lease now t t' j v e =
    let s = claim-Served skipped kind lease now t t' j v.distinct e in
    let v' = claim-IsConsistent skipped kind lease now t t' (some j) v e in
    let (there, _) = find_first-In (has_id j.id) t'.rows j (unfold get in s.held) in
    record {
      old = All-In (λ r. r.id < t'.next_id) t'.rows v'.fresh there;
      kept =
          All-map _ _ t'.rows
            (λ x same here.
              let equal : x ≡ leased lease now s.row = same here ∙ s.is_leased in
              (ap (λ (r : Job). r.status) equal, ap (λ (r : Job). r.locked_until) equal))
            (only_row j lease now t'.rows v'.distinct there);
    }

-- A claim that has served a job gives it a lease. Whatever statements follow while that runs, other
-- claims, submissions and the reports on other jobs, in any order, none of them a report on this job
-- (heartbeat, complete, mark_dead or fail): a claim after them, before the lease ends, serves another
-- job, whatever its kind and whatever rows others have locked. The table was consistent.
pub claim_exclusive :
    (skipped skipped' : ℕ → Bool) (kind kind' : JobKind) (lease lease' now later : ℕ)
    (t t' t'' : Table) (j k : Job) (ss : List (ℕ × Statement))
    → IsConsistent t
    → claim skipped kind lease now t ≡ ok (t', some j)
    → All (IsMeanwhile j.id (now + lease * micros)) ss
    → claim skipped' kind' lease' later (execute_all ss t') ≡ ok (t'', some k)
    → later ≤ now + lease * micros
    → k.id ≢ j.id
claim_exclusive skipped skipped' kind kind' lease lease' now later t t' t'' j k ss v first between
      second early =
    let held =
      execute_all-IsHeld j.id (now + lease * micros) ss t' between
        (claimed-IsHeld skipped kind lease now t t' j v first) in
    served_apart j.id (now + lease * micros) skipped' kind' lease' later (execute_all ss t') t'' k
      early held second
