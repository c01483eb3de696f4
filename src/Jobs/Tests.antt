-- ===== src/Jobs/Tests.antt =====
-- Two jobs from their submission on: served in turn, failed, submitted again.
use Prim.Native.String.{String}
use bvault_app.Prelude.{
  ℕ, ◌+◌, ◌*◌, All, ◌≢◌, ◌==◌, ◌≡◌, refl, Bool, false, inl, inr, some, none, List, [], ◌∷◌, arith,
}
use bvault_app.Jobs.{
  Job, analysis, Table, ok, unique_violation, enqueue, claim, fail, get, leased, failed_row,
  new_row, micros,
}
use bvault_app.Jobs.Rows.{Distinct}
use bvault_app.Jobs.Consistency.{IsConsistent, no_jobs}
use bvault_app.Jobs.History.{
  Statement, enqueues, claims, fails, execute_all, execute, execute_all-IsConsistent,
}
use bvault_app.Jobs.Claim.{Served, claim-Served}
use bvault_app.Jobs.Exclusive.{IsMeanwhile, claim_exclusive}
use bvault_app.Jobs.Enqueue.{Settled, fail-claim}
use bvault_app.Jobs.Stuck.{IsBlocked, claim_blocked}

abbrev free : ℕ → Bool
free id = false

-- Another worker has locked the row 2.
abbrev locked : ℕ → Bool
locked id = id == 2

abbrev two_jobs : List (ℕ × Statement)
two_jobs = (10, enqueues analysis "a" "{}" 3 none) ∷ (11, enqueues analysis "b" "{}" 3 none) ∷ []

abbrev a_history : List (ℕ × Statement)
a_history =
    (10, enqueues analysis "a" "{}" 3 none)
    ∷ (20, claims free analysis 60)
    ∷ (30, fails 1 "no such file")
    ∷ (40, enqueues analysis "a" "{}" 3 none)
    ∷ (50, claims free analysis 60)
    ∷ []

no_jobs-IsConsistent : IsConsistent no_jobs
no_jobs-IsConsistent = record { fresh = tt; distinct = tt; unique = tt; leases = tt }

execute_all-IsConsistent_example : IsConsistent (execute_all a_history no_jobs)
execute_all-IsConsistent_example = execute_all-IsConsistent a_history no_jobs no_jobs-IsConsistent

waiting : Table
waiting = execute_all two_jobs no_jobs

waiting-IsConsistent : IsConsistent waiting
unfolding waiting
waiting-IsConsistent = execute_all-IsConsistent two_jobs no_jobs no_jobs-IsConsistent

waiting_Distinct : Distinct waiting.rows
waiting_Distinct = waiting-IsConsistent.distinct

job : ℕ → String → ℕ → Job
unfolding new_row
job id key now = new_row analysis key "{}" 3 none now id

served : Job
served = leased 60 20 (job 1 "a" 10)

served_next : Job
served_next = leased 60 21 (job 2 "b" 11)

one_served : Table
one_served = record { rows = served ∷ job 2 "b" 11 ∷ []; next_id = 3 }

both_served : Table
both_served = record { rows = served ∷ served_next ∷ []; next_id = 3 }

first_claim : claim free analysis 60 20 waiting ≡ ok (one_served, some served)
unfolding waiting one_served served job claim leased execute_all execute enqueue
first_claim = refl

-- A claim by another worker that finds the second row locked, and a report on a job that is not there.
abbrev meanwhile : List (ℕ × Statement)
meanwhile = (20, claims locked analysis 60) ∷ (21, fails 7 "x") ∷ []

second_claim :
    claim free analysis 60 21 (execute_all meanwhile one_served)
    ≡ ok (both_served, some served_next)
unfolding execute_all execute fail failed_row both_served one_served served served_next job claim
    leased
second_claim = refl

claim-Served_example : Served free analysis 60 20 waiting one_served served
claim-Served_example =
    claim-Served free analysis 60 20 waiting one_served served waiting_Distinct first_claim

before_the_end : All (IsMeanwhile served.id (20 + 60 * micros)) meanwhile
unfolding served leased job
before_the_end = ((omega arith, tt), ((omega arith, λ e. absurd (omega (arith, e))), tt))

claim_exclusive_example : served_next.id ≢ served.id
claim_exclusive_example =
    claim_exclusive free free analysis analysis 60 60 20 21 waiting one_served both_served served
      served_next meanwhile waiting-IsConsistent first_claim before_the_end second_claim
      (omega arith)

fail-claim_example :
    (before : Job) × (after : Job) × (get served.id waiting ≡ some before)
    × (get served.id (fail served.id "no such file" 30 one_served) ≡ some after)
    × Settled before after
fail-claim_example =
    fail-claim free analysis 60 20 30 waiting one_served served "no such file" waiting_Distinct
      first_claim

stuck_history : List (ℕ × Statement)
stuck_history =
    (10, enqueues analysis "a" "{}" 3 none)
    ∷ (20, claims free analysis 60)
    ∷ (30, fails 1 "no such file")
    ∷ (40, enqueues analysis "a" "{}" 3 none)
    ∷ []

stuck : Table
unfolding stuck_history
stuck = execute_all stuck_history no_jobs

failed_job : Job
failed_job = failed_row "no such file" 30 served

stuck_test : stuck.rows ≡ failed_job ∷ job 2 "a" 40 ∷ []
unfolding stuck failed_job served job claim leased failed_row enqueue fail execute_all execute
stuck_test = refl

stuck-IsBlocked : IsBlocked stuck failed_job (job 2 "a" 40)
unfolding stuck failed_job served job claim leased failed_row enqueue fail execute_all execute
stuck-IsBlocked = record {
  failing = inl refl;
  has_failed = refl;
  waiting = inr (inl refl);
  active = refl;
  same_kind' = refl;
  same_key = refl;
  two_rows = λ e. absurd (omega (arith, e));
  eldest = ((λ _ _. refl), ((λ _ h. absurd (omega (arith, h))), tt));
}

claim_blocked_example : claim free failed_job.kind 60 50 stuck ≡ unique_violation
claim_blocked_example =
    claim_blocked free 60 50 stuck failed_job (job 2 "a" 40) stuck-IsBlocked refl
