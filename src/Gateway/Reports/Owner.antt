-- ===== src/Gateway/Reports/Owner.antt =====
-- routes.rs: a report ends a job of the user's own, and no other.
use Prim.Native.String.{String}
use bvault_app.Prelude.{
  ℕ, ◌≡◌, ◌≢◌, ◌⊎◌, ◌==◌, refl, sym, ◌∙◌, inl, inr, arith, Bool, true, false, Option, some, none,
  Bool-cases, Option-cases, if◌then◌else◌,
}
use bvault_app.Jobs.{Job, JobStatus, succeeded, dead, get, complete, mark_dead}
use bvault_app.Jobs.Ended.{
  IsChanged, complete-IsChanged, mark_dead-IsChanged, completed_row, dead_row,
}
use bvault_app.Gateway.{External, AppState, ApiResult, done, not_found}
use bvault_app.Gateway.Reports.{job_owned_by, report_job, error_text}

abbrev pub final_status : Bool → JobStatus
final_status true = succeeded
final_status false = dead

-- A job of the user's own is there and has ended, by the report; or there is none, and nothing has
-- changed. The jobs of others are as they were in either case.
pub record IsReported (x : External) (user id : ℕ) (good : Bool) (st : AppState)
    (r : AppState × ApiResult (Unit {0})) : Type 0 where
  pub outcome :
      ((j : Job) × (j' : Job) × (get id st.queue ≡ some j)
        × (job_owned_by x j user ≡ true)
        × (get id r.0.queue ≡ some j')
        × (j'.status ≡ final_status good)
        × (r.1 ≡ done tt))
      ⊎ (((j : Job) → get id st.queue ≡ some j → job_owned_by x j user ≡ false)
          × (r ≡ (st, not_found)))
  pub foreign :
      (i : ℕ) (j : Job)
      → get i st.queue ≡ some j
      → job_owned_by x j user ≡ false
      → get i r.0.queue ≡ some j

module _ (x : External) (user id : ℕ) (st : AppState) where
  ended :
      (good : Bool) (f : Job → Job) (st' : AppState) (job : Job)
      → IsChanged id f st.queue st'.queue
      → ((j : Job) → (f j).status ≡ final_status good)
      → get id st.queue ≡ some job
      → job_owned_by x job user ≡ true
      → IsReported x user id good st (st', done tt)
  ended good f st' job set status found own = record {
    outcome = inl (job, f job, found, own, set.same job found, status job, refl);
    foreign = λ i j there not_own. elim (Bool-cases (i == id)) [
      | inl same ↦
          let equal : i ≡ id = ground arith in
          let both : some job ≡ some j = sym found ∙ (rw (← equal) there) in
          let one : job ≡ j = cc in
          let clash : job_owned_by x job user ≡ false = rw one not_own in absurd (cc)
      | inr differs ↦ let apart : i ≢ id = λ e. absurd (ground arith) in set.others i apart ∙ there
    ];
  }

  ignored :
      (good : Bool)
      → ((j : Job) → get id st.queue ≡ some j → job_owned_by x j user ≡ false)
      → IsReported x user id good st (st, not_found)
  ignored good h = record { outcome = inr (h, refl); foreign = λ i j there not_own. there }

  -- A report of a job ends it, as succeeded or as dead, if it is one of the user's own, whose payload
  -- names the user; it is answered with `not found` and changes nothing otherwise. Whatever the id, no
  -- job of another user or of none is touched.
  pub report_job-IsReported :
      (now : ℕ) (good : Bool) (error : Option String)
      → IsReported x user id good st (report_job x now user id good error st)
  unfolding report_job
  report_job-IsReported now good error = elim (Option-cases (get id st.queue)) [
    | inl missing ↦
        rw (missing, report_job)
          (ignored good (λ j e.
            let no_job : ◌≡◌ {A = Option Job} none (some j) = sym missing ∙ e in absurd (cc)))
    | inr (job, found) ↦
        rw (found, report_job)
          (elim (Bool-cases (job_owned_by x job user)) [
            | inr not_own ↦ rw not_own (
                ignored good (λ j e.
                  let both : some job ≡ some j = sym found ∙ e in
                  let one : job ≡ j = cc in rw (← one) not_own))
            | inl own ↦ rw own (by_outcome now good error job found own)
          ])
  ]
    where
      by_outcome :
          (now : ℕ) (good : Bool) (error : Option String) (job : Job)
          → get id st.queue ≡ some job
          → job_owned_by x job user ≡ true
          → IsReported x user id good st (
            record st {
              queue =
                  if good
                  then complete id now st.queue
                  else mark_dead id (error_text x error) now st.queue;
            },
            done tt,
          )
      by_outcome now true error job found own =
          ended true (completed_row now) _ job (complete-IsChanged id now st.queue) (λ j. refl)
            found own
      by_outcome now false error job found own =
          ended false (dead_row (error_text x error) now) _ job
            (mark_dead-IsChanged id (error_text x error) now st.queue) (λ j. refl) found own
