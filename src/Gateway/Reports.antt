-- ===== src/Gateway/Reports.antt =====
-- routes.rs: the jobs of the download service, and who may see and end them.
pub mod Owner
use Prim.Native.String.{String}
use Prim.Native.String as String
use text.Mathlib.Text.{◌==◌ as str_eq}
use bvault_app.Prelude.{
  ℕ, Bool, true, false, Option, some, none, List, [], ◌∷◌, ◌++◌, map, if◌then◌else◌,
}
use bvault_app.Jobs.{
  JobKind, analysis, yt_dlp_ingest, JobStatus, Job, DbResult, ok, unique_violation, get, enqueue,
  claim, complete, mark_dead,
}
use bvault_app.Jobs.Queries.{counts, completed_keys}
use bvault_app.Gateway.{
  YtDlpIngestJob, External, Config, AppState, ApiResult, done, not_found, bad_request, unauthorized,
  jobs_error, Headers, internal_auth, strip_prefix,
}

pub record JobStatusResponse : Type 0 where
  pub status : JobStatus
  pub error : Option String

pub record ClaimResponse : Type 0 where
  pub id : ℕ
  pub payload : String
  pub traceparent : Option String

pub record QueueStatus : Type 0 where
  pub kind : JobKind
  pub status : JobStatus
  pub count : ℕ

unfoldable pub get_status : AppState → List QueueStatus
get_status st =
    map (λ c. record { kind = analysis; status = c.0; count = c.1 }) (counts analysis st.queue)
    ++ map (λ c. record { kind = yt_dlp_ingest; status = c.0; count = c.1 })
        (counts yt_dlp_ingest st.queue)

-- `keys.filter_map(|k| k.strip_prefix(prefix))`
unfoldable pub stripped : String → List String → List String
unfolding strip_prefix
stripped prefix [] = []
stripped prefix (key ∷ keys) = elim (strip_prefix prefix key) [
  | none ↦ stripped prefix keys
  | some url ↦ url ∷ stripped prefix keys
]

module _ (x : External) where
  -- What stands before the address in a key of the user's downloads.
  unfoldable pub key_prefix : ℕ → String
  key_prefix user = String.◌++◌ (x.uuid_text user) ":"

  unfoldable pub completed_ytdlp : ℕ → AppState → List String
  unfolding key_prefix stripped
  completed_ytdlp user st =
      stripped (key_prefix user) (completed_keys yt_dlp_ingest (key_prefix user) st.queue)

  unfoldable pub ingest_ytdlp :
      Config → ℕ → Option String → ℕ → String → AppState → AppState × ApiResult ℕ
  unfolding key_prefix
  ingest_ytdlp config now traceparent user url st = elim config.yt_dlp_service_url [
    | none ↦ (st, bad_request)
    | some service ↦
        let payload : YtDlpIngestJob = record { url = url; user_id = x.uuid_text user } in
        let key = String.◌++◌ (key_prefix user) url in
        let (t, job_id) =
          enqueue yt_dlp_ingest key (x.ytdlp_json payload) 1 traceparent now st.queue in
        (record st { queue = t }, done job_id)
  ]

  unfoldable pub job_owned_by : Job → ℕ → Bool
  job_owned_by job user = elim (x.json_user_id job.payload) [
    | none ↦ false
    | some owner ↦ str_eq owner (x.uuid_text user)
  ]

  unfoldable pub get_job : ℕ → ℕ → AppState → ApiResult JobStatusResponse
  unfolding job_owned_by
  get_job user id st = elim (get id st.queue) [
    | none ↦ not_found
    | some job ↦
        if job_owned_by job user
        then done (record { status = job.status; error = job.last_error })
        else not_found
  ]

  -- The error of a report without one.
  unfoldable pub error_text : Option String → String
  error_text none = "yt-dlp ingest failed"
  error_text (some error) = error

  unfoldable pub report_job :
      ℕ → ℕ → ℕ → Bool → Option String → AppState → AppState × ApiResult (Unit {0})
  unfolding job_owned_by error_text
  report_job now user id succeeded error st = elim (get id st.queue) [
    | none ↦ (st, not_found)
    | some job ↦
        if job_owned_by job user
        then (
          record st {
            queue =
                if succeeded
                then complete id now st.queue
                else mark_dead id (error_text error) now st.queue;
          },
          done tt,
        )
        else (st, not_found)
  ]

-- No content, where no job can be claimed; `skipped` are the rows that others have locked.
unfoldable pub claim_job :
    Config
    → (ℕ → Bool)
    → ℕ
    → Headers
    → JobKind
    → ℕ
    → AppState
    → AppState × ApiResult (Option ClaimResponse)
unfolding internal_auth
claim_job config skipped now headers kind lease_secs st =
    let served : AppState × ApiResult (Option ClaimResponse) =
      elim (claim skipped kind lease_secs now st.queue) [
        | unique_violation ↦ (st, jobs_error)
        | ok (t, none) ↦ (record st { queue = t }, done none)
        | ok (t, some job) ↦ (
          record st { queue = t },
          done
              (some (record { id = job.id; payload = job.payload; traceparent = job.traceparent })),
        )
      ] in
    if internal_auth config headers then served else (st, unauthorized)
