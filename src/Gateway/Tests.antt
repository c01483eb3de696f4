-- ===== src/Gateway/Tests.antt =====
-- A login, a batch of two tracks of which one is analysed and one has failed, and a report.
use text.Mathlib.Text.{◌==◌ as str_eq}
use bvault_app.Prelude.{◌≡◌, refl, ℕ, some, none, [], ◌∷◌, All, true, false, if◌then◌else◌, ◌==◌}
use bvault_app.Text.{Text, text_equal, utf8_char}
use bvault_app.Transfer.Files.{lookup}
use bvault_app.Jobs.{Job, analysis, yt_dlp_ingest, dead, running}
use bvault_app.Jobs.Queries.{count_dead, any_key}
use bvault_app.Jobs.Queries.Dead.{AreDistinctKeys}
use bvault_app.Catalog.Rows.{any}
use bvault_app.Catalog.{is_user, Batch, get_batch}
use bvault_app.Gateway.{
  register, External, Config, AppState, done, Headers, bearer_token, internal_user, SessionResponse,
  login,
}
use bvault_app.Gateway.Auth.{is_token, Carries}
use bvault_app.Gateway.Auth.Registration.{login-register}
use bvault_app.Gateway.Auth.Login.{LoginOutcome, login_outcome}
use bvault_app.Gateway.Analyze.{AnalyzeResponse, BatchProgress, analyze, batch_progress}
use bvault_app.Gateway.Analyze.Answered.{IsAnswered}
use bvault_app.Gateway.Analyze.Success.{analyze_answers}
use bvault_app.Gateway.Analyze.Progress.{IsSettled, IsSingle, batch_progress-complete}
use bvault_app.Gateway.Reports.{report_job}
use bvault_app.Gateway.Reports.Owner.{IsReported, report_job-IsReported}

gateway : Unit {0}
unfolding analyze batch_progress lookup text_equal utf8_char count_dead
gateway = tt

abbrev some_external : External
some_external = record {
  lower = λ s. s;
  trim = λ s. s;
  parse_uuid = λ s. if str_eq s "2" then some 2 else none;
  uuid_text = λ id. if id == 2 then "2" else "1";
  verify_password = str_eq;
  hash_token = λ token. token;
  analysis_json = λ job. job.hash;
  ytdlp_json = λ job. job.user_id;
  json_user_id = some;
}

abbrev config : Config
config = record {
  analysis_max_attempts = 3;
  session_ttl = 60;
  yt_dlp_service_url = none;
  internal_api_key = some "key";
  artifact_store_root = b'r' ∷ [];
  raw_store_root = b'm' ∷ [];
}

abbrev job : ℕ → Job
job id = record {
  id = id;
  kind = yt_dlp_ingest;
  dedup_key = "2:url";
  payload = "2";
  status = running;
  attempts = 1;
  max_attempts = 1;
  locked_at = some 5;
  locked_until = some 900;
  last_error = none;
  created_at = 4;
  updated_at = 5;
  finished_at = none;
  traceparent = none;
}

abbrev dead_job : Job
dead_job = record (job 3) { kind = analysis; dedup_key = "bb"; status = dead }

abbrev marker_path : Text
marker_path =
    b'r' ∷ b'/' ∷ b'a' ∷ b'a' ∷ b'/' ∷ b'0' ∷ b'0' ∷ b'/' ∷ b'a' ∷ b'a' ∷ b'/' ∷ b'.' ∷ b'c' ∷ b'o'
    ∷ b'm' ∷ b'p' ∷ b'l' ∷ b'e' ∷ b't' ∷ b'e' ∷ []

abbrev state : AppState
state = record {
  meta = record {
    users =
        record { id = 2; username = "bob"; password_hash = "secret"; youtube_cookies = none } ∷ [];
    sessions = [];
    tracks =
        record { hash = "aa"; raw_location = "aa.mp3" }
        ∷ record { hash = "bb"; raw_location = "bb.mp3" }
        ∷ [];
    user_tracks = [];
    playlists =
        record {
          id = 7;
          name = "Set";
          description = none;
          created_at = 1;
          updated_at = 1;
          user_id = some 2;
        }
        ∷ [];
    playlist_tracks =
        record { playlist_id = 7; hash = "aa" } ∷ record { playlist_id = 7; hash = "bb" } ∷ [];
    batches =
        record { id = 4; name = none; hashes = "aa" ∷ "bb" ∷ []; created_at = 2; user_id = some 2 }
        ∷ [];
  };
  queue = record { rows = job 1 ∷ dead_job ∷ []; next_id = 4 };
  artifacts = record { files = (marker_path, []) ∷ []; synced = [] };
  raw = [];
}

abbrev session : SessionResponse
session = record { token = "token"; user_id = 2; expires_at = 60_000_010 }

logged_in : AppState
logged_in = (login some_external config 10 "token" "bob" "secret" state).0

login_test : login some_external config 10 "token" "bob" "secret" state ≡ (logged_in, done session)
unfolding login logged_in
login_test = refl

abbrev headers : Headers
headers = record { internal_key = none; user_id = some "1"; authorization = some "Bearer token" }

-- The user that the headers name counts only with the internal key.
carried_test : Carries some_external config headers "token"
unfolding bearer_token internal_user
carried_test = record { bearer = refl; outside = refl }

no_session_yet : any (is_token "token") state.meta.sessions ≡ false
unfolding any
no_session_yet = refl

login_outcome_example :
    LoginOutcome some_external config "bob" "secret" state
      (login some_external config 10 "token" "bob" "secret" state)
login_outcome_example =
    login_outcome some_external config 10 "token" "bob" "secret" state no_session_yet

answer : AnalyzeResponse
answer = record { batch_id = 5; total = 2; enqueued = 1 }

requested : AppState
requested = (analyze some_external config 20 none 2 5 (7 ∷ []) none state).0

analyze_test :
    analyze some_external config 20 none 2 5 (7 ∷ []) none state ≡ (requested, done answer)
unfolding gateway requested answer
analyze_test = refl

bob_known : is_user 2 state.meta ≡ true
unfolding is_user
bob_known = refl

new_batch : any (λ b. b.id == 5) state.meta.batches ≡ false
unfolding any
new_batch = refl

analyze_answers_example :
    let (st', out) = analyze some_external config 20 none 2 5 (7 ∷ []) none state in
    (r : AnalyzeResponse) × (out ≡ done r)
    × IsAnswered some_external config 2 (7 ∷ []) none 20 state st' r
analyze_answers_example =
    analyze_answers some_external config 20 none 2 5 7 [] none state bob_known new_batch

abbrev the_batch : Batch
the_batch = record {
  id = 4;
  name = none;
  hashes = "aa" ∷ "bb" ∷ [];
  created_at = 2;
  user_id = some 2;
}

abbrev progress : BatchProgress
progress = record { id = 4; name = none; total = 2; finished = 1; failed = 1; complete = true }

batch_found : get_batch 2 4 state.meta ≡ some the_batch
unfolding get_batch
batch_found = refl

batch_read : batch_progress some_external config 2 4 state ≡ done progress
unfolding gateway
batch_read = refl

-- Two dead rows of one track count for the other one, which has no job.
two_dead : AppState
two_dead = record state {
  queue = record { rows = dead_job ∷ record dead_job { id = 5 } ∷ []; next_id = 6 };
  artifacts = record { files = []; synced = [] };
}

early_test :
    batch_progress some_external config 2 4 two_dead
    ≡ done (record progress { finished = 0; failed = 2 })
unfolding gateway two_dead
early_test = refl

distinct : AreDistinctKeys ("aa" ∷ "bb" ∷ [])
unfolding AreDistinctKeys any_key
distinct = (refl, (refl, tt))

batch_progress-complete_example :
    (All (IsSettled some_external config state) ("aa" ∷ "bb" ∷ []) → progress.complete ≡ true)
    × (All (IsSingle some_external config state) ("aa" ∷ "bb" ∷ [])
        → progress.complete ≡ true
        → All (IsSettled some_external config state) ("aa" ∷ "bb" ∷ []))
batch_progress-complete_example =
    batch_progress-complete some_external config state 2 4 the_batch progress batch_found distinct
      batch_read

report_job-IsReported_example :
    IsReported some_external 2 1 false state
      (report_job some_external 30 2 1 false (some "no such address") state)
report_job-IsReported_example =
    report_job-IsReported some_external 2 1 state 30 false (some "no such address")

-- Cyd registers and comes back later.
joined : AppState
joined = (register some_external config 10 "one" 3 (some "long enough") "cyd" "long enough" state).0

cyd : SessionResponse
cyd = record { token = "one"; user_id = 3; expires_at = 60_000_010 }

register_test :
    register some_external config 10 "one" 3 (some "long enough") "cyd" "long enough" state
    ≡ (joined, done cyd)
unfolding register joined cyd
register_test = refl

new_token : any (is_token "two") joined.meta.sessions ≡ false
unfolding any joined register
new_token = refl

login-register_example :
    let (st, answer) = login some_external config 90 "two" "cyd" "long enough" joined in
    (s : SessionResponse) × (answer ≡ done s) × (s.user_id ≡ cyd.user_id) × (s.token ≡ "two")
login-register_example =
    login-register some_external config 10 "one" 3 "long enough" "cyd" "long enough" state joined
      cyd 90 "two" register_test refl new_token
