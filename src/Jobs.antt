-- ===== src/Jobs.antt =====
-- crates/bvault-jobs: the jobs table (migrations 0001, 0006 and 0010 of services/gateway), the
-- job model of model.rs and the statements of queue.rs, each run as one transaction at time `now`.
-- Times are microseconds, as in a `timestamptz`; a lease is in whole seconds (`as_secs`).
-- A payload is the JSON text that serde makes of it.
pub mod Rows
pub mod Consistency
pub mod History
pub mod Claim
pub mod Exclusive
pub mod Enqueue
pub mod Active
pub mod Ended
pub mod Stuck
pub mod Queries
pub mod Tests
use Prim.Native.String.{String}
use text.Mathlib.Text.{◌==◌ as str_eq, starts_with}
use bvault_app.Prelude.{
  ℕ, suc, ◌+◌, ◌*◌, Bool, true, false, not, ◌&&◌, ◌||◌, Option, some, none, List, [], ◌∷◌, ◌++◌,
  map, ltb, leb, ◌==◌, if◌then◌else◌, length,
}

pub data JobKind : Type 0 where
  analysis yt_dlp_ingest : JobKind

pub as_str : JobKind → String
as_str analysis = "analysis"
as_str yt_dlp_ingest = "yt_dlp_ingest"

pub data JobStatus : Type 0 where
  pending running succeeded failed dead : JobStatus

abbrev pub same_kind : JobKind → JobKind → Bool
same_kind analysis analysis = true
same_kind yt_dlp_ingest yt_dlp_ingest = true
same_kind _ _ = false

abbrev pub same_status : JobStatus → JobStatus → Bool
same_status pending pending = true
same_status running running = true
same_status succeeded succeeded = true
same_status failed failed = true
same_status dead dead = true
same_status _ _ = false

-- A row of the jobs table; `Job` of model.rs is the part that the statements return.
pub record Job : Type 0 where
  pub id : ℕ
  pub kind : JobKind
  pub dedup_key : String
  pub payload : String
  pub status : JobStatus
  pub attempts : ℕ
  pub max_attempts : ℕ
  pub locked_at : Option ℕ
  pub locked_until : Option ℕ
  pub last_error : Option String
  pub created_at : ℕ
  pub updated_at : ℕ
  pub finished_at : Option ℕ
  pub traceparent : Option String

-- The table, with the next value of the identity column.
pub record Table : Type 0 where
  pub rows : List Job
  pub next_id : ℕ

-- The one database error that the statements can raise by themselves: the index
-- `jobs_active_dedup` refuses a second active row of a kind and key.
pub data DbResult {ℓ} (A : Type ℓ) : Type ℓ where
  ok : A → DbResult A
  unique_violation : DbResult A

abbrev pub micros : ℕ
micros = 1_000_000

-- `status in ('pending', 'running')`
abbrev pub is_active : JobStatus → Bool
is_active pending = true
is_active running = true
is_active _ = false

pub of_key : JobKind → String → Job → Bool
of_key kind key r = same_kind kind r.kind && str_eq key r.dedup_key

pub active_of : JobKind → String → Job → Bool
unfolding of_key
active_of kind key r = is_active r.status && of_key kind key r

-- The first row that passes a test.
pub find_first : (Job → Bool) → List Job → Option Job
find_first p [] = none
find_first p (r ∷ rs) = if p r then some r else find_first p rs

abbrev pub has_id : ℕ → Job → Bool
has_id id r = r.id == id

-- `update jobs set … where …`
pub update_where : (Job → Bool) → (Job → Job) → List Job → List Job
update_where p f [] = []
update_where p f (r ∷ rs) = (if p r then f r else r) ∷ update_where p f rs

pub get : ℕ → Table → Option Job
unfolding find_first
get job_id t = find_first (has_id job_id) t.rows

new_row : JobKind → String → String → ℕ → Option String → ℕ → ℕ → Job
new_row kind key payload max_attempts traceparent now id = record {
  id = id;
  kind = kind;
  dedup_key = key;
  payload = payload;
  status = pending;
  attempts = 0;
  max_attempts = max_attempts;
  locked_at = none;
  locked_until = none;
  last_error = none;
  created_at = now;
  updated_at = now;
  finished_at = none;
  traceparent = traceparent;
}

-- `insert … on conflict … do update set updated_at = now() returning id`. The identity column
-- gives a value away also where the insert meets a conflict.
pub enqueue : JobKind → String → String → ℕ → Option String → ℕ → Table → Table × ℕ
unfolding find_first active_of update_where new_row
enqueue kind key payload max_attempts traceparent now t =
    elim (find_first (active_of kind key) t.rows) [
      | none ↦ (
        record {
          rows = t.rows ++ new_row kind key payload max_attempts traceparent now t.next_id ∷ [];
          next_id = suc t.next_id;
        },
        t.next_id,
      )
      | some r ↦ (
        record {
          rows = update_where (has_id r.id) (λ x. record x { updated_at = now }) t.rows;
          next_id = suc t.next_id;
        },
        r.id,
      )
    ]

-- `locked_until < now()`, which is not true of a null.
lease_over : Option ℕ → ℕ → Bool
lease_over none now = false
lease_over (some until) now = ltb until now

-- The `where` of the claim's inner select.
pub runnable : JobKind → ℕ → Job → Bool
unfolding lease_over
runnable kind now r =
    same_kind kind r.kind
    && (same_status r.status pending
        || same_status r.status failed
        || same_status r.status running && lease_over r.locked_until now)

older : Job → Option Job → Option Job
older r none = some r
older r (some s) = if leb r.created_at s.created_at then some r else some s

-- `order by created_at limit 1` over the rows that pass the test; ties go to the earlier row.
pub oldest : (Job → Bool) → List Job → Option Job
unfolding older
oldest p [] = none
oldest p (r ∷ rs) = if p r then older r (oldest p rs) else oldest p rs

-- What a claim sets.
pub leased : ℕ → ℕ → Job → Job
leased lease now r = record r {
  status = running;
  attempts = r.attempts + 1;
  locked_at = some now;
  locked_until = some (now + lease * micros);
  updated_at = now;
}

-- `for update skip locked`: `skipped` holds of the rows that other transactions have locked.
pub claimable : (ℕ → Bool) → JobKind → ℕ → Job → Bool
unfolding runnable
claimable skipped kind now r = runnable kind now r && not (skipped r.id)

-- Another active row of the same kind and key.
pub rival : Job → Job → Bool
unfolding active_of
rival r x = active_of r.kind r.dedup_key x && not (has_id r.id x)

pub claim : (ℕ → Bool) → JobKind → ℕ → ℕ → Table → DbResult (Table × Option Job)
unfolding oldest claimable find_first rival update_where leased
claim skipped kind lease now t = elim (oldest (claimable skipped kind now) t.rows) [
  | none ↦ ok (t, none)
  | some r ↦ elim (find_first (rival r) t.rows) [
    | some other ↦ unique_violation
    | none ↦ ok (
      record t { rows = update_where (has_id r.id) (leased lease now) t.rows },
      some (leased lease now r),
    )
  ]
]

pub heartbeat : ℕ → ℕ → ℕ → Table → Table
unfolding update_where
heartbeat job_id lease now t = record t {
  rows =
      update_where (λ r. has_id job_id r && same_status r.status running)
        (λ r. record r { locked_until = some (now + lease * micros); updated_at = now }) t.rows;
}

pub complete : ℕ → ℕ → Table → Table
unfolding update_where
complete job_id now t = record t {
  rows =
      update_where (has_id job_id)
        (λ r. record r {
          status = succeeded;
          locked_until = none;
          finished_at = some now;
          updated_at = now;
        })
        t.rows;
}

pub mark_dead : ℕ → String → ℕ → Table → Table
unfolding update_where
mark_dead job_id error now t = record t {
  rows =
      update_where (has_id job_id)
        (λ r. record r {
          status = dead;
          last_error = some error;
          locked_until = none;
          finished_at = some now;
          updated_at = now;
        })
        t.rows;
}

pub failed_row : String → ℕ → Job → Job
failed_row error now r = record r {
  status = if leb r.max_attempts r.attempts then dead else failed;
  last_error = some error;
  locked_until = none;
  finished_at = if leb r.max_attempts r.attempts then some now else none;
  updated_at = now;
}

pub fail : ℕ → String → ℕ → Table → Table
unfolding update_where failed_row
fail job_id error now t = record t {
  rows = update_where (has_id job_id) (failed_row error now) t.rows;
}
