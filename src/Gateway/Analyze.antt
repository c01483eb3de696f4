-- ===== src/Gateway/Analyze.antt =====
-- routes.rs: the request to analyse playlists, and its progress.
pub mod Covered
pub mod Answered
pub mod Success
pub mod Progress
use Prim.Native.String.{String}
use bvault_app.Prelude.{
  ℕ, suc, ◌+◌, Bool, true, false, Option, some, none, List, [], ◌∷◌, map, leb, length,
  if◌then◌else◌,
}
use bvault_app.Jobs.{analysis, enqueue}
use bvault_app.Jobs.Queries.{count_dead}
use bvault_app.Catalog.{ok, err, resolve_hashes, create_batch, get_batch}
use bvault_app.Gateway.{
  AnalysisJob, External, Config, AppState, ApiResult, done, bad_request, not_found, meta_error,
  analyzed,
}

pub record AnalyzeResponse : Type 0 where
  pub batch_id : ℕ
  pub total : ℕ
  pub enqueued : ℕ

pub record BatchProgress : Type 0 where
  pub id : ℕ
  pub name : Option String
  pub total : ℕ
  pub finished : ℕ
  pub failed : ℕ
  pub complete : Bool

module _ (x : External) (config : Config) where
  -- `traceparent` is that of the request.
  unfoldable pub submit : ℕ → Option String → String → String → Option String → AppState → AppState
  submit now traceparent hash raw_location title st =
      let payload : AnalysisJob = record {
        hash = hash;
        raw_location = raw_location;
        fallback_title = title;
      } in
      record st {
        queue =
            (enqueue analysis hash (x.analysis_json payload) config.analysis_max_attempts
              traceparent now st.queue).0;
      }

  -- The loop over the tracks; the number of those that were submitted.
  unfoldable pub submit_missing :
      ℕ → Option String → List (String × String) → AppState → AppState × ℕ
  unfolding submit analyzed
  submit_missing now traceparent [] st = (st, 0)
  submit_missing now traceparent ((hash, raw_location) ∷ tracks) st =
      let skipped = submit_missing now traceparent tracks st in
      let (st', n) =
        submit_missing now traceparent tracks (submit now traceparent hash raw_location none st) in
      if analyzed x config hash st then skipped else (st', suc n)

  -- What follows the batch.
  unfoldable pub submit_batch :
      ℕ
      → Option String
      → List (String × String)
      → AppState
      → ℕ
      → AppState × ApiResult AnalyzeResponse
  unfolding submit_missing
  submit_batch now traceparent tracks st batch_id =
      let (st', n) = submit_missing now traceparent tracks st in
      (st', done (record { batch_id = batch_id; total = length tracks; enqueued = n }))

  unfoldable pub analyze :
      ℕ
      → Option String
      → ℕ
      → ℕ
      → List ℕ
      → Option String
      → AppState
      → AppState × ApiResult AnalyzeResponse
  unfolding resolve_hashes create_batch submit_batch
  analyze now traceparent user new_id [] name st = (st, bad_request)
  analyze now traceparent user new_id (id ∷ ids) name st =
      let tracks = resolve_hashes user (id ∷ ids) st.meta in
      let all_hashes = map (λ t. t.0) tracks in
      elim (create_batch user new_id name all_hashes now st.meta) [
        | err e ↦ (st, meta_error e)
        | ok (m, batch_id) ↦ submit_batch now traceparent tracks (record st { meta = m }) batch_id
      ]

  unfoldable pub count_analyzed : List String → AppState → ℕ
  unfolding analyzed
  count_analyzed [] st = 0
  count_analyzed (hash ∷ hashes) st =
      if analyzed x config hash st then suc (count_analyzed hashes st) else count_analyzed hashes st

  unfoldable pub batch_progress : ℕ → ℕ → AppState → ApiResult BatchProgress
  unfolding get_batch count_analyzed
  batch_progress user id st = elim (get_batch user id st.meta) [
    | none ↦ not_found
    | some batch ↦
        let total = length batch.hashes in
        let finished = count_analyzed batch.hashes st in
        let failed = count_dead analysis batch.hashes st.queue in
        done (record {
          id = id;
          name = batch.name;
          total = total;
          finished = finished;
          failed = failed;
          complete = leb total (finished + failed);
        })
  ]
