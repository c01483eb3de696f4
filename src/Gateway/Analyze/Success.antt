-- ===== src/Gateway/Analyze/Success.antt =====
-- routes.rs: when a request to analyse succeeds.
use Prim.Native.String.{String}
use bvault_app.Prelude.{
  ℕ, ◌≡◌, refl, true, false, Option, some, List, [], ◌∷◌, ◌++◌, ◌==◌, map, length,
}
use bvault_app.Catalog.Rows.{any}
use bvault_app.Catalog.{Batch, ok, is_user, resolve_hashes, create_batch}
use bvault_app.Gateway.{External, Config, AppState, done}
use bvault_app.Gateway.Analyze.{AnalyzeResponse, submit_missing, submit_batch, analyze}
use bvault_app.Gateway.Analyze.Answered.{IsAnswered, analyze-IsAnswered}

-- A request of a known user to analyse some playlists succeeds, where the id that the database makes
-- up for its batch is new, and it is answered truly: its total is the number of the playlists' tracks,
-- of which those that were not analysed before were submitted, its batch is read back with all of
-- them, and none is left out: each track is analysed, or has a job that is waiting or running.
pub analyze_answers :
    (x : External) (config : Config) (now : ℕ) (tp : Option String) (user new_id id : ℕ)
    (ids : List ℕ) (name : Option String) (st : AppState)
    → is_user user st.meta ≡ true
    → any (λ b. b.id == new_id) st.meta.batches ≡ false
    → let (st', answer) = analyze x config now tp user new_id (id ∷ ids) name st in
      (r : AnalyzeResponse) × (answer ≡ done r)
      × IsAnswered x config user (id ∷ ids) name now st st' r
unfolding analyze
analyze_answers x config now tp user new_id id ids name st known free =
    let tracks = resolve_hashes user (id ∷ ids) st.meta in
    let hashes = map (λ t. t.0) tracks in
    let row : Batch = record {
      id = new_id;
      name = name;
      hashes = hashes;
      created_at = now;
      user_id = some user;
    } in
    let m = record st.meta { batches = st.meta.batches ++ row ∷ [] } in
    let created : create_batch user new_id name hashes now st.meta ≡ ok (m, new_id) =
      unfold create_batch in rw (free, known) refl in
    let out = submit_missing x config now tp tracks (record st { meta = m }) in
    let r : AnalyzeResponse = record {
      batch_id = new_id;
      total = length tracks;
      enqueued = out.1;
    } in
    let e : analyze x config now tp user new_id (id ∷ ids) name st ≡ (out.0, done r) =
      rw (created, analyze) (unfold submit_batch in refl) in
    rw e (r, refl, analyze-IsAnswered x config now tp user new_id (id ∷ ids) name st out.0 r e)
