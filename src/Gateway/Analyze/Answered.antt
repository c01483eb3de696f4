-- ===== src/Gateway/Analyze/Answered.antt =====
-- routes.rs: the answer to a request to analyse.
use Prim.Native.String.{String}
use bvault_app.Prelude.{
  ℕ, ◌+◌, ◌≡◌, refl, ap, sym, subst, ◌∙◌, inl, inr, arith, true, Option, some, List, [], ◌∷◌, ◌++◌,
  ◌&&◌, ◌==◌, map, length, All, Bool-cases,
}
use bvault_app.Catalog.Rows.{any}
use bvault_app.Catalog.Rows.Laws.{any-none}
use bvault_app.Catalog.Rows.Finding.{find_first-none-any, find_first-append_here}
use bvault_app.Catalog.Tables.{Result-cases}
use bvault_app.Catalog.{
  Meta, Batch, Result, ok, err, unique_violation, foreign_key_violation, owned_by, is_user,
  resolve_hashes, create_batch, get_batch,
}
use bvault_app.Gateway.{External, Config, AppState, ApiResult, done, meta_error}
use bvault_app.Gateway.Analyze.{
  AnalyzeResponse, submit_missing, submit_batch, analyze, count_analyzed,
}
use bvault_app.Gateway.Analyze.Covered.{
  IsCovered, submit_missing-artifacts, submit_missing-IsCovered, submit_missing-count,
  count_analyzed-artifacts,
}

module _ (x : External) (config : Config) where
  -- A batch that is created is read back.
  get_batch-create_batch :
      (user new_id now batch_id : ℕ) (name : Option String) (hashes : List String) (m m' : Meta)
      → create_batch user new_id name hashes now m ≡ ok (m', batch_id)
      → get_batch user batch_id m'
        ≡ some (record {
          id = batch_id;
          name = name;
          hashes = hashes;
          created_at = now;
          user_id = some user;
        })
  unfolding create_batch get_batch
  get_batch-create_batch user new_id now batch_id name hashes m m' e =
      let row = λ (id : ℕ).
        let b : Batch = record {
          id = id;
          name = name;
          hashes = hashes;
          created_at = now;
          user_id = some user;
        } in
        b in
      let m1 = record m { batches = m.batches ++ row new_id ∷ [] } in
      let test = λ (b : Batch). (b.id == new_id) && owned_by user b.user_id in
      elim (Bool-cases (any (λ b. b.id == new_id) m.batches)) [
        | inl taken ↦
            let refused : ◌≡◌ {A = Result (Meta × ℕ)} (err unique_violation) (ok (m', batch_id)) =
              rw (taken) at e in
            absurd (cc)
        | inr free ↦ elim (Bool-cases (is_user user m)) [
          | inr unknown ↦
              let refused : ◌≡◌ {A = Result (Meta × ℕ)} (err foreign_key_violation)
                  (ok (m', batch_id)) =
                rw (free, unknown) at e in
              absurd (cc)
          | inl known ↦
              let made : ◌≡◌ {A = Result (Meta × ℕ)} (ok (m1, new_id)) (ok (m', batch_id)) =
                rw (free, known) at e in
              let pair : ◌≡◌ {A = Meta × ℕ} (m1, new_id) (m', batch_id) = cc in
              let none_yet =
                find_first-none-any test m.batches
                  (any-none test (λ b. b.id == new_id) m.batches (λ b h. ground arith) free) in
              let own : test (row new_id) ≡ true = ground arith in
              subst (λ (p : Meta × ℕ). get_batch user p.1 p.0 ≡ some (row p.1)) pair
                (find_first-append_here test m.batches (row new_id) none_yet own)
        ]
      ]

  -- The answer is true: it counts the tracks of the playlists and those of them that were submitted,
  -- its batch is read back with all of them, and each is analysed or has a job that is waiting or
  -- running.
  pub record IsAnswered (user : ℕ) (ids : List ℕ) (name : Option String) (now : ℕ)
      (st st' : AppState) (r : AnalyzeResponse) : Type 0 where
    pub counted : r.total ≡ length (resolve_hashes user ids st.meta)
    pub submitted :
        r.enqueued + count_analyzed x config (map (λ t. t.0) (resolve_hashes user ids st.meta)) st
        ≡ r.total
    pub batch :
        get_batch user r.batch_id st'.meta
        ≡ some (record {
          id = r.batch_id;
          name = name;
          hashes = map (λ t. t.0) (resolve_hashes user ids st.meta);
          created_at = now;
          user_id = some user;
        })
    pub covered : All (IsCovered x config st') (resolve_hashes user ids st.meta)

  answered :
      (now : ℕ) (tp : Option String) (user id new_id : ℕ) (ids : List ℕ) (name : Option String)
      (st st' : AppState) (r : AnalyzeResponse) (m : Meta) (batch_id : ℕ)
      → create_batch user new_id name
          (map (λ t. t.0) (resolve_hashes user (id ∷ ids) st.meta))
          now
          st.meta
        ≡ ok (m, batch_id)
      → submit_batch x config now tp
          (resolve_hashes user (id ∷ ids) st.meta)
          (record st { meta = m })
          batch_id
        ≡ (st', done r)
      → IsAnswered user (id ∷ ids) name now st st' r
  unfolding submit_batch
  answered now tp user id new_id ids name st st' r m batch_id created e =
      let tracks = resolve_hashes user (id ∷ ids) st.meta in
      let hashes = map (λ t. t.0) tracks in
      let st1 = record st { meta = m } in
      let out = submit_missing x config now tp tracks st1 in
      let response : AnalyzeResponse = record {
        batch_id = batch_id;
        total = length tracks;
        enqueued = out.1;
      } in
      let same : ◌≡◌ {A = AppState × ApiResult AnalyzeResponse} (out.0, done response)
          (st', done r) =
        e in
      let state : out.0 ≡ st' = ap (λ (p : AppState × ApiResult AnalyzeResponse). p.0) same in
      let answer : response ≡ r = cc in
      let kept : out.0.meta ≡ m = (submit_missing-artifacts x config now tp tracks st1).1 in
      let read = get_batch-create_batch user new_id now batch_id name hashes st.meta m created in
      subst (IsAnswered user (id ∷ ids) name now st st') answer (
        subst (λ st'. IsAnswered user (id ∷ ids) name now st st' response) state
          (record {
            counted = refl;
            submitted =
                ap (λ (n : ℕ). out.1 + n)
                  (sym (count_analyzed-artifacts x config hashes st st1 refl))
                ∙ submit_missing-count x config now tp tracks st1;
            batch = ap (get_batch user batch_id) kept ∙ read;
            covered = submit_missing-IsCovered x config now tp tracks st1;
          }))

  -- A request to analyse playlists that is answered with success is answered truly: its total is the
  -- number of the playlists' tracks, of which those that were not analysed before were submitted, its
  -- batch is read back with all of them, and none is left out: each track is analysed, or has a job
  -- that is waiting or running.
  pub analyze-IsAnswered :
      (now : ℕ) (tp : Option String) (user new_id : ℕ) (ids : List ℕ) (name : Option String)
      (st st' : AppState) (r : AnalyzeResponse)
      → analyze x config now tp user new_id ids name st ≡ (st', done r)
      → IsAnswered user ids name now st st' r
  unfolding analyze
  analyze-IsAnswered now tp user new_id [] name st st' r e = absurd (cc)
  analyze-IsAnswered now tp user new_id (id ∷ ids) name st st' r e =
      let hashes = map (λ t. t.0) (resolve_hashes user (id ∷ ids) st.meta) in
      elim (Result-cases (create_batch user new_id name hashes now st.meta)) [
        | inr (failure, failed) ↦
            let refused : ◌≡◌ {A = AppState × ApiResult AnalyzeResponse} (st, meta_error failure)
                (st', done r) =
              rw (failed, analyze) at e in
            absurd (cc)
        | inl ((m, batch_id), created) ↦
            answered now tp user id new_id ids name st st' r m batch_id created
              (rw (created, analyze) at e)
      ]
