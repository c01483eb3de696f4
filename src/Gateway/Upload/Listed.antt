-- ===== src/Gateway/Upload/Listed.antt =====
-- routes.rs: the entry and the request for an analysis that an upload makes.
use Prim.Native.String.{String}
use bvault_app.Prelude.{
  ℕ, ◌≡◌, ◌⊎◌, refl, ap, subst, inl, inr, Bool, true, false, not, ◌||◌, Option, some, List,
  Bool-cases, if◌then◌else◌,
}
use bvault_app.Text.{Text}
use bvault_app.Text.Characters.{string_of}
use bvault_app.Jobs.{analysis}
use bvault_app.Jobs.Active.{IsActive, enqueue-IsActive}
use bvault_app.Catalog.Rows.{find_first}
use bvault_app.Catalog.Tables.{Result-cases}
use bvault_app.Catalog.{coalesce, is_owned, upsert_track, get_track_by_hash}
use bvault_app.Catalog.Tracks.{merged}
use bvault_app.Catalog.Tracks.Upsert.{as_track, upsert_track-Upserted}
use bvault_app.Gateway.{External, Config, AppState, ApiResult, done, meta_error, analyzed}
use bvault_app.Gateway.Analyze.{submit}
use bvault_app.Gateway.Upload.{Upload, IngestResult, fallback_title, list_upload}
use bvault_app.Gateway.Upload.Received.{done_injective}

module _ (xxh3_64 : List ℕ → ℕ) (x : External) (config : Config) (now : ℕ) (tp : Option String)
    (user : ℕ) (queued : Bool) where
  -- What the list of tracks and the queue have after the file has been stored.
  pub record IsListed (st st' : AppState) (name place : String) (r : IngestResult) : Type 0 where
    pub hash : r.hash ≡ name
    pub location : r.raw_location ≡ place
    pub raw : st'.raw ≡ st.raw
    pub listed :
        get_track_by_hash user r.hash st'.meta
        ≡ some (
            as_track r.raw_location (
              merged user r.hash r.title r.artist now
                (find_first (is_owned user r.hash) st.meta.user_tracks)))
    pub covered :
        (analyzed x config r.hash st' ≡ true)
        ⊎ IsActive analysis r.hash st'.queue
        ⊎ ((queued ≡ false) × (st'.queue ≡ st.queue))

  pub list_upload-IsListed :
      (hash rel : Text) (u : Upload) (st st' : AppState) (r : IngestResult)
      → list_upload xxh3_64 x config now tp user queued hash rel u st ≡ (st', done r)
      → IsListed st st' (string_of hash) (string_of rel) r
  unfolding list_upload
  list_upload-IsListed hash rel u st st' r e =
      let title = coalesce u.title (fallback_title u.file_name) in
      let name = string_of hash in
      let place = string_of rel in
      let answer : IngestResult = record {
        hash = name;
        raw_location = place;
        title = title;
        artist = u.artist;
      } in
      elim (Result-cases (upsert_track user name place title u.artist now st.meta)) [
        | inr (failure, refused) ↦
            let no_answer : ◌≡◌ {A = AppState × ApiResult IngestResult} (st, meta_error failure)
                (st', done r) =
              rw (refused, list_upload) at e in
            absurd (cc)
        | inl (m, upserted) ↦
            let listed = record st { meta = m } in
            let asked = submit x config now tp name place title listed in
            let own =
              (upsert_track-Upserted user name place title u.artist now st.meta m upserted).own in
            let made : ◌≡◌ {A = AppState × ApiResult IngestResult}
                (if analyzed x config name listed || not queued then listed else asked, done answer)
                (st', done r) =
              rw (upserted, list_upload) at e in
            let same : answer ≡ r =
              done_injective (ap (λ (o : AppState × ApiResult IngestResult). o.1) made) in
            subst (λ (r : IngestResult). IsListed st st' name place r) same
              (elim (Bool-cases (analyzed x config name listed)) [
                | inl there ↦
                    let state : listed ≡ st' =
                      rw (there) at (ap (λ (o : AppState × ApiResult IngestResult). o.0) made) in
                    subst (λ st'. IsListed st st' name place answer) state
                      (record {
                        hash = refl;
                        location = refl;
                        raw = refl;
                        listed = own;
                        covered = inl there;
                      })
                | inr absent ↦ elim (Bool-cases queued) [
                  | inr dropped ↦
                      let state : listed ≡ st' =
                        rw (absent, dropped) at
                          (ap (λ (o : AppState × ApiResult IngestResult). o.0) made) in
                      subst (λ st'. IsListed st st' name place answer) state
                        (record {
                          hash = refl;
                          location = refl;
                          raw = refl;
                          listed = own;
                          covered = inr (inr (dropped, refl));
                        })
                  | inl taken ↦
                      let state : asked ≡ st' =
                        rw (absent, taken) at
                          (ap (λ (o : AppState × ApiResult IngestResult). o.0) made) in
                      subst (λ st'. IsListed st st' name place answer) state
                        (unfold submit in
                          record {
                            hash = refl;
                            location = refl;
                            raw = refl;
                            listed = own;
                            covered = inr (
                                inl (
                                  enqueue-IsActive analysis name _ config.analysis_max_attempts tp
                                    now listed.queue));
                          })
                ]
              ])
      ]
