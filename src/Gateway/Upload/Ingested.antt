-- ===== src/Gateway/Upload/Ingested.antt =====
-- routes.rs: what a user has who has uploaded a file.
use Prim.Native.String.{String}
use bvault_app.Prelude.{
  ℕ, ◌≡◌, ◌≢◌, ◌⊎◌, refl, ap, sym, subst, ◌∙◌, inl, inr, Bool, true, false, Option, some, none,
  List, [], ◌∷◌, All, Option-cases,
}
use bvault_app.Text.{Text}
use bvault_app.Text.Characters.{string_of}
use bvault_app.Hash.{hash_hex, hash_bytes}
use bvault_app.Transfer.Files.{Drive, lookup}
use bvault_app.Jobs.{analysis}
use bvault_app.Jobs.Active.{IsActive}
use bvault_app.Store.{join}
use bvault_app.Store.Raw.{Stored, stored, failed, panicked, Answers, store_from_temp}
use bvault_app.Store.Arrival.{store_from_temp-stored}
use bvault_app.Catalog.Rows.{find_first}
use bvault_app.Catalog.{is_owned, get_track_by_hash}
use bvault_app.Catalog.Tracks.{merged}
use bvault_app.Catalog.Tracks.Upsert.{as_track}
use bvault_app.Gateway.{External, Config, AppState, ApiResult, done, bad_request, analyzed}
use bvault_app.Gateway.Upload.{
  Part, Upload, IngestResult, no_upload, extension_or_mp3, read_parts, after_store, store_upload,
  ingest_upload,
}
use bvault_app.Gateway.Upload.Listed.{list_upload-IsListed}
use bvault_app.Gateway.Upload.Received.{
  body_of, IsHeldOf, IsRead, AreRead, and_then-done, read_parts-AreRead,
}

-- The part is one of the request's.
abbrev pub IsAmong : Part → List Part → Type 0
IsAmong q [] = ⊥
IsAmong q (p ∷ parts) = (q ≡ p) ⊎ IsAmong q parts

-- No temporary file is below the root of the raw store.
abbrev pub IsOutside : Text → Text → Type 0
IsOutside root temp = (rel : Text) → join root rel ≢ temp

All-IsAmong_cons :
    (P : Part → Type 0) (p : Part) (parts more : List Part)
    → All (λ q. P q × IsAmong q parts) more
    → All (λ q. P q × IsAmong q (p ∷ parts)) more
All-IsAmong_cons P p parts [] h = tt
All-IsAmong_cons P p parts (q ∷ more) h = ((h.0.0, inr h.0.1), All-IsAmong_cons P p parts more h.1)

All-IsAmong :
    (P : Part → Type 0) (parts : List Part) → All P parts → All (λ p. P p × IsAmong p parts) parts
All-IsAmong P [] h = tt
All-IsAmong P (p ∷ parts) h =
    ((h.0, inl refl), All-IsAmong_cons P p parts parts (All-IsAmong P parts h.1))

module _ (xxh3_64 : List ℕ → ℕ) (x : External) (config : Config) (now : ℕ) (tp : Option String)
    (user : ℕ) (queued : Bool) where
  -- `part` is a part of the request, and the answer's hash is the identity of its bytes; at the place
  -- that the answer names stands what has arrived of them. The user has the track there, with its
  -- title and artist; and it is analysed, or has a job that waits or runs, or the database has refused
  -- the job and the queue is as it was.
  pub record IsIngested (parts : List Part) (st st' : AppState) (r : IngestResult) : Type 0 where
    pub part : Part
    pub among : IsAmong part parts
    pub held : List ℕ
    pub is_held : IsHeldOf part held
    pub rel : Text
    pub identity : r.hash ≡ string_of (hash_hex (hash_bytes xxh3_64 (body_of part)))
    pub place : r.raw_location ≡ string_of rel
    pub there : lookup (join config.raw_store_root rel) st'.raw ≡ some held
    pub listed :
        get_track_by_hash user r.hash st'.meta
        ≡ some (
            as_track r.raw_location (
              merged user r.hash r.title r.artist now
                (find_first (is_owned user r.hash) st.meta.user_tracks)))
    pub covered :
        (analyzed x config r.hash st' ≡ true)
        ⊎ IsActive analysis r.hash st'.queue
        ⊎ ((queued ≡ false) × (st'.queue ≡ st.queue))

  after_store-IsIngested :
      (parts : List Part) (u : Upload) (st st' : AppState) (r : IngestResult) (temp hash : Text)
      (read : IsRead xxh3_64
        (λ p. IsOutside config.raw_store_root p.temp × IsAmong p parts)
        u
        st.raw
        temp
        hash)
      (outcome : Drive × Stored)
      → ((raw : Drive) (rel : Text)
          → outcome ≡ (raw, stored rel)
          → lookup (join config.raw_store_root rel) raw ≡ some read.held)
      → after_store xxh3_64 x config now tp user queued hash u st outcome ≡ (st', done r)
      → IsIngested parts st st' r
  unfolding after_store
  after_store-IsIngested parts u st st' r temp hash read (raw, failed) arrives e = absurd (cc)
  after_store-IsIngested parts u st st' r temp hash read (raw, panicked) arrives e = absurd (cc)
  after_store-IsIngested parts u st st' r temp hash read (raw, stored rel) arrives e =
      let own =
        list_upload-IsListed xxh3_64 x config now tp user queued hash rel u
          (record st { raw = raw }) st' r e in
      let stands : lookup (join config.raw_store_root rel) st'.raw ≡ some read.held =
        ap (lookup (join config.raw_store_root rel)) own.raw ∙ arrives raw rel refl in
      record {
        part = read.part;
        among = read.of_part.1;
        held = read.held;
        is_held = read.is_held;
        rel = rel;
        identity = own.hash ∙ ap string_of read.identity;
        place = own.location;
        there = stands;
        listed = own.listed;
        covered = own.covered;
      }

  store_upload-IsIngested :
      (parts : List Part) (a : Answers) (u : Upload) (st st' : AppState) (r : IngestResult)
      → AreRead xxh3_64 (λ p. IsOutside config.raw_store_root p.temp × IsAmong p parts) u st.raw
      → store_upload xxh3_64 x config now tp user queued a u st ≡ (st', done r)
      → IsIngested parts st st' r
  unfolding store_upload
  store_upload-IsIngested parts a u st st' r h e = elim (Option-cases u.file) [
    | inl missing ↦
        let refused : ◌≡◌ {A = AppState × ApiResult IngestResult} (st, bad_request) (st', done r) =
          rw (missing, store_upload) at e in
        absurd (cc)
    | inr ((temp, hash), file) ↦
        let read = h temp hash file in
        after_store-IsIngested parts u st st' r temp hash read
          (store_from_temp config.raw_store_root temp hash (extension_or_mp3 u.file_name) a st.raw)
          (λ raw rel.
            store_from_temp-stored config.raw_store_root temp hash (extension_or_mp3 u.file_name)
              rel read.held a st.raw raw read.there
              (subst (IsOutside config.raw_store_root) read.its_file read.of_part.0))
          (rw (file, store_upload) at e)
  ]

  -- An upload that is answered with success: the hash of the answer is the identity of all bytes of a
  -- part of the request. The file at the place that the answer names has these bytes, but for those
  -- at the end that had not arrived, which are of the part's last chunk that is not empty, and at
  -- most as many as the part says are missing; where none is, it has them all. The user has the track
  -- under that hash, at that place, with the title and the artist of the answer. And the track is
  -- analysed, or has a job that is waiting or running, or the database did not take the job and the
  -- queue is as it was. No temporary file is below the root of the store.
  pub ingest_upload-IsIngested :
      (parts : List Part) (ends : Bool) (a : Answers) (st st' : AppState) (r : IngestResult)
      → All (λ p. IsOutside config.raw_store_root p.temp) parts
      → ingest_upload xxh3_64 x config now tp user queued parts ends a st ≡ (st', done r)
      → IsIngested parts st st' r
  unfolding ingest_upload
  ingest_upload-IsIngested parts ends a st st' r h e =
      let read = read_parts xxh3_64 parts ends no_upload st.raw in
      let st1 = record st { raw = read.0 } in
      let (s, u, done_reading, stored_it) =
        and_then-done (st1, read.1)
          (λ st u. store_upload xxh3_64 x config now tp user queued a u st) st' r e in
      let state : st1 ≡ s = ap (λ (o : AppState × ApiResult Upload). o.0) done_reading in
      let good : read.1 ≡ done u = ap (λ (o : AppState × ApiResult Upload). o.1) done_reading in
      let all_read =
        read_parts-AreRead xxh3_64 (λ p. IsOutside config.raw_store_root p.temp × IsAmong p parts)
          parts ends no_upload u st.raw read.0
          (All-IsAmong (λ p. IsOutside config.raw_store_root p.temp) parts h)
          (λ temp hash f.
            let none_yet : ◌≡◌ {A = Option (Text × Text)} none (some (temp, hash)) =
              unfold no_upload in f in
            absurd (cc))
          (ap (λ o. (read.0, o)) good) in
      let kept = store_upload-IsIngested parts a u st1 st' r all_read (
        subst (λ s. store_upload xxh3_64 x config now tp user queued a u s ≡ (st', done r))
          (sym state) stored_it) in
      record {
        part = kept.part;
        among = kept.among;
        held = kept.held;
        is_held = kept.is_held;
        rel = kept.rel;
        identity = kept.identity;
        place = kept.place;
        there = kept.there;
        listed = kept.listed;
        covered = kept.covered;
      }
