-- ===== src/Gateway/Upload.antt =====
-- routes.rs: the upload of a file, from its parts to the request for its analysis. The temporary file
-- is dropped without a flush: a write goes on in the background, and the next one waits for it. So
-- with each part comes how much of its last chunk has not arrived when the file is used.
pub mod Received
pub mod Listed
pub mod Ingested
pub mod Tests
use Prim.Native.String.{String}
use text.Mathlib.Text.{◌==◌ as str_eq}
use bvault_app.Prelude.{
  ℕ, ◌-◌, length, take, not, Bool, true, false, ◌||◌, Option, some, none, List, [], ◌∷◌, ◌++◌,
  if◌then◌else◌,
}
use bvault_app.Text.{Text}
use bvault_app.Text.Characters.{string_of}
use bvault_app.Hash.{ContentHasher, new as new_hasher, update as feed, finalize, hash_hex}
use bvault_app.Transfer.Files.{Drive, put as set_file}
use bvault_app.Store.Raw.{Stored, stored, failed, panicked, Answers, store_from_temp}
use bvault_app.Catalog.{ok, err, coalesce, upsert_track}
use bvault_app.Gateway.{
  External, Config, AppState, ApiResult, done, not_found, bad_request, unauthorized, internal,
  jobs_error, meta_error, analyzed,
}
use bvault_app.Gateway.Analyze.{submit}
use bvault_app.Gateway.FileName.{path_stem, path_extension}

-- A part of the request. Of a part with audio: the path of its temporary file, whether that was
-- created, the chunks, each with whether the call of `write_all` succeeded, which also reports an
-- earlier write; how many bytes are missing at the end of the file when the next step uses it or,
-- where that is later, when the request is answered; and whether the stream came to its end. Of
-- another one: its text, where it could be read.
pub record Part : Type 0 where
  pub name : String
  pub file_name : Option Text
  pub temp : Text
  pub created : Bool
  pub chunks : List (List ℕ × Bool)
  pub missing : ℕ
  pub whole : Bool
  pub text : Option String

-- What has been read; the path of the temporary file and its hash are set together.
pub record Upload : Type 0 where
  pub file : Option (Text × Text)
  pub file_name : Option Text
  pub title : Option String
  pub artist : Option String

pub record IngestResult : Type 0 where
  pub hash : String
  pub raw_location : String
  pub title : Option String
  pub artist : Option String

-- `?`
unfoldable pub and_then :
    {S A B : Type 0} → S × ApiResult A → (S → A → S × ApiResult B) → S × ApiResult B
and_then (s, done a) k = k s a
and_then (s, not_found) k = (s, not_found)
and_then (s, bad_request) k = (s, bad_request)
and_then (s, unauthorized) k = (s, unauthorized)
and_then (s, internal) k = (s, internal)
and_then (s, jobs_error) k = (s, jobs_error)
and_then (s, meta_error e) k = (s, meta_error e)

-- What has arrived in the file: all that was settled, and of what is pending all but the last bytes.
unfoldable pub arrived : ℕ → List ℕ → List ℕ → List ℕ
arrived missing settled pending = settled ++ take (length pending - missing) pending

-- The next chunk waits for the pending one; to write an empty one is no call of the file system.
unfoldable pub settle : List ℕ → List ℕ → List ℕ → List ℕ × List ℕ
settle settled pending [] = (settled, pending)
settle settled pending (b ∷ bs) = (settled ++ pending, b ∷ bs)

-- The loop over the chunks. Of a write that fails, and of those before it, any number of bytes may be
-- missing.
unfoldable pub receive_chunks :
    Text
    → ℕ
    → Bool
    → List (List ℕ × Bool)
    → ContentHasher
    → List ℕ
    → List ℕ
    → Drive
    → Drive × ApiResult ContentHasher
unfolding arrived settle
receive_chunks temp missing true [] h settled pending d =
    (set_file temp (arrived missing settled pending) d, done h)
receive_chunks temp missing false [] h settled pending d =
    (set_file temp (arrived missing settled pending) d, bad_request)
receive_chunks temp missing whole ((chunk, written) ∷ chunks) h settled pending d =
    let (before, last) = settle settled pending chunk in
    let rest = receive_chunks temp missing whole chunks (feed h chunk) before last d in
    let broken = arrived missing [] ((settled ++ pending) ++ chunk) in
    if written then rest else (set_file temp broken d, internal)

unfoldable pub no_upload : Upload
no_upload = record { file = none; file_name = none; title = none; artist = none }

abbrev pub is_audio : String → Bool
is_audio name = str_eq name "file" || str_eq name "audio"

-- A text that could not be read leaves what was there.
unfoldable pub with_text : Part → Upload → Upload
unfolding coalesce
with_text p u =
    if str_eq p.name "title"
    then record u { title = coalesce p.text u.title }
    else if str_eq p.name "artist"
    then record u { artist = coalesce p.text u.artist }
    else u

unfoldable pub extension_or_mp3 : Option Text → Text
unfolding path_extension
extension_or_mp3 none = b'm' ∷ b'p' ∷ b'3' ∷ []
extension_or_mp3 (some path) = elim (path_extension path) [
  | none ↦ b'm' ∷ b'p' ∷ b'3' ∷ []
  | some ext ↦ ext
]

unfoldable pub fallback_title : Option Text → Option String
unfolding path_stem
fallback_title none = none
fallback_title (some path) = some (string_of (path_stem path))

module _ (xxh3_64 : List ℕ → ℕ) where
  unfoldable pub read_file : Part → Upload → Drive → Drive × ApiResult Upload
  unfolding and_then receive_chunks
  read_file p u d =
      let received =
        receive_chunks p.temp p.missing p.whole p.chunks new_hasher [] [] (set_file p.temp [] d) in
      let read : ContentHasher → Upload = λ h. record u {
        file = some (p.temp, hash_hex (finalize xxh3_64 h));
        file_name = p.file_name;
      } in
      if p.created then and_then received (λ d h. (d, done (read h))) else (d, internal)

  -- The loop over the parts; `ends` says whether the request came to its end.
  unfoldable pub read_parts : List Part → Bool → Upload → Drive → Drive × ApiResult Upload
  unfolding read_file with_text and_then
  read_parts [] true u d = (d, done u)
  read_parts [] false u d = (d, bad_request)
  read_parts (p ∷ parts) ends u d =
      let from_file = and_then (read_file p u d) (λ d u. read_parts parts ends u d) in
      let from_text = read_parts parts ends (with_text p u) d in
      if is_audio p.name then from_file else from_text

  -- `queued` says whether the database takes the job: an error of the enqueue is dropped.
  module _ (x : External) (config : Config) (now : ℕ) (traceparent : Option String) (user : ℕ)
      (queued : Bool) where
    unfoldable pub list_upload : Text → Text → Upload → AppState → AppState × ApiResult IngestResult
    unfolding upsert_track fallback_title analyzed submit
    list_upload hash rel u st =
        let title = coalesce u.title (fallback_title u.file_name) in
        let name = string_of hash in
        let place = string_of rel in
        elim (upsert_track user name place title u.artist now st.meta) [
          | err e ↦ (st, meta_error e)
          | ok m ↦
              let listed = record st { meta = m } in
              (
                if analyzed x config name listed || not queued
                    then listed
                    else submit x config now traceparent name place title listed,
                done (record {
                  hash = name;
                  raw_location = place;
                  title = title;
                  artist = u.artist;
                }),
              )
        ]

    -- What follows the store of the file.
    unfoldable pub after_store :
        Text → Upload → AppState → Drive × Stored → AppState × ApiResult IngestResult
    unfolding list_upload
    after_store hash u st (raw, stored rel) = list_upload hash rel u (record st { raw = raw })
    after_store hash u st (raw, failed) = (record st { raw = raw }, internal)
    after_store hash u st (raw, panicked) = (record st { raw = raw }, internal)

    unfoldable pub store_upload : Answers → Upload → AppState → AppState × ApiResult IngestResult
    unfolding store_from_temp extension_or_mp3 after_store
    store_upload a u st = elim u.file [
      | none ↦ (st, bad_request)
      | some (temp, hash) ↦
          after_store hash u st (
            store_from_temp config.raw_store_root temp hash (extension_or_mp3 u.file_name) a st.raw)
    ]

    unfoldable pub ingest_upload :
        List Part → Bool → Answers → AppState → AppState × ApiResult IngestResult
    unfolding read_parts store_upload and_then
    ingest_upload parts ends a st =
        let (raw, read) = read_parts parts ends no_upload st.raw in
        and_then (record st { raw = raw }, read) (λ st u. store_upload a u st)
