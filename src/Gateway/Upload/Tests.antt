-- ===== src/Gateway/Upload/Tests.antt =====
-- A title and a file in two chunks.
use bvault_app.Prelude.{
  ◌≡◌, refl, ap, arith, ℕ, true, false, some, none, List, [], ◌∷◌, length, map,
}
use bvault_app.Text.Characters.{string_of}
use bvault_app.Store.{join}
use bvault_app.Text.{Text, text_equal, utf8_char}
use bvault_app.Transfer.Files.{lookup, remove, put as set_file}
use bvault_app.Hash
use bvault_app.Store.Raw.{Answers}
use bvault_app.Gateway.{External, Config, AppState, ApiResult, done}
use bvault_app.Gateway.FileName.{path_stem, path_extension}
use bvault_app.Gateway.Upload.{Part, IngestResult, no_upload, ingest_upload}
use bvault_app.Gateway.Upload.Ingested.{IsOutside, IsIngested, ingest_upload-IsIngested}

abbrev some_external : External
some_external = record {
  lower = λ s. s;
  trim = λ s. s;
  parse_uuid = λ s. none;
  uuid_text = λ id. "2";
  verify_password = λ password hash. false;
  hash_token = λ token. token;
  analysis_json = λ job. job.hash;
  ytdlp_json = λ job. job.user_id;
  json_user_id = some;
}

abbrev config : Config
config = record {
  analysis_max_attempts = 3;
  session_ttl = 60;
  yt_dlp_service_url = none;
  internal_api_key = none;
  artifact_store_root = b'r' ∷ [];
  raw_store_root = b'm' ∷ [];
}

abbrev state : AppState
state = record {
  meta = record {
    users =
        record { id = 2; username = "bob"; password_hash = "secret"; youtube_cookies = none } ∷ [];
    sessions = [];
    tracks = [];
    user_tracks = [];
    playlists = [];
    playlist_tracks = [];
    batches = [];
  };
  queue = record { rows = []; next_id = 1 };
  artifacts = record { files = []; synced = [] };
  raw = [];
}

abbrev title : Part
title = record {
  name = "title";
  file_name = none;
  temp = [];
  created = false;
  chunks = [];
  missing = 0;
  whole = true;
  text = some "Song";
}

-- "x/a.mp3"
abbrev path : Text
path = b'x' ∷ b'/' ∷ b'a' ∷ b'.' ∷ b'm' ∷ b'p' ∷ b'3' ∷ []

abbrev file : Part
file = record {
  name = "file";
  file_name = some path;
  temp = b't' ∷ [];
  created = true;
  chunks = (5 ∷ 6 ∷ [], true) ∷ (7 ∷ [], true) ∷ [];
  missing = 0;
  whole = true;
  text = none;
}

abbrev answers : Answers
answers = record {
  dir_created = true;
  renamed = true;
  written = true;
  moved = true;
  cleaned = true;
  partial = 0;
}

abbrev any_hash : List ℕ → ℕ
any_hash bytes = length bytes

file_name_tests :
    (path_stem path ≡ b'a' ∷ []) × (path_extension path ≡ some (b'm' ∷ b'p' ∷ b'3' ∷ []))
unfolding path_stem path_extension text_equal
file_name_tests = (refl, refl)

-- Three bytes and the eight of the length are hashed.
abbrev answer : IngestResult
answer = record {
  hash = "000000000000000b";
  raw_location = "00/000000000000000b.mp3";
  title = some "Song";
  artist = none;
}

uploaded : AppState
uploaded =
    (ingest_upload any_hash some_external config 20 none 2 true (title ∷ file ∷ []) true answers
      state).0

upload_test :
    ingest_upload any_hash some_external config 20 none 2 true
      (title ∷ file ∷ [])
      true
      answers
      state
    ≡ (uploaded, done answer)
unfolding ingest_upload uploaded no_upload string_of lookup set_file remove text_equal utf8_char
    Hash.new Hash.update Hash.finalize Hash.hash_hex
upload_test = refl

-- A stream that breaks off is no upload, and its temporary file stays.
broken_test :
    ingest_upload any_hash some_external config 20 none 2 true
      (record file { whole = false } ∷ [])
      true
      answers
      state
    ≡ (record state { raw = (b't' ∷ [], 5 ∷ 6 ∷ 7 ∷ []) ∷ [] }, ApiResult.bad_request)
unfolding ingest_upload lookup set_file remove text_equal Hash.new Hash.update
broken_test = refl

-- The last byte is lost before the file is stored, and the job is refused: the answer is the same.
abbrev lossy : List Part
lossy = title ∷ record file { missing = 1 } ∷ []

lossy_run : AppState × ApiResult IngestResult
lossy_run = ingest_upload any_hash some_external config 20 none 2 false lossy true answers state

lossy_test :
    (lossy_run.1 ≡ done answer)
    × (lossy_run.0.queue ≡ state.queue)
    × (map (λ f. f.1) lossy_run.0.raw ≡ (5 ∷ 6 ∷ []) ∷ [])
unfolding ingest_upload lossy_run no_upload string_of lookup set_file remove text_equal utf8_char
    Hash.new Hash.update Hash.finalize Hash.hash_hex
lossy_test = (refl, refl, refl)

temporary-IsOutside :
    IsOutside config.raw_store_root title.temp × IsOutside config.raw_store_root file.temp
unfolding join
temporary-IsOutside = ((λ rel e. omega (arith, ap length e)), (λ rel e. omega (arith, ap length e)))

ingest_upload-IsIngested_example :
    IsIngested any_hash some_external config 20 none 2 true
      (title ∷ file ∷ [])
      state
      uploaded
      answer
ingest_upload-IsIngested_example =
    ingest_upload-IsIngested any_hash some_external config 20 none 2 true (title ∷ file ∷ []) true
      answers state uploaded answer (temporary-IsOutside.0, (temporary-IsOutside.1, tt)) upload_test
