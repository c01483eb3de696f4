-- ===== src/Transfer.antt =====
-- crates/bvault-transfer/src/reconcile.rs, and the filesystem backend of sink.rs: the transfer of an
-- export to a drive. What the server, the disk and the network answer is given with each entry.
pub mod Files
pub mod Delivery
pub mod Run
pub mod Reports
pub mod Tests
use bvault_app.Prelude.{
  ℕ, ◌+◌, Bool, true, false, ◌&&◌, not, Option, some, none, List, [], ◌∷◌, ◌++◌, length, ◌==◌,
  if◌then◌else◌, u64,
}
use bvault_app.Text.{Text, text_equal}
use bvault_app.Hash as Hash
use bvault_app.Hash.{ContentHasher, update, finalize, hash_hex}
use bvault_app.Transfer.Files.{Drive, lookup, put, remove}

pub data Source : Type 0 where
  staging : Source
  raw : Text → Source

pub record ManifestEntry : Type 0 where
  pub usb_path : Text
  pub size : ℕ
  pub source : Source

-- One turn of the loop over the body: a chunk that came, and whether it could be written.
pub data Chunk : Type 0 where
  chunk : List ℕ → Bool → Chunk
  network_error : Chunk

-- The answer to a request: none, a status that is no success, or a body.
pub data Response : Type 0 where
  no_answer : Response
  failure_status : Response
  body : List Chunk → Response

-- How the calls outside the program end while one entry is handled.
pub record Answers : Type 0 where
  pub dir_created : Bool
  pub stat_read : Bool
  pub response : Response
  pub tmp_created : Bool
  pub flushed : Bool
  pub synced : Bool
  pub renamed : Bool

pub data Fault : Type 0 where
  http open_error write_error network hash_mismatch commit_error : Fault

-- The calls of `TransferProgress`.
pub data Event : Type 0 where
  on_start : ℕ → ℕ → Event
  on_file_start : Text → ℕ → Event
  on_file_progress : ℕ → Event
  on_file_done on_file_skipped : Text → Event
  on_error : Text → Fault → Event
  on_complete : Event

-- The part before the last slash: `before` is all that was read, `best` the part so far.
unfoldable pub parent_from : Text → Text → Text → Text
parent_from before best [] = best
parent_from before best (c ∷ cs) =
    parent_from (before ++ c ∷ []) (if c == b'/' then before else best) cs

unfoldable pub parent_of : Text → Text
unfolding parent_from
parent_of usb_path = parent_from [] [] usb_path

abbrev pub tmp_suffix : Text
tmp_suffix = b'.' ∷ b'b' ∷ b'v' ∷ b'a' ∷ b'u' ∷ b'l' ∷ b't' ∷ b'-' ∷ b't' ∷ b'm' ∷ b'p' ∷ []

pub record FsWriter : Type 0 where
  pub file : List ℕ
  pub tmp : Text
  pub dest : Text

-- `create_dir_all` is not called for the root.
unfoldable pub ensure_dir : Text → Bool → Bool
ensure_dir [] created = true
ensure_dir (c ∷ cs) created = created

unfoldable pub file_len : Text → Drive → Option ℕ
file_len rel d = elim (lookup rel d) [ none ↦ none | some bytes ↦ some (length bytes) ]

unfoldable pub create : Text → Drive → Drive × FsWriter
create rel d =
    let tmp = rel ++ tmp_suffix in (put tmp [] d, record { file = []; tmp = tmp; dest = rel })

-- The bytes stay in the writer's buffer, or go to the temporary file, until `commit`.
unfoldable pub write_all : FsWriter → List ℕ → FsWriter
write_all w buf = record w { file = w.file ++ buf }

unfoldable pub abort : FsWriter → Drive → Drive
abort w d = remove w.tmp d

-- Flush, fsync and rename; the renaming replaces the file.
unfoldable pub commit : FsWriter → Answers → Drive → Drive × Bool
commit w a d =
    if not a.flushed
    then (d, false)
    else if not a.synced
    then (put w.tmp w.file d, false)
    else if not a.renamed
    then (put w.tmp w.file d, false)
    else (put w.dest w.file (remove w.tmp d), true)

-- The writer and the hasher after the body, the progress, and the fault that ended it early.
pub record Received : Type 0 where
  pub writer : FsWriter
  pub hasher : ContentHasher
  pub events : List Event
  pub fault : Option Fault

-- The loop over the body.
unfoldable pub receive : List Chunk → FsWriter → ContentHasher → Received
unfolding write_all
receive [] w h = record { writer = w; hasher = h; events = []; fault = none }
receive (network_error ∷ chunks) w h = record {
  writer = w;
  hasher = h;
  events = [];
  fault = some network;
}
receive (chunk bytes false ∷ chunks) w h = record {
  writer = w;
  hasher = h;
  events = [];
  fault = some write_error;
}
receive (chunk bytes true ∷ chunks) w h =
    let r = receive chunks (write_all w bytes) (update h bytes) in
    record r { events = on_file_progress (length bytes) ∷ r.events }

-- The drive and the calls made so far.
pub record State : Type 0 where
  pub drive : Drive
  pub log : List Event

-- An entry is over, or the whole transfer ends with an error.
pub data Step : Type 0 where
  continue stop : State → Step

unfoldable pub note : Event → State → State
note e s = record s { log = s.log ++ e ∷ [] }

-- What follows `commit`.
unfoldable pub committed : Text → Drive × Bool → State → State
unfolding note
committed usb_path (d, true) s = note (on_file_done usb_path) (record s { drive = d })
committed usb_path (d, false) s = note (on_error usb_path commit_error) (record s { drive = d })

-- A file of the entry's size is not transferred again.
unfoldable pub same_size : Option ℕ → ℕ → Bool
same_size none size = false
same_size (some len) size = len == size

unfoldable pub total_bytes : List (ManifestEntry × Answers) → ℕ
total_bytes [] = 0
total_bytes ((entry, a) ∷ entries) = u64 (entry.size + total_bytes entries)

-- The end of the transfer: the staged build is deleted on the server, whatever the log says.
unfoldable pub completed : Step → Step × Bool
unfolding note
completed (stop s) = (stop s, false)
completed (continue s) = (continue (note on_complete s), true)

module _ (xxh3_64 : List ℕ → ℕ) where
  -- Hash verification of raw audio.
  unfoldable pub verified : Source → ContentHasher → Bool
  verified staging hasher = true
  verified (raw hash) hasher = text_equal (hash_hex (finalize xxh3_64 hasher)) hash

  -- What follows the loop over the body.
  unfoldable pub finish : ManifestEntry → Answers → Received → Option Fault → State → State
  unfolding note abort commit committed verified
  finish entry a r (some fault) s =
      note (on_error entry.usb_path fault) (record s { drive = abort r.writer s.drive })
  finish entry a r none s =
      if verified entry.source r.hasher
      then committed entry.usb_path (commit r.writer a s.drive) s
      else note (on_error entry.usb_path hash_mismatch)
          (record s { drive = abort r.writer s.drive })

  -- What follows a response that is a success.
  unfoldable pub download : ManifestEntry → Answers → List Chunk → State → State
  unfolding create receive finish note
  download entry a chunks s =
      let (d, w) = create entry.usb_path s.drive in
      let r = receive chunks w Hash.new in
      if a.tmp_created
      then finish entry a r r.fault (record { drive = d; log = s.log ++ r.events })
      else note (on_error entry.usb_path open_error) s

  unfoldable pub fetch : ManifestEntry → Answers → Response → State → Step
  unfolding download note
  fetch entry a no_answer s = stop s
  fetch entry a failure_status s = continue (note (on_error entry.usb_path http) s)
  fetch entry a (body chunks) s = continue (download entry a chunks s)

  -- The body of the loop over the manifest.
  unfoldable pub handle_entry : ManifestEntry → Answers → State → Step
  unfolding fetch ensure_dir parent_of file_len same_size note
  handle_entry entry a s =
      let fetched = fetch entry a a.response (note (on_file_start entry.usb_path entry.size) s) in
      if not (ensure_dir (parent_of entry.usb_path) a.dir_created)
      then stop s
      else if not a.stat_read
      then stop s
      else if same_size (file_len entry.usb_path s.drive) entry.size
      then continue (note (on_file_skipped entry.usb_path) s)
      else fetched

  -- The loop; the answers stand beside the entries.
  unfoldable pub handle_all : List (ManifestEntry × Answers) → State → Step
  unfolding handle_entry
  handle_all [] s = continue s
  handle_all ((entry, a) ∷ entries) s = elim (handle_entry entry a s) [
    | stop t ↦ stop t
    | continue t ↦ handle_all entries t
  ]

  -- From the manifest on; the second part tells whether the server was asked to delete the build.
  unfoldable pub reconcile_export : List (ManifestEntry × Answers) → Drive → Step × Bool
  unfolding handle_all completed total_bytes
  reconcile_export entries d =
      let start : State = record {
        drive = d;
        log = on_start (length entries) (total_bytes entries) ∷ [];
      } in
      completed (handle_all entries start)
