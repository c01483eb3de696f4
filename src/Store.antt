-- ===== src/Store.antt =====
-- crates/bvault-store/src/artifact.rs: the bundles of analysis artifacts, which are complete once
-- their marker is there. The paths are those below the root of the file system.
pub mod Atomic
pub mod Raw
pub mod Delivery
pub mod Arrival
pub mod Retry
pub mod Tests
use bvault_app.Prelude.{
  ℕ, ◌-◌, Bool, true, false, Option, some, none, List, [], ◌∷◌, ◌++◌, take, length, ltb, ◌==◌,
  if◌then◌else◌,
}
use bvault_app.Text.{Text, utf8_char}
use bvault_app.Transfer.Files.{Drive, lookup, put as set_file}

-- `&s[n..]` and `&s[..n]` by bytes; `none` where `n` is past the end or within a character.
unfoldable pub drop_bytes : Text → ℕ → Option Text
drop_bytes [] n = if n == 0 then some [] else none
drop_bytes (c ∷ s) n =
    let width = length (utf8_char c) in
    let rest = drop_bytes s (n - width) in
    if n == 0 then some (c ∷ s) else if ltb n width then none else rest

unfoldable pub take_bytes : Text → ℕ → Option Text
take_bytes [] n = if n == 0 then some [] else none
take_bytes (c ∷ s) n =
    let width = length (utf8_char c) in
    let rest : Option Text = elim (take_bytes s (n - width)) [
      | none ↦ none
      | some t ↦ some (c ∷ t)
    ] in
    if n == 0 then some [] else if ltb n width then none else rest

-- `hash.get(from..from + 2).unwrap_or("00")`
unfoldable pub shard : ℕ → Text → Text
unfolding drop_bytes take_bytes
shard from hash = elim (drop_bytes hash from) [
  | none ↦ b'0' ∷ b'0' ∷ []
  | some rest ↦ elim (take_bytes rest 2) [ none ↦ b'0' ∷ b'0' ∷ [] | some two ↦ two ]
]

-- `path.join(name)`, for a name that is not an absolute path.
unfoldable pub join : Text → Text → Text
join path name = path ++ b'/' ∷ name

unfoldable pub bundle_dir : Text → Text → Text
unfolding shard join
bundle_dir root hash = join (join (join root (shard 0 hash)) (shard 2 hash)) hash

abbrev pub marker : Text
marker = b'.' ∷ b'c' ∷ b'o' ∷ b'm' ∷ b'p' ∷ b'l' ∷ b'e' ∷ b't' ∷ b'e' ∷ []

-- What a reader sees of the files, and what has reached the disk by an fsync.
pub record Disk : Type 0 where
  pub files : Drive
  pub synced : Drive

unfoldable pub is_some : {A : Type 0} → Option A → Bool
is_some none = false
is_some (some a) = true

unfoldable pub exists : Text → Text → Disk → Bool
unfolding is_some bundle_dir join
exists root hash d = is_some (lookup (join (bundle_dir root hash) marker) d.files)

unfoldable pub write_file : Text → List ℕ → Disk → Disk
write_file path bytes d = record d { files = set_file path bytes d.files }

unfoldable pub sync_all : Text → List ℕ → Disk → Disk
sync_all path bytes d = record d { synced = set_file path bytes d.synced }

-- How far a run comes: the number of calls of the file system that succeed before the process ends
-- or one of them fails, and the number of bytes that a write which fails has written.
pub record Run : Type 0 where
  pub calls : ℕ
  pub partial : ℕ

-- The loop over the artifacts: create, write and fsync each. `none` is an error or the end.
unfoldable pub write_files : Text → List (Text × List ℕ) → Run → Disk → Disk × Option Run
unfolding write_file sync_all join
write_files dir [] run d = (d, some run)
write_files dir ((name, bytes) ∷ files) run d =
    let path = join dir name in
    let written = write_file path bytes d in
    let rest =
      write_files dir files (record run { calls = run.calls - 3 }) (sync_all path bytes written) in
    if run.calls == 0
    then (d, none)
    else if run.calls == 1
    then (write_file path (take run.partial bytes) d, none)
    else if run.calls == 2
    then (written, none)
    else rest

-- The marker, created and fsynced.
unfoldable pub write_marker : Text → Disk × Option Run → Disk × Bool
unfolding write_file sync_all join
write_marker dir (d, none) = (d, false)
write_marker dir (d, some run) =
    let path = join dir marker in
    let created = write_file path [] d in
    if run.calls == 0
    then (d, false)
    else if run.calls == 1
    then (created, false)
    else (sync_all path [] created, true)

unfoldable pub put : Text → Text → List (Text × List ℕ) → Run → Disk → Disk × Bool
unfolding exists write_files write_marker bundle_dir
put root hash files run d =
    let dir = bundle_dir root hash in
    let written = write_files dir files (record run { calls = run.calls - 1 }) d in
    if exists root hash d
    then (d, true)
    else if run.calls == 0
    then (d, false)
    else write_marker dir written

unfoldable pub get : Text → Text → Text → Disk → Option (List ℕ)
unfolding bundle_dir join
get root hash name d = lookup (join (bundle_dir root hash) name) d.files
