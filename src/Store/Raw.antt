-- ===== src/Store/Raw.antt =====
-- crates/bvault-store/src/raw.rs: where raw audio stands, and how a temporary file is moved there.
-- `resolve`, which asks the file system for canonical paths, is left out.
use bvault_app.Prelude.{
  ◌||◌, ℕ, Bool, false, Option, some, none, List, [], ◌∷◌, ◌++◌, take, length, leb, ◌==◌,
  if◌then◌else◌,
}
use bvault_app.Text.{Text, as_bytes}
use bvault_app.Transfer.Files.{Drive, lookup, remove, put as set_file}
use bvault_app.Store.{take_bytes, join}

-- `ext.trim_start_matches('.')`
unfoldable pub trim_dots : Text → Text
trim_dots [] = []
trim_dots (c ∷ cs) = let rest = trim_dots cs in if c == b'.' then rest else c ∷ cs

unfoldable pub or_mp3 : Text → Text
or_mp3 [] = b'm' ∷ b'p' ∷ b'3' ∷ []
or_mp3 (c ∷ cs) = c ∷ cs

-- `&hash[..2]` panics, `none`, where the second byte ends within a character.
unfoldable pub prefix : Text → Option Text
unfolding take_bytes
prefix hash = if leb 2 (length (as_bytes hash)) then take_bytes hash 2 else some (b'0' ∷ b'0' ∷ [])

unfoldable pub rel_path : Text → Text → Option Text
unfolding prefix trim_dots or_mp3 join
rel_path hash ext = elim (prefix hash) [
  | none ↦ none
  | some p ↦ some (join p (hash ++ b'.' ∷ or_mp3 (trim_dots ext)))
]

unfoldable pub has : ℕ → Text → Bool
has k [] = false
has k (c ∷ cs) = c == k || has k cs

unfoldable pub before_last_dot : Text → Text
unfolding has
before_last_dot [] = []
before_last_dot (c ∷ cs) =
    let rest = before_last_dot cs in
    if has b'.' cs then c ∷ rest else if c == b'.' then [] else c ∷ cs

-- A dot that begins the name does not count.
unfoldable pub file_stem : Text → Text
unfolding before_last_dot
file_stem [] = []
file_stem (c ∷ cs) = c ∷ before_last_dot cs

unfoldable pub without_extension : Text → Text
unfolding has file_stem
without_extension [] = []
without_extension (c ∷ cs) =
    let rest = without_extension cs in
    if has b'/' cs then c ∷ rest else if c == b'/' then c ∷ file_stem cs else file_stem (c ∷ cs)

-- `path.with_extension("tmp")`
unfoldable pub with_tmp : Text → Text
unfolding without_extension
with_tmp path = without_extension path ++ (b'.' ∷ b't' ∷ b'm' ∷ b'p' ∷ [])

pub data Stored : Type 0 where
  stored : Text → Stored
  failed panicked : Stored

-- How the calls of the file system end; a copy that fails has written `partial` bytes.
pub record Answers : Type 0 where
  pub dir_created : Bool
  pub renamed : Bool
  pub written : Bool
  pub moved : Bool
  pub cleaned : Bool
  pub partial : ℕ

unfoldable pub rename : Text → Text → List ℕ → Drive → Drive
rename source target bytes d = set_file target bytes (remove source d)

-- Bytes are written beside their place and renamed to it.
unfoldable pub write_at : Text → Text → List ℕ → Answers → Drive → Drive × Stored
unfolding rename with_tmp
write_at rel target bytes a d =
    let tmp = with_tmp target in
    if a.written
    then if a.moved
      then (rename tmp target bytes (set_file tmp bytes d), stored rel)
      else (set_file tmp bytes d, failed)
    else (set_file tmp (take a.partial bytes) d, failed)

unfoldable pub write : Text → Text → Text → List ℕ → Answers → Drive → Drive × Stored
unfolding rel_path write_at join
write root hash ext bytes a d = elim (rel_path hash ext) [
  | none ↦ (d, panicked)
  | some rel ↦ if a.dir_created then write_at rel (join root rel) bytes a d else (d, failed)
]

-- The temporary file is removed on a best effort after a copy.
unfoldable pub cleaned_up : Text → Answers → Drive × Stored → Drive × Stored
cleaned_up temp a (d, stored rel) = (if a.cleaned then remove temp d else d, stored rel)
cleaned_up temp a (d, failed) = (d, failed)
cleaned_up temp a (d, panicked) = (d, panicked)

-- A copy across devices, where the renaming fails, goes the way of `write`.
unfoldable pub move_to : Text → Text → Text → List ℕ → Answers → Drive → Drive × Stored
unfolding rename write_at cleaned_up
move_to temp rel target bytes a d =
    if a.renamed
    then (rename temp target bytes d, stored rel)
    else cleaned_up temp a (write_at rel target bytes a d)

-- A missing temporary file can neither be renamed nor copied.
unfoldable pub store_from_temp : Text → Text → Text → Text → Answers → Drive → Drive × Stored
unfolding rel_path move_to join
store_from_temp root temp hash ext a d = elim (rel_path hash ext) [
  | none ↦ (d, panicked)
  | some rel ↦
      if a.dir_created
      then elim (lookup temp d) [
        | none ↦ (d, failed)
        | some bytes ↦ move_to temp rel (join root rel) bytes a d
      ]
      else (d, failed)
]
