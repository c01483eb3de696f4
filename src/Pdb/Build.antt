-- ===== src/Pdb/Build.antt =====
-- crates/bvault-core/src/pdb.rs: a table with its index page, and the file of the 20 tables.
pub mod Pages
pub mod Loop
pub mod Totality
pub mod Returns
pub mod Header
pub mod NextUnused
use bvault_app.Prelude.{
  ℕ, zero, suc, ◌+◌, ◌-◌, ◌^◌, Bool, ◌&&◌, not, Option, some, none, List, [], ◌∷◌, ◌++◌, length,
  get_or, ltb, ◌==◌, if◌then◌else◌, replicate, concat_map, write_at, u32, le32,
}
use bvault_app.Page.{PageType, all_types, page_size}
use bvault_app.Page.Index.{new_index, finalize_index}
use bvault_app.Page.FileHeader.{TablePointer, FileHeader, pointer, new_header, add_table, to_page}
use bvault_app.Pdb.{PdbBuilder}
use bvault_app.Pdb.Paging.{DataPages}
use bvault_app.Pdb.Tables.{Outcome, done, failed, panicked, ◌>>=◌, of_option, build_data_pages}

pub record TableBuildResult : Type 0 where
  pub index_page : List ℕ
  pub data_pages : List (List ℕ)
  pub index_page_idx : ℕ
  pub last_data_page_idx : ℕ
  pub new_sequence : ℕ
  pub next_idx : ℕ

-- Pages with flags get the next numbers of the sequence, at 0x10.
unfoldable pub patch_sequence : ℕ → List (List ℕ) → List (List ℕ) × ℕ
patch_sequence sequence [] = ([], sequence)
patch_sequence sequence (page ∷ pages) =
    let used = not (get_or page 0x1B 0 == 0) in
    let (rest, last) = patch_sequence (if used then u32 (sequence + 1) else sequence) pages in
    ((if used then write_at 0x10 (le32 sequence) page else page) ∷ rest, last)

unfoldable pub last_page : List (List ℕ) → Option (List ℕ)
last_page [] = none
last_page (page ∷ []) = some page
last_page (page ∷ q ∷ pages) = last_page (q ∷ pages)

-- Byte 0x18 of the last data page, and that page's number; 0 and the index page without data.
unfoldable pub offsets_of : Bool → Option (List ℕ) → ℕ
offsets_of has_data none = 0
offsets_of has_data (some page) = if has_data then get_or page 0x18 0 else 0

unfoldable pub last_of : Bool → List (List ℕ) → ℕ → ℕ → ℕ
last_of has_data [] data_page_idx index_page_idx = index_page_idx
last_of has_data (page ∷ pages) data_page_idx index_page_idx =
    if has_data
    then u32 (data_page_idx + u32 (length (page ∷ pages)) + (2 ^ 32 - 1))
    else index_page_idx

-- What follows the `match`; `next` is the index page's number.
unfoldable pub finish_table : PageType → ℕ → ℕ → DataPages → TableBuildResult
unfolding patch_sequence last_page offsets_of last_of
finish_table page_type next sequence built =
    let (data_pages, new_sequence) = patch_sequence sequence built.pages in
    let data_page_idx = u32 (next + 1) in
    record {
      index_page =
          finalize_index (new_index next page_type) data_page_idx built.has_data
            (offsets_of built.has_data (last_page data_pages));
      data_pages = data_pages;
      index_page_idx = next;
      last_data_page_idx = last_of built.has_data data_pages data_page_idx next;
      new_sequence = new_sequence;
      next_idx = built.next_idx;
    }

pub record TableInfo : Type 0 where
  pub page_type : PageType
  pub index_page_idx : ℕ
  pub last_data_page : ℕ

-- The variables of the loop over the tables.
pub record Progress : Type 0 where
  pub all_pages : List (List ℕ)
  pub table_infos : List TableInfo
  pub next_page_index : ℕ
  pub sequence : ℕ

unfoldable pub started : Progress
started = record {
  all_pages = replicate page_size 0 ∷ [];
  table_infos = [];
  next_page_index = 1;
  sequence = 2;
}

unfoldable pub push_table : PageType → TableBuildResult → Progress → Progress
push_table page_type r s = record {
  all_pages = s.all_pages ++ (r.index_page ∷ r.data_pages);
  table_infos =
      s.table_infos
      ++ record {
        page_type = page_type;
        index_page_idx = r.index_page_idx;
        last_data_page = r.last_data_page_idx;
      }
        ∷ [];
  next_page_index = r.next_idx;
  sequence = r.new_sequence;
}

-- The variables of the loop over the table infos.
pub record Pointers : Type 0 where
  pub header : FileHeader
  pub phantom : ℕ
  pub patch_targets : List (ℕ × ℕ)

unfoldable pub point_to : TableInfo → Pointers → Pointers
point_to info s =
    let has_data = ltb info.index_page_idx info.last_data_page in
    let empty_candidate = if has_data then s.phantom else u32 (info.last_data_page + 1) in
    record {
      header =
          add_table (pointer info.page_type empty_candidate info.index_page_idx info.last_data_page)
            s.header;
      phantom = if has_data then u32 (s.phantom + 1) else s.phantom;
      patch_targets =
          s.patch_targets ++ (if has_data then (info.last_data_page, empty_candidate) ∷ [] else []);
    }

unfoldable pub point_all : List TableInfo → Pointers → Pointers
unfolding point_to
point_all [] s = s
point_all (info ∷ infos) s = point_all infos (point_to info s)

-- `all_pages[i][0x0C..0x10]`; `none` is the panic of an index out of range.
unfoldable pub patch_next : ℕ → ℕ → List (List ℕ) → Option (List (List ℕ))
patch_next i empty_candidate [] = none
patch_next zero empty_candidate (page ∷ pages) =
    some (write_at 0x0C (le32 empty_candidate) page ∷ pages)
patch_next (suc i) empty_candidate (page ∷ pages) = elim (patch_next i empty_candidate pages) [
  | none ↦ none
  | some rest ↦ some (page ∷ rest)
]

unfoldable pub patch_all : List (ℕ × ℕ) → List (List ℕ) → Option (List (List ℕ))
unfolding patch_next
patch_all [] pages = some pages
patch_all ((i, empty_candidate) ∷ targets) pages = elim (patch_next i empty_candidate pages) [
  | none ↦ none
  | some patched ↦ patch_all targets patched
]

-- `all_pages[0] = page`
unfoldable pub set_first : List ℕ → List (List ℕ) → List (List ℕ)
set_first page [] = []
set_first page (old ∷ pages) = page ∷ pages

unfoldable pub concat_pages : List (List ℕ) → List ℕ
concat_pages = concat_map (λ page. page)

module _ {F : Type 0} (tempo_of seconds_of : F → ℕ) where
  unfoldable pub build_table_with_sequence :
      PdbBuilder F → PageType → ℕ → ℕ → Outcome TableBuildResult
  unfolding finish_table
  build_table_with_sequence b page_type next sequence = do
    built ← build_data_pages tempo_of seconds_of b page_type (u32 (next + 1))
    done (finish_table page_type next sequence built)

  unfoldable pub build_tables : PdbBuilder F → List PageType → Progress → Outcome Progress
  unfolding build_table_with_sequence push_table
  build_tables b [] s = done s
  build_tables b (page_type ∷ types) s = do
    r ← build_table_with_sequence b page_type s.next_page_index s.sequence
    build_tables b types (push_table page_type r s)

  -- What follows the loop over the tables.
  unfoldable pub assemble : PdbBuilder F → Progress → Outcome (List ℕ)
  unfolding point_all patch_all set_first concat_pages
  assemble b s =
      let pointers =
        point_all s.table_infos
          (record { header = new_header; phantom = s.next_page_index; patch_targets = [] }) in
      do
        pages ← of_option (patch_all pointers.patch_targets s.all_pages)
        page ← of_option (
            to_page (record (pointers.header) {
              next_unused_page = pointers.phantom;
              sequence = s.sequence;
              track_count = u32 (length b.tracks);
            }))
        done (concat_pages (set_first page pages))

  unfoldable pub build : PdbBuilder F → Outcome (List ℕ)
  unfolding started build_tables assemble
  build b = do s ← build_tables b all_types started; assemble b s
