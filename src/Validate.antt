-- ===== src/Validate.antt =====
-- crates/bvault-core/src/validate.rs: the validator of a database file. The messages are the
-- constructors of `Complaint` and `PageError`; printing is left out.
pub mod Pages
pub mod Chains
pub mod Soundness
pub mod Tests
use bvault_app.Prelude.{
  ℕ, zero, suc, ◌+◌, ◌-◌, ◌*◌, ◌/◌, ◌%◌, ◌^◌, bit_and, bit_or, Bool, true, false, not, ◌&&◌, ◌||◌,
  Option, some, none, List, [], ◌∷◌, ◌++◌, ltb, leb, ◌==◌, if◌then◌else◌, length, get_or, slice,
  of_le, u32,
}
use bvault_app.Page.{page_size, heap_start}

pub record PdbStats : Type 0 where
  pub total_pages : ℕ
  pub track_count : ℕ
  pub artist_count : ℕ
  pub album_count : ℕ
  pub genre_count : ℕ
  pub key_count : ℕ
  pub playlist_count : ℕ
  pub playlist_entry_count : ℕ

pub data PageError : Type 0 where
  page_index_mismatch : ℕ → ℕ → PageError
  unexpected_page_flags : ℕ → PageError
  used_size_exceeds : ℕ → PageError

pub data Complaint : Type 0 where
  file_too_small not_aligned invalid_page_size many_tables : ℕ → Complaint
  next_unused_page_exceeds : ℕ → ℕ → Complaint
  pointer_beyond_header : ℕ → ℕ → Complaint
  first_page_exceeds last_page_exceeds : ℕ → ℕ → ℕ → Complaint
  page_fault : ℕ → PageError → Complaint

pub record ValidationResult : Type 0 where
  pub valid : Bool
  pub stats : PdbStats
  pub errors : List Complaint
  pub warnings : List Complaint

abbrev no_stats : PdbStats
no_stats = record {
  total_pages = 0;
  track_count = 0;
  artist_count = 0;
  album_count = 0;
  genre_count = 0;
  key_count = 0;
  playlist_count = 0;
  playlist_entry_count = 0;
}

abbrev fresh_result : ValidationResult
fresh_result = record { valid = true; stats = no_stats; errors = []; warnings = [] }

abbrev add_error : Complaint → ValidationResult → ValidationResult
add_error c r = record r { valid = false; errors = r.errors ++ c ∷ [] }

abbrev add_warning : Complaint → ValidationResult → ValidationResult
add_warning c r = record r { warnings = r.warnings ++ c ∷ [] }

-- `u32::from_le_bytes` of the four bytes at an offset, and `u16::from_le_bytes` of two.
abbrev pub u32_at : List ℕ → ℕ → ℕ
u32_at page offset = of_le (slice offset 4 page)

abbrev pub u16_at : List ℕ → ℕ → ℕ
u16_at page offset = of_le (slice offset 2 page)

abbrev pub page_at : List ℕ → ℕ → List ℕ
page_at bytes page_idx = slice (page_idx * page_size) page_size bytes

pub num_rows : List ℕ → ℕ
num_rows page =
    let packed =
      bit_or (bit_or (get_or page 24 0) (get_or page 25 0 * 2 ^ 8)) (get_or page 26 0 * 2 ^ 16) in
    bit_and (packed / 2 ^ 13) 0x7FF

pub contains : ℕ → List ℕ → Bool
contains page [] = false
contains page (v ∷ visited) = page == v || contains page visited

-- The loop of `count_table_rows`, with `fuel` steps at most; `none` where they do not suffice.
pub count_from : ℕ → List ℕ → ℕ → List ℕ → ℕ → ℕ → Option ℕ
unfolding num_rows contains
count_from zero bytes max_pages visited total current = none
count_from (suc fuel) bytes max_pages visited total current =
    let page = page_at bytes current in
    let rest =
      count_from fuel bytes max_pages (current ∷ visited) (u32 (total + num_rows page))
        (u32_at page 12) in
    if ltb current max_pages && not (current == 0xFFFF_FFFF)
    then (if contains current visited then some total else rest)
    else some total

pub count_table_rows : List ℕ → ℕ → ℕ → Option ℕ
unfolding count_from
count_table_rows bytes first_page max_pages =
    count_from (suc max_pages) bytes max_pages [] 0 first_page

set_count : ℕ → ℕ → PdbStats → PdbStats
set_count table_type n s =
    if table_type == 0
    then record s { track_count = n }
    else if table_type == 1
    then record s { genre_count = n }
    else if table_type == 2
    then record s { artist_count = n }
    else if table_type == 3
    then record s { album_count = n }
    else if table_type == 5
    then record s { key_count = n }
    else if table_type == 7
    then record s { playlist_count = n }
    else if table_type == 8
    then record s { playlist_entry_count = n }
    else s

-- The count goes to the statistics; the fuel suffices, so there is one.
counted : ℕ → Option ℕ → ValidationResult → ValidationResult
unfolding set_count
counted table_type none r = r
counted table_type (some row_count) r = record r { stats = set_count table_type row_count r.stats }

-- The count of a table's rows, where its first page is a page.
count_table : List ℕ → ℕ → ℕ → ℕ → ValidationResult → ValidationResult
unfolding count_table_rows counted
count_table bytes actual_pages table_type first_page r =
    if ltb 0 first_page && ltb first_page actual_pages
    then counted table_type (count_table_rows bytes first_page actual_pages) r
    else r

-- The body of the loop over the table pointers, up to the test of the header's end.
check_table : ℕ → List ℕ → ℕ → ValidationResult → ValidationResult
unfolding count_table
check_table i bytes actual_pages r =
    let ptr_offset = 28 + i * 16 in
    let table_type = u32_at bytes ptr_offset in
    let first_page = u32_at bytes (ptr_offset + 8) in
    let last_page = u32_at bytes (ptr_offset + 12) in
    if not (first_page == 0) && leb actual_pages first_page
    then add_error (first_page_exceeds i table_type first_page) r
    else if not (last_page == 0xFFFF_FFFF) && leb actual_pages last_page
    then add_error (last_page_exceeds i table_type last_page) r
    else count_table bytes actual_pages table_type first_page r

-- The loop, at pointer `i` with `left` to go; it stops at the end of the header page.
check_tables : ℕ → ℕ → List ℕ → ℕ → ValidationResult → ValidationResult
unfolding check_table
check_tables zero i bytes actual_pages r = r
check_tables (suc left) i bytes actual_pages r =
    let ptr_offset = 28 + i * 16 in
    let rest = check_tables left (suc i) bytes actual_pages (check_table i bytes actual_pages r) in
    if ltb page_size (ptr_offset + 16)
    then add_error (pointer_beyond_header i ptr_offset) r
    else rest

-- `None` stands for `Ok(())`.
pub validate_data_page : List ℕ → ℕ → Option PageError
validate_data_page page expected_idx =
    let stored_idx = u32_at page 4 in
    let flags = get_or page 27 0 in
    let used_size = u16_at page 30 in
    if not (stored_idx == expected_idx)
    then some (page_index_mismatch stored_idx expected_idx)
    else if not (flags == 0x34) && not (flags == 0x00) && not (flags == 0x24) && not (flags == 0x64)
    then some (unexpected_page_flags flags)
    else if ltb (page_size - heap_start) used_size
    then some (used_size_exceeds used_size)
    else none

noted : ℕ → Option PageError → ValidationResult → ValidationResult
noted page_idx none r = r
noted page_idx (some e) r = add_warning (page_fault page_idx e) r

-- The loop over the pages, at page `page_idx` with `left` to go.
check_pages : ℕ → ℕ → List ℕ → ValidationResult → ValidationResult
unfolding validate_data_page noted
check_pages zero page_idx bytes r = r
check_pages (suc left) page_idx bytes r =
    check_pages left (suc page_idx) bytes
      (noted page_idx (validate_data_page (page_at bytes page_idx) page_idx) r)

-- What follows the test of the header's page size.
check_body : List ℕ → ℕ → ValidationResult
unfolding check_tables check_pages
check_body bytes actual_pages =
    let num_tables = u32_at bytes 8 in
    let next_unused_page = u32_at bytes 12 in
    let r0 =
      if ltb 20 num_tables
      then add_warning (many_tables num_tables) fresh_result
      else fresh_result in
    let r1 = record r0 { stats = record no_stats { total_pages = next_unused_page } } in
    let r2 =
      if ltb actual_pages next_unused_page
      then add_error (next_unused_page_exceeds next_unused_page actual_pages) r1
      else r1 in
    let r3 = check_tables num_tables 0 bytes actual_pages r2 in
    check_pages (actual_pages - 1) 1 bytes r3

-- The header page is the file's first, so its fields are read from the file itself.
pub validate_pdb : List ℕ → ValidationResult
unfolding check_body
validate_pdb bytes =
    if ltb (length bytes) page_size
    then add_error (file_too_small (length bytes)) fresh_result
    else if not (length bytes % page_size == 0)
    then add_error (not_aligned (length bytes)) fresh_result
    else if not (u32_at bytes 4 == page_size)
    then add_error (invalid_page_size (u32_at bytes 4)) fresh_result
    else check_body bytes (u32 (length bytes / page_size))
