-- ===== src/Page.antt =====
-- crates/bvault-core/src/page.rs: the page constants, the page types and the data page builder.
-- A `Vec<u8>` is a list of numbers below 256; `usize` values do not wrap.
pub mod Capacity
pub mod Outcome
pub mod RowIndex
pub mod ReadBack
pub mod Counts
pub mod FileHeader
pub mod Index
pub mod Tests
use bvault_app.Prelude.{
  ℕ, zero, suc, ◌≡◌, refl, ◌+◌, ◌-◌, ◌*◌, ◌/◌, ◌%◌, ◌^◌, min, bit_and, bit_or, Bool, ◌&&◌, not,
  List, [], ◌∷◌, ◌++◌, ltb, leb, ◌==◌, if◌then◌else◌, length, get_or, replicate, write_at,
  write_all, Option, some, none, u8, u16, u32, le16, le32,
}

abbrev pub page_size : ℕ
page_size = 4096

abbrev pub heap_start : ℕ
heap_start = 0x28

abbrev pub row_group_size : ℕ
row_group_size = 36

abbrev pub rows_per_group : ℕ
rows_per_group = 16

abbrev pub page_flags_index : ℕ
page_flags_index = 0x64

abbrev pub page_flags_data : ℕ
page_flags_data = 0x24

abbrev pub page_flags_data_track : ℕ
page_flags_data_track = 0x34

abbrev pub empty_table_marker : ℕ
empty_table_marker = 0x03FF_FFFF

pub data PageType : Type 0 where
  tracks genres artists albums labels keys colors : PageType
  playlist_tree playlist_entries unknown9 unknown10 : PageType
  history_playlists history_entries artwork unknown14 unknown15 : PageType
  columns unknown17 unknown18 history : PageType

-- `page_type as u32`
unfoldable pub type_code : PageType → ℕ
type_code tracks = 0
type_code genres = 1
type_code artists = 2
type_code albums = 3
type_code labels = 4
type_code keys = 5
type_code colors = 6
type_code playlist_tree = 7
type_code playlist_entries = 8
type_code unknown9 = 9
type_code unknown10 = 10
type_code history_playlists = 11
type_code history_entries = 12
type_code artwork = 13
type_code unknown14 = 14
type_code unknown15 = 15
type_code columns = 16
type_code unknown17 = 17
type_code unknown18 = 18
type_code history = 19

unfoldable pub all_types : List PageType
all_types =
    tracks ∷ genres ∷ artists ∷ albums ∷ labels ∷ keys ∷ colors ∷ playlist_tree ∷ playlist_entries
    ∷ unknown9 ∷ unknown10 ∷ history_playlists ∷ history_entries ∷ artwork ∷ unknown14 ∷ unknown15
    ∷ columns ∷ unknown17 ∷ unknown18 ∷ history ∷ []

pub record PageBuilder : Type 0 where
  pub bytes : List ℕ
  pub heap_pos : ℕ
  pub row_count : ℕ
  pub page_index : ℕ
  pub page_type : PageType
  pub row_offsets : List ℕ

-- The one error that building a page can return: the bytes asked for, and those available.
pub data PageResult {ℓ} (A : Type ℓ) : Type ℓ where
  ok : A → PageResult A
  page_overflow : ℕ → ℕ → PageResult A

module _ {ℓ} {A B : Type ℓ} where
  infixl 5 ◌>>=◌
  -- The `?` operator.
  abbrev pub ◌>>=◌ : PageResult A → (A → PageResult B) → PageResult B
  page_overflow wanted available >>= next = page_overflow wanted available
  ok a >>= next = next a

  -- Inversion of a chain that succeeds.
  pub >>=-eq-ok :
      (m : PageResult A) (next : A → PageResult B) {b : B}
      → (m >>= next) ≡ ok b
      → (a : A) × (m ≡ ok a) × (next a ≡ ok b)
  >>=-eq-ok (page_overflow w n) next h = cc
  >>=-eq-ok (ok a) next h = (a, refl, h)

unfoldable pub new : ℕ → PageType → PageBuilder
new page_index page_type = record {
  bytes = replicate page_size 0;
  heap_pos = heap_start;
  row_count = 0;
  page_index = page_index;
  page_type = page_type;
  row_offsets = [];
}

unfoldable pub empty_page : List ℕ
empty_page = replicate page_size 0

-- `PAGE_SIZE - index_size` stays above 0 on every page that `write_row` builds.
pub available_space : PageBuilder → ℕ
available_space p =
    let num_groups = p.row_count / rows_per_group + 1 in
    let index_size = num_groups * row_group_size in
    let index_start = page_size - index_size in index_start - p.heap_pos

pub would_overflow : PageBuilder → ℕ → Bool
would_overflow p data_size =
    let new_row_count = p.row_count + 1 in
    let num_groups = new_row_count / rows_per_group + 1 in
    let index_size = num_groups * row_group_size in
    let index_start = page_size - index_size in ltb index_start (p.heap_pos + data_size)

-- The new state and the offset from the heap's start.
write_heap : PageBuilder → List ℕ → PageResult (PageBuilder × ℕ)
write_heap p row =
    if would_overflow p (length row)
    then page_overflow (length row) (available_space p)
    else ok (
      record p { bytes = write_at p.heap_pos row p.bytes; heap_pos = p.heap_pos + length row },
      u16 (p.heap_pos - heap_start),
    )

add_row : PageBuilder → ℕ → PageBuilder
add_row p heap_offset = record p {
  row_offsets = p.row_offsets ++ heap_offset ∷ [];
  row_count = p.row_count + 1;
}

-- Rows are padded to four bytes where the padding fits.
pad_row : PageBuilder → PageBuilder
pad_row p =
    let padding = (4 - (p.heap_pos - heap_start) % 4) % 4 in
    if ltb 0 padding && not (would_overflow p padding)
    then record p { heap_pos = p.heap_pos + padding }
    else p

pub write_row : PageBuilder → List ℕ → PageResult (PageBuilder × ℕ)
unfolding write_heap add_row pad_row
write_row p row = do (q, offset) ← write_heap p row; ok (pad_row (add_row q offset), offset)

unfoldable pub flags_of : PageType → ℕ
flags_of tracks = page_flags_data_track
flags_of history = page_flags_data_track
flags_of _ = page_flags_data

-- `(num_row_offsets << 11) | (num_rows & 0x7FF)`, on `u32`.
pub packed_row_counts : PageBuilder → ℕ
packed_row_counts p =
    let num_rows = u32 p.row_count in
    let num_row_offsets = u32 (length p.row_offsets) * 4 in
    bit_or (u32 (num_row_offsets * 2 ^ 11)) (bit_and num_rows 0x7FF)

-- The writes of `write_header`, in its order.
unfoldable pub header_writes : PageBuilder → ℕ → List (ℕ × List ℕ)
unfolding flags_of packed_row_counts available_space
header_writes p next_page =
    let packed = packed_row_counts p in
    (0x04, le32 p.page_index)
    ∷ (0x08, le32 (type_code p.page_type))
    ∷ (0x0C, le32 next_page)
    ∷ (0x10, le32 (u32 p.row_count))
    ∷ (0x18, bit_and packed 0xFF ∷ [])
    ∷ (0x19, bit_and (packed / 2 ^ 8) 0xFF ∷ [])
    ∷ (0x1A, bit_and (packed / 2 ^ 16) 0xFF ∷ [])
    ∷ (0x1B, flags_of p.page_type ∷ [])
    ∷ (0x1C, le16 (u16 (available_space p)))
    ∷ (0x1E, le16 (u16 (p.heap_pos - heap_start)))
    ∷ (0x20, le16 (u16 (u32 p.row_count)))
    ∷ []

-- The inner loop of `write_row_index`, at row `i` of a group with `left` rows to go.
write_offsets : ℕ → ℕ → ℕ → ℕ → List ℕ → List ℕ → List ℕ
write_offsets zero i group_start first_row offsets d = d
write_offsets (suc left) i group_start first_row offsets d =
    let array_pos = rows_per_group - 1 - i in
    let offset_pos = group_start + array_pos * 2 in
    write_offsets left (suc i) group_start first_row offsets
      (write_at offset_pos (le16 (get_or offsets (first_row + i) 0)) d)

pub rows_in_group : ℕ → ℕ → ℕ
rows_in_group first_row total =
    if leb total first_row then 0 else min rows_per_group (total - first_row)

pub presence_flags : ℕ → ℕ
presence_flags rows = if ltb 0 rows then u16 (2 ^ rows - 1) else 0

write_group : ℕ → List ℕ → List ℕ → List ℕ
unfolding write_offsets rows_in_group presence_flags
write_group group_idx offsets d =
    let group_start = page_size - (group_idx + 1) * row_group_size in
    let first_row = group_idx * rows_per_group in
    let rows = rows_in_group first_row (length offsets) in
    let flags = le16 (presence_flags rows) in
    write_at (group_start + 34) flags
      (write_at (group_start + 32) flags (write_offsets rows 0 group_start first_row offsets d))

-- The outer loop, at group `group_idx` with `left` groups to go.
write_groups : ℕ → ℕ → List ℕ → List ℕ → List ℕ
unfolding write_group
write_groups zero group_idx offsets d = d
write_groups (suc left) group_idx offsets d =
    write_groups left (suc group_idx) offsets (write_group group_idx offsets d)

pub num_groups_of : ℕ → ℕ
num_groups_of rows = if rows == 0 then 1 else (rows + 15) / rows_per_group

pub write_row_index : List ℕ → List ℕ → List ℕ
unfolding write_groups num_groups_of
write_row_index offsets d = write_groups (num_groups_of (length offsets)) 0 offsets d

pub finalize : PageBuilder → ℕ → List ℕ
unfolding header_writes write_row_index
finalize p next_page = write_row_index p.row_offsets (write_all (header_writes p next_page) p.bytes)

-- `for row in rows { current_page.write_row(row)?; }`, as the table builders write their rows.
unfoldable pub write_rows : PageBuilder → List (List ℕ) → PageResult PageBuilder
write_rows p [] = ok p
write_rows p (row ∷ rows) = do (q, offset) ← write_row p row; write_rows q rows
