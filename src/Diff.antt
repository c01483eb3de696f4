-- ===== src/Diff.antt =====
-- crates/bvault-core/src/diff.rs: the comparison of two database files, page by page. The report's
-- text is left out.
pub mod Identical
pub mod Tests
use Prim.Native.String.{String}
use bvault_app.Prelude.{
  ℕ, zero, suc, ◌+◌, ◌-◌, ◌*◌, ◌/◌, min, Bool, true, false, not, ◌&&◌, Option, some, none, List, [],
  ◌∷◌, ◌++◌, length, take, range, slice, get_or, ltb, leb, ◌==◌, if◌then◌else◌, u32, of_le, map,
}
use bvault_app.Text.{text_equal}
use bvault_app.Page.{page_size}

pub record ByteRange : Type 0 where
  pub start : ℕ
  pub end : ℕ
  pub golden : List ℕ
  pub mine : List ℕ
  pub field : String

-- A page's label: a fixed name, or `type` with a number.
pub data Label : Type 0 where
  name : String → Label
  type_number : ℕ → Label

pub record PageDiff : Type 0 where
  pub index : ℕ
  pub table : Label
  pub ranges : List ByteRange

pub record PdbDiff : Type 0 where
  pub golden_pages : ℕ
  pub mine_pages : ℕ
  pub diffs : List PageDiff
  pub only_in_golden : List ℕ
  pub only_in_mine : List ℕ

unfoldable pub is_empty : {A : Type 0} → List A → Bool
is_empty [] = true
is_empty (a ∷ xs) = false

unfoldable pub is_identical : PdbDiff → Bool
unfolding is_empty
is_identical d = is_empty d.diffs && (is_empty d.only_in_golden && is_empty d.only_in_mine)

abbrev pub gap : ℕ
gap = 3

-- `g[i] != m[i]`
unfoldable pub differs : List ℕ → List ℕ → ℕ → Bool
differs g m i = not (get_or g i 0 == get_or m i 0)

-- One turn of the outer loop: a run from `i` on, or nothing at `i`, or the end of the page.
unfoldable pub turn : Bool → Bool → ℕ × ℕ → List (ℕ × ℕ) → List (ℕ × ℕ) → List (ℕ × ℕ)
turn true true run after_run after_byte = run ∷ after_run
turn true false run after_run after_byte = after_byte
turn false different run after_run after_byte = []

module _ (g m : List ℕ) where
  -- The next difference from `j` on, within `left` bytes.
  unfoldable pub look_ahead : ℕ → ℕ → Option ℕ
  unfolding differs
  look_ahead zero j = none
  look_ahead (suc left) j =
      let rest = look_ahead left (suc j) in
      if ltb j page_size then (if differs g m j then some j else rest) else none

  -- One turn of the inner loop: the next `i` and `end`, unless the run is over.
  unfoldable pub extend : ℕ → ℕ → Option (ℕ × ℕ)
  unfolding differs look_ahead
  extend i end =
      let jump : Option (ℕ × ℕ) = elim (look_ahead gap i) [
        | none ↦ none
        | some j ↦ some (j, end)
      ] in
      if ltb i page_size then (if differs g m i then some (suc i, i) else jump) else none

  -- The inner loop: where it leaves `i` and `end`. It takes at most two turns for a byte.
  unfoldable pub run_from : ℕ → ℕ → ℕ → ℕ × ℕ
  unfolding extend
  run_from zero i end = (i, end)
  run_from (suc fuel) i end = elim (extend i end) [
    | none ↦ (i, end)
    | some (i', end') ↦ run_from fuel i' end'
  ]

  -- The outer loop, each turn of which moves `i` on.
  unfoldable pub raw_ranges : ℕ → ℕ → List (ℕ × ℕ)
  unfolding differs run_from turn
  raw_ranges zero i = []
  raw_ranges (suc fuel) i =
      let (next, end) = run_from (2 * page_size) (suc i) i in
      let here = raw_ranges fuel next in
      let later = raw_ranges fuel (suc i) in
      turn (ltb i page_size) (differs g m i) (i, end) here later

unfoldable pub clip : List ℕ → List ℕ
clip b = if ltb 16 (length b) then take 16 b else b

unfoldable pub header_field : ℕ → String
header_field off =
    if leb off 0x03
    then "fh:zero"
    else if leb off 0x07
    then "fh:page_size"
    else if leb off 0x0B
    then "fh:num_tables"
    else if leb off 0x0F
    then "fh:next_unused_page"
    else if leb off 0x13
    then "fh:unknown"
    else if leb off 0x17
    then "fh:sequence"
    else if leb off 0x1B
    then "fh:gap"
    else "fh:table_pointers"

unfoldable pub page_field : ℕ → String
page_field off =
    if leb off 0x03
    then "zero"
    else if leb off 0x07
    then "page_index"
    else if leb off 0x0B
    then "page_type"
    else if leb off 0x0F
    then "next_page"
    else if leb off 0x13
    then "sequence"
    else if leb off 0x17
    then "unknown"
    else if leb off 0x1A
    then "packed_counts"
    else if off == 0x1B
    then "flags"
    else if leb off 0x1D
    then "free_size"
    else if leb off 0x1F
    then "used_size"
    else if leb off 0x27
    then "page_hdr_tail"
    else "heap/row-data"

unfoldable pub annotate : ℕ → ℕ → String
unfolding header_field page_field
annotate index off = if index == 0 then header_field off else page_field off

abbrev pub type_names : List String
type_names =
    "Tracks" ∷ "Genres" ∷ "Artists" ∷ "Albums" ∷ "Labels" ∷ "Keys" ∷ "Colors" ∷ "PlaylistTree"
    ∷ "PlaylistEntries" ∷ "Unknown9" ∷ "Unknown10" ∷ "HistoryPlaylists" ∷ "HistoryEntries"
    ∷ "Artwork" ∷ "Unknown14" ∷ "Unknown15" ∷ "Columns" ∷ "Unknown17" ∷ "Unknown18" ∷ "History" ∷ []

unfoldable pub page_type_name : ℕ → Label
page_type_name ty = if ltb ty 20 then name (get_or type_names ty "") else type_number ty

unfoldable pub page_label : ℕ → List ℕ → Label
unfolding page_type_name
page_label index page =
    if index == 0 then name "File Header" else page_type_name (of_le (slice 0x08 4 page))

unfoldable pub range_of : ℕ → List ℕ → List ℕ → ℕ × ℕ → ByteRange
unfolding clip annotate
range_of index g m (start, end) = record {
  start = start;
  end = end;
  golden = clip (slice start (end + 1 - start) g);
  mine = clip (slice start (end + 1 - start) m);
  field = annotate index start;
}

unfoldable pub diff_page : ℕ → List ℕ → List ℕ → List ByteRange
unfolding raw_ranges range_of
diff_page index g m = map (range_of index g m) (raw_ranges g m page_size 0)

-- Equal pages and pages without ranges are left out.
unfoldable pub listed : Bool → Bool → PageDiff → List PageDiff
listed true no_ranges d = []
listed false true d = []
listed false false d = d ∷ []

unfoldable pub page_diff : ℕ → List ℕ → List ℕ → List PageDiff
unfolding diff_page page_label is_empty listed
page_diff idx g m =
    let ranges = diff_page (u32 idx) g m in
    listed (text_equal g m) (is_empty ranges)
      (record { index = u32 idx; table = page_label (u32 idx) g; ranges = ranges })

-- The loop over the pages, at page `idx` with `left` to go.
unfoldable pub page_diffs : ℕ → ℕ → List ℕ → List ℕ → List PageDiff
unfolding page_diff
page_diffs zero idx golden mine = []
page_diffs (suc left) idx golden mine =
    page_diff idx (slice (idx * page_size) page_size golden)
      (slice (idx * page_size) page_size mine)
    ++ page_diffs left (suc idx) golden mine

unfoldable pub diff_pdb : List ℕ → List ℕ → PdbDiff
unfolding page_diffs
diff_pdb golden mine =
    let gp = length golden / page_size in
    let mp = length mine / page_size in
    let compared = min gp mp in
    record {
      golden_pages = gp;
      mine_pages = mp;
      diffs = page_diffs compared 0 golden mine;
      only_in_golden = map (λ i. u32 i) (range compared (gp - compared));
      only_in_mine = map (λ i. u32 i) (range compared (mp - compared));
    }
