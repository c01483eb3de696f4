-- ===== src/Page/Index.antt =====
-- page.rs: the index page of a table.
use bvault_app.Prelude.{
  length-write_at, length-write_all, ℕ, zero, suc, ◌+◌, ◌/◌, ◌^◌, ◌≤◌, ◌<◌, ◌≡◌, refl, ap, ◌∙◌, inl,
  inr, arith, Bool, true, false, List, [], ◌∷◌, if◌then◌else◌, length, length-replicate, replicate,
  slice, write_at, slice-write_at_below, write_all, Writes, slice-write_all, slice-write_all-Apart,
  le16, le32, of_le, of_le-le32, u32,
}
use bvault_app.Page.{PageType, tracks, history, page_size, page_flags_index, empty_table_marker}

pub record IndexPageBuilder : Type 0 where
  pub bytes : List ℕ
  pub index_page : ℕ
  pub table : PageType

unfoldable pub new_index : ℕ → PageType → IndexPageBuilder
new_index page_index page_type = record {
  bytes = replicate page_size 0;
  index_page = page_index;
  table = page_type;
}

pub is_indexed_table : PageType → Bool
is_indexed_table tracks = true
is_indexed_table history = true
is_indexed_table _ = false

-- The constants of the two indexed tables; the code's third case is never reached.
entry_value : PageType → ℕ → ℕ
entry_value tracks num_row_offsets = 19
entry_value history num_row_offsets = 323
entry_value _ num_row_offsets = num_row_offsets

-- The writes up to byte 0x3C, in order.
pub index_writes : IndexPageBuilder → ℕ → Bool → List (ℕ × List ℕ)
unfolding is_indexed_table
index_writes p data_page_index has_data =
    let flag = if is_indexed_table p.table then 1 else 0 in
    (4, le32 p.index_page)
    ∷ (8, le32 (p.index_page / 2))
    ∷ (12, le32 (u32 (p.index_page + 1)))
    ∷ (16, le32 1)
    ∷ (27, page_flags_index ∷ [])
    ∷ (0x20, (if is_indexed_table p.table then le32 1 else le32 0x1FFF_1FFF))
    ∷ (0x24, le16 0x03EC)
    ∷ (0x26, le16 flag)
    ∷ (0x28, le32 p.index_page)
    ∷ (0x2C, le32 (if has_data then data_page_index else empty_table_marker))
    ∷ (0x30, le32 0x03FF_FFFF)
    ∷ (0x38, le16 flag)
    ∷ (0x3A, le16 0x1FFF)
    ∷ []

-- `for i in (pos..).step_by(4)`, `left` times.
fill : ℕ → ℕ → List ℕ → List ℕ
fill zero pos d = d
fill (suc left) pos d = fill left (pos + 4) (write_at pos (le32 0x1FFF_FFF8) d)

-- The loops end below `PAGE_SIZE - 20`: 1,003 words from 0x40, and 1,004 from 0x3C.
pub finalize_index : IndexPageBuilder → ℕ → Bool → ℕ → List ℕ
unfolding index_writes fill entry_value
finalize_index p data_page_index has_data num_row_offsets =
    let d = write_all (index_writes p data_page_index has_data) p.bytes in
    if is_indexed_table p.table
    then fill 1003 0x40 (write_at 0x3C (le32 (entry_value p.table num_row_offsets)) d)
    else fill 1004 0x3C d

length-fill : (left pos : ℕ) (d : List ℕ) → length (fill left pos d) ≡ length d
unfolding fill
length-fill zero pos d = refl
length-fill (suc left) pos d =
    length-fill left (pos + 4) (write_at pos (le32 0x1FFF_FFF8) d)
    ∙ length-write_at pos (le32 0x1FFF_FFF8) d

-- An index page has its builder's size.
pub length-finalize_index :
    (p : IndexPageBuilder) (data_page : ℕ) (has_data : Bool) (offsets : ℕ)
    → length (finalize_index p data_page has_data offsets) ≡ length p.bytes
unfolding finalize_index
length-finalize_index p data_page has_data offsets =
    choose (is_indexed_table p.table) (write_all (index_writes p data_page has_data) p.bytes)
    ∙ length-write_all (index_writes p data_page has_data) p.bytes
  where
    choose :
        (b : Bool) (d : List ℕ)
        → length (
            if b
            then fill 1003 0x40 (write_at 0x3C (le32 (entry_value p.table offsets)) d)
            else fill 1004 0x3C d)
          ≡ length d
    choose true d =
        length-fill 1003 0x40 (write_at 0x3C (le32 (entry_value p.table offsets)) d)
        ∙ length-write_at 0x3C (le32 (entry_value p.table offsets)) d
    choose false d = length-fill 1004 0x3C d

fill_below :
    (left pos q n : ℕ) (d : List ℕ) → q + n ≤ pos → slice q n (fill left pos d) ≡ slice q n d
unfolding fill
fill_below zero pos q n d h = refl
fill_below (suc left) pos q n d h =
    fill_below left (pos + 4) q n (write_at pos (le32 0x1FFF_FFF8) d) (omega arith)
    ∙ slice-write_at_below pos q n (le32 0x1FFF_FFF8) d h

-- The entries leave the header alone.
finalize_index_header :
    (p : IndexPageBuilder) (data_page : ℕ) (has_data : Bool) (offsets q n : ℕ)
    → q + n ≤ 0x3C
    → slice q n (finalize_index p data_page has_data offsets)
      ≡ slice q n (write_all (index_writes p data_page has_data) p.bytes)
unfolding finalize_index
finalize_index_header p data_page has_data offsets q n h =
    choose (is_indexed_table p.table) (write_all (index_writes p data_page has_data) p.bytes)
  where
    choose :
        (b : Bool) (d : List ℕ)
        → slice q n (
            if b
            then fill 1003 0x40 (write_at 0x3C (le32 (entry_value p.table offsets)) d)
            else fill 1004 0x3C d)
          ≡ slice q n d
    choose true d =
        fill_below 1003 0x40 q n (write_at 0x3C (le32 (entry_value p.table offsets)) d)
          (omega arith)
        ∙ slice-write_at_below 0x3C q n (le32 (entry_value p.table offsets)) d h
    choose false d = fill_below 1004 0x3C q n d h

module _ (index_page : ℕ) (table : PageType) (data_page : ℕ) (has_data : Bool) (offsets : ℕ) where
  abbrev pub finished : List ℕ
  finished = finalize_index (new_index index_page table) data_page has_data offsets

  -- What the header's writes say of the finished finished.
  header_slice :
      (q : ℕ) (bs : List ℕ)
      → q + length bs ≤ 0x3C
      → Writes q bs (index_writes (new_index index_page table) data_page has_data)
      → slice q (length bs) finished ≡ bs
  header_slice q bs h w =
      let size : length (new_index index_page table).bytes ≡ 4096 =
        unfold new_index in length-replicate {A = ℕ} page_size 0 in
      finalize_index_header (new_index index_page table) data_page has_data offsets q (length bs) h
      ∙ slice-write_all q bs (index_writes (new_index index_page table) data_page has_data)
          (new_index index_page table).bytes w (omega (arith, size))

  pub index_self : slice 4 4 finished ≡ le32 index_page
  unfolding new_index
  index_self =
      header_slice 4 (le32 index_page) (omega arith)
        (unfold index_writes in inl (refl, refl, ground arith))

  index_self_reference : slice 0x28 4 finished ≡ le32 index_page
  unfolding new_index
  index_self_reference = header_slice 0x28 (le32 index_page) (omega arith) (
      unfold index_writes in
      inr (inr (inr (inr (inr (inr (inr (inr (inl (refl, refl, ground arith))))))))))

  index_next : slice 0x2C 4 finished ≡ le32 (if has_data then data_page else empty_table_marker)
  index_next =
      header_slice 0x2C (le32 (if has_data then data_page else empty_table_marker)) (omega arith) (
        unfold index_writes in
        inr (inr (inr (inr (inr (inr (inr (inr (inr (inl (refl, refl, ground arith)))))))))))

  pub index_flags : slice 27 1 finished ≡ page_flags_index ∷ []
  index_flags =
      header_slice 27 (page_flags_index ∷ []) (omega arith)
        (unfold index_writes in inr (inr (inr (inr (inl (refl, refl, ground arith))))))

  -- The used size of an index page is 0.
  pub index_used : slice 30 2 finished ≡ 0 ∷ 0 ∷ []
  index_used =
      finalize_index_header (new_index index_page table) data_page has_data offsets 30 2
        (omega arith)
      ∙ slice-write_all-Apart 30 2 (index_writes (new_index index_page table) data_page has_data)
          (new_index index_page table).bytes (unfold index_writes in ground arith)
      ∙ (unfold new_index in refl)

  -- An index page gives its own number, twice, and leads to the table's data page, or to the
  -- empty marker for a table without data, for page numbers of 32 bits.
  pub index_links :
      index_page < 2 ^ 32
      → data_page < 2 ^ 32
      → (of_le (slice 4 4 finished) ≡ index_page)
        × (of_le (slice 0x28 4 finished) ≡ index_page)
        × (of_le (slice 0x2C 4 finished) ≡ (if has_data then data_page else empty_table_marker))
  index_links h h' = (
    ap of_le index_self ∙ of_le-le32 index_page h,
    ap of_le index_self_reference ∙ of_le-le32 index_page h,
    ap of_le index_next
        ∙ of_le-le32 (if has_data then data_page else empty_table_marker) (ground arith),
  )
