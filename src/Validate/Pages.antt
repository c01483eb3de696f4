-- ===== src/Validate/Pages.antt =====
-- The validator's view of the pages that the builders make.
use bvault_app.Prelude.{
  ℕ, ◌+◌, ◌-◌, ◌*◌, ◌/◌, ◌^◌, ◌≤◌, ◌<◌, bit_and, bit_or, ◌≡◌, refl, subst, ap, sym, ◌∙◌, ◌⊎◌, inl,
  inr, arith, Bool, some, none, List, [], ◌∷◌, ◌==◌, if◌then◌else◌, get_or, get_or-slice, le16,
  le32, of_le, of_le-le16, of_le-le32, u16,
}
use bvault_app.Prelude.Bits.{bit_and-mask, bit_or-low_first}
use bvault_app.Page.{
  PageType, tracks, history, PageBuilder, finalize, header_writes, packed_row_counts, flags_of,
  page_size, heap_start,
}
use bvault_app.Page.Capacity.{IsValid}
use bvault_app.Page.Counts.{finalize_header, row_count-lt, packed_field, packed_field-finalize}
use bvault_app.Page.Index.{finished, index_self, index_flags, index_used}
use bvault_app.Validate.{page_index_mismatch, validate_data_page, u32_at, u16_at, num_rows}

-- The flag bytes that the builders write.
IsFlag : ℕ → Type 0
IsFlag flags = (flags ≡ 0x34) ⊎ ((flags ≡ 0x24) ⊎ (flags ≡ 0x64))

flags_of-IsFlag : (t : PageType) → IsFlag (flags_of t)
unfolding flags_of IsFlag
flags_of-IsFlag tracks = inl refl
flags_of-IsFlag history = inl refl
flags_of-IsFlag _ = inr (inl refl)

-- The judgement of a page with a known number, known flags and a heap that ends in the page.
judged :
    (page : List ℕ) (expected_idx : ℕ)
    → IsFlag (get_or page 27 0)
    → u16_at page 30 ≤ page_size - heap_start
    → validate_data_page page expected_idx ≡ (
        if u32_at page 4 == expected_idx
        then none
        else some (page_index_mismatch (u32_at page 4) expected_idx))
unfolding validate_data_page IsFlag
judged page expected_idx flags used = ground (arith, flags, used)

-- A finished data page passes at its own number, and at any other is reported for that alone.
pub validate_data_page-finalize :
    (p : PageBuilder) (rows : List (List ℕ)) (next expected_idx : ℕ)
    → IsValid p rows
    → p.page_index < 2 ^ 32
    → validate_data_page (finalize p next) expected_idx ≡ (
        if p.page_index == expected_idx
        then none
        else some (page_index_mismatch p.page_index expected_idx))
validate_data_page-finalize p rows next expected_idx v small =
    let self : u32_at (finalize p next) 4 ≡ p.page_index =
      ap of_le (
        finalize_header p rows next 4 (le32 p.page_index) v (omega arith)
          (unfold header_writes in inl (refl, refl, ground arith)))
      ∙ of_le-le32 p.page_index small in
    let flag : get_or (finalize p next) 27 0 ≡ flags_of p.page_type =
      get_or-slice (finalize p next) 27 (flags_of p.page_type) 0 (
        finalize_header p rows next 27 (flags_of p.page_type ∷ []) v (omega arith) (
          unfold header_writes in
          inr (inr (inr (inr (inr (inr (inr (inl (refl, refl, ground arith)))))))))) in
    let used : u16_at (finalize p next) 30 ≡ u16 (p.heap_pos - heap_start) =
      ap of_le (
        finalize_header p rows next 30 (le16 (u16 (p.heap_pos - heap_start))) v (omega arith) (
          unfold header_writes in
          inr (inr (inr (inr (inr (inr (inr (inr (inr (inl (refl, refl, ground arith))))))))))))
      ∙ of_le-le16 (u16 (p.heap_pos - heap_start)) (omega arith) in
    judged (finalize p next) expected_idx (subst IsFlag (sym flag) (flags_of-IsFlag p.page_type))
      (omega (arith, used, v.room))
    ∙ ap (λ (i : ℕ). if i == expected_idx then none else some (page_index_mismatch i expected_idx))
        self

-- An index page passes at its own number, for every table, and at any other is reported for that
-- alone.
pub validate_data_page-finalize_index :
    (index_page : ℕ) (table : PageType) (data_page : ℕ) (has_data : Bool) (offsets expected_idx : ℕ)
    → index_page < 2 ^ 32
    → validate_data_page (finished index_page table data_page has_data offsets) expected_idx ≡ (
        if index_page == expected_idx
        then none
        else some (page_index_mismatch index_page expected_idx))
validate_data_page-finalize_index index_page table data_page has_data offsets expected_idx small =
    let page = finished index_page table data_page has_data offsets in
    let self : u32_at page 4 ≡ index_page =
      ap of_le (index_self index_page table data_page has_data offsets)
      ∙ of_le-le32 index_page small in
    let flag : get_or page 27 0 ≡ 0x64 =
      get_or-slice page 27 0x64 0 (index_flags index_page table data_page has_data offsets) in
    let used : u16_at page 30 ≡ 0 =
      ap of_le (index_used index_page table data_page has_data offsets) in
    judged page expected_idx (unfold IsFlag in inr (inr flag)) (omega (arith, used))
    ∙ ap (λ (i : ℕ). if i == expected_idx then none else some (page_index_mismatch i expected_idx))
        self

or_bytes :
    (a b c : ℕ)
    → a < 256
    → b < 256
    → bit_or (bit_or a (b * 2 ^ 8)) (c * 2 ^ 16) ≡ a + b * 2 ^ 8 + c * 2 ^ 16
or_bytes a b c ha hb =
    ap (λ (x : ℕ). bit_or x (c * 2 ^ 16)) (bit_or-low_first 8 b a ha)
    ∙ bit_or-low_first 16 c (b * 2 ^ 8 + a) (omega arith)
    ∙ omega arith

-- The validator counts the rows of a finished data page rightly: it reads the count from the bits
-- of the row offsets, which hold four times the number of rows, two places too high.
pub num_rows-finalize :
    (p : PageBuilder) (rows : List (List ℕ)) (next : ℕ)
    → IsValid p rows
    → num_rows (finalize p next) ≡ p.row_count
unfolding num_rows
num_rows-finalize p rows next v =
    let page : List ℕ = finalize p next in
    let packed : ℕ = packed_row_counts p in
    let b0 : get_or page 24 0 ≡ bit_and packed 0xFF = get_or-slice page 24 (bit_and packed 0xFF) 0 (
      finalize_header p rows next 24 (bit_and packed 0xFF ∷ []) v (omega arith)
        (unfold header_writes in inr (inr (inr (inr (inl (refl, refl, ground arith))))))) in
    let b1 : get_or page 25 0 ≡ bit_and (packed / 2 ^ 8) 0xFF =
      get_or-slice page 25 (bit_and (packed / 2 ^ 8) 0xFF) 0 (
        finalize_header p rows next 25 (bit_and (packed / 2 ^ 8) 0xFF ∷ []) v (omega arith)
          (unfold header_writes in inr (inr (inr (inr (inr (inl (refl, refl, ground arith)))))))) in
    let m0 = bit_and-mask 8 packed in
    let m1 = bit_and-mask 8 (packed / 2 ^ 8) in
    let whole : bit_or (bit_or (get_or page 24 0) (get_or page 25 0 * 2 ^ 8))
          (get_or page 26 0 * 2 ^ 16)
        ≡ packed_field page =
      or_bytes (get_or page 24 0) (get_or page 25 0) (get_or page 26 0) (omega arith)
        (omega arith) in
    let (low, high) = packed_field-finalize p rows next v in
    let few = row_count-lt p rows v in
    ap (λ (x : ℕ). bit_and (x / 2 ^ 13) 0x7FF) whole
    ∙ bit_and-mask 11 (packed_field page / 2 ^ 13)
    ∙ omega (arith, high, few)
