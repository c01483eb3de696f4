-- ===== src/Page/Counts.antt =====
-- The header fields and the presence flags of a finished page.
use bvault_app.Prelude.{
  Bool-cases, ltb→lt, ltb_false→le, ℕ, zero, suc, ◌+◌, ◌*◌, ◌/◌, ◌%◌, ◌^◌, ◌≤◌, ◌<◌, bit_and,
  bit_or, ◌≡◌, refl, ap, ap₂, sym, subst, ◌∙◌, inl, inr, arith, Bool, true, ◌&&◌, ltb, ◌==◌,
  if◌then◌else◌, List, [], ◌∷◌, length, get_or, get_or-slice, of_le, of_le-le16, u32, slice, Writes,
  slice-write_all, length-write_all,
}
use bvault_app.Prelude.Bits.{bit_or-shifted, bit_and-mask}
use bvault_app.Page.{
  PageBuilder, finalize, header_writes, packed_row_counts, rows_in_group, presence_flags,
  num_groups_of, page_size, heap_start, row_group_size, rows_per_group,
}
use bvault_app.Page.Capacity.{IsValid}
use bvault_app.Page.RowIndex.{group_start_of, write_row_index_below, write_row_index_flags}

-- A header write is what the finished page holds there.
pub finalize_header :
    (p : PageBuilder) (rows : List (List ℕ)) (next q : ℕ) (bs : List ℕ)
    → IsValid p rows
    → q + length bs ≤ heap_start
    → Writes q bs (header_writes p next)
    → slice q (length bs) (finalize p next) ≡ bs
unfolding finalize
finalize_header p rows next q bs v low w =
    let (size, counted, lo, room) = fields v in
    write_row_index_below p.row_offsets _ q (length bs)
      (omega (arith, ap (λ (t : ℕ). t / 16) counted))
    ∙ slice-write_all q bs (header_writes p next) p.bytes w (omega arith)
  where
    fields :
        IsValid p rows
        → (length p.bytes ≡ page_size)
          × (p.row_count ≡ length p.row_offsets)
          × (heap_start ≤ p.heap_pos)
          × (p.heap_pos + (p.row_count / 16 + 1) * row_group_size ≤ page_size)
    fields v = (v.size, v.counted, v.low, v.room)

-- A valid page holds at most 1,791 rows, so the counts fit their bits.
pub row_count-lt : (p : PageBuilder) (rows : List (List ℕ)) → IsValid p rows → p.row_count < 1792
row_count-lt p rows v = omega (arith, v.room, v.low)

packed_as_sum :
    (p : PageBuilder) (rows : List (List ℕ))
    → IsValid p rows
    → packed_row_counts p ≡ p.row_count * 8192 + p.row_count
unfolding packed_row_counts
packed_as_sum p rows v =
    let few = row_count-lt p rows v in
    let counted = v.counted in
    let shifted : u32 (u32 (length p.row_offsets) * 4 * 2 ^ 11) ≡ p.row_count * 4 * 2 ^ 11 =
      omega arith in
    ap₂ bit_or shifted (bit_and-mask 11 (u32 p.row_count))
    ∙ bit_or-shifted 11 (p.row_count * 4) (u32 p.row_count % 2 ^ 11) (omega arith)
    ∙ omega arith

-- `page[0x18] | page[0x19] << 8 | page[0x1A] << 16`, as a number.
abbrev pub packed_field : List ℕ → ℕ
packed_field page = get_or page 0x18 0 + get_or page 0x19 0 * 2 ^ 8 + get_or page 0x1A 0 * 2 ^ 16

-- The three count bytes of a finished page hold the number of rows in their low 11 bits and four
-- times that number in their high 13 bits.
pub packed_field-finalize :
    (p : PageBuilder) (rows : List (List ℕ)) (next : ℕ)
    → IsValid p rows
    → (packed_field (finalize p next) % 2 ^ 11 ≡ p.row_count)
      × (packed_field (finalize p next) / 2 ^ 11 ≡ p.row_count * 4)
packed_field-finalize p rows next v =
    let few = row_count-lt p rows v in
    let sum = packed_as_sum p rows v in
    let packed : ℕ = packed_row_counts p in
    let b0 =
      byte 0x18 (bit_and packed 0xFF) (omega arith)
        (unfold header_writes in inr (inr (inr (inr (inl (refl, refl, omega arith)))))) in
    let b1 =
      byte 0x19 (bit_and (packed / 2 ^ 8) 0xFF) (omega arith)
        (unfold header_writes in inr (inr (inr (inr (inr (inl (refl, refl, omega arith))))))) in
    let b2 =
      byte 0x1A (bit_and (packed / 2 ^ 16) 0xFF) (omega arith) (
        unfold header_writes in
        inr (inr (inr (inr (inr (inr (inl (refl, refl, omega arith)))))))) in
    let m0 = bit_and-mask 8 packed in
    let m1 = bit_and-mask 8 (packed / 2 ^ 8) in
    let m2 = bit_and-mask 8 (packed / 2 ^ 16) in (omega arith, omega arith)
  where
    byte :
        (q b : ℕ)
        → q + 1 ≤ heap_start
        → Writes q (b ∷ []) (header_writes p next)
        → get_or (finalize p next) q 0 ≡ b
    byte q b h w =
        get_or-slice (finalize p next) q b 0 (finalize_header p rows next q (b ∷ []) v h w)

-- The flag of row `k`: bit `k % 16` of the flags of its group.
unfoldable pub row_present : List ℕ → ℕ → ℕ
row_present page k = of_le (slice (group_start_of (k / 16) + 32) 2 page) / 2 ^ (k % 16) % 2

abbrev pub as_bit : Bool → ℕ
as_bit b = if b then 1 else 0

-- Bit `i` of the flags for `r` rows, over all the values that there are.
flag_bit : ℕ → Bool
unfolding presence_flags
flag_bit x =
    let r = x / 16 in
    let i = x % 16 in
    (presence_flags r / 2 ^ i % 2 == as_bit (ltb i r)) && ltb (presence_flags r) (2 ^ 16)

-- A test that passes for every number below a bound.
passes_below : (ℕ → Bool) → ℕ → Bool
passes_below test zero = true
passes_below test (suc bound) = passes_below test bound && test bound

passes_below-at :
    (test : ℕ → Bool) (bound x : ℕ) → x < bound → passes_below test bound ≡ true → test x ≡ true
unfolding passes_below
passes_below-at test (suc bound) x below h = elim (Bool-cases (ltb x bound)) [
  | inl t ↦ passes_below-at test bound x (ltb→lt x bound t) (ground arith)
  | inr f ↦
      let last : bound ≡ x = omega (arith, ltb_false→le x bound f) in
      subst (λ y. test y ≡ true) last (ground arith)
]
passes_below-at test zero x below h = absurd (omega arith)

flag_table : passes_below flag_bit 272 ≡ true
unfolding passes_below flag_bit
flag_table = refl

presence_flags_bits :
    (r i : ℕ)
    → r ≤ 16
    → i < 16
    → (presence_flags r / 2 ^ i % 2 ≡ as_bit (ltb i r)) × (presence_flags r < 2 ^ 16)
unfolding flag_bit
presence_flags_bits r i hr hi =
    let x : ℕ = r * 16 + i in
    let er : x / 16 ≡ r = omega arith in
    let ei : x % 16 ≡ i = omega arith in
    let entry : flag_bit x ≡ true = passes_below-at flag_bit 272 x (omega arith) flag_table in
    read r i (sym (ap₂ body er ei) ∙ entry)
  where
    body : ℕ → ℕ → Bool
    body r i = (presence_flags r / 2 ^ i % 2 == as_bit (ltb i r)) && ltb (presence_flags r) (2 ^ 16)

    read :
        (r i : ℕ)
        → body r i ≡ true
        → (presence_flags r / 2 ^ i % 2 ≡ as_bit (ltb i r)) × (presence_flags r < 2 ^ 16)
    read r i h = ground arith

rows_in_group-le : (first total : ℕ) → rows_in_group first total ≤ 16
unfolding rows_in_group
rows_in_group-le first total = ground arith

-- The flag of row `k` is set exactly when the page has a row `k`, in every group that is written.
pub row_present-finalize :
    (p : PageBuilder) (rows : List (List ℕ)) (next k : ℕ)
    → IsValid p rows
    → k / 16 < num_groups_of p.row_count
    → row_present (finalize p next) k ≡ as_bit (ltb k p.row_count)
unfolding row_present finalize
row_present-finalize p rows next k v h =
    let n : ℕ = rows_in_group (k / 16 * rows_per_group) (length p.row_offsets) in
    let (bit, small) = presence_flags_bits n (k % 16) (rows_in_group-le _ _) (omega arith) in
    let counted = v.counted in
    let room = v.room in
    let low = v.low in
    ap (λ (x : ℕ). x / 2 ^ (k % 16) % 2)
      (ap of_le (
          write_row_index_flags p.row_offsets _ (k / 16)
            (omega (arith, ap (λ (t : ℕ). t / 16) counted))
            (omega (arith, v.size, length-write_all (header_writes p next) p.bytes))
            (subst (λ x. k / 16 < num_groups_of x) counted h))
        ∙ of_le-le16 (presence_flags n) small)
    ∙ bit
    ∙ same (length p.row_offsets) (sym counted)
  where
    same :
        (m : ℕ)
        → m ≡ p.row_count
        → as_bit (ltb (k % 16) (rows_in_group (k / 16 * rows_per_group) m))
          ≡ as_bit (ltb k p.row_count)
    same m e = unfold rows_in_group in ground arith
