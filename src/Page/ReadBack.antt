-- ===== src/Page/ReadBack.antt =====
-- A finished page is read the way a player reads it: the row index, then the heap.
use bvault_app.Prelude.{
  ℕ, zero, suc, ◌+◌, ◌-◌, ◌*◌, ◌/◌, ◌%◌, ◌^◌, ◌≤◌, ◌<◌, ◌≡◌, ap, subst, ◌∙◌, inl, arith, List, [],
  ◌∷◌, ◌++◌, append_assoc, append-nil, some, length, get_or, get_elem?, of_le, of_le-le16, slice,
  AllIn, length-write_all, slice-write_all_apart,
}
use bvault_app.Page.{
  PageBuilder, PageType, ok, new, >>=-eq-ok, write_row, write_rows, finalize, header_writes,
  page_size, heap_start, row_group_size,
}
use bvault_app.Page.Capacity.{Stored, IsValid, new-IsValid, write_row-IsValid}
use bvault_app.Page.RowIndex.{
  group_start_of, length-write_row_index, write_row_index_below, write_row_index_slot,
}

-- The offset that the row index gives for row `k`, and the `n` bytes that stand there.
pub row_slot : List ℕ → ℕ → ℕ
row_slot page k = of_le (slice (group_start_of (k / 16) + (15 - k % 16) * 2) 2 page)

unfoldable pub read_row : List ℕ → ℕ → ℕ → List ℕ
unfolding row_slot
read_row page k n = slice (row_slot page k + heap_start) n page

-- `write_header` stays below the heap.
pub header_writes-AllIn : (p : PageBuilder) (next : ℕ) → AllIn 0 heap_start (header_writes p next)
unfolding header_writes
header_writes-AllIn p next = omega arith

pub length-finalize : (p : PageBuilder) (next : ℕ) → length (finalize p next) ≡ length p.bytes
unfolding finalize
length-finalize p next =
    length-write_row_index p.row_offsets _ ∙ length-write_all (header_writes p next) p.bytes

-- Heap bytes come through `finalize` unchanged.
finalize_heap :
    (p : PageBuilder) (next q n : ℕ)
    → heap_start ≤ q
    → q + n + (length p.row_offsets / 16 + 1) * row_group_size ≤ page_size
    → slice q n (finalize p next) ≡ slice q n p.bytes
unfolding finalize
finalize_heap p next q n lo hi =
    write_row_index_below p.row_offsets _ q n hi
    ∙ slice-write_all_apart 0 heap_start q n (header_writes p next) p.bytes
        (header_writes-AllIn p next) (inl lo)

finalize_slot :
    (p : PageBuilder) (next k : ℕ)
    → (length p.row_offsets / 16 + 1) * row_group_size ≤ page_size
    → length p.bytes ≡ page_size
    → k < length p.row_offsets
    → get_or p.row_offsets k 0 < 2 ^ 16
    → row_slot (finalize p next) k ≡ get_or p.row_offsets k 0
unfolding finalize row_slot
finalize_slot p next k room size h small =
    ap of_le (
      write_row_index_slot p.row_offsets _ k room
        (omega (arith, size, length-write_all (header_writes p next) p.bytes)) h)
    ∙ of_le-le16 (get_or p.row_offsets k 0) small

Stored-get_elem? :
    (d : List ℕ) (hp : ℕ) (os : List ℕ) (rs : List (List ℕ)) (k : ℕ) (r : List ℕ)
    → Stored d hp os rs
    → get_elem? rs k ≡ some r
    → (k < length os)
      × (get_or os k 0 + heap_start + length r ≤ hp)
      × (slice (get_or os k 0 + heap_start) (length r) d ≡ r)
Stored-get_elem? d hp [] [] k r s e = cc
Stored-get_elem? d hp [] (x ∷ rs) k r s e = absurd s
Stored-get_elem? d hp (o ∷ os) [] k r s e = absurd s
Stored-get_elem? d hp (o ∷ os) (x ∷ rs) zero r s e =
    let same : x ≡ r = ground arith in (omega arith, rw (← same) s.0, rw (← same) s.1)
Stored-get_elem? d hp (o ∷ os) (x ∷ rs) (suc k) r s e =
    let (a, b, c) = Stored-get_elem? d hp os rs k r s.2 e in (omega arith, b, c)

-- The row index of a valid page leads to each of its rows.
pub read_row-finalize :
    (p : PageBuilder) (rows : List (List ℕ)) (next k : ℕ) (row : List ℕ)
    → IsValid p rows
    → get_elem? rows k ≡ some row
    → read_row (finalize p next) k (length row) ≡ row
unfolding read_row
read_row-finalize p rows next k row v e =
    let (inside, below, here) =
      Stored-get_elem? p.bytes p.heap_pos p.row_offsets rows k row v.stored e in
    let room = v.room in
    let counted = v.counted in
    let low = v.low in
    let slot = finalize_slot p next k (omega arith) v.size inside (omega arith) in
    rw (ap (λ (o : ℕ). slice (o + heap_start) (length row) (finalize p next)) slot) (
      finalize_heap p next (get_or p.row_offsets k 0 + heap_start) (length row) (omega arith)
        (omega (arith, ap (λ (t : ℕ). t / 16) counted))
      ∙ here)

pub write_rows-IsValid :
    (p q : PageBuilder) (old rows : List (List ℕ))
    → IsValid p old
    → write_rows p rows ≡ ok q
    → IsValid q (old ++ rows)
unfolding write_rows
write_rows-IsValid p q old [] v e =
    rw (append-nil old) (subst (λ x. IsValid x old) (ground arith) v)
write_rows-IsValid p q old (row ∷ rows) v e =
    let ((m, offset), wrote, rest) = >>=-eq-ok (write_row p row) (λ r. write_rows r.0 rows) e in
    rw (← append_assoc old (row ∷ []) rows) (
      write_rows-IsValid m q (old ++ row ∷ []) rows (write_row-IsValid p m old row offset v wrote)
        rest)

-- Rows that were written to a new page are read back from the finished page, each under its
-- number, whatever the next page is.
pub read_row-write_rows :
    (page_index : ℕ) (page_type : PageType) (rows : List (List ℕ)) (p : PageBuilder) (next k : ℕ)
    (row : List ℕ)
    → write_rows (new page_index page_type) rows ≡ ok p
    → get_elem? rows k ≡ some row
    → read_row (finalize p next) k (length row) ≡ row
read_row-write_rows page_index page_type rows p next k row wrote found =
    read_row-finalize p rows next k row
      (write_rows-IsValid (new page_index page_type) p [] rows (new-IsValid page_index page_type)
        wrote)
      found
