-- ===== src/Pdb/Paging/SinglePage.antt =====
-- The tables of fixed rows fit one page.
use bvault_app.Prelude.{ℕ, ◌+◌, ◌*◌, ◌/◌, ◌≤◌, inl, inr, arith, List, [], ◌∷◌, ◌++◌, length, u32}
use bvault_app.Page.{
  PageBuilder, PageType, PageResult, ok, page_overflow, ◌>>=◌, new, write_rows, finalize, page_size,
  heap_start, row_group_size,
}
use bvault_app.Page.Capacity.{
  IsValid, new-IsValid, write_row-IsValid, write_row_cases, write_row-heap_pos,
}
use bvault_app.Pdb.Paging.{single_page, with_data}
use bvault_app.Pdb.Paging.Totality.{Succeeds}

-- The bytes of the rows, each with its padding.
abbrev pub padded_size : List (List ℕ) → ℕ
padded_size [] = 0
padded_size (row ∷ rows) = length row + 3 + padded_size rows

write_rows-Succeeds :
    (p : PageBuilder) (old rows : List (List ℕ))
    → IsValid p old
    → p.heap_pos + padded_size rows + ((p.row_count + length rows) / 16 + 1) * row_group_size
      ≤ page_size
    → Succeeds (write_rows p rows)
unfolding write_rows
write_rows-Succeeds p old [] v h = tt
write_rows-Succeeds p old (row ∷ rows) v h = elim (write_row_cases p old row v) [
  | inl (fits, written) ↦
      let (q, offset, e) = written in
      let (heap, count) = write_row-heap_pos p q row offset v.low (omega (arith, v.room)) e in
      rw e (
        write_rows-Succeeds q (old ++ row ∷ []) rows (write_row-IsValid p q old row offset v e)
          (omega (arith, heap, count, h)))
  | inr (tight, e) ↦ absurd (tight (omega (arith, h)))
]

pub single_page-Succeeds :
    (t : PageType) (next : ℕ) (rows : List (List ℕ))
    → heap_start + padded_size rows + (length rows / 16 + 1) * row_group_size ≤ page_size
    → Succeeds (single_page t next rows)
unfolding single_page
single_page-Succeeds t next rows h =
    framed (write_rows (new next t) rows) (
      write_rows-Succeeds (new next t) [] rows (new-IsValid next t)
        (unfold new in omega (arith, h)))
  where
    framed :
        (m : PageResult PageBuilder)
        → Succeeds m
        → Succeeds (do p ← m; ok (with_data (finalize p 0xFFFF_FFFF ∷ [], u32 (next + 1))))
    framed (ok p) s = tt
    framed (page_overflow w n) s = s
