-- ===== src/Page/Outcome.antt =====
-- What writing a row to a data page gives: the page with the row, or the refusal.
use bvault_app.Prelude.{ℕ, ◌+◌, ◌*◌, ◌/◌, ◌≤◌, ◌≡◌, List, [], ◌∷◌, ◌++◌, length, slice}
use bvault_app.Page.{PageBuilder, page_size, heap_start, row_group_size}
use bvault_app.Page.Capacity.{IsValid}

-- Behind the heap, with the row, there is room for the row groups of one row more than the page has.
abbrev pub HasRoom : PageBuilder → List (List ℕ) → List ℕ → Type 0
HasRoom p rows row =
    p.heap_pos + length row + (length (rows ++ row ∷ []) / 16 + 1) * row_group_size ≤ page_size

-- `q` is the page `p` with one row more: it is valid with that row last, the bytes of the row stand at
-- the end of the heap, the heap before it is as it was, the row's offset is recorded behind the
-- others, and number and type of the page stay.
pub record IsAppended (p : PageBuilder) (rows : List (List ℕ)) (row : List ℕ) (q : PageBuilder)
    (offset : ℕ) : Type 0 where
  pub valid : IsValid q (rows ++ row ∷ [])
  pub at_end : offset + heap_start ≡ p.heap_pos
  pub there : slice (offset + heap_start) (length row) q.bytes ≡ row
  pub before : slice 0 p.heap_pos q.bytes ≡ slice 0 p.heap_pos p.bytes
  pub recorded : q.row_offsets ≡ p.row_offsets ++ offset ∷ []
  pub same_index : q.page_index ≡ p.page_index
  pub same_type : q.page_type ≡ p.page_type
