-- ===== src/Page/Tests.antt =====
-- A page with two rows.
use bvault_app.Prelude.{ℕ, ◌≡◌, refl, List, [], ◌∷◌}
use bvault_app.Page.{
  PageBuilder, PageResult, ok, page_overflow, tracks, artists, new, write_rows, write_row, finalize,
  would_overflow,
}
use bvault_app.Page.ReadBack.{read_row, read_row-write_rows}

abbrev rows : List (List ℕ)
rows = (1 ∷ 2 ∷ 3 ∷ []) ∷ (4 ∷ 5 ∷ []) ∷ []

page_of : PageResult PageBuilder → PageBuilder
page_of (ok p) = p
page_of (page_overflow w a) = new 0 tracks

page : PageBuilder
page = page_of (write_rows (new 3 artists) rows)

page_rows : write_rows (new 3 artists) rows ≡ ok page
unfolding page page_of write_row write_rows would_overflow new
page_rows = refl

read_row-write_rows_example : read_row (finalize page 9) 1 2 ≡ 4 ∷ 5 ∷ []
read_row-write_rows_example =
    read_row-write_rows 3 artists rows page 9 1 (4 ∷ 5 ∷ []) page_rows refl
