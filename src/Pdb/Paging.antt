-- ===== src/Pdb/Paging.antt =====
-- crates/bvault-core/src/pdb.rs: the loop that the table builders share. A row that does not fit
-- goes to a new page, and the page before is finished with the new page's number.
pub mod ReadBack
pub mod Chain
pub mod Layout
pub mod Totality
pub mod SinglePage
use bvault_app.Prelude.{
  ℕ, ◌+◌, ◌≡◌, ◌∙◌, subst, ◌⊎◌, inl, inr, refl, List, [], ◌∷◌, ◌++◌, length, if◌then◌else◌, u32,
  true, false, Bool,
}
use bvault_app.Page.{
  PageBuilder, PageType, PageResult, ok, new, write_row, write_rows, would_overflow, finalize,
  empty_page, >>=-eq-ok, ◌>>=◌,
}

-- `page.would_overflow(row.len())` decides whether the page is finished with `next` as its
-- successor before the row is written.
pub write_pages : PageType → PageBuilder → ℕ → List (List ℕ) → PageResult (List (List ℕ) × ℕ)
write_pages t p next [] = ok (finalize p 0xFFFF_FFFF ∷ [], next)
write_pages t p next (row ∷ rows) =
    let full = would_overflow p (length row) in
    let page = if full then new next t else p in
    let next_idx = if full then u32 (next + 1) else next in
    let finished = if full then finalize p next ∷ [] else [] in
    do
      (q, offset) ← write_row page row
      (pages, last) ← write_pages t q next_idx rows
      ok (finished ++ pages, last)

-- The pages of a table, whether it has data, and the next free page number.
pub record DataPages : Type 0 where
  pub pages : List (List ℕ)
  pub has_data : Bool
  pub next_idx : ℕ

unfoldable pub empty_data_pages : ℕ → DataPages
empty_data_pages next = record {
  pages = empty_page ∷ [];
  has_data = false;
  next_idx = u32 (next + 1);
}

with_data : List (List ℕ) × ℕ → DataPages
with_data (pages, last) = record { pages = pages; has_data = true; next_idx = last }

-- A table without rows gets the one empty page.
unfoldable pub table_pages : PageType → ℕ → List (List ℕ) → PageResult DataPages
unfolding write_pages with_data
table_pages t next [] = ok (empty_data_pages next)
table_pages t next (row ∷ rows) = do
  written ← write_pages t (new next t) (u32 (next + 1)) (row ∷ rows)
  ok (with_data written)

-- The tables of fixed rows are one page, without a test for room.
unfoldable pub single_page : PageType → ℕ → List (List ℕ) → PageResult DataPages
unfolding with_data
single_page t next rows = do
  p ← write_rows (new next t) rows
  ok (with_data (finalize p 0xFFFF_FFFF ∷ [], u32 (next + 1)))

-- One round, for either answer of the test for room.
round : Bool → PageType → PageBuilder → ℕ → List ℕ → List (List ℕ) → PageResult (List (List ℕ) × ℕ)
unfolding write_pages
round full t p next row rows = do
  (q, offset) ← write_row (if full then new next t else p) row
  (pages, last) ← write_pages t q (if full then u32 (next + 1) else next) rows
  ok ((if full then finalize p next ∷ [] else []) ++ pages, last)

-- What a round that finishes the page has done.
pub record Turned (t : PageType) (p : PageBuilder) (next : ℕ) (row : List ℕ)
    (rows pages : List (List ℕ)) (last : ℕ) : Type 0 where
  pub page : PageBuilder
  pub offset : ℕ
  pub rest : List (List ℕ)
  pub wrote : write_row (new next t) row ≡ ok (page, offset)
  pub went : write_pages t page (u32 (next + 1)) rows ≡ ok (rest, last)
  pub whole : finalize p next ∷ rest ≡ pages

-- What a round that stays on the page has done.
pub record Stayed (t : PageType) (p : PageBuilder) (next : ℕ) (row : List ℕ)
    (rows pages : List (List ℕ)) (last : ℕ) : Type 0 where
  pub page : PageBuilder
  pub offset : ℕ
  pub wrote : write_row p row ≡ ok (page, offset)
  pub went : write_pages t page next rows ≡ ok (pages, last)

round_cases :
    (full : Bool) (t : PageType) (p : PageBuilder) (next : ℕ) (row : List ℕ)
    (rows pages : List (List ℕ)) (last : ℕ)
    → round full t p next row rows ≡ ok (pages, last)
    → Turned t p next row rows pages last ⊎ Stayed t p next row rows pages last
unfolding round
round_cases true t p next row rows pages last h =
    let ((q, offset), wrote, tail) = >>=-eq-ok _ _ h in
    let ((rest, end), went, whole) = >>=-eq-ok _ _ tail in
    let ends : end ≡ last = cc in
    let same : finalize p next ∷ rest ≡ pages = cc in
    inl (record {
      page = q;
      offset = offset;
      rest = rest;
      wrote = wrote;
      went = subst (λ n. write_pages t q (u32 (next + 1)) rows ≡ ok (rest, n)) ends went;
      whole = same;
    })
round_cases false t p next row rows pages last h =
    let ((q, offset), wrote, tail) = >>=-eq-ok _ _ h in
    let ((rest, end), went, whole) = >>=-eq-ok _ _ tail in
    inr (record { page = q; offset = offset; wrote = wrote; went = went ∙ whole })

-- A round that succeeds either finishes the page and writes the row to a new one, or writes the row
-- to the page.
pub write_pages-round :
    (t : PageType) (p : PageBuilder) (next : ℕ) (row : List ℕ) (rows pages : List (List ℕ))
    (last : ℕ)
    → write_pages t p next (row ∷ rows) ≡ ok (pages, last)
    → Turned t p next row rows pages last ⊎ Stayed t p next row rows pages last
unfolding write_pages round
write_pages-round t p next row rows pages last e =
    round_cases (would_overflow p (length row)) t p next row rows pages last e
