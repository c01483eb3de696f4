-- ===== src/Pdb/Paging/ReadBack.antt =====
-- The pages of a table hold its rows, in order.
use bvault_app.Prelude.{
  ℕ, suc, ◌+◌, ◌≡◌, refl, ap, ap₂, sym, ◌∙◌, inl, inr, List, [], ◌∷◌, ◌++◌, map, map-append,
  append_assoc, length, take, drop, get_elem?, some, u32, subst, length-map, take-append_exact,
  drop-append_exact,
}
use bvault_app.Page.{PageBuilder, PageType, ok, >>=-eq-ok, new, finalize}
use bvault_app.Page.Capacity.{IsValid, Stored, new-IsValid, write_row-IsValid}
use bvault_app.Page.ReadBack.{read_row, read_row-finalize}
use bvault_app.Validate.{num_rows}
use bvault_app.Validate.Pages.{num_rows-finalize}
use bvault_app.Pdb.Paging.{write_pages, write_pages-round, DataPages, table_pages, with_data}

-- Rows `k`, `k + 1`, … of a page, of the lengths given.
unfoldable pub read_rows : List ℕ → ℕ → List ℕ → List (List ℕ)
read_rows page k [] = []
read_rows page k (n ∷ ns) = read_row page k n ∷ read_rows page (suc k) ns

-- A table is read page by page, each for the number of rows in its header.
unfoldable pub read_table : List (List ℕ) → List ℕ → List (List ℕ)
unfolding read_rows
read_table [] lengths = []
read_table (page ∷ pages) lengths =
    read_rows page 0 (take (num_rows page) lengths)
    ++ read_table pages (drop (num_rows page) lengths)

get_elem?-append_exact :
    {A : Type 0} (xs : List A) (y : A) (ys : List A) → get_elem? (xs ++ y ∷ ys) (length xs) ≡ some y
get_elem?-append_exact [] y ys = refl
get_elem?-append_exact (x ∷ xs) y ys = get_elem?-append_exact xs y ys

Stored-length :
    (d : List ℕ) (hp : ℕ) (os : List ℕ) (rs : List (List ℕ))
    → Stored d hp os rs
    → length os ≡ length rs
Stored-length d hp [] [] s = refl
Stored-length d hp [] (r ∷ rs) s = absurd s
Stored-length d hp (o ∷ os) [] s = absurd s
Stored-length d hp (o ∷ os) (r ∷ rs) s = ap suc (Stored-length d hp os rs s.2)

pub row_count-length :
    (p : PageBuilder) (rows : List (List ℕ)) → IsValid p rows → p.row_count ≡ length rows
row_count-length p rows v = v.counted ∙ Stored-length p.bytes p.heap_pos p.row_offsets rows v.stored

-- The rows after the first ones of a finished page.
read_rows_from :
    (p : PageBuilder) (next : ℕ) (before rows : List (List ℕ))
    → IsValid p (before ++ rows)
    → read_rows (finalize p next) (length before) (map length rows) ≡ rows
unfolding read_rows
read_rows_from p next before [] v = refl
read_rows_from p next before (row ∷ rows) v =
    let later = before ++ row ∷ [] in
    let k : length later ≡ suc (length before) = snoc_length before row in
    ap₂ ◌∷◌
      (read_row-finalize p (before ++ row ∷ rows) next (length before) row v
        (get_elem?-append_exact before row rows))
      (subst (λ (i : ℕ). read_rows (finalize p next) i (map length rows) ≡ rows) k
        (read_rows_from p next later rows (rw (append_assoc before (row ∷ []) rows) v)))
  where
    snoc_length : (xs : List (List ℕ)) (x : List ℕ) → length (xs ++ x ∷ []) ≡ suc (length xs)
    snoc_length [] x = refl
    snoc_length (y ∷ ys) x = ap suc (snoc_length ys x)

read_table_page :
    (p : PageBuilder) (next : ℕ) (old : List (List ℕ)) (pages rows : List (List ℕ))
    → IsValid p old
    → read_table pages (map length rows) ≡ rows
    → read_table (finalize p next ∷ pages) (map length (old ++ rows)) ≡ old ++ rows
unfolding read_table
read_table_page p next old pages rows v ih =
    let count : num_rows (finalize p next) ≡ length (map length old) =
      num_rows-finalize p old next v ∙ row_count-length p old v ∙ sym (length-map length old) in
    rw (map-append length old rows) (
      ap₂ ◌++◌
        (ap (read_rows (finalize p next) 0)
            (take-append_exact _ (map length old) (map length rows) count)
          ∙ read_rows_from p next [] old v)
        (ap (read_table pages) (drop-append_exact _ (map length old) (map length rows) count) ∙ ih))

pub write_pages-read :
    (t : PageType) (p : PageBuilder) (next : ℕ) (old rows pages : List (List ℕ)) (last : ℕ)
    → IsValid p old
    → write_pages t p next rows ≡ ok (pages, last)
    → read_table pages (map length (old ++ rows)) ≡ old ++ rows
write_pages-read t p next old [] pages last v e =
    let same : finalize p 0xFFFF_FFFF ∷ [] ≡ pages = unfold write_pages in cc in
    subst (λ ps. read_table ps (map length (old ++ [])) ≡ old ++ []) same
      (read_table_page p 0xFFFF_FFFF old [] [] v (unfold read_table in refl))
write_pages-read t p next old (row ∷ rows) pages last v e =
    elim (write_pages-round t p next row rows pages last e) [
      | inl r ↦
          subst (λ ps. read_table ps (map length (old ++ row ∷ rows)) ≡ old ++ row ∷ rows) r.whole
            (read_table_page p next old r.rest (row ∷ rows) v (
              write_pages-read t r.page (u32 (next + 1)) (row ∷ []) rows r.rest last
                (write_row-IsValid (new next t) r.page [] row r.offset (new-IsValid next t) r.wrote)
                r.went))
      | inr r ↦
          let ih =
            write_pages-read t r.page next (old ++ row ∷ []) rows pages last
              (write_row-IsValid p r.page old row r.offset v r.wrote) r.went in
          subst (λ all. read_table pages (map length all) ≡ all) (append_assoc old (row ∷ []) rows)
            ih
    ]

-- Where a table's pages are built, the rows given are read back from them, in order and across
-- the pages, each page for as many rows as its header counts.
pub read_table-table_pages :
    (t : PageType) (next : ℕ) (row : List ℕ) (rows : List (List ℕ)) (built : DataPages)
    → table_pages t next (row ∷ rows) ≡ ok built
    → read_table built.pages (map length (row ∷ rows)) ≡ row ∷ rows
unfolding table_pages
read_table-table_pages t next row rows built e =
    let ((pages, last), wrote, made) = >>=-eq-ok _ _ e in
    let same : pages ≡ built.pages = unfold with_data in cc in
    subst (λ ps. read_table ps (map length (row ∷ rows)) ≡ row ∷ rows) same
      (write_pages-read t (new next t) (u32 (next + 1)) [] (row ∷ rows) pages last
        (new-IsValid next t) wrote)
