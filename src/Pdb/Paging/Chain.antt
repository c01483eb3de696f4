-- ===== src/Pdb/Paging/Chain.antt =====
-- The pages of a table are numbered from the first on and linked in that order.
use bvault_app.Prelude.{
  ℕ, suc, ◌+◌, ◌^◌, ◌<◌, ◌≡◌, refl, ap, ◌∙◌, inl, inr, arith, List, [], ◌∷◌, ◌++◌, length, none,
  u32, subst, le32, of_le, of_le-le32,
}
use bvault_app.Page.{PageBuilder, PageType, ok, >>=-eq-ok, new, finalize, header_writes}
use bvault_app.Page.Capacity.{IsValid, new-IsValid, write_row-IsValid, write_row-page_index}
use bvault_app.Page.Counts.{finalize_header}
use bvault_app.Validate.{u32_at, validate_data_page}
use bvault_app.Validate.Pages.{validate_data_page-finalize}
use bvault_app.Pdb.Paging.{write_pages, write_pages-round, DataPages, table_pages, with_data}

-- Pages `first`, `first + 1`, …, each of them sound for the validator under its number and leading
-- to the one behind it, the last to the end marker.
unfoldable pub IsChain : ℕ → List (List ℕ) → Type 0
IsChain first [] = ⊥
IsChain first (page ∷ []) =
    (validate_data_page page first ≡ none) × (u32_at page 0x0C ≡ 0xFFFF_FFFF)
IsChain first (page ∷ next ∷ pages) =
    (validate_data_page page first ≡ none)
    × (u32_at page 0x0C ≡ suc first)
    × IsChain (suc first) (next ∷ pages)

link :
    (p : PageBuilder) (rows : List (List ℕ)) (next : ℕ)
    → IsValid p rows
    → next < 2 ^ 32
    → u32_at (finalize p next) 0x0C ≡ next
link p rows next v small =
    ap of_le (
      finalize_header p rows next 0x0C (le32 next) v (omega arith)
        (unfold header_writes in inr (inr (inl (refl, refl, ground arith)))))
    ∙ of_le-le32 next small

sound :
    (p : PageBuilder) (rows : List (List ℕ)) (next : ℕ)
    → IsValid p rows
    → p.page_index < 2 ^ 32
    → validate_data_page (finalize p next) p.page_index ≡ none
sound p rows next v small =
    validate_data_page-finalize p rows next p.page_index v small ∙ ground arith

IsChain-cons :
    (first : ℕ) (page : List ℕ) (pages : List (List ℕ))
    → validate_data_page page first ≡ none
    → u32_at page 0x0C ≡ suc first
    → IsChain (suc first) pages
    → IsChain first (page ∷ pages)
unfolding IsChain
IsChain-cons first page [] a b c = absurd c
IsChain-cons first page (q ∷ qs) a b c = (a, b, c)

write_pages-IsChain :
    (t : PageType) (p : PageBuilder) (first next : ℕ) (old rows pages : List (List ℕ)) (last : ℕ)
    → IsValid p old
    → p.page_index ≡ first
    → next ≡ suc first
    → next + length rows < 2 ^ 32
    → write_pages t p next rows ≡ ok (pages, last)
    → IsChain first pages × (last ≡ first + length pages)
write_pages-IsChain t p first next old [] pages last v i n small e =
    let same : finalize p 0xFFFF_FFFF ∷ [] ≡ pages = unfold write_pages in cc in
    let ends : next ≡ last = unfold write_pages in cc in
    let here = sound p old 0xFFFF_FFFF v (omega arith) in
    let end = link p old 0xFFFF_FFFF v (omega arith) in
    (
      subst (IsChain first) same (
          unfold IsChain in
          (subst (λ k. validate_data_page (finalize p 0xFFFF_FFFF) k ≡ none) i here, end)),
      omega (arith, ap length same),
    )
write_pages-IsChain t p first next old (row ∷ rows) pages last v i n small e =
    elim (write_pages-round t p next row rows pages last e) [
      | inl r ↦
          let start : u32 (next + 1) ≡ suc next = omega arith in
          let here = sound p old next v (omega arith) in
          let (chain, ends) =
            write_pages-IsChain t r.page next (u32 (next + 1)) (row ∷ []) rows r.rest last
              (write_row-IsValid (new next t) r.page [] row r.offset (new-IsValid next t) r.wrote)
              (write_row-page_index (new next t) r.page row r.offset r.wrote ∙ (unfold new in refl))
              start (omega arith) r.went in
          (
            subst (IsChain first) r.whole (
                IsChain-cons first (finalize p next) r.rest
                  (subst (λ k. validate_data_page (finalize p next) k ≡ none) i here)
                  (link p old next v (omega arith) ∙ n) (subst (λ k. IsChain k r.rest) n chain)),
            omega (arith, ap length r.whole),
          )
      | inr r ↦
          write_pages-IsChain t r.page first next (old ++ row ∷ []) rows pages last
            (write_row-IsValid p r.page old row r.offset v r.wrote)
            (write_row-page_index p r.page row r.offset r.wrote ∙ i) n (omega arith) r.went
    ]

-- Where a table's pages are built, they are numbered from the table's first data page on, the
-- validator finds nothing wrong with any of them under its number, each leads to the one behind
-- it and the last to the end marker, and the next free number follows the last, as long as the
-- page numbers stay within 32 bits.
pub table_pages-IsChain :
    (t : PageType) (next : ℕ) (row : List ℕ) (rows : List (List ℕ)) (built : DataPages)
    → next + length rows + 2 < 2 ^ 32
    → table_pages t next (row ∷ rows) ≡ ok built
    → IsChain next built.pages × (built.next_idx ≡ next + length built.pages)
unfolding table_pages
table_pages-IsChain t next row rows built small e =
    let ((pages, last), wrote, made) = >>=-eq-ok _ _ e in
    let same : pages ≡ built.pages = unfold with_data in cc in
    let ends : last ≡ built.next_idx = unfold with_data in cc in
    let (chain, after) =
      write_pages-IsChain t (new next t) next (u32 (next + 1)) [] (row ∷ rows) pages last
        (new-IsValid next t) (unfold new in refl) (omega arith) (omega arith) wrote in
    (subst (IsChain next) same chain, omega (arith, ends, after, ap length same))
