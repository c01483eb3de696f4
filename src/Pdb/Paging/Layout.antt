-- ===== src/Pdb/Paging/Layout.antt =====
-- The number and the size of the pages of a table.
use bvault_app.Prelude.{
  ℕ, suc, ◌+◌, ◌^◌, ◌≤◌, ◌<◌, ◌≡◌, refl, ap, sym, subst, ◌∙◌, inl, inr, arith, true, List, [], ◌∷◌,
  ◌++◌, All, length, length-replicate, u32,
}
use bvault_app.Page.{PageBuilder, PageType, page_size, ok, >>=-eq-ok, new, finalize, empty_page}
use bvault_app.Page.Capacity.{IsValid, new-IsValid, write_row-IsValid}
use bvault_app.Page.ReadBack.{length-finalize, write_rows-IsValid}
use bvault_app.Pdb.Paging.{
  write_pages, write_pages-round, DataPages, empty_data_pages, table_pages, single_page, with_data,
}

-- A page has its full size.
abbrev pub IsPage : List ℕ → Type 0
IsPage page = length page ≡ page_size

-- The pages of a table: at least one and at most one more than its rows, each of full size, and
-- the number that follows them.
pub record IsLaidOut (rows next : ℕ) (built : DataPages) : Type 0 where
  pub full : All IsPage built.pages
  pub some_page : 0 < length built.pages
  pub few : length built.pages ≤ suc rows
  pub counted : built.next_idx ≡ u32 (next + length built.pages)

write_pages-laid :
    (t : PageType) (p : PageBuilder) (next : ℕ) (old rows pages : List (List ℕ)) (last : ℕ)
    → IsValid p old
    → next < 2 ^ 32
    → write_pages t p next rows ≡ ok (pages, last)
    → All IsPage pages
      × (k : ℕ) × (length pages ≡ suc k)
      × (last ≡ u32 (next + k))
      × (k ≤ length rows)
write_pages-laid t p next old [] pages last v small e =
    let same : finalize p 0xFFFF_FFFF ∷ [] ≡ pages = unfold write_pages in cc in
    let ends : next ≡ last = unfold write_pages in cc in
    (
      subst (All IsPage) same (length-finalize p 0xFFFF_FFFF ∙ v.size, tt),
      0,
      sym (ap length same),
      omega (arith, ends),
      omega arith,
    )
write_pages-laid t p next old (row ∷ rows) pages last v small e =
    elim (write_pages-round t p next row rows pages last e) [
      | inl r ↦
          let (full, k, count, ends, few) =
            write_pages-laid t r.page (u32 (next + 1)) (row ∷ []) rows r.rest last
              (write_row-IsValid (new next t) r.page [] row r.offset (new-IsValid next t) r.wrote)
              (omega arith) r.went in
          (
            subst (All IsPage) r.whole (length-finalize p next ∙ v.size, full),
            suc k,
            sym (ap length r.whole) ∙ ap suc count,
            omega (arith, ends),
            omega (arith, few),
          )
      | inr r ↦
          let (full, k, count, ends, few) =
            write_pages-laid t r.page next (old ++ row ∷ []) rows pages last
              (write_row-IsValid p r.page old row r.offset v r.wrote) small r.went in
          (full, k, count, ends, omega (arith, few))
    ]

pub empty_data_pages-IsLaidOut : (next : ℕ) → IsLaidOut 0 next (empty_data_pages next)
unfolding empty_data_pages empty_page
empty_data_pages-IsLaidOut next = record {
  full = (length-replicate {A = ℕ} page_size 0, tt);
  some_page = omega arith;
  few = omega arith;
  counted = omega arith;
}

pub table_pages-IsLaidOut :
    (t : PageType) (next : ℕ) (rows : List (List ℕ)) (built : DataPages)
    → table_pages t next rows ≡ ok built
    → IsLaidOut (length rows) next built
unfolding table_pages
table_pages-IsLaidOut t next [] built e =
    let same : empty_data_pages next ≡ built = cc in
    subst (IsLaidOut 0 next) same (empty_data_pages-IsLaidOut next)
table_pages-IsLaidOut t next (row ∷ rows) built e =
    let ((pages, last), wrote, made) = >>=-eq-ok _ _ e in
    let same : with_data (pages, last) ≡ built = cc in
    let (full, k, count, ends, few) =
      write_pages-laid t (new next t) (u32 (next + 1)) [] (row ∷ rows) pages last
        (new-IsValid next t) (omega arith) wrote in
    subst (IsLaidOut (suc (length rows)) next) same (
      unfold with_data in
      record {
        full = full;
        some_page = omega (arith, count);
        few = omega (arith, count, few);
        counted = omega (arith, count, ends);
      })

pub single_page-IsLaidOut :
    (t : PageType) (next : ℕ) (rows : List (List ℕ)) (built : DataPages)
    → single_page t next rows ≡ ok built
    → IsLaidOut 0 next built × (built.has_data ≡ true)
unfolding single_page
single_page-IsLaidOut t next rows built e =
    let (p, wrote, made) = >>=-eq-ok _ _ e in
    let same : with_data (finalize p 0xFFFF_FFFF ∷ [], u32 (next + 1)) ≡ built = cc in
    let v = write_rows-IsValid (new next t) p [] rows (new-IsValid next t) wrote in
    subst (λ b. IsLaidOut 0 next b × (b.has_data ≡ true)) same
      (unfold with_data in
        (
          record {
            full = (length-finalize p 0xFFFF_FFFF ∙ v.size, tt);
            some_page = omega arith;
            few = omega arith;
            counted = omega arith;
          },
          refl,
        ))
