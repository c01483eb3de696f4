-- ===== src/Pdb/Build/Header.antt =====
-- pdb.rs: the pointers and the patches that follow the loop over the tables, and the file.
use bvault_app.Prelude.{
  ℕ, zero, suc, ◌+◌, ◌*◌, ◌^◌, ◌≤◌, ◌<◌, ◌≡◌, refl, ap, subst, ◌∙◌, inl, inr, arith, Option, some,
  none, List, [], ◌∷◌, ◌++◌, All, length, length-append, length-write_at, write_at, u32, le32,
  Option-cases,
}
use bvault_app.Page.{page_size}
use bvault_app.Page.FileHeader.{add_table}
use bvault_app.Pdb.Paging.Layout.{IsPage}
use bvault_app.Pdb.Build.{
  TableInfo, Pointers, point_to, point_all, patch_next, patch_all, set_first, concat_pages,
}
use bvault_app.Pdb.Build.Loop.{has_data_count, data_tables}

pub data_tables-le : (infos : List TableInfo) → data_tables infos ≤ length infos
data_tables-le [] = omega arith
data_tables-le (info ∷ infos) = ground (arith, data_tables-le infos)

-- What the pointers of some tables have done to the header.
pub record Pointed (infos : List TableInfo) (s s' : Pointers) : Type 0 where
  pub same_size : s'.header.header_page_size ≡ s.header.header_page_size
  pub tables : length s'.header.tables ≡ length s.header.tables + length infos
  pub num_tables : s'.header.num_tables ≡ u32 (length s'.header.tables)
  pub phantom : s'.phantom ≡ u32 (s.phantom + data_tables infos)

phantom_step :
    (info : TableInfo) (s : Pointers)
    → s.phantom < 2 ^ 32
    → (point_to info s).phantom ≡ u32 (s.phantom + has_data_count info)
unfolding point_to
phantom_step info s small = ground arith

pub point_all-Pointed :
    (infos : List TableInfo) (s : Pointers)
    → s.phantom < 2 ^ 32
    → s.header.num_tables ≡ u32 (length s.header.tables)
    → Pointed infos s (point_all infos s)
unfolding point_all
point_all-Pointed [] s small n = record {
  same_size = refl;
  tables = omega arith;
  num_tables = n;
  phantom = omega arith;
}
point_all-Pointed (info ∷ infos) s small n =
    let step = phantom_step info s small in
    let one : length (point_to info s).header.tables ≡ length s.header.tables + 1 =
      unfold point_to in
      unfold add_table in omega (arith, length-append s.header.tables (_ ∷ [])) in
    let rest =
      point_all-Pointed infos (point_to info s) (omega (arith, step))
        (unfold point_to in unfold add_table in refl) in
    record {
      same_size = rest.same_size ∙ (unfold point_to in unfold add_table in refl);
      tables = omega (arith, rest.tables, one);
      num_tables = rest.num_tables;
      phantom = omega (arith, rest.phantom, step);
    }

patch_next-kept :
    (i empty_candidate : ℕ) (pages patched : List (List ℕ))
    → All IsPage pages
    → patch_next i empty_candidate pages ≡ some patched
    → All IsPage patched × (length patched ≡ length pages)
unfolding patch_next
patch_next-kept i c [] patched full e = absurd (cc)
patch_next-kept zero c (page ∷ pages) patched full e =
    let same : write_at 0x0C (le32 c) page ∷ pages ≡ patched = cc in
    subst (λ ps. All IsPage ps × (length ps ≡ suc (length pages))) same
      ((length-write_at 0x0C (le32 c) page ∙ full.0, full.1), refl)
patch_next-kept (suc i) c (page ∷ pages) patched full e =
    elim (Option-cases (patch_next i c pages)) [
      | inl panic ↦
          let stopped : ◌≡◌ {A = Option (List (List ℕ))} none (some patched) = rw panic at e in
          absurd (cc)
      | inr (rest, found) ↦
          let made : some (page ∷ rest) ≡ some patched = rw found at e in
          let same : page ∷ rest ≡ patched = cc in
          let (kept, size) = patch_next-kept i c pages rest full.1 found in
          subst (λ ps. All IsPage ps × (length ps ≡ suc (length pages))) same
            ((full.0, kept), ap suc size)
    ]

pub patch_all-kept :
    (targets : List (ℕ × ℕ)) (pages patched : List (List ℕ))
    → All IsPage pages
    → patch_all targets pages ≡ some patched
    → All IsPage patched × (length patched ≡ length pages)
unfolding patch_all
patch_all-kept [] pages patched full e =
    let same : pages ≡ patched = cc in
    subst (λ ps. All IsPage ps × (length ps ≡ length pages)) same (full, refl)
patch_all-kept ((i, c) ∷ targets) pages patched full e =
    elim (Option-cases (patch_next i c pages)) [
      | inl panic ↦
          let stopped : ◌≡◌ {A = Option (List (List ℕ))} none (some patched) =
            rw (panic, patch_all) at e in
          absurd (cc)
      | inr (rest, found) ↦
          let made : patch_all targets rest ≡ some patched = rw (found, patch_all) at e in
          let (full', size') = patch_next-kept i c pages rest full found in
          let (kept, size) = patch_all-kept targets rest patched full' made in (kept, size ∙ size')
    ]

pub length-concat_pages :
    (pages : List (List ℕ))
    → All IsPage pages
    → length (concat_pages pages) ≡ length pages * page_size
unfolding concat_pages
length-concat_pages [] full = omega arith
length-concat_pages (page ∷ pages) full =
    omega (arith, length-append page (concat_pages pages), length-concat_pages pages full.1, full.0)

-- The header page stands first in the file, which has its size by the number of pages.
pub set_first-concat_pages :
    (page : List ℕ) (pages : List (List ℕ))
    → IsPage page
    → All IsPage pages
    → 0 < length pages
    → (rest : List ℕ) × (concat_pages (set_first page pages) ≡ page ++ rest)
      × (length (concat_pages (set_first page pages)) ≡ length pages * page_size)
unfolding concat_pages set_first
set_first-concat_pages page [] whole full h = absurd (omega arith)
set_first-concat_pages page (old ∷ pages) whole full h =
    (concat_pages pages, refl, length-concat_pages (page ∷ pages) (whole, full.1))
