-- ===== src/Page/FileHeader/Fields.antt =====
-- page.rs: the fixed fields of the header page, read back.
use bvault_app.Prelude.{
  ℕ, ◌+◌, ◌*◌, ◌^◌, ◌≤◌, ◌<◌, ◌≡◌, refl, ap, ◌∙◌, inl, inr, arith, some, List, length,
  length-replicate, length-write_all, subst, replicate, slice, write_all, Writes, Apart,
  slice-write_all, le32, of_le, of_le-le32,
}
use bvault_app.Page.{page_size}
use bvault_app.Page.FileHeader.{
  FileHeader, to_page, page_writes, pointer_writes, pointer_writes-Apart,
}

-- The header page is made where the pointers fit it.
pub to_page-some :
    (h : FileHeader)
    → 0x1C + length h.tables * 16 ≤ page_size
    → (page : List ℕ) × (to_page h ≡ some page)
unfolding to_page
to_page-some h room = (write_all (page_writes h) (replicate page_size 0), ground (arith, room))

module _ (h : FileHeader) (page : List ℕ) (made : to_page h ≡ some page) where
  written : write_all (page_writes h) (replicate page_size 0) ≡ page
  unfolding to_page
  written = ground arith

  -- The header is one page.
  pub length-to_page : length page ≡ page_size
  length-to_page =
      subst (λ d. length d ≡ page_size) written
        (length-write_all (page_writes h) (replicate page_size 0)
          ∙ length-replicate {A = ℕ} page_size 0)

  field :
      (q v : ℕ)
      → q + 4 ≤ page_size
      → v < 2 ^ 32
      → Writes q (le32 v) (page_writes h)
      → of_le (slice q 4 page) ≡ v
  field q v low small w =
      let blank : List ℕ = replicate page_size 0 in
      let size : length blank ≡ 4096 = length-replicate {A = ℕ} page_size 0 in
      ap of_le (
        subst (λ d. slice q 4 d ≡ le32 v) written
          (slice-write_all q (le32 v) (page_writes h) blank w (omega (arith, size))))
      ∙ of_le-le32 v small

  pointers-Apart : (q : ℕ) → q + 4 ≤ 0x1C → Apart q 4 (pointer_writes 0x1C h.tables)
  pointers-Apart q low = pointer_writes-Apart 0x1C q 4 h.tables low

  pub page_size_field : h.header_page_size < 2 ^ 32 → of_le (slice 4 4 page) ≡ h.header_page_size
  unfolding page_writes
  page_size_field small = field 4 h.header_page_size (omega arith) small (
      inl (
        refl,
        refl,
        (
          inr (omega arith),
          (
            inr (omega arith),
            (inr (omega arith), (inr (omega arith), pointers-Apart 4 (omega arith))),
          ),
        ),
      ))

  pub num_tables_field : h.num_tables < 2 ^ 32 → of_le (slice 8 4 page) ≡ h.num_tables
  unfolding page_writes
  num_tables_field small = field 8 h.num_tables (omega arith) small (
      inr (
        inl (
          refl,
          refl,
          (
            inr (omega arith),
            (inr (omega arith), (inr (omega arith), pointers-Apart 8 (omega arith))),
          ),
        )))

  pub next_unused_field : h.next_unused_page < 2 ^ 32 → of_le (slice 12 4 page) ≡ h.next_unused_page
  unfolding page_writes
  next_unused_field small = field 12 h.next_unused_page (omega arith) small (
      inr (
        inr (
          inl (
            refl,
            refl,
            (inr (omega arith), (inr (omega arith), pointers-Apart 12 (omega arith))),
          ))))

  pub track_count_field : h.track_count < 2 ^ 32 → of_le (slice 0x10 4 page) ≡ h.track_count
  unfolding page_writes
  track_count_field small =
      field 0x10 h.track_count (omega arith) small
        (inr (inr (inr (inl (refl, refl, (inr (omega arith), pointers-Apart 0x10 (omega arith)))))))
