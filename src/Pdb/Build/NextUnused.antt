-- ===== src/Pdb/Build/NextUnused.antt =====
-- pdb.rs and validate.rs: the header of the file that is built, and what the validator makes of it.
use bvault_app.Prelude.{
  ℕ, ◌+◌, ◌-◌, ◌*◌, ◌/◌, ◌%◌, ◌^◌, ◌≤◌, ◌<◌, ◌≡◌, refl, ap, sym, ◌∙◌, ◌⊎◌, inl, inr, arith, false,
  List, [], ◌++◌, length, length-drop, take, drop, take-append_within, drop-append_within, slice,
  of_le, u32, Bool-cases,
}
use bvault_app.Page.{all_types, page_size}
use bvault_app.Page.FileHeader.{FileHeader, new_header, to_page}
use bvault_app.Page.FileHeader.Fields.{
  length-to_page, page_size_field, num_tables_field, next_unused_field, track_count_field,
}
use bvault_app.Validate.{validate_pdb, u32_at}
use bvault_app.Validate.Soundness.{validate_pdb_sound}
use bvault_app.Pdb.{PdbBuilder}
use bvault_app.Pdb.Tables.{done, of_option}
use bvault_app.Pdb.Build.{
  Progress, Pointers, started, point_all, patch_all, set_first, concat_pages, build_tables,
  assemble, build,
}
use bvault_app.Pdb.Build.Pages.{>>=-eq-done, of_option-eq-done, always_data}
use bvault_app.Pdb.Build.Loop.{
  IsCounted, started-IsCounted, page_bound, build_tables-kept, data_tables, always_count,
}
use bvault_app.Pdb.Build.Header.{
  point_all-Pointed, patch_all-kept, set_first-concat_pages, data_tables-le,
}

slice-append : (q n : ℕ) (xs ys : List ℕ) → q + n ≤ length xs → slice q n (xs ++ ys) ≡ slice q n xs
slice-append q n xs ys h =
    ap (take n) (drop-append_within q xs ys (omega arith))
    ∙ take-append_within n (drop q xs) ys (omega (arith, length-drop q xs))

-- The number of the fields at 4, 8, 12 and 16 of the file, and its size.
record Built {F : Type 0} (b : PdbBuilder F) (s : Progress) (bytes : List ℕ) : Type 0 where
  aligned : length bytes ≡ length s.all_pages * page_size
  size_field : u32_at bytes 4 ≡ page_size
  tables_field : u32_at bytes 8 ≡ u32 (length s.table_infos)
  unused_field : u32_at bytes 12 ≡ u32 (length s.all_pages + data_tables s.table_infos)
  tracks_field : u32_at bytes 0x10 ≡ u32 (length b.tracks)

assemble-Built :
    {F : Type 0} (tempo_of seconds_of : F → ℕ) (b : PdbBuilder F) (s : Progress) (bytes : List ℕ)
    → IsCounted s
    → 0 < length s.all_pages
    → assemble tempo_of seconds_of b s ≡ done bytes
    → Built b s bytes
unfolding assemble
assemble-Built tempo_of seconds_of b s bytes v some_page e =
    let start : Pointers = record {
      header = new_header;
      phantom = s.next_page_index;
      patch_targets = [];
    } in
    let pointers = point_all s.table_infos start in
    let header : FileHeader = record (pointers.header) {
      next_unused_page = pointers.phantom;
      sequence = s.sequence;
      track_count = u32 (length b.tracks);
    } in
    let p =
      point_all-Pointed s.table_infos start (omega (arith, v.counted))
        (unfold new_header in refl) in
    let (pages, patched, rest) =
      >>=-eq-done (of_option (patch_all pointers.patch_targets s.all_pages)) _ e in
    let (page, made, ends) = >>=-eq-done (of_option (to_page header)) _ rest in
    let first = of_option-eq-done (to_page header) made in
    let (full, size) =
      patch_all-kept pointers.patch_targets s.all_pages pages v.full
        (of_option-eq-done (patch_all pointers.patch_targets s.all_pages) patched) in
    let (tail, split, whole) =
      set_first-concat_pages page pages (length-to_page header page first) full
        (omega (arith, size)) in
    let same : concat_pages (set_first page pages) ≡ bytes = cc in
    let room = length-to_page header page first in
    let at : (q : ℕ) → q + 4 ≤ 4096 → u32_at bytes q ≡ of_le (slice q 4 page) = λ q h.
      ap (λ (d : List ℕ). of_le (slice q 4 d)) (sym same ∙ split)
      ∙ ap of_le (slice-append q 4 page tail (omega (arith, room))) in
    let sized : header.header_page_size ≡ page_size = p.same_size ∙ (unfold new_header in refl) in
    record {
      aligned = sym (ap length same) ∙ whole ∙ ap (λ (n : ℕ). n * page_size) size;
      size_field =
          at 4 (omega arith) ∙ page_size_field header page first (omega (arith, sized)) ∙ sized;
      tables_field =
          at 8 (omega arith)
          ∙ num_tables_field header page first (omega (arith, p.num_tables))
          ∙ p.num_tables
          ∙ (let n : length pointers.header.tables ≡ length s.table_infos =
                unfold new_header in omega (arith, p.tables) in
              ap u32 n);
      unused_field =
          at 12 (omega arith)
          ∙ next_unused_field header page first (omega (arith, p.phantom))
          ∙ omega (arith, p.phantom, v.counted);
      tracks_field = at 0x10 (omega arith) ∙ track_count_field header page first (omega arith);
    }

types_counted : (length all_types ≡ 20) × (always_count all_types ≡ 5)
unfolding all_types always_data
types_counted = (refl, refl)

module _ {F : Type 0} (tempo_of seconds_of : F → ℕ) (b : PdbBuilder F) (bytes : List ℕ)
    (built : build tempo_of seconds_of b ≡ done bytes) where
  -- The loop's last state, and what it says of the file.
  looped :
      (s : Progress) × Built b s bytes
      × (length s.table_infos ≡ 20)
      × (length s.all_pages ≤ 1 + page_bound tempo_of seconds_of b all_types)
      × ((2 ^ 32 ≤ length s.all_pages) ⊎ (5 ≤ data_tables s.table_infos))
  unfolding build
  looped =
      let (s, ran, rest) =
        >>=-eq-done (build_tables tempo_of seconds_of b all_types started) _ built in
      let (v, more, few, infos, filled) =
        build_tables-kept tempo_of seconds_of b all_types started s started-IsCounted ran in
      let one : length started.all_pages ≡ 1 = unfold started in refl in
      let none_yet : length started.table_infos ≡ 0 = unfold started in refl in
      let no_data : data_tables started.table_infos ≡ 0 = unfold started in refl in
      let some_page : 0 < length s.all_pages = omega (arith, more, one) in
      (
        s,
        assemble-Built tempo_of seconds_of b s bytes v some_page rest,
        omega (arith, infos, none_yet, types_counted.0),
        omega (arith, few, one),
        elim filled [
          | inl large ↦ inl large
          | inr five ↦ inr (omega (arith, five, no_data, types_counted.1))
        ],
      )

  -- A database that is built is a whole number of pages, and its header gives the page size,
  -- 20 tables and the number of tracks, as a `u32`.
  pub build-header :
      (length bytes % page_size ≡ 0)
      × (u32_at bytes 4 ≡ page_size)
      × (u32_at bytes 8 ≡ 20)
      × (u32_at bytes 0x10 ≡ u32 (length b.tracks))
  build-header =
      let (s, r, infos, few_pages, filled) = looped in
      (omega (arith, r.aligned), r.size_field, omega (arith, r.tables_field, infos), r.tracks_field)

  -- The next unused page of a database that is built lies at least five pages behind its last
  -- page, so the validator never calls the database valid, where two pages for each table and one
  -- for each row that was added come to fewer than 2^32 - 21.
  pub build-not_valid :
      page_bound tempo_of seconds_of b all_types < 2 ^ 32 - 21
      → (length bytes / page_size + 5 ≤ u32_at bytes 12) × ((validate_pdb bytes).valid ≡ false)
  build-not_valid small =
      let (s, r, infos, few_pages, filled) = looped in
      let few = data_tables-le s.table_infos in
      let five : 5 ≤ data_tables s.table_infos = elim filled [
        | inl large ↦ absurd (omega (arith, large, few_pages, small))
        | inr five ↦ five
      ] in
      let beyond : length bytes / page_size + 5 ≤ u32_at bytes 12 =
        omega (arith, r.aligned, r.unused_field, infos, few_pages, small) in
      (
        beyond,
        elim (Bool-cases (validate_pdb bytes).valid) [
          | inl valid ↦
              let (checked, _) = validate_pdb_sound bytes valid in
              absurd (omega (arith, checked.next_unused, beyond))
          | inr invalid ↦ invalid
        ],
      )
