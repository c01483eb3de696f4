-- ===== src/Validate/Soundness.antt =====
-- What a file that the validator calls valid satisfies.
use bvault_app.Prelude.{
  ℕ, zero, suc, ◌+◌, ◌-◌, ◌*◌, ◌/◌, ◌%◌, ◌≤◌, ◌<◌, ◌≡◌, refl, sym, ◌∙◌, ◌⊎◌, arith, Bool, true,
  false, not, ◌&&◌, ltb_false→le, Option, some, none, List, [], ◌∷◌, All, ltb, leb, ◌==◌,
  if◌then◌else◌, length, u32,
}
use bvault_app.Page.{page_size}
use bvault_app.Validate.{
  ValidationResult, PageError, counted, noted, check_table, u32_at, page_at, count_table,
  count_table_rows, check_tables, check_pages, check_body, validate_data_page, validate_pdb,
  pointer_beyond_header, first_page_exceeds, last_page_exceeds, add_error, add_warning,
  fresh_result, no_stats, file_too_small, not_aligned, invalid_page_size, many_tables,
  next_unused_page_exceeds,
}

-- A table pointer lies in the header page, and its first and last page in the file, where the
-- first page may be 0 and the last one the mark for none.
pub record IsInFile (bytes : List ℕ) (actual_pages i : ℕ) : Type 0 where
  pub in_header : 28 + i * 16 + 16 ≤ page_size
  pub first_inside :
      (u32_at bytes (28 + i * 16 + 8) ≡ 0) ⊎ (u32_at bytes (28 + i * 16 + 8) < actual_pages)
  pub last_inside :
      (u32_at bytes (28 + i * 16 + 12) ≡ 0xFFFF_FFFF)
      ⊎ (u32_at bytes (28 + i * 16 + 12) < actual_pages)

counted-valid : (ty : ℕ) (n : Option ℕ) (r : ValidationResult) → (counted ty n r).valid ≡ r.valid
unfolding counted
counted-valid ty none r = refl
counted-valid ty (some n) r = refl

if_valid :
    (b : Bool) (x r : ValidationResult) → x.valid ≡ r.valid → (if b then x else r).valid ≡ r.valid
if_valid true x r e = e
if_valid false x r e = refl

count_table-valid :
    (bytes : List ℕ) (n ty first : ℕ) (r : ValidationResult)
    → (count_table bytes n ty first r).valid ≡ r.valid
unfolding count_table
count_table-valid bytes n ty first r =
    if_valid (ltb 0 first && ltb first n) (counted ty (count_table_rows bytes first n) r) r
      (counted-valid ty (count_table_rows bytes first n) r)

noted-valid : (i : ℕ) (e : Option PageError) (r : ValidationResult) → (noted i e r).valid ≡ r.valid
unfolding noted
noted-valid i none r = refl
noted-valid i (some e) r = refl

check_pages-valid :
    (left page_idx : ℕ) (bytes : List ℕ) (r : ValidationResult)
    → (check_pages left page_idx bytes r).valid ≡ r.valid
unfolding check_pages
check_pages-valid zero page_idx bytes r = refl
check_pages-valid (suc left) page_idx bytes r =
    let e = validate_data_page (page_at bytes page_idx) page_idx in
    check_pages-valid left (suc page_idx) bytes (noted page_idx e r) ∙ noted-valid page_idx e r

-- A result that is valid was not an error's.
valid_once :
    (a : Bool) (e x : ValidationResult)
    → e.valid ≡ false
    → (if a then e else x).valid ≡ true
    → (a ≡ false) × (x.valid ≡ true)
valid_once true e x wrong h = cc
valid_once false e x wrong h = (refl, h)

mark_or_inside : (x mark n : ℕ) → (not (x == mark) && leb n x) ≡ false → (x ≡ mark) ⊎ (x < n)
mark_or_inside x mark n h = ground arith

-- A pointer that raises no error is in the file, and the result was valid before.
check_table-valid :
    (i : ℕ) (bytes : List ℕ) (n : ℕ) (r : ValidationResult)
    → 28 + i * 16 + 16 ≤ page_size
    → (check_table i bytes n r).valid ≡ true
    → IsInFile bytes n i × (r.valid ≡ true)
unfolding check_table
check_table-valid i bytes n r inside h =
    let ty : ℕ = u32_at bytes (28 + i * 16) in
    let first : ℕ = u32_at bytes (28 + i * 16 + 8) in
    let last : ℕ = u32_at bytes (28 + i * 16 + 12) in
    let late = not (last == 0xFFFF_FFFF) && leb n last in
    let e1 = add_error (first_page_exceeds i ty first) r in
    let e2 = add_error (last_page_exceeds i ty last) r in
    let counted_result = count_table bytes n ty first r in
    let (a, h') =
      valid_once (not (first == 0) && leb n first) e1 (if late then e2 else counted_result) refl
        h in
    let (b, h'') = valid_once late e2 counted_result refl h' in
    (
      record {
        in_header = inside;
        first_inside = mark_or_inside first 0 n a;
        last_inside = mark_or_inside last 0xFFFF_FFFF n b;
      },
      sym (count_table-valid bytes n ty first r) ∙ h'',
    )

-- The numbers of `left` pointers from the `i`-th on.
abbrev pub pointers_from : ℕ → ℕ → List ℕ
pointers_from i zero = []
pointers_from i (suc left) = i ∷ pointers_from (suc i) left

check_tables-valid :
    (left i : ℕ) (bytes : List ℕ) (n : ℕ) (r : ValidationResult)
    → (check_tables left i bytes n r).valid ≡ true
    → (r.valid ≡ true) × All (IsInFile bytes n) (pointers_from i left)
unfolding check_tables
check_tables-valid zero i bytes n r h = (h, tt)
check_tables-valid (suc left) i bytes n r h =
    let r' = check_table i bytes n r in
    let (room, h') =
      valid_once (ltb page_size (28 + i * 16 + 16))
        (add_error (pointer_beyond_header i (28 + i * 16)) r) (check_tables left (suc i) bytes n r')
        refl h in
    let (before, later) = check_tables-valid left (suc i) bytes n r' h' in
    let (here, first) =
      check_table-valid i bytes n r (ltb_false→le page_size (28 + i * 16 + 16) room) before in
    (first, (here, later))

-- What the validator has checked of a file.
pub record IsChecked (bytes : List ℕ) : Type 0 where
  pub aligned : length bytes % page_size ≡ 0
  pub has_header : page_size ≤ length bytes
  pub declared_page_size : u32_at bytes 4 ≡ page_size
  pub next_unused : u32_at bytes 12 ≤ u32 (length bytes / page_size)

-- A file that is called valid has whole pages, at least one, declares the right page size and a next
-- unused page that is not beyond its pages; and each of the table pointers that it declares, of which
-- there may be none, lies in the header page, has 0 or a page of the file as its first page, and
-- 0xFFFFFFFF or a page of the file as its last.
pub validate_pdb_sound :
    (bytes : List ℕ)
    → (validate_pdb bytes).valid ≡ true
    → IsChecked bytes
      × All (IsInFile bytes (u32 (length bytes / page_size))) (pointers_from 0 (u32_at bytes 8))
unfolding validate_pdb check_body
validate_pdb_sound bytes h =
    let n : ℕ = u32 (length bytes / page_size) in
    let num_tables : ℕ = u32_at bytes 8 in
    let next_unused : ℕ = u32_at bytes 12 in
    let body = check_body bytes n in
    let (long, h1) =
      valid_once (ltb (length bytes) page_size)
        (add_error (file_too_small (length bytes)) fresh_result)
        (if not (length bytes % page_size == 0)
          then add_error (not_aligned (length bytes)) fresh_result
          else if not (u32_at bytes 4 == page_size)
          then add_error (invalid_page_size (u32_at bytes 4)) fresh_result
          else body)
        refl h in
    let (whole, h2) =
      valid_once (not (length bytes % page_size == 0))
        (add_error (not_aligned (length bytes)) fresh_result)
        (if not (u32_at bytes 4 == page_size)
          then add_error (invalid_page_size (u32_at bytes 4)) fresh_result
          else body)
        refl h1 in
    let (sized, h3) =
      valid_once (not (u32_at bytes 4 == page_size))
        (add_error (invalid_page_size (u32_at bytes 4)) fresh_result) body refl h2 in
    let r0 =
      if ltb 20 num_tables
      then add_warning (many_tables num_tables) fresh_result
      else fresh_result in
    let r1 = record r0 { stats = record no_stats { total_pages = next_unused } } in
    let r2 =
      if ltb n next_unused then add_error (next_unused_page_exceeds next_unused n) r1 else r1 in
    let r3 = check_tables num_tables 0 bytes n r2 in
    let tables : r3.valid ≡ true = sym (check_pages-valid (n - 1) 1 bytes r3) ∙ h3 in
    let (before, pointers) = check_tables-valid num_tables 0 bytes n r2 tables in
    let (used, _) =
      valid_once (ltb n next_unused) (add_error (next_unused_page_exceeds next_unused n) r1) r1 refl
        before in
    (
      record {
        aligned = ground (arith, whole);
        has_header = ground (arith, long);
        declared_page_size = ground (arith, sized);
        next_unused = ground (arith, used);
      },
      pointers,
    )
