-- ===== src/Validate/Tests.antt =====
-- A file of a header page with one pointer, and pages of the builders.
use bvault_app.Prelude.{
  ℕ, ◌/◌, ◌≡◌, refl, true, Option, some, none, List, [], All, length, u32, write_all, write_at,
}
use bvault_app.Page.{PageBuilder, tracks, artists, new, finalize, page_size}
use bvault_app.Page.Capacity.{new-IsValid}
use bvault_app.Page.FileHeader.{new_header, add_table, pointer, pointer_bytes, to_page}
use bvault_app.Validate.{validate_pdb, num_rows, count_table_rows, u32_at}
use bvault_app.Validate.Pages.{num_rows-finalize}
use bvault_app.Validate.Chains.{count_table_rows-total}
use bvault_app.Validate.Soundness.{IsChecked, IsInFile, pointers_from, validate_pdb_sound}

page_of : Option (List ℕ) → List ℕ
page_of none = []
page_of (some page) = page

file : List ℕ
file = page_of (to_page (add_table (pointer tracks 5 0 0) new_header))

file_valid : (validate_pdb file).valid ≡ true
unfolding file page_of to_page add_table pointer new_header pointer_bytes validate_pdb write_all
    write_at
file_valid = refl

validate_pdb_sound_example :
    IsChecked file
    × All (IsInFile file (u32 (length file / page_size))) (pointers_from 0 (u32_at file 8))
validate_pdb_sound_example = validate_pdb_sound file file_valid

abbrev blank : PageBuilder
blank = new 3 artists

num_rows-finalize_example : num_rows (finalize blank 9) ≡ blank.row_count
num_rows-finalize_example = num_rows-finalize blank [] 9 (new-IsValid 3 artists)

count_table_rows-total_example : (n : ℕ) × (count_table_rows file 0 1 ≡ some n)
count_table_rows-total_example = count_table_rows-total file 0 1
