-- ===== src/Diff/Tests.antt =====
-- Two files of one page that differ in their first byte.
use bvault_app.Prelude.{ℕ, ◌*◌, ◌/◌, ◌≡◌, ◌↔◌, true, List, ◌∷◌, length, replicate, take}
use bvault_app.Page.{page_size}
use bvault_app.Diff.{diff_pdb, is_identical}
use bvault_app.Diff.Identical.{diff_pdb-is_identical}

abbrev golden : List ℕ
golden = 0 ∷ replicate 4095 0

abbrev mine : List ℕ
mine = 1 ∷ replicate 4095 0

diff_pdb-is_identical_example : (is_identical (diff_pdb golden mine) ≡ true) ↔ (
    (length golden / page_size ≡ length mine / page_size)
    × (take (length golden / page_size * page_size) golden
        ≡ take (length golden / page_size * page_size) mine))
diff_pdb-is_identical_example = diff_pdb-is_identical golden mine
