-- ===== src/Hash/Tests.antt =====
-- A content in three chunks, one of them empty, and the text of an identity.
use bvault_app.Prelude.{ℕ, ◌≡◌, List, [], ◌∷◌, length, u64}
use bvault_app.Hash.{new, update_all, len, hash_bytes, finalize}
use mathlib.Core.List.{flatten}
use bvault_app.Hash.Streaming.{finalize-update_all}

abbrev digest : List ℕ → ℕ
digest [] = 7
digest (b ∷ bs) = b

abbrev chunks : List (List ℕ)
chunks = (1 ∷ 2 ∷ []) ∷ [] ∷ (3 ∷ []) ∷ []

finalize-update_all_example :
    (finalize digest (update_all new chunks) ≡ hash_bytes digest (flatten chunks))
    × (len (update_all new chunks) ≡ u64 (length (flatten chunks)))
finalize-update_all_example = finalize-update_all digest chunks
