-- ===== src/Pdb/FixedRows.antt =====
-- crates/bvault-core/src/pdb.rs: the rows that every database holds, whatever was added to it.
use bvault_app.Prelude.{ℕ, List, [], ◌∷◌, ◌++◌, le16}
use bvault_app.Text.{Text}

-- The eight colors with their ids.
unfoldable pub colors : List (ℕ × Text)
colors =
    (1, b'P' ∷ b'i' ∷ b'n' ∷ b'k' ∷ [])
    ∷ (2, b'R' ∷ b'e' ∷ b'd' ∷ [])
    ∷ (3, b'O' ∷ b'r' ∷ b'a' ∷ b'n' ∷ b'g' ∷ b'e' ∷ [])
    ∷ (4, b'Y' ∷ b'e' ∷ b'l' ∷ b'l' ∷ b'o' ∷ b'w' ∷ [])
    ∷ (5, b'G' ∷ b'r' ∷ b'e' ∷ b'e' ∷ b'n' ∷ [])
    ∷ (6, b'A' ∷ b'q' ∷ b'u' ∷ b'a' ∷ [])
    ∷ (7, b'B' ∷ b'l' ∷ b'u' ∷ b'e' ∷ [])
    ∷ (8, b'P' ∷ b'u' ∷ b'r' ∷ b'p' ∷ b'l' ∷ b'e' ∷ [])
    ∷ []

-- The rows of the columns table, as bytes.
unfoldable pub columns_data : List (List ℕ)
columns_data =
    (1 ∷ 0 ∷ 128 ∷ 0 ∷ 144 ∷ 18 ∷ 0 ∷ 0 ∷ 250 ∷ 255 ∷ 71 ∷ 0 ∷ 69 ∷ 0 ∷ 78 ∷ 0 ∷ 82 ∷ 0 ∷ 69 ∷ 0
      ∷ 251 ∷ 255 ∷ 0 ∷ 0 ∷ [])
    ∷ (2 ∷ 0 ∷ 129 ∷ 0 ∷ 144 ∷ 20 ∷ 0 ∷ 0 ∷ 250 ∷ 255 ∷ 65 ∷ 0 ∷ 82 ∷ 0 ∷ 84 ∷ 0 ∷ 73 ∷ 0 ∷ 83 ∷ 0
        ∷ 84 ∷ 0 ∷ 251 ∷ 255 ∷ [])
    ∷ (3 ∷ 0 ∷ 130 ∷ 0 ∷ 144 ∷ 18 ∷ 0 ∷ 0 ∷ 250 ∷ 255 ∷ 65 ∷ 0 ∷ 76 ∷ 0 ∷ 66 ∷ 0 ∷ 85 ∷ 0 ∷ 77 ∷ 0
        ∷ 251 ∷ 255 ∷ 0 ∷ 0 ∷ [])
    ∷ (4 ∷ 0 ∷ 131 ∷ 0 ∷ 144 ∷ 18 ∷ 0 ∷ 0 ∷ 250 ∷ 255 ∷ 84 ∷ 0 ∷ 82 ∷ 0 ∷ 65 ∷ 0 ∷ 67 ∷ 0 ∷ 75 ∷ 0
        ∷ 251 ∷ 255 ∷ 0 ∷ 0 ∷ [])
    ∷ (5 ∷ 0 ∷ 133 ∷ 0 ∷ 144 ∷ 14 ∷ 0 ∷ 0 ∷ 250 ∷ 255 ∷ 66 ∷ 0 ∷ 80 ∷ 0 ∷ 77 ∷ 0 ∷ 251 ∷ 255 ∷ 0 ∷ 0
        ∷ [])
    ∷ (6 ∷ 0 ∷ 134 ∷ 0 ∷ 144 ∷ 20 ∷ 0 ∷ 0 ∷ 250 ∷ 255 ∷ 82 ∷ 0 ∷ 65 ∷ 0 ∷ 84 ∷ 0 ∷ 73 ∷ 0 ∷ 78 ∷ 0
        ∷ 71 ∷ 0 ∷ 251 ∷ 255 ∷ [])
    ∷ (7 ∷ 0 ∷ 135 ∷ 0 ∷ 144 ∷ 16 ∷ 0 ∷ 0 ∷ 250 ∷ 255 ∷ 89 ∷ 0 ∷ 69 ∷ 0 ∷ 65 ∷ 0 ∷ 82 ∷ 0 ∷ 251
        ∷ 255 ∷ [])
    ∷ (8 ∷ 0 ∷ 136 ∷ 0 ∷ 144 ∷ 22 ∷ 0 ∷ 0 ∷ 250 ∷ 255 ∷ 82 ∷ 0 ∷ 69 ∷ 0 ∷ 77 ∷ 0 ∷ 73 ∷ 0 ∷ 88 ∷ 0
        ∷ 69 ∷ 0 ∷ 82 ∷ 0 ∷ 251 ∷ 255 ∷ 0 ∷ 0 ∷ [])
    ∷ (9 ∷ 0 ∷ 137 ∷ 0 ∷ 144 ∷ 18 ∷ 0 ∷ 0 ∷ 250 ∷ 255 ∷ 76 ∷ 0 ∷ 65 ∷ 0 ∷ 66 ∷ 0 ∷ 69 ∷ 0 ∷ 76 ∷ 0
        ∷ 251 ∷ 255 ∷ 0 ∷ 0 ∷ [])
    ∷ (10 ∷ 0 ∷ 138 ∷ 0 ∷ 144 ∷ 38 ∷ 0 ∷ 0 ∷ 250 ∷ 255 ∷ 79 ∷ 0 ∷ 82 ∷ 0 ∷ 73 ∷ 0 ∷ 71 ∷ 0 ∷ 73 ∷ 0
        ∷ 78 ∷ 0 ∷ 65 ∷ 0 ∷ 76 ∷ 0 ∷ 32 ∷ 0 ∷ 65 ∷ 0 ∷ 82 ∷ 0 ∷ 84 ∷ 0 ∷ 73 ∷ 0 ∷ 83 ∷ 0 ∷ 84 ∷ 0
        ∷ 251 ∷ 255 ∷ 0 ∷ 0 ∷ [])
    ∷ (11 ∷ 0 ∷ 139 ∷ 0 ∷ 144 ∷ 14 ∷ 0 ∷ 0 ∷ 250 ∷ 255 ∷ 75 ∷ 0 ∷ 69 ∷ 0 ∷ 89 ∷ 0 ∷ 251 ∷ 255 ∷ 0
        ∷ 0 ∷ [])
    ∷ (12 ∷ 0 ∷ 141 ∷ 0 ∷ 144 ∷ 14 ∷ 0 ∷ 0 ∷ 250 ∷ 255 ∷ 67 ∷ 0 ∷ 85 ∷ 0 ∷ 69 ∷ 0 ∷ 251 ∷ 255 ∷ 0
        ∷ 0 ∷ [])
    ∷ (13 ∷ 0 ∷ 142 ∷ 0 ∷ 144 ∷ 18 ∷ 0 ∷ 0 ∷ 250 ∷ 255 ∷ 67 ∷ 0 ∷ 79 ∷ 0 ∷ 76 ∷ 0 ∷ 79 ∷ 0 ∷ 82 ∷ 0
        ∷ 251 ∷ 255 ∷ 0 ∷ 0 ∷ [])
    ∷ (14 ∷ 0 ∷ 146 ∷ 0 ∷ 144 ∷ 16 ∷ 0 ∷ 0 ∷ 250 ∷ 255 ∷ 84 ∷ 0 ∷ 73 ∷ 0 ∷ 77 ∷ 0 ∷ 69 ∷ 0 ∷ 251
        ∷ 255 ∷ [])
    ∷ (15 ∷ 0 ∷ 147 ∷ 0 ∷ 144 ∷ 22 ∷ 0 ∷ 0 ∷ 250 ∷ 255 ∷ 66 ∷ 0 ∷ 73 ∷ 0 ∷ 84 ∷ 0 ∷ 82 ∷ 0 ∷ 65 ∷ 0
        ∷ 84 ∷ 0 ∷ 69 ∷ 0 ∷ 251 ∷ 255 ∷ 0 ∷ 0 ∷ [])
    ∷ (16 ∷ 0 ∷ 148 ∷ 0 ∷ 144 ∷ 26 ∷ 0 ∷ 0 ∷ 250 ∷ 255 ∷ 70 ∷ 0 ∷ 73 ∷ 0 ∷ 76 ∷ 0 ∷ 69 ∷ 0 ∷ 32 ∷ 0
        ∷ 78 ∷ 0 ∷ 65 ∷ 0 ∷ 77 ∷ 0 ∷ 69 ∷ 0 ∷ 251 ∷ 255 ∷ 0 ∷ 0 ∷ [])
    ∷ (17 ∷ 0 ∷ 132 ∷ 0 ∷ 144 ∷ 24 ∷ 0 ∷ 0 ∷ 250 ∷ 255 ∷ 80 ∷ 0 ∷ 76 ∷ 0 ∷ 65 ∷ 0 ∷ 89 ∷ 0 ∷ 76 ∷ 0
        ∷ 73 ∷ 0 ∷ 83 ∷ 0 ∷ 84 ∷ 0 ∷ 251 ∷ 255 ∷ [])
    ∷ (18 ∷ 0 ∷ 152 ∷ 0 ∷ 144 ∷ 32 ∷ 0 ∷ 0 ∷ 250 ∷ 255 ∷ 72 ∷ 0 ∷ 79 ∷ 0 ∷ 84 ∷ 0 ∷ 32 ∷ 0 ∷ 67 ∷ 0
        ∷ 85 ∷ 0 ∷ 69 ∷ 0 ∷ 32 ∷ 0 ∷ 66 ∷ 0 ∷ 65 ∷ 0 ∷ 78 ∷ 0 ∷ 75 ∷ 0 ∷ 251 ∷ 255 ∷ [])
    ∷ (19 ∷ 0 ∷ 149 ∷ 0 ∷ 144 ∷ 22 ∷ 0 ∷ 0 ∷ 250 ∷ 255 ∷ 72 ∷ 0 ∷ 73 ∷ 0 ∷ 83 ∷ 0 ∷ 84 ∷ 0 ∷ 79 ∷ 0
        ∷ 82 ∷ 0 ∷ 89 ∷ 0 ∷ 251 ∷ 255 ∷ 0 ∷ 0 ∷ [])
    ∷ (20 ∷ 0 ∷ 145 ∷ 0 ∷ 144 ∷ 20 ∷ 0 ∷ 0 ∷ 250 ∷ 255 ∷ 83 ∷ 0 ∷ 69 ∷ 0 ∷ 65 ∷ 0 ∷ 82 ∷ 0 ∷ 67 ∷ 0
        ∷ 72 ∷ 0 ∷ 251 ∷ 255 ∷ [])
    ∷ (21 ∷ 0 ∷ 150 ∷ 0 ∷ 144 ∷ 24 ∷ 0 ∷ 0 ∷ 250 ∷ 255 ∷ 67 ∷ 0 ∷ 79 ∷ 0 ∷ 77 ∷ 0 ∷ 77 ∷ 0 ∷ 69 ∷ 0
        ∷ 78 ∷ 0 ∷ 84 ∷ 0 ∷ 83 ∷ 0 ∷ 251 ∷ 255 ∷ [])
    ∷ (22 ∷ 0 ∷ 140 ∷ 0 ∷ 144 ∷ 28 ∷ 0 ∷ 0 ∷ 250 ∷ 255 ∷ 68 ∷ 0 ∷ 65 ∷ 0 ∷ 84 ∷ 0 ∷ 69 ∷ 0 ∷ 32 ∷ 0
        ∷ 65 ∷ 0 ∷ 68 ∷ 0 ∷ 68 ∷ 0 ∷ 69 ∷ 0 ∷ 68 ∷ 0 ∷ 251 ∷ 255 ∷ [])
    ∷ (23 ∷ 0 ∷ 151 ∷ 0 ∷ 144 ∷ 34 ∷ 0 ∷ 0 ∷ 250 ∷ 255 ∷ 68 ∷ 0 ∷ 74 ∷ 0 ∷ 32 ∷ 0 ∷ 80 ∷ 0 ∷ 76 ∷ 0
        ∷ 65 ∷ 0 ∷ 89 ∷ 0 ∷ 32 ∷ 0 ∷ 67 ∷ 0 ∷ 79 ∷ 0 ∷ 85 ∷ 0 ∷ 78 ∷ 0 ∷ 84 ∷ 0 ∷ 251 ∷ 255 ∷ 0 ∷ 0
        ∷ [])
    ∷ (24 ∷ 0 ∷ 144 ∷ 0 ∷ 144 ∷ 20 ∷ 0 ∷ 0 ∷ 250 ∷ 255 ∷ 70 ∷ 0 ∷ 79 ∷ 0 ∷ 76 ∷ 0 ∷ 68 ∷ 0 ∷ 69 ∷ 0
        ∷ 82 ∷ 0 ∷ 251 ∷ 255 ∷ [])
    ∷ (25 ∷ 0 ∷ 161 ∷ 0 ∷ 144 ∷ 22 ∷ 0 ∷ 0 ∷ 250 ∷ 255 ∷ 68 ∷ 0 ∷ 69 ∷ 0 ∷ 70 ∷ 0 ∷ 65 ∷ 0 ∷ 85 ∷ 0
        ∷ 76 ∷ 0 ∷ 84 ∷ 0 ∷ 251 ∷ 255 ∷ 0 ∷ 0 ∷ [])
    ∷ (26 ∷ 0 ∷ 162 ∷ 0 ∷ 144 ∷ 24 ∷ 0 ∷ 0 ∷ 250 ∷ 255 ∷ 65 ∷ 0 ∷ 76 ∷ 0 ∷ 80 ∷ 0 ∷ 72 ∷ 0 ∷ 65 ∷ 0
        ∷ 66 ∷ 0 ∷ 69 ∷ 0 ∷ 84 ∷ 0 ∷ 251 ∷ 255 ∷ [])
    ∷ (27 ∷ 0 ∷ 170 ∷ 0 ∷ 144 ∷ 24 ∷ 0 ∷ 0 ∷ 250 ∷ 255 ∷ 77 ∷ 0 ∷ 65 ∷ 0 ∷ 84 ∷ 0 ∷ 67 ∷ 0 ∷ 72 ∷ 0
        ∷ 73 ∷ 0 ∷ 78 ∷ 0 ∷ 71 ∷ 0 ∷ 251 ∷ 255 ∷ [])
    ∷ []

-- Four `u16`, as both unknown tables write them.
unfoldable pub words_row : ℕ × ℕ × ℕ × ℕ → List ℕ
words_row (u1, u2, u3, u4) = le16 u1 ++ le16 u2 ++ le16 u3 ++ le16 u4

unfoldable pub dataset : List (ℕ × ℕ × ℕ × ℕ)
dataset =
    (1, 1, 355, 0)
    ∷ (5, 6, 261, 0)
    ∷ (6, 7, 355, 0)
    ∷ (7, 8, 355, 0)
    ∷ (8, 9, 355, 0)
    ∷ (9, 10, 355, 0)
    ∷ (10, 11, 355, 0)
    ∷ (13, 15, 355, 0)
    ∷ (14, 19, 260, 0)
    ∷ (15, 20, 262, 0)
    ∷ (16, 21, 355, 0)
    ∷ (18, 23, 355, 0)
    ∷ (2, 2, 2, 1)
    ∷ (3, 3, 3, 2)
    ∷ (4, 4, 1, 3)
    ∷ (11, 12, 99, 4)
    ∷ (17, 5, 99, 5)
    ∷ (19, 22, 99, 6)
    ∷ (20, 18, 99, 7)
    ∷ (27, 26, 611, 8)
    ∷ (24, 17, 99, 9)
    ∷ (22, 27, 99, 10)
    ∷ []

unfoldable pub unknown18_data : List (ℕ × ℕ × ℕ × ℕ)
unknown18_data =
    (1, 6, 1, 0)
    ∷ (21, 7, 1, 0)
    ∷ (14, 8, 1, 0)
    ∷ (8, 9, 1, 0)
    ∷ (9, 10, 1, 0)
    ∷ (10, 11, 1, 0)
    ∷ (15, 13, 1, 0)
    ∷ (13, 15, 1, 0)
    ∷ (23, 16, 1, 0)
    ∷ (22, 17, 1, 0)
    ∷ (25, 0, 256, 0)
    ∷ (26, 1, 512, 0)
    ∷ (2, 2, 768, 0)
    ∷ (3, 3, 1024, 0)
    ∷ (5, 4, 1280, 0)
    ∷ (6, 5, 1536, 0)
    ∷ (11, 12, 1792, 0)
    ∷ []

unfoldable pub history_row : List ℕ
history_row =
    128 ∷ 2 ∷ 0 ∷ 0 ∷ 0 ∷ 0 ∷ 0 ∷ 0 ∷ 0 ∷ 0 ∷ 0 ∷ 0 ∷ 23 ∷ b'2' ∷ b'0' ∷ b'2' ∷ b'5' ∷ b'-' ∷ b'0'
    ∷ b'1' ∷ b'-' ∷ b'0' ∷ b'1' ∷ 25 ∷ 30 ∷ 11 ∷ b'1' ∷ b'0' ∷ b'0' ∷ b'0' ∷ 3 ∷ 0 ∷ 0 ∷ 0 ∷ 0 ∷ 0
    ∷ 0 ∷ 0 ∷ 0 ∷ 0 ∷ []
