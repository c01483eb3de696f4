-- ===== src/Xml/Tests.antt =====
-- A text with every escape, a tab and a line break.
use bvault_app.Prelude.{[], ◌∷◌}
use bvault_app.Text.{Text}

abbrev title : Text
title = b'R' ∷ b'&' ∷ b'B' ∷ b'<' ∷ b'>' ∷ b'"' ∷ b'\'' ∷ b';' ∷ 9 ∷ 13 ∷ 10 ∷ 0xE9 ∷ []
