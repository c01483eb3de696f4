-- ===== src/Xml/Escaping.antt =====
-- xml.rs: an attribute's text is read back, and does not end the attribute. The reader normalises
-- line ends and attribute values as XML 1.0 (2.11 and 3.3.3) says.
use bvault_app.Prelude.{
  ℕ, ◌≡◌, ◌≢◌, true, Option, some, none, [], Bool, false, ◌&&◌, ◌∷◌, ◌++◌, ◌==◌, ◌||◌, map,
  if◌then◌else◌,
}
use bvault_app.Text.{Text, text_equal}
use bvault_app.Xml.{esc_char, esc}

-- The character that a reader puts for an entity; an unknown one is dropped.
unfoldable pub entity : Text → Text
entity name =
    if text_equal name (b'a' ∷ b'm' ∷ b'p' ∷ [])
    then b'&' ∷ []
    else if text_equal name (b'l' ∷ b't' ∷ [])
    then b'<' ∷ []
    else if text_equal name (b'g' ∷ b't' ∷ [])
    then b'>' ∷ []
    else if text_equal name (b'q' ∷ b'u' ∷ b'o' ∷ b't' ∷ [])
    then b'"' ∷ []
    else if text_equal name (b'a' ∷ b'p' ∷ b'o' ∷ b's' ∷ [])
    then b'\'' ∷ []
    else []

-- A reader of XML puts a blank for a tab or a line break that stands in an attribute as it is.
unfoldable pub blank_of : ℕ → ℕ
blank_of c = if c == 9 || c == 10 || c == 13 then b' ' else c

-- A reader of attribute values, outside an entity or within one of which it has a part of the name.
unfoldable pub unescape : Option Text → Text → Text
unfolding entity blank_of
unescape state [] = []
unescape none (c ∷ cs) =
    let inside = unescape (some []) cs in
    let outside = unescape none cs in if c == b'&' then inside else blank_of c ∷ outside
unescape (some name) (c ∷ cs) =
    let outside = unescape none cs in
    let inside = unescape (some (name ++ c ∷ [])) cs in
    if c == b';' then entity name ++ outside else inside

-- A reader takes CR LF and CR for a line feed before it parses; `cr` says that a CR came before.
unfoldable pub line_ends : Bool → Text → Text
line_ends cr [] = []
line_ends cr (c ∷ cs) =
    let joined = line_ends false cs in
    let after_cr = line_ends true cs in
    if c == 13 then 10 ∷ after_cr else if c == 10 && cr then joined else c ∷ joined

-- What a reader of XML has as the value of an attribute.
unfoldable pub read_attribute : Text → Text
unfolding unescape line_ends
read_attribute s = unescape none (line_ends false s)

-- No character that ends the attribute or opens a tag.
abbrev pub IsInert : ℕ → Type 0
IsInert c = (c ≢ b'<') × (c ≢ b'>') × (c ≢ b'"') × (c ≢ b'\'')

-- The text with a blank for each tab, line feed and CR.
abbrev pub blanked : Text → Text
blanked s = map blank_of s

-- The escaped character is read back, or its blank, whatever follows.
abbrev IsReadBack : Text → ℕ → Type 0
IsReadBack rest c = unescape none (esc_char c ++ rest) ≡ blank_of c ∷ unescape none rest

-- Line breaks are escaped into themselves, so reading them as one commutes with the escape.
abbrev Commutes : Bool → Text → ℕ → Type 0
Commutes cr s c = line_ends cr (esc (c ∷ s)) ≡ esc (line_ends cr (c ∷ s))
