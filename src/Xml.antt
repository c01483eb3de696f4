-- ===== src/Xml.antt =====
-- crates/bvault-core/src/xml.rs: how texts and paths are escaped in the collection. The assembly of
-- the document from them is left out.
pub mod Escaping
pub mod Uri
pub mod Tests
use bvault_app.Prelude.{
  ℕ, ◌/◌, ◌%◌, ◌||◌, ◌&&◌, Bool, true, false, List, [], ◌∷◌, ◌++◌, leb, ◌==◌, if◌then◌else◌,
  concat_map, map,
}
use bvault_app.Text.{Text, as_bytes}
use bvault_app.Anlz.Path.{upper_digit}

-- XML attribute-value escaping of one character.
unfoldable pub esc_char : ℕ → Text
esc_char c =
    if c == b'&'
    then b'&' ∷ b'a' ∷ b'm' ∷ b'p' ∷ b';' ∷ []
    else if c == b'<'
    then b'&' ∷ b'l' ∷ b't' ∷ b';' ∷ []
    else if c == b'>'
    then b'&' ∷ b'g' ∷ b't' ∷ b';' ∷ []
    else if c == b'"'
    then b'&' ∷ b'q' ∷ b'u' ∷ b'o' ∷ b't' ∷ b';' ∷ []
    else if c == b'\''
    then b'&' ∷ b'a' ∷ b'p' ∷ b'o' ∷ b's' ∷ b';' ∷ []
    else c ∷ []

unfoldable pub esc : Text → Text
unfolding esc_char
esc s = concat_map esc_char s

-- `is_ascii_alphanumeric`, or one of `-_.~/:`.
unfoldable pub keep : ℕ → Bool
keep b =
    (leb b'0' b && leb b b'9')
    || (leb b'A' b && leb b b'Z')
    || (leb b'a' b && leb b b'z')
    || (b == b'-')
    || (b == b'_')
    || (b == b'.')
    || (b == b'~')
    || (b == b'/')
    || (b == b':')

unfoldable pub encode_byte : ℕ → Text
unfolding keep upper_digit
encode_byte b = if keep b then b ∷ [] else b'%' ∷ upper_digit (b / 16) ∷ upper_digit (b % 16) ∷ []

unfoldable pub percent_encode_path : Text → Text
unfolding encode_byte
percent_encode_path s = concat_map encode_byte (as_bytes s)

-- `abs.replace('\\', "/")`
unfoldable pub normalised : Text → Text
normalised abs = map (λ c. if c == b'\\' then b'/' else c) abs

unfoldable pub starts_with_slash : Text → Bool
starts_with_slash [] = false
starts_with_slash (c ∷ cs) = c == b'/'

abbrev pub localhost : Text
localhost =
    b'f' ∷ b'i' ∷ b'l' ∷ b'e' ∷ b':' ∷ b'/' ∷ b'/' ∷ b'l' ∷ b'o' ∷ b'c' ∷ b'a' ∷ b'l' ∷ b'h' ∷ b'o'
    ∷ b's' ∷ b't' ∷ []

unfoldable pub file_uri : Text → Text
unfolding percent_encode_path normalised starts_with_slash
file_uri abs =
    let encoded = percent_encode_path (normalised abs) in
    if starts_with_slash encoded then localhost ++ encoded else localhost ++ b'/' ∷ encoded
