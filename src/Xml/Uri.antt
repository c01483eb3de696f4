-- ===== src/Xml/Uri.antt =====
-- xml.rs: the path is read back from its URI.
use bvault_app.Prelude.{
  ℕ, ◌≡◌, ◌<◌, ◌+◌, ◌*◌, ◌/◌, ◌%◌, refl, ap, ◌∙◌, inl, inr, arith, true, false, some, none, List,
  [], ◌∷◌, ◌++◌, ◌==◌, if◌then◌else◌, concat_map, Bool-cases, All, All-append, drop,
}
use bvault_app.Text.{Text, IsScalar, utf8_char, as_bytes}
use bvault_app.Hash.Hex.{digit_value}
use bvault_app.Anlz.Path.{upper_digit, digit_read}
use bvault_app.Xml.{keep, encode_byte, percent_encode_path, normalised, starts_with_slash, file_uri}

-- Where a reader of a URI stands: before a byte, or before the two digits of one, or the second.
pub data Place : Type 0 where
  plain first : Place
  second : ℕ → Place

unfoldable pub nibble : ℕ → ℕ
nibble c = elim (digit_value c) [ none ↦ 0 | some d ↦ d ]

unfoldable pub percent_decode : Place → Text → List ℕ
unfolding nibble
percent_decode place [] = []
percent_decode plain (c ∷ cs) =
    let escaped = percent_decode first cs in
    let rest = percent_decode plain cs in if c == b'%' then escaped else c ∷ rest
percent_decode first (c ∷ cs) = percent_decode (second (nibble c)) cs
percent_decode (second d) (c ∷ cs) = (d * 16 + nibble c) ∷ percent_decode plain cs

nibble-upper_digit : (d : ℕ) → d < 16 → nibble (upper_digit d) ≡ d
unfolding nibble
nibble-upper_digit d h = rw (digit_read d h, nibble) refl

keep-percent : (b : ℕ) → keep b ≡ true → (b == b'%') ≡ false
unfolding keep
keep-percent b e = ground arith

percent_decode-encode_byte :
    (b : ℕ) (rest : Text)
    → b < 256
    → percent_decode plain (encode_byte b ++ rest) ≡ b ∷ percent_decode plain rest
unfolding percent_decode encode_byte
percent_decode-encode_byte b rest h = elim (Bool-cases (keep b)) [
  | inl kept ↦ rw (kept, keep-percent b kept, encode_byte, percent_decode) refl
  | inr escaped ↦
      let high = nibble-upper_digit (b / 16) (omega (arith, h)) in
      let low = nibble-upper_digit (b % 16) (omega arith) in
      let whole : b / 16 * 16 + b % 16 ≡ b = omega arith in
      rw (escaped, encode_byte, percent_decode, high, low, whole) refl
]

percent_decode-bytes :
    (bytes : List ℕ)
    → All (λ b. b < 256) bytes
    → percent_decode plain (concat_map encode_byte bytes) ≡ bytes
percent_decode-bytes [] h = unfold percent_decode in refl
percent_decode-bytes (b ∷ bytes) h =
    percent_decode-encode_byte b (concat_map encode_byte bytes) h.0
    ∙ ap (◌∷◌ b) (percent_decode-bytes bytes h.1)

utf8_char-bytes : (c : ℕ) → IsScalar c → All (λ b. b < 256) (utf8_char c)
unfolding utf8_char
utf8_char-bytes c h = ground arith

as_bytes-bytes : (s : Text) → All IsScalar s → All (λ b. b < 256) (as_bytes s)
as_bytes-bytes [] h = tt
as_bytes-bytes (c ∷ s) h =
    All-append (λ b. b < 256) (utf8_char c) (as_bytes s) (utf8_char-bytes c h.0)
      (as_bytes-bytes s h.1)

normalised-scalars : (s : Text) → All IsScalar s → All IsScalar (normalised s)
unfolding normalised
normalised-scalars [] h = tt
normalised-scalars (c ∷ s) h = (
  elim (Bool-cases (c == b'\\')) [
    | inl is ↦ rw (is) (inl (omega arith))
    | inr other ↦ rw (other) h.0
  ],
  normalised-scalars s h.1,
)

-- The path in a URI, decoded; a leading slash is added to a path that has none.
unfoldable pub rooted : List ℕ → List ℕ
unfolding starts_with_slash
rooted bytes = if starts_with_slash bytes then bytes else b'/' ∷ bytes

starts_with_slash-encode :
    (bytes : List ℕ) → starts_with_slash (concat_map encode_byte bytes) ≡ starts_with_slash bytes
unfolding starts_with_slash encode_byte keep
starts_with_slash-encode [] = refl
starts_with_slash-encode (b ∷ bytes) = ground arith

-- The path of a `file_uri` is read back: what follows the host decodes to the bytes of the path with
-- its backslashes made slashes, and with a slash in front if it has none.
pub percent_decode-file_uri :
    (abs : Text)
    → All IsScalar abs
    → percent_decode plain (drop 16 (file_uri abs)) ≡ rooted (as_bytes (normalised abs))
unfolding file_uri percent_encode_path rooted
percent_decode-file_uri abs h =
    let bytes = as_bytes (normalised abs) in
    let read =
      percent_decode-bytes bytes (as_bytes-bytes (normalised abs) (normalised-scalars abs h)) in
    let same = starts_with_slash-encode bytes in
    elim (Bool-cases (starts_with_slash bytes)) [
      | inl slash ↦ rw (same, slash) read
      | inr none_yet ↦ rw (same, none_yet) (unfold percent_decode in ap (◌∷◌ b'/') read)
    ]
