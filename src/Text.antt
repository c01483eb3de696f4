-- ===== src/Text.antt =====
-- Rust's strings as their Unicode scalar values, and the two encodings of them that the standard
-- library provides: `as_bytes` (UTF-8) and `encode_utf16`.
pub mod Characters
use bvault_app.Prelude.{
  ℕ, ◌+◌, ◌-◌, ◌*◌, ◌/◌, ◌%◌, ◌^◌, ◌≤◌, ◌<◌, ◌≡◌, refl, ap, ◌∙◌, ◌⊎◌, inl, inr, arith, Bool-cases,
  ◌&&◌, Bool, true, false, ◌==◌, ap₂, Option, some, none, List, [], ◌∷◌, ◌++◌, All, ltb, leb,
  if◌then◌else◌, concat_map,
}
use mathlib.Core.Option

abbrev pub Text : Type 0
Text = List ℕ

-- A `char` is below 0x110000 and no surrogate.
abbrev pub IsScalar : ℕ → Type 0
IsScalar c = (c < 0xD800) ⊎ ((0xE000 ≤ c) × (c < 0x11_0000))

unfoldable pub utf8_char : ℕ → List ℕ
utf8_char c =
    if ltb c 0x80
    then c ∷ []
    else if ltb c 0x800
    then (0xC0 + c / 2 ^ 6) ∷ (0x80 + c % 2 ^ 6) ∷ []
    else if ltb c 0x1_0000
    then (0xE0 + c / 2 ^ 12) ∷ (0x80 + c / 2 ^ 6 % 2 ^ 6) ∷ (0x80 + c % 2 ^ 6) ∷ []
    else (0xF0 + c / 2 ^ 18)
      ∷ (0x80 + c / 2 ^ 12 % 2 ^ 6)
      ∷ (0x80 + c / 2 ^ 6 % 2 ^ 6)
      ∷ (0x80 + c % 2 ^ 6)
      ∷ []

abbrev pub as_bytes : Text → List ℕ
as_bytes = concat_map utf8_char

unfoldable pub utf16_char : ℕ → List ℕ
utf16_char c =
    if ltb c 0x1_0000
    then c ∷ []
    else (0xD800 + (c - 0x1_0000) / 2 ^ 10) ∷ (0xDC00 + (c - 0x1_0000) % 2 ^ 10) ∷ []

abbrev pub encode_utf16 : Text → List ℕ
encode_utf16 = concat_map utf16_char

-- The text that code units stand for, if they are well formed.
unfoldable pub decode_utf16 : List ℕ → Option Text
decode_utf16 [] = some []
decode_utf16 (u ∷ []) =
    if ltb u 0xD800 then some (u ∷ []) else if leb 0xE000 u then some (u ∷ []) else none
decode_utf16 (u ∷ v ∷ us) =
    let single = Option.map (◌∷◌ u) (decode_utf16 (v ∷ us)) in
    let pair =
      Option.map (◌∷◌ ((u - 0xD800) * 2 ^ 10 + (v - 0xDC00) + 0x1_0000)) (decode_utf16 us) in
    if ltb u 0xD800
    then single
    else if leb 0xE000 u
    then single
    else if ltb u 0xDC00 && leb 0xDC00 v && ltb v 0xE000
    then pair
    else none

single_unit :
    (c : ℕ) (us : List ℕ)
    → (c < 0xD800) ⊎ (0xE000 ≤ c)
    → decode_utf16 (c ∷ us) ≡ Option.map (◌∷◌ c) (decode_utf16 us)
unfolding decode_utf16
single_unit c [] h = ground arith
single_unit c (v ∷ us) h = ground arith

pair_units :
    (u v c : ℕ) (us : List ℕ)
    → 0xD800 ≤ u
    → u < 0xDC00
    → 0xDC00 ≤ v
    → v < 0xE000
    → (u - 0xD800) * 2 ^ 10 + (v - 0xDC00) + 0x1_0000 ≡ c
    → decode_utf16 (u ∷ v ∷ us) ≡ Option.map (◌∷◌ c) (decode_utf16 us)
unfolding decode_utf16
pair_units u v c us a b d e f = ground arith

utf16_char_read :
    (c : ℕ) (us : List ℕ)
    → IsScalar c
    → decode_utf16 (utf16_char c ++ us) ≡ Option.map (◌∷◌ c) (decode_utf16 us)
unfolding utf16_char
utf16_char_read c us h = elim (Bool-cases (ltb c 0x1_0000)) [
  | inl small ↦ rw small (single_unit c us (ground arith))
  | inr large ↦ rw large (
      pair_units (0xD800 + (c - 0x1_0000) / 2 ^ 10) (0xDC00 + (c - 0x1_0000) % 2 ^ 10) c us
        (omega arith) (ground arith) (omega arith) (omega arith) (ground arith))
]

pub decode_utf16-encode_utf16 : (s : Text) → All IsScalar s → decode_utf16 (encode_utf16 s) ≡ some s
unfolding decode_utf16
decode_utf16-encode_utf16 [] h = refl
decode_utf16-encode_utf16 (c ∷ s) h =
    utf16_char_read c (encode_utf16 s) h.0
    ∙ ap (Option.map (◌∷◌ c)) (decode_utf16-encode_utf16 s h.1)

pub utf16_units : (c : ℕ) → IsScalar c → All (λ u. u < 2 ^ 16) (utf16_char c)
unfolding utf16_char
utf16_units c h = ground arith

pub ascii_bytes : (s : Text) → All (λ c. c < 0x80) s → as_bytes s ≡ s
unfolding utf8_char
ascii_bytes [] h = refl
ascii_bytes (c ∷ s) h = ground (arith, ascii_bytes s h.1)

pub number_equal_sound : (a b : ℕ) → (a == b) ≡ true → a ≡ b
number_equal_sound a b e = ground arith

pub number_equal_reflexive : (a : ℕ) → (a == a) ≡ true
number_equal_reflexive a = ground arith

-- `a == b` of two strings.
unfoldable pub text_equal : Text → Text → Bool
text_equal [] [] = true
text_equal [] (b ∷ bs) = false
text_equal (a ∷ xs) [] = false
text_equal (a ∷ xs) (b ∷ bs) = (a == b) && text_equal xs bs

pub text_equal_sound : (a b : Text) → text_equal a b ≡ true → a ≡ b
unfolding text_equal
text_equal_sound [] [] e = refl
text_equal_sound [] (b ∷ bs) e = cc
text_equal_sound (a ∷ xs) [] e = cc
text_equal_sound (a ∷ xs) (b ∷ bs) e =
    let both : ((a == b) ≡ true) × (text_equal xs bs ≡ true) = ground arith in
    ap₂ ◌∷◌ (number_equal_sound a b both.0) (text_equal_sound xs bs both.1)

pub text_equal_reflexive : (a : Text) → text_equal a a ≡ true
unfolding text_equal
text_equal_reflexive [] = refl
text_equal_reflexive (a ∷ xs) = ground (arith, number_equal_reflexive a, text_equal_reflexive xs)
