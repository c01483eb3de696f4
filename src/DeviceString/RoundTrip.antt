-- ===== src/DeviceString/RoundTrip.antt =====
-- Strings are read back by the rules of the format: the lowest bit of the first byte marks the
-- short form, whose length stands above it; the long forms have a flag and a 16-bit length, both
-- lengths counting the header.
use bvault_app.Prelude.{
  ℕ, ◌+◌, ◌-◌, ◌*◌, ◌/◌, ◌%◌, ◌^◌, ◌≤◌, ◌<◌, bit_and, bit_or, ◌≡◌, refl, ap, ap₂, ◌∙◌, inl, inr,
  arith, true, Option, some, none, List, [], ◌∷◌, ◌++◌, All, All-append, length, length-append,
  take, take-append_exact, leb, ◌==◌, if◌then◌else◌, concat_map, length-concat_map, u8, of_le,
  Bool-cases,
}
use bvault_app.Prelude.Bits.{bit_or-shifted, bit_and-mask}
use bvault_app.Text.{
  Text, IsScalar, as_bytes, utf8_char, encode_utf16, utf16_char, utf16_units, decode_utf16,
  decode_utf16-encode_utf16, ascii_bytes,
}
use bvault_app.DeviceString.{
  all_ascii, encode_short_ascii, encode_long_ascii, unit_bytes, encode_utf16le, encode_string,
}

-- The code units of a little-endian byte sequence.
abbrev pub units_of : List ℕ → List ℕ
units_of [] = []
units_of (a ∷ []) = []
units_of (a ∷ b ∷ bs) = (a + 256 * b) ∷ units_of bs

-- The string at the start of `bytes`.
pub decode_string : List ℕ → Option Text
decode_string [] = none
decode_string (h ∷ bytes) =
    let body = take (of_le (take 2 bytes) - 4) (skip_three bytes) in
    if h % 2 == 1
    then some (take (h / 2 - 1) bytes)
    else if h == 0x40
    then some body
    else if h == 0x90
    then decode_utf16 (units_of body)
    else none
  where
    skip_three : List ℕ → List ℕ
    skip_three (a ∷ b ∷ c ∷ rest) = rest
    skip_three _ = []

units_of-concat_map :
    (us : List ℕ) → All (λ u. u < 2 ^ 16) us → units_of (concat_map unit_bytes us) ≡ us
unfolding unit_bytes
units_of-concat_map [] h = refl
units_of-concat_map (u ∷ us) h =
    ap₂ ◌∷◌ (omega (arith, bit_and-mask 8 u, bit_and-mask 8 (u / 2 ^ 8)))
      (units_of-concat_map us h.1)

length-units : (us : List ℕ) → length (concat_map unit_bytes us) ≡ length us * 2
unfolding unit_bytes
length-units us = length-concat_map unit_bytes 2 us (λ u. refl)

utf16-All : (s : Text) → All IsScalar s → All (λ u. u < 2 ^ 16) (encode_utf16 s)
utf16-All [] h = tt
utf16-All (c ∷ s) h =
    All-append (λ u. u < 2 ^ 16) (utf16_char c) (encode_utf16 s) (utf16_units c h.0)
      (utf16-All s h.1)

-- A scalar whose bytes are all below 128 is below 128.
ascii_char : (c : ℕ) → all_ascii (utf8_char c) ≡ true → c < 128
unfolding all_ascii utf8_char
ascii_char c h = ground arith

all_ascii-append :
    (xs ys : List ℕ) → all_ascii (xs ++ ys) ≡ true → (all_ascii xs ≡ true) × (all_ascii ys ≡ true)
unfolding all_ascii
all_ascii-append [] ys h = (refl, h)
all_ascii-append (x ∷ xs) ys h = ground (arith, all_ascii-append xs ys)

ascii_text : (s : Text) → all_ascii (as_bytes s) ≡ true → All (λ c. c < 0x80) s
ascii_text [] h = tt
ascii_text (c ∷ s) h =
    let (a, b) = all_ascii-append (utf8_char c) (as_bytes s) h in (ascii_char c a, ascii_text s b)

short_header : (n : ℕ) → n ≤ 126 → bit_or (u8 (u8 (n + 1) * 2)) 1 ≡ (n + 1) * 2 + 1
short_header n h =
    let small : u8 (u8 (n + 1) * 2) ≡ (n + 1) * 2 ^ 1 = omega arith in
    ap (λ (x : ℕ). bit_or x 1) small ∙ bit_or-shifted 1 (n + 1) 1 (omega arith)

short_form :
    (h n : ℕ) (bytes : List ℕ)
    → h ≡ (n + 1) * 2 + 1
    → decode_string (h ∷ bytes) ≡ some (take n bytes)
unfolding decode_string
short_form h n bytes e =
    let odd : h % 2 ≡ 1 = omega arith in let size : h / 2 - 1 ≡ n = omega arith in ground arith

short_read :
    (s : Text) (rest : List ℕ)
    → as_bytes s ≡ s
    → length s ≤ 126
    → decode_string (encode_short_ascii s ++ rest) ≡ some s
unfolding encode_short_ascii
short_read s rest same h =
    let size : length (as_bytes s) ≡ length s = ap length same in
    short_form _ (length (as_bytes s)) (as_bytes s ++ rest)
      (short_header (length (as_bytes s)) (omega arith))
    ∙ ap some (take-append_exact (length (as_bytes s)) (as_bytes s) rest refl ∙ same)

long_length :
    (n : ℕ) → n < 2 ^ 16 → u8 (bit_and n 0xFF) + 256 * (u8 (bit_and (n / 2 ^ 8) 0xFF) + 0) ≡ n
long_length n h = omega (arith, bit_and-mask 8 n, bit_and-mask 8 (n / 2 ^ 8))

-- The bytes that a long header's length covers.
long_body :
    (n : ℕ) (body rest : List ℕ)
    → n ≡ 4 + length body
    → n < 2 ^ 16
    → take (u8 (bit_and n 0xFF) + 256 * (u8 (bit_and (n / 2 ^ 8) 0xFF) + 0) - 4) (body ++ rest)
      ≡ body
long_body n body rest e h = take-append_exact _ body rest (omega (arith, long_length n h))

long_read :
    (s : Text) (rest : List ℕ)
    → as_bytes s ≡ s
    → 4 + length s < 2 ^ 16
    → decode_string (encode_long_ascii s ++ rest) ≡ some s
unfolding decode_string encode_long_ascii
long_read s rest same h =
    let size : length (as_bytes s) ≡ length s = ap length same in
    ap some (long_body (4 + length (as_bytes s)) (as_bytes s) rest refl (omega arith) ∙ same)

utf16_read :
    (s : Text) (rest : List ℕ)
    → All IsScalar s
    → 4 + length (encode_utf16 s) * 2 < 2 ^ 16
    → decode_string (encode_utf16le s ++ rest) ≡ some s
unfolding decode_string encode_utf16le
utf16_read s rest scalars h =
    let us : List ℕ = encode_utf16 s in
    ap (λ bs. decode_utf16 (units_of bs))
      (long_body (4 + length us * 2) (concat_map unit_bytes us) rest
        (omega (arith, length-units us)) h)
    ∙ ap decode_utf16 (units_of-concat_map us (utf16-All s scalars))
    ∙ decode_utf16-encode_utf16 s scalars

utf16_longest : (s : Text) → length (encode_utf16 s) ≤ length s * 2
utf16_longest [] = omega arith
utf16_longest (c ∷ s) =
    omega (arith, length-append (utf16_char c) (encode_utf16 s), one c, utf16_longest s)
  where
    one : (c : ℕ) → length (utf16_char c) ≤ 2
    one c = unfold utf16_char in ground arith

-- A string of at most 16,382 characters is read back from its encoding, whatever bytes follow
-- and whichever of the forms was chosen.
pub decode_string-encode_string :
    (s : Text) (rest : List ℕ)
    → All IsScalar s
    → length s ≤ 16_382
    → decode_string (encode_string s ++ rest) ≡ some s
unfolding encode_string
decode_string-encode_string [] rest scalars h = short_form 3 0 rest refl
decode_string-encode_string (c ∷ cs) rest scalars h = elim (Bool-cases (all_ascii (as_bytes s))) [
  | inl ascii ↦
      let same = ascii_bytes s (ascii_text s ascii) in
      let size : length (as_bytes s) ≡ length s = ap length same in
      elim (Bool-cases (leb (length (as_bytes s)) 126)) [
        | inl short ↦ rw (ascii, short) (short_read s rest same (ground arith))
        | inr long ↦ rw (ascii, long) (long_read s rest same (omega arith))
      ]
  | inr wide ↦ rw wide (utf16_read s rest scalars (omega (arith, utf16_longest s)))
]
  where
    s : Text
    s = c ∷ cs
