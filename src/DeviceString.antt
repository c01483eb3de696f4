-- ===== src/DeviceString.antt =====
-- crates/bvault-core/src/string.rs: the DeviceSQL string encodings.
pub mod RoundTrip
pub mod Tests
use bvault_app.Prelude.{
  ℕ, ◌+◌, ◌*◌, ◌/◌, ◌%◌, ◌^◌, bit_and, bit_or, Bool, true, false, ◌&&◌, List, [], ◌∷◌, ◌++◌, length,
  ltb, leb, if◌then◌else◌, concat_map, u8,
}
use bvault_app.Text.{Text, as_bytes, encode_utf16}

abbrev pub max_short_ascii_len : ℕ
max_short_ascii_len = 126

abbrev pub flag_long_ascii : ℕ
flag_long_ascii = 0x40

abbrev pub flag_utf16le : ℕ
flag_utf16le = 0x90

-- `s.bytes().all(|b| b < 128)`
pub all_ascii : List ℕ → Bool
all_ascii [] = true
all_ascii (b ∷ bs) = ltb b 128 && all_ascii bs

encode_short_ascii : Text → List ℕ
encode_short_ascii s =
    let total_len = length (as_bytes s) + 1 in
    let header = bit_or (u8 (u8 total_len * 2)) 1 in header ∷ as_bytes s

-- The header of the long forms: a flag, the low and high byte of the length, padding.
long_header : ℕ → ℕ → List ℕ
long_header flag total_len =
    flag ∷ u8 (bit_and total_len 0xFF) ∷ u8 (bit_and (total_len / 2 ^ 8) 0xFF) ∷ 0x00 ∷ []

encode_long_ascii : Text → List ℕ
unfolding long_header
encode_long_ascii s =
    let total_len = 4 + length (as_bytes s) in long_header flag_long_ascii total_len ++ as_bytes s

unit_bytes : ℕ → List ℕ
unit_bytes ch = u8 (bit_and ch 0xFF) ∷ u8 (bit_and (ch / 2 ^ 8) 0xFF) ∷ []

encode_utf16le : Text → List ℕ
unfolding long_header unit_bytes
encode_utf16le s =
    let utf16_chars = encode_utf16 s in
    let utf16_bytes_len = length utf16_chars * 2 in
    let total_len = 4 + utf16_bytes_len in
    long_header flag_utf16le total_len ++ concat_map unit_bytes utf16_chars

unfoldable pub encode_string : Text → List ℕ
unfolding all_ascii encode_short_ascii encode_long_ascii encode_utf16le
encode_string [] = 0x03 ∷ []
encode_string (c ∷ cs) =
    let s = c ∷ cs in
    let is_ascii = all_ascii (as_bytes s) in
    if is_ascii && leb (length (as_bytes s)) max_short_ascii_len
    then encode_short_ascii s
    else if is_ascii
    then encode_long_ascii s
    else encode_utf16le s

unfoldable pub encode_isrc : Text → List ℕ
unfolding encode_string long_header
encode_isrc [] = encode_string []
encode_isrc (c ∷ cs) =
    let isrc = as_bytes (c ∷ cs) in
    let data_len = 1 + length isrc + 1 in
    let total_len = 4 + data_len in
    long_header flag_utf16le total_len ++ (0x03 ∷ (isrc ++ 0x00 ∷ []))
