-- ===== src/Anlz/Path.antt =====
-- anlz.rs: the directory of a track's analysis files.
use bvault_app.Prelude.{
  ℕ, zero, suc, ◌+◌, ◌-◌, ◌*◌, ◌/◌, ◌%◌, ◌^◌, ◌<◌, ◌≡◌, refl, ap, ◌∙◌, arith, some, List, [], ◌∷◌,
  ◌++◌, append_assoc, length, length-append, ltb, if◌then◌else◌, slice,
}
use native.Mathlib.Nat.{pow-suc}
use bvault_app.Text.{Text}
use bvault_app.Hash.Hex.{digit_value, parse_from, from_str_radix}

unfoldable pub upper_digit : ℕ → ℕ
upper_digit d = if ltb d 10 then b'0' + d else b'A' + (d - 10)

-- The last `k` digits of `v`, most significant first: base 16 as `{:08X}`, base 10 as `{:03}`.
digits : ℕ → ℕ → ℕ → Text
unfolding upper_digit
digits base zero v = []
digits base (suc k) v = digits base k (v / base) ++ upper_digit (v % base) ∷ []

root : Text
root =
    b'P' ∷ b'I' ∷ b'O' ∷ b'N' ∷ b'E' ∷ b'E' ∷ b'R' ∷ b'/' ∷ b'U' ∷ b'S' ∷ b'B' ∷ b'A' ∷ b'N' ∷ b'L'
    ∷ b'Z' ∷ b'/' ∷ []

file_name : Text
file_name =
    b'/' ∷ b'A' ∷ b'N' ∷ b'L' ∷ b'Z' ∷ b'0' ∷ b'0' ∷ b'0' ∷ b'0' ∷ b'.' ∷ b'D' ∷ b'A' ∷ b'T' ∷ []

-- Three decimal digits suffice below 1000, and eight hexadecimal ones for a `u32`.
pub generate_anlz_path : ℕ → Text
unfolding digits root file_name
generate_anlz_path track_id =
    let dir1 = b'P' ∷ digits 10 3 (track_id / 256 % 1000) in
    let dir2 = digits 16 8 track_id in root ++ dir1 ++ b'/' ∷ [] ++ dir2 ++ file_name

pub digit_read : (d : ℕ) → d < 16 → digit_value (upper_digit d) ≡ some d
unfolding upper_digit
digit_read d h = unfold digit_value in ground arith

length-digits : (base k v : ℕ) → length (digits base k v) ≡ k
unfolding digits
length-digits base zero v = refl
length-digits base (suc k) v = omega (
  arith,
  length-append (digits base k (v / base)) (upper_digit (v % base) ∷ []),
  length-digits base k (v / base),
)

read_step :
    (acc d : ℕ) (rest : List ℕ)
    → d < 16
    → acc * 16 + d < 2 ^ 64
    → parse_from acc (upper_digit d ∷ rest) ≡ parse_from (acc * 16 + d) rest
read_step acc d rest h w = unfold parse_from in ground (arith, digit_read d h, w)

digits_read :
    (k v : ℕ) (rest : List ℕ)
    → v < 16 ^ k
    → v < 2 ^ 64
    → parse_from 0 (digits 16 k v ++ rest) ≡ parse_from v rest
unfolding digits
digits_read zero v rest h w = ap (λ (x : ℕ). parse_from x rest) (omega arith)
digits_read (suc k) v rest h w =
    ap (parse_from 0) (append_assoc (digits 16 k (v / 16)) (upper_digit (v % 16) ∷ []) rest)
    ∙ digits_read k (v / 16) (upper_digit (v % 16) ∷ rest) (omega (arith, pow-suc 16 k))
        (omega arith)
    ∙ read_step (v / 16) (v % 16) rest (omega arith) (omega arith)
    ∙ ap (λ (x : ℕ). parse_from x rest) (omega arith)

-- The name of a track's directory is its id, so two tracks never share a path: the characters 21
-- to 29 of the path are read back as the id, in every path of a 32-bit id.
pub generate_anlz_path-track_id :
    (track_id : ℕ)
    → track_id < 2 ^ 32
    → from_str_radix (slice 21 8 (generate_anlz_path track_id)) ≡ some track_id
unfolding generate_anlz_path
generate_anlz_path-track_id track_id h =
    let parsed : parse_from 0 (digits 16 8 track_id ++ []) ≡ some track_id =
      digits_read 8 track_id [] (omega (arith, h)) (omega (arith, h))
      ∙ (unfold parse_from in refl) in
    unfold from_str_radix in parsed
