-- ===== src/Hash/Hex.antt =====
-- The hexadecimal form of an identity, and its way back to the number that the worker records.
use bvault_app.Prelude.{
  ℕ, zero, suc, ◌+◌, ◌-◌, ◌*◌, ◌/◌, ◌%◌, ◌^◌, ◌<◌, ◌≡◌, refl, ap, sym, ◌∙◌, arith, ◌&&◌, Option,
  some, none, append_assoc, append-nil, List, [], ◌∷◌, ◌++◌, length, length-append, ltb, leb,
  if◌then◌else◌,
}
use native.Mathlib.Nat.{pow-suc}
use bvault_app.Hash.{hex_digit, hex_digits, hash_hex}

-- `u64::from_str_radix(s, 16)` of the standard library, a leading `+` aside: digits in both cases
-- are read; no digit at all, any other character and a value past 64 bits are errors.
unfoldable pub digit_value : ℕ → Option ℕ
digit_value c =
    if leb b'0' c && leb c b'9'
    then some (c - b'0')
    else if leb b'a' c && leb c b'f'
    then some (c - b'a' + 10)
    else if leb b'A' c && leb c b'F'
    then some (c - b'A' + 10)
    else none

unfoldable pub parse_from : ℕ → List ℕ → Option ℕ
unfolding digit_value
parse_from acc [] = some acc
parse_from acc (c ∷ cs) = elim (digit_value c) [
  | none ↦ none
  | some d ↦ if ltb (acc * 16 + d) (2 ^ 64) then parse_from (acc * 16 + d) cs else none
]

unfoldable pub from_str_radix : List ℕ → Option ℕ
unfolding parse_from
from_str_radix [] = none
from_str_radix (c ∷ cs) = parse_from 0 (c ∷ cs)

digit_back : (d : ℕ) → d < 16 → digit_value (hex_digit d) ≡ some d
unfolding digit_value hex_digit
digit_back d h = ground arith

digits_back :
    (k v : ℕ) (rest : List ℕ)
    → v < 16 ^ k
    → v < 2 ^ 64
    → parse_from 0 (hex_digits k v ++ rest) ≡ parse_from v rest
unfolding hex_digits
digits_back zero v rest h w = ap (λ (x : ℕ). parse_from x rest) (omega arith)
digits_back (suc k) v rest h w =
    ap (parse_from 0) (append_assoc (hex_digits k (v / 16)) (hex_digit (v % 16) ∷ []) rest)
    ∙ digits_back k (v / 16) (hex_digit (v % 16) ∷ rest) (omega (arith, pow-suc 16 k)) (omega arith)
    ∙ last_digit (hex_digit (v % 16)) (v % 16) (digit_back (v % 16) (omega arith)) (omega arith)
  where
    last_digit :
        (c d : ℕ)
        → digit_value c ≡ some d
        → v / 16 * 16 + d ≡ v
        → parse_from (v / 16) (c ∷ rest) ≡ parse_from v rest
    last_digit c d e s = unfold parse_from in ground arith

length-hex_digits : (k v : ℕ) → length (hex_digits k v) ≡ k
unfolding hex_digits
length-hex_digits zero v = refl
length-hex_digits (suc k) v = omega (
  arith,
  length-append (hex_digits k (v / 16)) (hex_digit (v % 16) ∷ []),
  length-hex_digits k (v / 16),
)

-- The text of a 64-bit identity has sixteen characters, and the worker reads the identity back.
pub from_str_radix-hash_hex :
    (hash : ℕ)
    → hash < 2 ^ 64
    → (length (hash_hex hash) ≡ 16) × (from_str_radix (hash_hex hash) ≡ some hash)
unfolding hash_hex from_str_radix
from_str_radix-hash_hex hash h =
    (length-hex_digits 16 hash, starts (hex_digits 16 hash) (length-hex_digits 16 hash) parsed)
  where
    parsed : parse_from 0 (hex_digits 16 hash) ≡ some hash
    parsed =
        ap (parse_from 0) (sym (append-nil (hex_digits 16 hash)))
        ∙ digits_back 16 hash [] h h
        ∙ (unfold parse_from in refl)

    starts :
        (cs : List ℕ) → length cs ≡ 16 → parse_from 0 cs ≡ some hash → from_str_radix cs ≡ some hash
    starts [] e p = absurd (omega arith)
    starts (c ∷ cs) e p = p
