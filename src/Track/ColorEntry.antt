-- ===== src/Track/ColorEntry.antt =====
-- `WaveformColorEntry`: three colours of three bits and a height of five in two bytes (PWV5).
use bvault_app.Prelude.{
  ℕ, ◌+◌, ◌*◌, ◌/◌, ◌%◌, ◌^◌, ◌<◌, bit_and, bit_or, ◌≡◌, ap₂, ◌∙◌, arith, u16, be16, of_be,
  of_be-be16, List,
}
use bvault_app.Prelude.Bits.{bit_and-mask, bit_or-shifted}
use bvault_app.Track.{WaveformColorEntry}

-- The `u16` that is written; `|` associates to the left.
packed : WaveformColorEntry → ℕ
packed e =
    bit_or
      (bit_or (bit_or (u16 (bit_and e.red 0x07 * 2 ^ 13)) (u16 (bit_and e.green 0x07 * 2 ^ 10)))
        (u16 (bit_and e.blue 0x07 * 2 ^ 7)))
      (u16 (bit_and e.height 0x1F * 2 ^ 2))

unfoldable pub to_bytes : WaveformColorEntry → List ℕ
unfolding packed
to_bytes e = be16 (packed e)

pub from_bytes : List ℕ → WaveformColorEntry
from_bytes bytes =
    let value = of_be 0 bytes in
    record {
      red = bit_and (value / 2 ^ 13) 0x07;
      green = bit_and (value / 2 ^ 10) 0x07;
      blue = bit_and (value / 2 ^ 7) 0x07;
      height = bit_and (value / 2 ^ 2) 0x1F;
    }

packed_sum :
    (e : WaveformColorEntry)
    → packed e ≡ e.red % 8 * 2 ^ 13 + e.green % 8 * 2 ^ 10 + e.blue % 8 * 2 ^ 7 + e.height % 32 * 4
unfolding packed
packed_sum e =
    let r : u16 (bit_and e.red 0x07 * 2 ^ 13) ≡ e.red % 8 * 2 ^ 13 =
      omega (arith, bit_and-mask 3 e.red) in
    let g : u16 (bit_and e.green 0x07 * 2 ^ 10) ≡ e.green % 8 * 2 ^ 10 =
      omega (arith, bit_and-mask 3 e.green) in
    let b : u16 (bit_and e.blue 0x07 * 2 ^ 7) ≡ e.blue % 8 * 2 ^ 7 =
      omega (arith, bit_and-mask 3 e.blue) in
    let h : u16 (bit_and e.height 0x1F * 2 ^ 2) ≡ e.height % 32 * 4 =
      omega (arith, bit_and-mask 5 e.height) in
    let rg : bit_or (u16 (bit_and e.red 0x07 * 2 ^ 13)) (u16 (bit_and e.green 0x07 * 2 ^ 10))
        ≡ (e.red % 8 * 8 + e.green % 8) * 2 ^ 10 =
      ap₂ bit_or r g
      ∙ bit_or-shifted 13 (e.red % 8) (e.green % 8 * 2 ^ 10) (omega arith)
      ∙ omega arith in
    let rgb =
      ap₂ bit_or rg b
      ∙ bit_or-shifted 10 (e.red % 8 * 8 + e.green % 8) (e.blue % 8 * 2 ^ 7) (omega arith) in
    let whole : (e.red % 8 * 8 + e.green % 8) * 2 ^ 10 + e.blue % 8 * 2 ^ 7
        ≡ (e.red % 8 * 64 + e.green % 8 * 8 + e.blue % 8) * 2 ^ 7 =
      omega arith in
    ap₂ bit_or (rgb ∙ whole) h
    ∙ bit_or-shifted 7 (e.red % 8 * 64 + e.green % 8 * 8 + e.blue % 8) (e.height % 32 * 4)
        (omega arith)
    ∙ omega arith

-- An entry in range is read back from its two bytes.
pub from_bytes-to_bytes :
    (e : WaveformColorEntry)
    → e.red < 8
    → e.green < 8
    → e.blue < 8
    → e.height < 32
    → from_bytes (to_bytes e) ≡ e
from_bytes-to_bytes e hr hg hb hh =
    let sum = packed_sum e in
    let whole : of_be 0 (to_bytes e) ≡ packed e =
      (unfold to_bytes in of_be-be16 (packed e) (omega arith)) in
    let value : ℕ = of_be 0 (to_bytes e) in
    unfold from_bytes in
    ground (
      arith,
      bit_and-mask 3 (value / 2 ^ 13),
      bit_and-mask 3 (value / 2 ^ 10),
      bit_and-mask 3 (value / 2 ^ 7),
      bit_and-mask 5 (value / 2 ^ 2),
    )
