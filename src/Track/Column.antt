-- ===== src/Track/Column.antt =====
-- `WaveformColumn`: whiteness in the three high bits, height in the five low ones (PWAV).
use bvault_app.Prelude.{ℕ, ◌+◌, ◌*◌, ◌/◌, ◌%◌, ◌^◌, ◌<◌, bit_and, bit_or, ◌≡◌, ap₂, ◌∙◌, arith, u8}
use bvault_app.Prelude.Bits.{bit_and-mask, bit_or-shifted}
use bvault_app.Track.{WaveformColumn}

unfoldable pub to_byte : WaveformColumn → ℕ
to_byte c = bit_or (u8 (bit_and c.whiteness 0x07 * 2 ^ 5)) (bit_and c.height 0x1F)

pub from_byte : ℕ → WaveformColumn
from_byte byte = record { height = bit_and byte 0x1F; whiteness = bit_and (byte / 2 ^ 5) 0x07 }

pub to_byte_sum : (c : WaveformColumn) → to_byte c ≡ c.whiteness % 8 * 32 + c.height % 32
unfolding to_byte
to_byte_sum c =
    let high : u8 (bit_and c.whiteness 0x07 * 2 ^ 5) ≡ c.whiteness % 8 * 2 ^ 5 =
      omega (arith, bit_and-mask 3 c.whiteness) in
    ap₂ bit_or high (bit_and-mask 5 c.height)
    ∙ bit_or-shifted 5 (c.whiteness % 8) (c.height % 32) (omega arith)

pub from_byte-to_byte :
    (c : WaveformColumn) → c.height < 32 → c.whiteness < 8 → from_byte (to_byte c) ≡ c
unfolding from_byte
from_byte-to_byte c h w =
    ground (arith, to_byte_sum c, bit_and-mask 5 (to_byte c), bit_and-mask 3 (to_byte c / 2 ^ 5))

-- The byte and the column determine each other: a column in range is the column of its byte, and
-- a byte is the byte of its column.
pub byte_column :
    (c : WaveformColumn) (b : ℕ)
    → c.height < 32
    → c.whiteness < 8
    → b < 256
    → (from_byte (to_byte c) ≡ c) × (to_byte (from_byte b) ≡ b)
byte_column c b h w small = (
  from_byte-to_byte c h w,
  (unfold from_byte in
      omega (arith, to_byte_sum (from_byte b), bit_and-mask 5 b, bit_and-mask 3 (b / 2 ^ 5))),
)
