-- ===== src/Track/PreviewColumn.antt =====
-- `WaveformColorPreviewColumn`: six bytes of seven bits (PWV4).
use bvault_app.Prelude.{ℕ, ◌<◌, bit_and, ◌≡◌, arith, List, [], ◌∷◌, get_or}
use bvault_app.Prelude.Bits.{bit_and-mask}
use bvault_app.Track.{WaveformColorPreviewColumn}

unfoldable pub to_bytes : WaveformColorPreviewColumn → List ℕ
to_bytes c =
    bit_and c.height 0x7F
    ∷ bit_and c.luminance 0x7F
    ∷ bit_and c.blue 0x7F
    ∷ bit_and c.red 0x7F
    ∷ bit_and c.green 0x7F
    ∷ bit_and c.blue2 0x7F
    ∷ []

-- The bytes are an array of six.
pub from_bytes : List ℕ → WaveformColorPreviewColumn
from_bytes bytes = record {
  height = bit_and (get_or bytes 0 0) 0x7F;
  luminance = bit_and (get_or bytes 1 0) 0x7F;
  blue = bit_and (get_or bytes 2 0) 0x7F;
  red = bit_and (get_or bytes 3 0) 0x7F;
  green = bit_and (get_or bytes 4 0) 0x7F;
  blue2 = bit_and (get_or bytes 5 0) 0x7F;
}

-- Every value fits its seven bits.
pub record IsColumn (c : WaveformColorPreviewColumn) : Type 0 where
  pub heights : c.height < 128
  pub luminances : c.luminance < 128
  pub blues : c.blue < 128
  pub reds : c.red < 128
  pub greens : c.green < 128
  pub blues2 : c.blue2 < 128

low_seven : (x : ℕ) → x < 128 → bit_and (bit_and x 0x7F) 0x7F ≡ x
low_seven x h = omega (arith, bit_and-mask 7 x, bit_and-mask 7 (bit_and x 0x7F))

-- A column whose values fit seven bits is read back from its six bytes.
pub preview-from_bytes-to_bytes :
    (c : WaveformColorPreviewColumn) → IsColumn c → from_bytes (to_bytes c) ≡ c
unfolding from_bytes to_bytes
preview-from_bytes-to_bytes c v = ground (
  arith,
  low_seven c.height,
  low_seven c.luminance,
  low_seven c.blue,
  low_seven c.red,
  low_seven c.green,
  low_seven c.blue2,
)
