-- ===== src/Anlz/Sections.antt =====
-- anlz.rs: the header of a file and the sections that hold no cues. A section is the list of its
-- bytes; `f64` is the parameter `Floats`.
use bvault_app.Prelude.{
  ℕ, ◌+◌, ◌-◌, ◌*◌, ◌/◌, ◌^◌, min, max, bit_and, bit_or, List, [], ◌∷◌, ◌++◌, map, Option, some,
  none, range, length, get_elem?, concat_map, replicate, u8, u16, u32, be16, be32,
}
use bvault_app.Text.{Text, encode_utf16}
use bvault_app.Track.{
  Floats, Beat, BeatGrid, WaveformColumn, WaveformColorPreviewColumn, WaveformColorEntry,
}
use bvault_app.Track.Column.{to_byte}
use bvault_app.Track.PreviewColumn
use bvault_app.Track.ColorEntry

abbrev pub pmai_tag : List ℕ
pmai_tag = b'P' ∷ b'M' ∷ b'A' ∷ b'I' ∷ []

abbrev pub pqtz_tag : List ℕ
pqtz_tag = b'P' ∷ b'Q' ∷ b'T' ∷ b'Z' ∷ []

abbrev pub pwav_tag : List ℕ
pwav_tag = b'P' ∷ b'W' ∷ b'A' ∷ b'V' ∷ []

abbrev pub pwv2_tag : List ℕ
pwv2_tag = b'P' ∷ b'W' ∷ b'V' ∷ b'2' ∷ []

abbrev pub pwv3_tag : List ℕ
pwv3_tag = b'P' ∷ b'W' ∷ b'V' ∷ b'3' ∷ []

abbrev pub pwv4_tag : List ℕ
pwv4_tag = b'P' ∷ b'W' ∷ b'V' ∷ b'4' ∷ []

abbrev pub pwv5_tag : List ℕ
pwv5_tag = b'P' ∷ b'W' ∷ b'V' ∷ b'5' ∷ []

abbrev pub pwv6_tag : List ℕ
pwv6_tag = b'P' ∷ b'W' ∷ b'V' ∷ b'6' ∷ []

abbrev pub pwv7_tag : List ℕ
pwv7_tag = b'P' ∷ b'W' ∷ b'V' ∷ b'7' ∷ []

abbrev pub pwvc_tag : List ℕ
pwvc_tag = b'P' ∷ b'W' ∷ b'V' ∷ b'C' ∷ []

abbrev pub ppth_tag : List ℕ
ppth_tag = b'P' ∷ b'P' ∷ b'T' ∷ b'H' ∷ []

abbrev pub pvbr_tag : List ℕ
pvbr_tag = b'P' ∷ b'V' ∷ b'B' ∷ b'R' ∷ []

abbrev pub pcob_tag : List ℕ
pcob_tag = b'P' ∷ b'C' ∷ b'O' ∷ b'B' ∷ []

abbrev pub pco2_tag : List ℕ
pco2_tag = b'P' ∷ b'C' ∷ b'O' ∷ b'2' ∷ []

-- `u64::saturating_mul`
saturating_mul : ℕ → ℕ → ℕ
saturating_mul a b = min (a * b) (2 ^ 64 - 1)

unfoldable pub seek_point : ℕ → ℕ → List ℕ
unfolding saturating_mul
seek_point file_size_bytes i = be32 (u32 (saturating_mul file_size_bytes i / 400))

unfoldable pub generate_pvbr_section : ℕ → ℕ → List ℕ
unfolding seek_point
generate_pvbr_section file_size_bytes total_samples =
    pvbr_tag
    ++ be32 16
    ++ be32 1620
    ++ be32 0
    ++ concat_map (seek_point file_size_bytes) (range 0 400)
    ++ be32 (u32 total_samples)

unfoldable pub write_pmai_header : ℕ → List ℕ
write_pmai_header total_size =
    pmai_tag
    ++ be32 28
    ++ be32 (u32 total_size)
    ++ be32 0x0000_0001
    ++ be32 0x0001_0000
    ++ be32 0x0001_0000
    ++ be32 0x0000_0000

-- `columns[i].to_byte()` where the column is there, else 0.
unfoldable pub column_byte : List WaveformColumn → ℕ → ℕ
column_byte columns i = elim (get_elem? columns i) [ none ↦ 0 | some c ↦ to_byte c ]

-- The loop over `j`: the largest of four bytes.
unfoldable pub peak : List WaveformColumn → ℕ → ℕ
unfolding column_byte
peak columns i =
    max
      (max (max (max 0 (column_byte columns (i * 4 + 0))) (column_byte columns (i * 4 + 1)))
        (column_byte columns (i * 4 + 2)))
      (column_byte columns (i * 4 + 3))

unfoldable pub generate_pwv2_section : List WaveformColumn → List ℕ
unfolding peak
generate_pwv2_section columns =
    pwv2_tag
    ++ be32 20
    ++ be32 (20 + 100)
    ++ be32 100
    ++ be32 0x0001_0000
    ++ map (peak columns) (range 0 100)

unfoldable pub generate_pwav_section : List WaveformColumn → List ℕ
unfolding column_byte
generate_pwav_section columns =
    pwav_tag
    ++ be32 20
    ++ be32 (20 + 400)
    ++ be32 400
    ++ be32 0x0001_0000
    ++ map (column_byte columns) (range 0 400)

unfoldable pub generate_pwv5_section : List WaveformColorEntry → List ℕ
generate_pwv5_section entries =
    pwv5_tag
    ++ be32 24
    ++ be32 (u32 (24 + length entries * 2))
    ++ be32 2
    ++ be32 (u32 (length entries))
    ++ be32 0x0096_0305
    ++ concat_map ColorEntry.to_bytes entries

unfoldable pub generate_ppth_section : Text → List ℕ
generate_ppth_section file_path =
    let path_utf16 = encode_utf16 file_path ++ 0 ∷ [] in
    let path_bytes_len = length path_utf16 * 2 in
    ppth_tag
    ++ be32 16
    ++ be32 (u32 (16 + path_bytes_len))
    ++ be32 (u32 path_bytes_len)
    ++ concat_map be16 path_utf16

-- Whiteness is the mean of the three colours, at most 7.
unfoldable pub mono_byte : WaveformColorEntry → ℕ
mono_byte entry =
    let whiteness = min (u8 ((entry.red + entry.green + entry.blue) / 3)) 7 in
    let height = bit_and entry.height 0x1F in bit_or (u8 (whiteness * 2 ^ 5)) height

unfoldable pub generate_pwv3_section : List WaveformColorEntry → List ℕ
unfolding mono_byte
generate_pwv3_section entries =
    pwv3_tag
    ++ be32 24
    ++ be32 (u32 (24 + length entries))
    ++ be32 1
    ++ be32 (u32 (length entries))
    ++ be32 0x0096_0000
    ++ map mono_byte entries

unfoldable pub bands : Option WaveformColorPreviewColumn → List ℕ
bands none = replicate 3 0
bands (some c) = bit_and c.blue 0x7F ∷ bit_and c.red 0x7F ∷ bit_and c.green 0x7F ∷ []

unfoldable pub generate_pwv6_section : List WaveformColorPreviewColumn → List ℕ
unfolding bands
generate_pwv6_section columns =
    pwv6_tag
    ++ be32 20
    ++ be32 (20 + 1200 * 3)
    ++ be32 3
    ++ be32 1200
    ++ concat_map (λ i. bands (get_elem? columns i)) (range 0 1200)

-- The closure `scale`, a band of three bits times the height of five, brought to 0..127.
scale : WaveformColorEntry → ℕ → ℕ
scale e ch = u8 (min (bit_and ch 0x07 * bit_and e.height 0x1F * 127 / (7 * 31)) 127)

unfoldable pub scaled_bands : WaveformColorEntry → List ℕ
unfolding scale
scaled_bands e = scale e e.red ∷ scale e e.green ∷ scale e e.blue ∷ []

unfoldable pub generate_pwv7_section : List WaveformColorEntry → List ℕ
unfolding scaled_bands
generate_pwv7_section entries =
    pwv7_tag
    ++ be32 24
    ++ be32 (u32 (24 + length entries * 3))
    ++ be32 3
    ++ be32 (u32 (length entries))
    ++ be32 0x0096_0000
    ++ concat_map scaled_bands entries

unfoldable pub generate_pwvc_section : List ℕ
generate_pwvc_section = pwvc_tag ++ be32 14 ++ be32 20 ++ be16 0 ++ be16 100 ++ be16 100 ++ be16 100

unfoldable pub color_column : Option WaveformColorPreviewColumn → List ℕ
color_column none = replicate 6 0
color_column (some c) = PreviewColumn.to_bytes c

unfoldable pub generate_pwv4_section : List WaveformColorPreviewColumn → List ℕ
unfolding color_column
generate_pwv4_section columns =
    pwv4_tag
    ++ be32 24
    ++ be32 (24 + 1200 * 6)
    ++ be32 6
    ++ be32 1200
    ++ be32 0
    ++ concat_map (λ i. color_column (get_elem? columns i)) (range 0 1200)

-- A beat's number, its tempo in hundredths and its time.
unfoldable pub beat_entry : (fl : Floats) → Beat fl.Float → List ℕ
beat_entry fl beat =
    be16 (u16 beat.beat_number) ++ be16 beat.tempo_100 ++ be32 (fl.as_u32 beat.time_ms)

unfoldable pub generate_pqtz_section : (fl : Floats) → BeatGrid fl.Float → List ℕ
unfolding beat_entry
generate_pqtz_section fl beat_grid =
    let beats = beat_grid.beats in
    pqtz_tag
    ++ be32 24
    ++ be32 (u32 (24 + length beats * 8))
    ++ be32 0
    ++ be32 0x0008_0000
    ++ be32 (u32 (length beats))
    ++ concat_map (beat_entry fl) beats
