-- ===== src/Anlz/SectionLengths.antt =====
-- Each section that the generators write declares its own length.
use bvault_app.Prelude.{
  ℕ, ◌+◌, ◌*◌, ◌≡◌, refl, arith, List, [], ◌∷◌, ◌++◌, map, concat_map, length, length-append,
  length-map, length-range, length-concat_map, range, Option, some, none, get_elem?, be16, be32,
  u32,
}
use bvault_app.Text.{Text, encode_utf16}
use bvault_app.Track.{
  Floats, BeatGrid, WaveformColumn, WaveformColorEntry, WaveformColorPreviewColumn,
}
use bvault_app.Track.ColorEntry
use bvault_app.Track.PreviewColumn
use bvault_app.Anlz.Sections.{
  ppth_tag, pvbr_tag, pqtz_tag, pwav_tag, pwv2_tag, pwv3_tag, pwv4_tag, pwv5_tag, pwv6_tag,
  pwv7_tag, pwvc_tag, pcob_tag, pco2_tag, seek_point, bands, color_column, scaled_bands,
  column_byte, peak, mono_byte, beat_entry, generate_ppth_section, generate_pvbr_section,
  generate_pqtz_section, generate_pwav_section, generate_pwv2_section, generate_pwv3_section,
  generate_pwv4_section, generate_pwv5_section, generate_pwv6_section, generate_pwv7_section,
  generate_pwvc_section,
}
use bvault_app.Anlz.Cues.{generate_pcob_empty, generate_pco2_empty}
use bvault_app.Anlz.Tags.{Declares, tag-Declares}

length-bands : (c : Option WaveformColorPreviewColumn) → length (bands c) ≡ 3
unfolding bands
length-bands none = refl
length-bands (some c) = refl

length-color_column : (c : Option WaveformColorPreviewColumn) → length (color_column c) ≡ 6
unfolding color_column PreviewColumn.to_bytes
length-color_column none = refl
length-color_column (some c) = refl

pub pvbr-Declares : (size samples : ℕ) → Declares pvbr_tag (generate_pvbr_section size samples)
unfolding generate_pvbr_section
pvbr-Declares size samples =
    let points : List ℕ = concat_map (seek_point size) (range 0 400) in
    let many : length points ≡ 400 * 4 =
      (let m : length (range 0 400) ≡ 400 = length-range 0 400 in
        omega (
          arith,
          m,
          length-concat_map (seek_point size) 4 (range 0 400) (λ x. unfold seek_point in refl),
        )) in
    tag-Declares b'P' b'V' b'B' b'R' 16 1620 (be32 0 ++ points ++ be32 (u32 samples))
      (omega (arith, many, length-append points (be32 (u32 samples))))

pub pqtz-Declares :
    (fl : Floats) (grid : BeatGrid fl.Float) → Declares pqtz_tag (generate_pqtz_section fl grid)
unfolding generate_pqtz_section
pqtz-Declares fl grid =
    let beats = concat_map (beat_entry fl) grid.beats in
    let many : length beats ≡ length grid.beats * 8 =
      length-concat_map (beat_entry fl) 8 grid.beats (λ x. unfold beat_entry in refl) in
    tag-Declares b'P' b'Q' b'T' b'Z' 24 (24 + length grid.beats * 8)
      (be32 0 ++ be32 0x0008_0000 ++ be32 (u32 (length grid.beats)) ++ beats) (omega (arith, many))

pub pwav-Declares :
    (columns : List WaveformColumn) → Declares pwav_tag (generate_pwav_section columns)
unfolding generate_pwav_section
pwav-Declares columns =
    tag-Declares b'P' b'W' b'A' b'V' 20 420
      (be32 400 ++ be32 0x0001_0000 ++ map (column_byte columns) (range 0 400))
      (omega (arith, length-map (column_byte columns) (range 0 400), length-range 0 400))

pub ppth-Declares : (path : Text) → Declares ppth_tag (generate_ppth_section path)
unfolding generate_ppth_section
ppth-Declares path =
    let units = encode_utf16 path ++ 0 ∷ [] in
    tag-Declares b'P' b'P' b'T' b'H' 16 (16 + length units * 2)
      (be32 (u32 (length units * 2)) ++ concat_map be16 units)
      (omega (arith, length-concat_map be16 2 units (λ x. refl)))

pub pwvc-Declares : Declares pwvc_tag generate_pwvc_section
unfolding generate_pwvc_section
pwvc-Declares =
    tag-Declares b'P' b'W' b'V' b'C' 14 20 (be16 0 ++ be16 100 ++ be16 100 ++ be16 100) refl

pub pwv2-Declares :
    (columns : List WaveformColumn) → Declares pwv2_tag (generate_pwv2_section columns)
unfolding generate_pwv2_section
pwv2-Declares columns =
    tag-Declares b'P' b'W' b'V' b'2' 20 120
      (be32 100 ++ be32 0x0001_0000 ++ map (peak columns) (range 0 100))
      (omega (arith, length-map (peak columns) (range 0 100), length-range 0 100))

module _ (entries : List WaveformColorEntry) where
  pub pwv3-Declares : Declares pwv3_tag (generate_pwv3_section entries)
  unfolding generate_pwv3_section
  pwv3-Declares =
      tag-Declares b'P' b'W' b'V' b'3' 24 (24 + length entries)
        (be32 1 ++ be32 (u32 (length entries)) ++ be32 0x0096_0000 ++ map mono_byte entries)
        (omega (arith, length-map mono_byte entries))

  pub pwv5-Declares : Declares pwv5_tag (generate_pwv5_section entries)
  unfolding generate_pwv5_section
  pwv5-Declares =
      let body = concat_map ColorEntry.to_bytes entries in
      let many : length body ≡ length entries * 2 =
        length-concat_map ColorEntry.to_bytes 2 entries (λ x. unfold ColorEntry.to_bytes in refl) in
      tag-Declares b'P' b'W' b'V' b'5' 24 (24 + length entries * 2)
        (be32 2 ++ be32 (u32 (length entries)) ++ be32 0x0096_0305 ++ body) (omega (arith, many))

  pub pwv7-Declares : Declares pwv7_tag (generate_pwv7_section entries)
  unfolding generate_pwv7_section
  pwv7-Declares =
      let body = concat_map scaled_bands entries in
      let many : length body ≡ length entries * 3 =
        length-concat_map scaled_bands 3 entries (λ x. unfold scaled_bands in refl) in
      tag-Declares b'P' b'W' b'V' b'7' 24 (24 + length entries * 3)
        (be32 3 ++ be32 (u32 (length entries)) ++ be32 0x0096_0000 ++ body) (omega (arith, many))

module _ (columns : List WaveformColorPreviewColumn) where
  pub pwv4-Declares : Declares pwv4_tag (generate_pwv4_section columns)
  unfolding generate_pwv4_section
  pwv4-Declares =
      let body = concat_map (λ i. color_column (get_elem? columns i)) (range 0 1200) in
      let many : length body ≡ length (range 0 1200) * 6 =
        length-concat_map (λ i. color_column (get_elem? columns i)) 6 (range 0 1200)
          (λ i. length-color_column (get_elem? columns i)) in
      tag-Declares b'P' b'W' b'V' b'4' 24 7224 (be32 6 ++ be32 1200 ++ be32 0 ++ body)
        (omega (arith, many, length-range 0 1200))

  pub pwv6-Declares : Declares pwv6_tag (generate_pwv6_section columns)
  unfolding generate_pwv6_section
  pwv6-Declares =
      let body = concat_map (λ i. bands (get_elem? columns i)) (range 0 1200) in
      let many : length body ≡ length (range 0 1200) * 3 =
        length-concat_map (λ i. bands (get_elem? columns i)) 3 (range 0 1200)
          (λ i. length-bands (get_elem? columns i)) in
      tag-Declares b'P' b'W' b'V' b'6' 20 3620 (be32 3 ++ be32 1200 ++ body)
        (omega (arith, many, length-range 0 1200))

pub pcob_empty-Declares : (kind : ℕ) → Declares pcob_tag (generate_pcob_empty kind)
unfolding generate_pcob_empty
pcob_empty-Declares kind =
    tag-Declares b'P' b'C' b'O' b'B' 24 24 (be32 kind ++ be16 0 ++ be16 0 ++ be32 0xFFFF_FFFF) refl

pub pco2_empty-Declares : (kind : ℕ) → Declares pco2_tag (generate_pco2_empty kind)
unfolding generate_pco2_empty
pco2_empty-Declares kind =
    tag-Declares b'P' b'C' b'O' b'2' 20 20 (be32 kind ++ be16 0 ++ be16 0) refl
