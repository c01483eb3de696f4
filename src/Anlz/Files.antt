-- ===== src/Anlz/Files.antt =====
-- anlz.rs: the three files, each a header and its sections in rekordbox's order.
use bvault_app.Prelude.{ℕ, ◌+◌, List, [], ◌∷◌, ◌++◌, length, concat_map}
use bvault_app.Text.{Text}
use bvault_app.Track.{Floats, BeatGrid, Waveform, CuePoint}
use bvault_app.Anlz.Sections.{
  write_pmai_header, generate_ppth_section, generate_pvbr_section, generate_pqtz_section,
  generate_pwav_section, generate_pwv2_section, generate_pwv3_section, generate_pwv4_section,
  generate_pwv5_section, generate_pwv6_section, generate_pwv7_section, generate_pwvc_section,
}
use bvault_app.Anlz.Cues.{
  generate_pcob_empty, generate_pco2_empty, generate_pcob_section, generate_pco2_section,
}

-- `sections_size`
unfoldable pub total_length : List (List ℕ) → ℕ
total_length [] = 0
total_length (s ∷ ss) = length s + total_length ss

-- How each generator ends: the header with the whole size, then every section.
unfoldable pub file_of : List (List ℕ) → List ℕ
unfolding total_length
file_of sections = write_pmai_header (28 + total_length sections) ++ concat_map (λ s. s) sections

module _ (fl : Floats) where
  unfoldable pub generate_dat_file : BeatGrid fl.Float → Waveform → Text → ℕ → ℕ → List ℕ
  unfolding file_of
  generate_dat_file beat_grid waveform file_path audio_file_size total_samples = file_of (
      generate_ppth_section file_path
      ∷ generate_pvbr_section audio_file_size total_samples
      ∷ generate_pqtz_section fl beat_grid
      ∷ generate_pwav_section waveform.preview
      ∷ generate_pwv2_section waveform.preview
      ∷ generate_pcob_empty 1
      ∷ generate_pcob_empty 0
      ∷ [])

  unfoldable pub pcob_lists : List (CuePoint fl.Float) → List ℕ × List ℕ
  pcob_lists [] = (generate_pcob_empty 1, generate_pcob_empty 0)
  pcob_lists (c ∷ cs) = (generate_pcob_section fl (c ∷ cs), generate_pcob_empty 0)

  unfoldable pub pco2_lists : List (CuePoint fl.Float) → List ℕ × List ℕ
  pco2_lists [] = (generate_pco2_empty 1, generate_pco2_empty 0)
  pco2_lists (c ∷ cs) = (generate_pco2_section fl (c ∷ cs), generate_pco2_empty 0)

  unfoldable pub generate_ext_file :
      BeatGrid fl.Float → Waveform → Text → List (CuePoint fl.Float) → List ℕ
  unfolding file_of pcob_lists pco2_lists
  generate_ext_file beat_grid waveform file_path cue_points =
      let (pcob_hot, pcob_mem) = pcob_lists cue_points in
      let (pco2_hot, pco2_mem) = pco2_lists cue_points in
      file_of (
        generate_ppth_section file_path
        ∷ generate_pwv3_section waveform.detail
        ∷ pcob_hot
        ∷ pcob_mem
        ∷ pco2_hot
        ∷ pco2_mem
        ∷ generate_pwv5_section waveform.detail
        ∷ generate_pwv4_section waveform.color_preview
        ∷ [])

  unfoldable pub generate_2ex_file :
      BeatGrid fl.Float → Waveform → Text → List (CuePoint fl.Float) → List ℕ
  unfolding file_of
  generate_2ex_file beat_grid waveform file_path cue_points = file_of (
      generate_ppth_section file_path
      ∷ generate_pwv7_section waveform.detail
      ∷ generate_pwv6_section waveform.color_preview
      ∷ generate_pwvc_section
      ∷ [])
