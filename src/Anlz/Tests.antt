-- ===== src/Anlz/Tests.antt =====
-- The files of a track with one beat and one column, and a list of two hot cues.
use bvault_app.Prelude.{
  slice, ℕ, ◌+◌, ◌<◌, ◌^◌, ◌≡◌, true, ltb, u32, List, [], ◌∷◌, some, none, length, range, arith,
}
use bvault_app.Text.{Text, utf16_char, utf8_char}
use bvault_app.Track.{Floats, BeatGrid, Waveform, CuePoint, cue}
use bvault_app.Anlz.Sections.{
  write_pmai_header, generate_ppth_section, generate_pvbr_section, generate_pqtz_section,
  generate_pwav_section, generate_pwv2_section,
}
use bvault_app.Anlz.Cues.{generate_pcob_empty, generate_pco2_entries, entries_size}
use bvault_app.Anlz.Files.{generate_dat_file}
use bvault_app.Anlz.Tags.{IsFile, declared_length}
use bvault_app.Anlz.Chain.{dat_tags, generate_dat_file-IsFile}
use bvault_app.Hash.Hex.{from_str_radix}
use bvault_app.Anlz.Path.{generate_anlz_path, generate_anlz_path-track_id}
use bvault_app.Anlz.CueLengths.{total_shortfall, generate_pco2_entries_declared}

-- Whole milliseconds in the place of `f64`.
abbrev whole : Floats
whole = record {
  Float = ℕ;
  as_u32 = λ x. u32 x;
  is_positive = λ x. ltb 0 x;
  plus = λ x y. x + y;
  as_u32-lt = λ x. omega arith;
}

abbrev grid : BeatGrid ℕ
grid = record {
  bpm = 120;
  first_beat_ms = 30;
  beats = record { beat_number = 1; time_ms = 30; tempo_100 = 12000 } ∷ [];
}

abbrev wave : Waveform
wave = record {
  preview = record { height = 17; whiteness = 5 } ∷ [];
  color_preview = [];
  detail = record { red = 7; green = 2; blue = 5; height = 31 } ∷ [];
}

abbrev path : Text
path = b'/' ∷ b'a' ∷ []

dat_short : length (generate_dat_file whole grid wave path 9000 44100) < 2 ^ 32
unfolding generate_dat_file write_pmai_header generate_ppth_section utf16_char generate_pvbr_section
    range generate_pqtz_section generate_pwav_section generate_pwv2_section generate_pcob_empty
dat_short = omega arith

generate_dat_file-IsFile_example :
    IsFile dat_tags (generate_dat_file whole grid wave path 9000 44100)
generate_dat_file-IsFile_example =
    generate_dat_file-IsFile whole grid wave path 9000 44100 dat_short

abbrev hot_cues : List (CuePoint ℕ)
hot_cues =
    record { hot_cue = 1; cue_type = cue; time_ms = 500; loop_ms = 0; comment = none; color = none }
    ∷ record {
      hot_cue = 2;
      cue_type = cue;
      time_ms = 900;
      loop_ms = 0;
      comment = some (b'x' ∷ []);
      color = none;
    }
    ∷ []

cues_short : 20 + entries_size whole true hot_cues < 2 ^ 32
unfolding entries_size utf8_char
cues_short = omega arith

generate_pco2_entries_declared_example :
    declared_length (generate_pco2_entries whole true hot_cues)
    ≡ length (generate_pco2_entries whole true hot_cues) + total_shortfall whole true hot_cues
generate_pco2_entries_declared_example =
    generate_pco2_entries_declared whole true hot_cues cues_short

generate_anlz_path-track_id_example :
    from_str_radix (slice 21 8 (generate_anlz_path 0xBEEF)) ≡ some 0xBEEF
generate_anlz_path-track_id_example = generate_anlz_path-track_id 0xBEEF (omega arith)
