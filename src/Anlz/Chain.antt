-- ===== src/Anlz/Chain.antt =====
-- A reader walks each file from its header to its end by the lengths that the tags declare.
use bvault_app.Prelude.{ℕ, ◌^◌, ◌<◌, List, [], ◌∷◌, length}
use bvault_app.Text.{Text}
use bvault_app.Track.{Floats, BeatGrid, Waveform, CuePoint}
use bvault_app.Anlz.Sections.{
  ppth_tag, pvbr_tag, pqtz_tag, pwav_tag, pwv2_tag, pwv3_tag, pwv4_tag, pwv5_tag, pwv6_tag,
  pwv7_tag, pwvc_tag, pcob_tag, pco2_tag, generate_ppth_section, generate_pvbr_section,
  generate_pqtz_section, generate_pwav_section, generate_pwv2_section, generate_pwv3_section,
  generate_pwv4_section, generate_pwv5_section, generate_pwv6_section, generate_pwv7_section,
  generate_pwvc_section,
}
use bvault_app.Anlz.Cues.{generate_pcob_empty, generate_pco2_empty}
use bvault_app.Anlz.Files.{
  generate_dat_file, generate_ext_file, generate_2ex_file, pcob_lists, pco2_lists,
}
use bvault_app.Anlz.Tags.{AreTags, IsFile, file_of-IsFile}
use bvault_app.Anlz.SectionLengths.{
  pvbr-Declares, pqtz-Declares, pwav-Declares, ppth-Declares, pwvc-Declares, pwv2-Declares,
  pwv3-Declares, pwv5-Declares, pwv7-Declares, pwv4-Declares, pwv6-Declares, pcob_empty-Declares,
  pco2_empty-Declares,
}

abbrev pub dat_tags : List (List ℕ)
dat_tags = ppth_tag ∷ pvbr_tag ∷ pqtz_tag ∷ pwav_tag ∷ pwv2_tag ∷ pcob_tag ∷ pcob_tag ∷ []

abbrev pub ext_tags : List (List ℕ)
ext_tags =
    ppth_tag ∷ pwv3_tag ∷ pcob_tag ∷ pcob_tag ∷ pco2_tag ∷ pco2_tag ∷ pwv5_tag ∷ pwv4_tag ∷ []

abbrev pub two_ex_tags : List (List ℕ)
two_ex_tags = ppth_tag ∷ pwv7_tag ∷ pwv6_tag ∷ pwvc_tag ∷ []

-- A .DAT file shorter than 4 GiB declares its length, and a reader that steps by the declared
-- lengths meets PPTH, PVBR, PQTZ, PWAV, PWV2, PCOB and PCOB and then the end.
pub generate_dat_file-IsFile :
    (fl : Floats) (grid : BeatGrid fl.Float) (wave : Waveform) (path : Text) (size samples : ℕ)
    → length (generate_dat_file fl grid wave path size samples) < 2 ^ 32
    → IsFile dat_tags (generate_dat_file fl grid wave path size samples)
unfolding generate_dat_file AreTags
generate_dat_file-IsFile fl grid wave path size samples short =
    file_of-IsFile dat_tags
      (generate_ppth_section path
        ∷ generate_pvbr_section size samples
        ∷ generate_pqtz_section fl grid
        ∷ generate_pwav_section wave.preview
        ∷ generate_pwv2_section wave.preview
        ∷ generate_pcob_empty 1
        ∷ generate_pcob_empty 0
        ∷ [])
      (
        ppth-Declares path,
        (
          pvbr-Declares size samples,
          (
            pqtz-Declares fl grid,
            (
              pwav-Declares wave.preview,
              (pwv2-Declares wave.preview, (pcob_empty-Declares 1, (pcob_empty-Declares 0, tt))),
            ),
          ),
        ),
      )
      short

-- An .EXT file without cues that is shorter than 4 GiB declares its length, and a reader that steps
-- by the declared lengths meets PPTH, PWV3, PCOB, PCOB, PCO2, PCO2, PWV5 and PWV4 and then the end.
pub generate_ext_file-IsFile :
    (fl : Floats) (grid : BeatGrid fl.Float) (wave : Waveform) (path : Text)
    → length (generate_ext_file fl grid wave path []) < 2 ^ 32
    → IsFile ext_tags (generate_ext_file fl grid wave path [])
unfolding generate_ext_file pcob_lists pco2_lists AreTags
generate_ext_file-IsFile fl grid wave path short =
    file_of-IsFile ext_tags
      (generate_ppth_section path
        ∷ generate_pwv3_section wave.detail
        ∷ generate_pcob_empty 1
        ∷ generate_pcob_empty 0
        ∷ generate_pco2_empty 1
        ∷ generate_pco2_empty 0
        ∷ generate_pwv5_section wave.detail
        ∷ generate_pwv4_section wave.color_preview
        ∷ [])
      (
        ppth-Declares path,
        (
          pwv3-Declares wave.detail,
          (
            pcob_empty-Declares 1,
            (
              pcob_empty-Declares 0,
              (
                pco2_empty-Declares 1,
                (
                  pco2_empty-Declares 0,
                  (pwv5-Declares wave.detail, (pwv4-Declares wave.color_preview, tt)),
                ),
              ),
            ),
          ),
        ),
      )
      short

-- The same of a .2EX file, whatever the cues: PPTH, PWV7, PWV6 and PWVC.
pub generate_2ex_file-IsFile :
    (fl : Floats) (grid : BeatGrid fl.Float) (wave : Waveform) (path : Text)
    (cue_points : List (CuePoint fl.Float))
    → length (generate_2ex_file fl grid wave path cue_points) < 2 ^ 32
    → IsFile two_ex_tags (generate_2ex_file fl grid wave path cue_points)
unfolding generate_2ex_file AreTags
generate_2ex_file-IsFile fl grid wave path cue_points short =
    file_of-IsFile two_ex_tags
      (generate_ppth_section path
        ∷ generate_pwv7_section wave.detail
        ∷ generate_pwv6_section wave.color_preview
        ∷ generate_pwvc_section
        ∷ [])
      (
        ppth-Declares path,
        (pwv7-Declares wave.detail, (pwv6-Declares wave.color_preview, (pwvc-Declares, tt))),
      )
      short
