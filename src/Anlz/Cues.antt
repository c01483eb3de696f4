-- ===== src/Anlz/Cues.antt =====
-- anlz.rs: the cue lists, PCOB and PCO2, empty and with cues.
use bvault_app.Prelude.{
  ℕ, ◌+◌, ◌-◌, ◌*◌, Bool, true, false, List, [], ◌∷◌, ◌++◌, Option, some, none, ltb, ◌==◌,
  if◌then◌else◌, length, concat_map, replicate, u16, u32, be16, be32,
}
use bvault_app.Text.{Text, as_bytes}
use bvault_app.Track.{
  Floats, CuePoint, CueType, cue, fade_in, fade_out, load, loop, HotCueColor, default_for_slot,
}
use bvault_app.Anlz.Sections.{pcob_tag, pco2_tag}

unfoldable pub generate_pcob_empty : ℕ → List ℕ
generate_pcob_empty cue_type =
    pcob_tag ++ be32 24 ++ be32 24 ++ be32 cue_type ++ be16 0 ++ be16 0 ++ be32 0xFFFF_FFFF

unfoldable pub generate_pco2_empty : ℕ → List ℕ
generate_pco2_empty cue_type = pco2_tag ++ be32 20 ++ be32 20 ++ be32 cue_type ++ be16 0 ++ be16 0

-- The match of the extended entries.
pub cue_type_code : CueType → ℕ
cue_type_code cue = 1
cue_type_code loop = 2
cue_type_code fade_in = 3
cue_type_code fade_out = 4
cue_type_code load = 5

-- The match of the basic entries.
status_code : CueType → ℕ
status_code cue = 0
status_code fade_in = 1
status_code fade_out = 2
status_code load = 3
status_code loop = 4

unfoldable pub base_entry_size : Bool → ℕ
base_entry_size is_hot_cue = if is_hot_cue then 56 else 40

-- `c.len() + 4`, the length in bytes, where there is a comment.
unfoldable pub comment_len : Option Text → ℕ
comment_len none = 0
comment_len (some c) = length (as_bytes c) + 4

unfoldable pub comment_bytes : Option Text → List ℕ
comment_bytes none = []
comment_bytes (some c) = be32 (u32 (length (as_bytes c) + 1)) ++ as_bytes c ++ 0 ∷ []

unfoldable pub color_bytes : HotCueColor → List ℕ
color_bytes c = c.palette_index ∷ c.red ∷ c.green ∷ c.blue ∷ replicate 4 0

unfoldable pub color_of : Option HotCueColor → ℕ → HotCueColor
color_of none hot_cue = default_for_slot hot_cue
color_of (some c) hot_cue = c

module _ (fl : Floats) where
  unfoldable pub loop_end : CuePoint fl.Float → List ℕ
  loop_end c =
      if fl.is_positive c.loop_ms
      then be32 (fl.as_u32 (fl.plus c.time_ms c.loop_ms))
      else be32 0xFFFF_FFFF

  unfoldable pub pco2_entry : Bool → CuePoint fl.Float → List ℕ
  unfolding base_entry_size comment_len cue_type_code loop_end comment_bytes color_bytes color_of
  pco2_entry is_hot_cue c =
      (b'P' ∷ b'C' ∷ b'P' ∷ b'2' ∷ [])
      ++ be32 (u32 (base_entry_size is_hot_cue + comment_len c.comment - 4))
      ++ be32 c.hot_cue
      ++ be32 (cue_type_code c.cue_type)
      ++ be32 (fl.as_u32 c.time_ms)
      ++ loop_end c
      ++ be32 0
      ++ replicate 8 0
      ++ comment_bytes c.comment
      ++ (if is_hot_cue then color_bytes (color_of c.color c.hot_cue) else [])

  -- The sum over the cues of what each entry is taken to need.
  unfoldable pub entries_size : Bool → List (CuePoint fl.Float) → ℕ
  unfolding base_entry_size comment_len
  entries_size is_hot_cue [] = 0
  entries_size is_hot_cue (c ∷ cs) =
      base_entry_size is_hot_cue + comment_len c.comment + entries_size is_hot_cue cs

  unfoldable pub generate_pco2_entries : Bool → List (CuePoint fl.Float) → List ℕ
  unfolding pco2_entry entries_size
  generate_pco2_entries is_hot_cue cues =
      pco2_tag
      ++ be32 (20 - 4)
      ++ be32 (u32 (20 + entries_size is_hot_cue cues))
      ++ be32 (if is_hot_cue then 1 else 0)
      ++ be16 0
      ++ be16 (u16 (length cues))
      ++ concat_map (pco2_entry is_hot_cue) cues

  -- `filter(|c| c.hot_cue > 0)`, and the rest.
  hot_cues : List (CuePoint fl.Float) → List (CuePoint fl.Float)
  hot_cues [] = []
  hot_cues (c ∷ cs) = if ltb 0 c.hot_cue then c ∷ hot_cues cs else hot_cues cs

  memory_cues : List (CuePoint fl.Float) → List (CuePoint fl.Float)
  memory_cues [] = []
  memory_cues (c ∷ cs) = if c.hot_cue == 0 then c ∷ memory_cues cs else memory_cues cs

  -- A list's entries, and nothing for an empty list.
  entries_unless_empty : Bool → List (CuePoint fl.Float) → List ℕ
  unfolding generate_pco2_entries
  entries_unless_empty is_hot_cue [] = []
  entries_unless_empty is_hot_cue (c ∷ cs) = generate_pco2_entries is_hot_cue (c ∷ cs)

  pub generate_pco2_section : List (CuePoint fl.Float) → List ℕ
  unfolding hot_cues memory_cues entries_unless_empty
  generate_pco2_section [] = []
  generate_pco2_section (c ∷ cs) =
      entries_unless_empty true (hot_cues (c ∷ cs))
      ++ entries_unless_empty false (memory_cues (c ∷ cs))

  unfoldable pub pcob_entry : CuePoint fl.Float → List ℕ
  unfolding status_code loop_end
  pcob_entry c =
      (b'P' ∷ b'C' ∷ b'P' ∷ 0x01 ∷ [])
      ++ be32 (24 - 4)
      ++ be32 c.hot_cue
      ++ be32 (status_code c.cue_type)
      ++ be32 (fl.as_u32 c.time_ms)
      ++ loop_end c

  unfoldable pub generate_pcob_section : List (CuePoint fl.Float) → List ℕ
  unfolding pcob_entry
  generate_pcob_section cue_points =
      pcob_tag
      ++ be32 24
      ++ be32 (u32 (24 + length cue_points * 24))
      ++ be32 1
      ++ be16 0
      ++ be16 (u16 (length cue_points))
      ++ be32 0xFFFF_FFFF
      ++ concat_map pcob_entry cue_points
