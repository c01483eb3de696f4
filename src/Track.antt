-- ===== src/Track.antt =====
-- crates/bvault-core/src/track.rs: keys, cue points, beat grids and the packed waveform columns.
-- A `u8` is a number; the conversions write their truncation out. `f64` is a parameter.
pub mod Keys
pub mod PreviewColumn
pub mod Column
pub mod ColorEntry
pub mod Analysis
pub mod Tests
use Prim.Native.String.{String}
use bvault_app.Prelude.{
  ℕ, ◌+◌, ◌-◌, ◌*◌, ◌/◌, ◌%◌, ◌^◌, ◌<◌, bit_and, bit_or, Bool, true, false, Option, some, none,
  List, [], ◌∷◌, ◌++◌, ltb, leb, ◌==◌, if◌then◌else◌, get_elem?, u8, u16, be16,
}
use bvault_app.Text.{Text}

-- The operations on `f64` that the generators use. `as u32` saturates, so it stays in range.
pub record Floats : Type 1 where
  pub Float : Type 0
  pub as_u32 : Float → ℕ
  pub is_positive : Float → Bool
  pub plus : Float → Float → Float
  pub as_u32-lt : (x : Float) → as_u32 x < 2 ^ 32

pub record Key : Type 0 where
  pub pitch_class : ℕ
  pub is_major : Bool

pub new : ℕ → Bool → Key
new pitch_class is_major = record { pitch_class = pitch_class % 12; is_major = is_major }

camelot_map_minor : List ℕ
camelot_map_minor = 5 ∷ 12 ∷ 7 ∷ 2 ∷ 9 ∷ 4 ∷ 11 ∷ 6 ∷ 1 ∷ 8 ∷ 3 ∷ 10 ∷ []

camelot_map_major : List ℕ
camelot_map_major = 8 ∷ 3 ∷ 10 ∷ 5 ∷ 12 ∷ 7 ∷ 2 ∷ 9 ∷ 4 ∷ 11 ∷ 6 ∷ 1 ∷ []

-- The number and the letter (true for `B`) that the text is made of; `none` is the panic of an
-- index out of range.
pub to_camelot : Key → Option (ℕ × Bool)
unfolding camelot_map_minor camelot_map_major
to_camelot k =
    let table = if k.is_major then camelot_map_major else camelot_map_minor in
    elim (get_elem? table k.pitch_class) [ none ↦ none | some pos ↦ some (pos, k.is_major) ]

minor_map : List ℕ
minor_map = 1 ∷ 8 ∷ 3 ∷ 10 ∷ 5 ∷ 12 ∷ 7 ∷ 2 ∷ 9 ∷ 4 ∷ 11 ∷ 6 ∷ []

pub to_rekordbox_id : Key → Option ℕ
unfolding minor_map
to_rekordbox_id k = elim (get_elem? minor_map k.pitch_class) [
  | none ↦ none
  | some id ↦ some (if k.is_major then id + 12 else id)
]

inverse_map : List ℕ
inverse_map = 0 ∷ 0 ∷ 7 ∷ 2 ∷ 9 ∷ 4 ∷ 11 ∷ 6 ∷ 1 ∷ 8 ∷ 3 ∷ 10 ∷ 5 ∷ []

inverse_key : ℕ → Bool → Option Key
unfolding inverse_map
inverse_key i is_major = elim (get_elem? inverse_map i) [
  | none ↦ none
  | some pitch_class ↦ some (record { pitch_class = pitch_class; is_major = is_major })
]

pub from_rekordbox_id : ℕ → Option Key
unfolding inverse_key
from_rekordbox_id id =
    if id == 0
    then some (record { pitch_class = 0; is_major = false })
    else if leb id 12
    then inverse_key id false
    else if leb id 24
    then inverse_key (id - 12) true
    else some (record { pitch_class = 0; is_major = false })

note_names : List Text
note_names =
    (b'C' ∷ [])
    ∷ (b'C' ∷ b'#' ∷ [])
    ∷ (b'D' ∷ [])
    ∷ (b'D' ∷ b'#' ∷ [])
    ∷ (b'E' ∷ [])
    ∷ (b'F' ∷ [])
    ∷ (b'F' ∷ b'#' ∷ [])
    ∷ (b'G' ∷ [])
    ∷ (b'G' ∷ b'#' ∷ [])
    ∷ (b'A' ∷ [])
    ∷ (b'A' ∷ b'#' ∷ [])
    ∷ (b'B' ∷ [])
    ∷ []

pub name : Key → Option Text
unfolding note_names
name k = elim (get_elem? note_names k.pitch_class) [
  | none ↦ none
  | some note ↦ some (if k.is_major then note else note ++ b'm' ∷ [])
]

pub record Beat (F : Type 0) : Type 0 where
  pub beat_number : ℕ
  pub time_ms : F
  pub tempo_100 : ℕ

pub record BeatGrid (F : Type 0) : Type 0 where
  pub bpm : F
  pub first_beat_ms : F
  pub beats : List (Beat F)

pub data CueType : Type 0 where
  cue fade_in fade_out load loop : CueType

pub record HotCueColor : Type 0 where
  pub palette_index : ℕ
  pub red : ℕ
  pub green : ℕ
  pub blue : ℕ

color : ℕ → ℕ → ℕ → ℕ → HotCueColor
color p r g b = record { palette_index = p; red = r; green = g; blue = b }

unfoldable pub default_for_slot : ℕ → HotCueColor
unfolding color
default_for_slot slot =
    if slot == 1
    then color 0x00 0x28 0xE2 0x14
    else if slot == 2
    then color 0x09 0x00 0xE0 0xFF
    else if slot == 3
    then color 0x11 0x00 0x50 0xFF
    else if slot == 4
    then color 0x3E 0x64 0x73 0xFF
    else if slot == 5
    then color 0x1A 0xFF 0x00 0xC8
    else if slot == 6
    then color 0x2A 0xE6 0x28 0x28
    else if slot == 7
    then color 0x22 0xFF 0xA0 0x00
    else if slot == 8
    then color 0x32 0xFF 0xFF 0x00
    else color 0x00 0x28 0xE2 0x14

pub record CuePoint (F : Type 0) : Type 0 where
  pub hot_cue : ℕ
  pub cue_type : CueType
  pub time_ms : F
  pub loop_ms : F
  pub comment : Option Text
  pub color : Option HotCueColor

pub record WaveformColorPreviewColumn : Type 0 where
  pub height : ℕ
  pub luminance : ℕ
  pub blue : ℕ
  pub red : ℕ
  pub green : ℕ
  pub blue2 : ℕ

pub record WaveformColumn : Type 0 where
  pub height : ℕ
  pub whiteness : ℕ

pub record WaveformColorEntry : Type 0 where
  pub red : ℕ
  pub green : ℕ
  pub blue : ℕ
  pub height : ℕ

pub record Waveform : Type 0 where
  pub preview : List WaveformColumn
  pub color_preview : List WaveformColorPreviewColumn
  pub detail : List WaveformColorEntry
