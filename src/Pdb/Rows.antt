-- ===== src/Pdb/Rows.antt =====
-- crates/bvault-core/src/pdb.rs: the bytes of a row of each table. The two conversions from `f64`
-- are parameters.
pub mod TrackStrings
pub mod NameOffsets
use bvault_app.Prelude.{
  ℕ, ◌+◌, ◌*◌, ◌/◌, ◌%◌, Bool, Option, some, none, List, [], ◌∷◌, ◌++◌, map, length, ltb, leb, ◌==◌,
  if◌then◌else◌, replicate, concat_map, u8, u16, u32, le16, le32, zero, suc,
}
use bvault_app.Text.{Text}
use bvault_app.DeviceString.{encode_string, encode_isrc}
use bvault_app.Track.Analysis.{TrackAnalysis}
use bvault_app.Pdb.{TrackInfo, PlaylistInfo}

abbrev pub subtype_near : ℕ
subtype_near = 0x0060

abbrev pub subtype_far : ℕ
subtype_far = 0x0064

abbrev pub subtype_track : ℕ
subtype_track = 0x0024

-- The decimal digits of a number, at most `suc n` of them.
unfoldable pub decimal : ℕ → ℕ → Text
decimal zero v = (b'0' + v % 10) ∷ []
decimal (suc n) v =
    let rest = decimal n (v / 10) in
    if ltb v 10 then (b'0' + v) ∷ [] else rest ++ (b'0' + v % 10) ∷ []

-- `unwrap_or` of an optional value.
unfoldable pub unwrap_or : {A : Type 0} → Option A → A → A
unwrap_or none d = d
unwrap_or (some a) d = a

-- `format!("{}-01-01", y)` of a `u16`
unfoldable pub release_date : Option ℕ → Text
release_date none = []
release_date (some y) = decimal 4 y ++ (b'-' ∷ b'0' ∷ b'1' ∷ b'-' ∷ b'0' ∷ b'1' ∷ [])

-- `trim_start_matches('/')`
unfoldable pub trim_slashes : Text → Text
trim_slashes [] = []
trim_slashes (c ∷ cs) = if c == b'/' then trim_slashes cs else c ∷ cs

-- `split('/').next_back()`, the part after the last slash; `part` is what stands since the last.
unfoldable pub last_part : Text → Text → Text
last_part part [] = part
last_part part (c ∷ cs) = last_part (if c == b'/' then [] else part ++ c ∷ []) cs

-- The strings 1 to 20 of a track row.
unfoldable pub track_texts : {F : Type 0} → TrackInfo F → List Text
unfolding release_date trim_slashes last_part unwrap_or
track_texts track =
    let empty : Text = [] in
    empty
    ∷ empty
    ∷ empty
    ∷ empty
    ∷ empty
    ∷ empty
    ∷ empty
    ∷ empty
    ∷ empty
    ∷ empty
    ∷ release_date track.analysis.year
    ∷ empty
    ∷ empty
    ∷ (b'/' ∷ trim_slashes track.analyze_path)
    ∷ empty
    ∷ unwrap_or track.analysis.comment []
    ∷ track.analysis.title
    ∷ empty
    ∷ last_part [] track.analysis.file_path
    ∷ track.analysis.file_path
    ∷ []

unfoldable pub track_strings : {F : Type 0} → TrackInfo F → List (List ℕ)
unfolding track_texts
track_strings track = encode_isrc [] ∷ map encode_string (track_texts track)

-- The offsets of the strings, from `current_offset` on.
unfoldable pub string_offsets : ℕ → List (List ℕ) → List ℕ
string_offsets current_offset [] = []
string_offsets current_offset (s ∷ strings) =
    u16 current_offset ∷ string_offsets (current_offset + length s) strings

abbrev pub fixed_size : ℕ
fixed_size = 0x5E

abbrev pub header_size : ℕ
header_size = 136

unfoldable pub bytes_of : List ℕ → List ℕ
bytes_of = concat_map (λ v. le16 v)

module _ {F : Type 0} (tempo_of seconds_of : F → ℕ) where
  -- The 94 bytes before the offsets. `tempo_of` is `(bpm * 100.0) as u32`, `seconds_of` `as u16`.
  unfoldable pub track_fields : TrackInfo F → List (List ℕ)
  track_fields track =
      let analysis = track.analysis in
      le16 subtype_track
      ∷ le16 0x20
      ∷ le32 0x000C_0700
      ∷ le32 analysis.sample_rate
      ∷ le32 0
      ∷ le32 (u32 analysis.file_size)
      ∷ le32 0
      ∷ le16 0
      ∷ le16 0
      ∷ le32 track.artwork_id
      ∷ le32 track.key_id
      ∷ le32 0
      ∷ le32 track.label_id
      ∷ le32 0
      ∷ le32 analysis.bitrate
      ∷ le32 (unwrap_or analysis.track_number 0)
      ∷ le32 (tempo_of analysis.bpm)
      ∷ le32 track.genre_id
      ∷ le32 track.album_id
      ∷ le32 track.artist_id
      ∷ le32 analysis.id
      ∷ le16 1
      ∷ le16 0
      ∷ le16 (unwrap_or analysis.year 0)
      ∷ le16 analysis.bit_depth
      ∷ le16 (seconds_of analysis.duration_secs)
      ∷ le16 41
      ∷ (0 ∷ [])
      ∷ (0 ∷ [])
      ∷ le16 1
      ∷ le16 0x0003
      ∷ []

  unfoldable pub build_track_row : TrackInfo F → List ℕ
  unfolding track_fields track_strings string_offsets
  build_track_row track =
      let strings = track_strings track in
      concat_map (λ f. f) (track_fields track)
      ++ (bytes_of (string_offsets header_size strings) ++ concat_map (λ s. s) strings)

unfoldable pub build_artist_row : ℕ → Text → List ℕ
build_artist_row id name =
    let name_encoded = encode_string name in
    if leb (length name_encoded) 200
    then le16 subtype_near ++ (le16 0 ++ (le32 id ++ (0x03 ∷ 10 ∷ name_encoded)))
    else le16 subtype_far ++ (le16 0 ++ (le32 id ++ (0x03 ∷ 0 ∷ (le16 12 ++ name_encoded))))

unfoldable pub build_album_row : ℕ → ℕ → Text → List ℕ
build_album_row id artist_id name =
    let name_encoded = encode_string name in
    let ids = le32 0 ++ (le32 artist_id ++ (le32 id ++ le32 0)) in
    if leb (length name_encoded) 200
    then le16 0x0080 ++ (le16 0 ++ (ids ++ (0x03 ∷ 22 ∷ name_encoded)))
    else le16 0x0084 ++ (le16 0 ++ (ids ++ (0x03 ∷ 0 ∷ (le16 24 ++ name_encoded))))

unfoldable pub build_genre_row : ℕ → Text → List ℕ
build_genre_row id name = le32 id ++ encode_string name

unfoldable pub build_key_row : ℕ → Text → List ℕ
build_key_row id name = le32 id ++ (le32 id ++ encode_string name)

unfoldable pub build_label_row : ℕ → Text → List ℕ
build_label_row id name = le32 id ++ encode_string name

unfoldable pub build_color_row : ℕ → Text → List ℕ
build_color_row id name = 0 ∷ 0 ∷ 0 ∷ 0 ∷ u8 id ∷ u8 id ∷ 0 ∷ 0 ∷ encode_string name

unfoldable pub build_playlist_tree_row : PlaylistInfo → List ℕ
build_playlist_tree_row playlist =
    le32 playlist.parent_id
    ++ (le32 0
        ++ (le32 playlist.sort_order
            ++ (le32 playlist.id
                ++ (le32 (if playlist.is_folder then 1 else 0) ++ encode_string playlist.name))))

unfoldable pub build_playlist_entry_row : ℕ → ℕ → ℕ → List ℕ
build_playlist_entry_row entry_index track_id playlist_id =
    le32 entry_index ++ (le32 track_id ++ le32 playlist_id)

unfoldable pub build_artwork_row : ℕ → Text → List ℕ
build_artwork_row id path = le32 id ++ encode_string path
