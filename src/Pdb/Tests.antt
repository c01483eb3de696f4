-- ===== src/Pdb/Tests.antt =====
-- A builder with a track, its rows, and the file that it is written to.
use bvault_app.Prelude.{
  ℕ, ◌+◌, ◌-◌, ◌/◌, ◌^◌, ◌≤◌, ◌<◌, ◌≡◌, ◌↔◌, refl, arith, false, some, none, List, [], ◌∷◌,
  get_elem?, All, map, length, replicate,
}
use bvault_app.Text.{Text, IsScalar, utf8_char, utf16_char}
use bvault_app.DeviceString.{encode_string, encode_isrc}
use bvault_app.Page.{artists, ok, page_size, all_types}
use bvault_app.Track.Analysis.{TrackAnalysis, flac}
use bvault_app.Validate.{u32_at, validate_pdb}
use bvault_app.Pdb.{
  PdbBuilder, TrackInfo, new, add_track_with_artwork, add_with_key, get_or_create_artist,
  get_or_create_name, get_or_create_album, get_or_create_album_entry, optional, key_number,
}
use bvault_app.Pdb.Entities.{
  no_entities, get_or_create, created, find, text_key, sort_by_id, insert_by_id,
}
use bvault_app.Pdb.Entities.Numbering.{run, run_requests, numbered, run-refines}
use bvault_app.Pdb.References.{Refers, add_track_with_artwork-Refers}
use bvault_app.Pdb.Rows.{
  build_track_row, build_artist_row, track_texts, track_strings, string_offsets, track_fields,
  bytes_of, build_album_row, release_date, decimal, trim_slashes, last_part, unwrap_or,
}
use bvault_app.Pdb.Rows.TrackStrings.{read_track_string, build_track_row-strings}
use bvault_app.Pdb.Rows.NameOffsets.{read_artist, read_artist-build_artist_row}
use bvault_app.Pdb.Paging.{DataPages, table_pages}
use bvault_app.Pdb.Paging.Totality.{Succeeds, Succeeds-eq-ok, IsShort, table_pages-Succeeds}
use bvault_app.Pdb.Paging.ReadBack.{read_table, read_table-table_pages}
use bvault_app.Pdb.Paging.Chain.{IsChain, table_pages-IsChain}
use bvault_app.Pdb.Tables.{done, key_rows, playlist_entry_rows}
use bvault_app.Pdb.Build.{build}
use bvault_app.Pdb.Build.Pages.{added_rows, count_rows}
use bvault_app.Pdb.Build.Loop.{page_bound}
use bvault_app.Pdb.Build.Totality.{IsShortBuilder}
use bvault_app.Pdb.Build.Returns.{build-Returns}
use bvault_app.Pdb.Build.NextUnused.{build-not_valid}

abbrev as_number : ℕ → ℕ
as_number n = n

abbrev title : Text
title = b'C' ∷ b'a' ∷ b'f' ∷ 0xE9 ∷ []

abbrev artist : Text
artist = b'A' ∷ b'n' ∷ b'a' ∷ []

abbrev analysis : TrackAnalysis ℕ
analysis = record {
  id = 7;
  file_path = b'a' ∷ b'/' ∷ b'b' ∷ [];
  title = title;
  artist = artist;
  album = some (b'L' ∷ b'P' ∷ []);
  genre = none;
  label = none;
  duration_secs = 240;
  sample_rate = 44_100;
  bit_depth = 16;
  bitrate = 320;
  bpm = 12_800;
  key = none;
  beat_grid = record { bpm = 12_800; first_beat_ms = 0; beats = [] };
  waveform = record { preview = []; color_preview = []; detail = [] };
  cue_points = [];
  file_size = 1000;
  file_hash = 5;
  year = some 1999;
  comment = none;
  track_number = none;
  file_type = flac;
}

abbrev row : TrackInfo ℕ
row = record {
  analysis = analysis;
  artist_id = 1;
  album_id = 1;
  genre_id = 0;
  label_id = 0;
  key_id = 0;
  artwork_id = 0;
  analyze_path = b'P' ∷ [];
}

abbrev builder : PdbBuilder ℕ
builder = record {
  tracks = row ∷ [];
  artists = record { ids = (artist, 1) ∷ []; next_id = 2 };
  albums = record { ids = ((b'L' ∷ b'P' ∷ [], 1), 1) ∷ []; next_id = 2 };
  genres = no_entities;
  labels = no_entities;
  keys = no_entities;
  playlists = [];
  artworks = no_entities;
}

added_to_new : add_track_with_artwork analysis (b'P' ∷ []) none new ≡ some (builder, 7)
unfolding add_track_with_artwork add_with_key get_or_create_artist get_or_create_name get_or_create
    created find no_entities new optional get_or_create_album get_or_create_album_entry key_number
added_to_new = refl

nothing-Refers : All (Refers new) (new {F = ℕ}).tracks
unfolding new
nothing-Refers = tt

add_track_with_artwork-Refers_example : All (Refers builder) builder.tracks
add_track_with_artwork-Refers_example =
    add_track_with_artwork-Refers analysis (b'P' ∷ []) none new builder 7 nothing-Refers
      added_to_new

abbrev names : List Text
names = artist ∷ title ∷ artist ∷ []

run-refines_example :
    ((run text_key names no_entities).1 ≡ (run_requests text_key names []).1)
    × (sort_by_id (run text_key names no_entities).0.ids
        ≡ numbered 1 (run_requests text_key names []).0)
run-refines_example = run-refines text_key names (omega arith)

title_scalars : All IsScalar title
title_scalars = ground arith

title_listed : get_elem? (track_texts row) 16 ≡ some title
unfolding track_texts
title_listed = refl

read_artist-build_artist_row_example : read_artist (build_artist_row 3 title) ≡ (3, some title)
read_artist-build_artist_row_example =
    read_artist-build_artist_row 3 title (omega arith) title_scalars (omega arith)

row_length : length (build_track_row as_number as_number row) < 2 ^ 16
unfolding build_track_row track_strings track_texts string_offsets track_fields bytes_of
    encode_string encode_isrc utf8_char utf16_char release_date decimal trim_slashes last_part
    unwrap_or
row_length = omega arith

build_track_row-strings_example :
    read_track_string (build_track_row as_number as_number row) 17 ≡ some title
build_track_row-strings_example =
    build_track_row-strings as_number as_number row 16 title title_listed title_scalars
      (omega arith) row_length

-- Two rows that do not fit one page.
first_row : List ℕ
first_row = replicate 3000 1

second_row : List ℕ
second_row = replicate 2000 2

rows-IsShort : All IsShort (first_row ∷ second_row ∷ [])
unfolding first_row second_row
rows-IsShort = (omega arith, (omega arith, tt))

table_pages-Succeeds_example :
    Succeeds (table_pages artists 4 (first_row ∷ second_row ∷ []))
    ↔ All IsShort (first_row ∷ second_row ∷ [])
table_pages-Succeeds_example = table_pages-Succeeds artists 4 (first_row ∷ second_row ∷ [])

table : (built : DataPages) × (table_pages artists 4 (first_row ∷ second_row ∷ []) ≡ ok built)
table =
    Succeeds-eq-ok (table_pages artists 4 (first_row ∷ second_row ∷ []))
      ((table_pages-Succeeds artists 4 (first_row ∷ second_row ∷ [])).1 rows-IsShort)

read_table-table_pages_example :
    read_table table.0.pages (map length (first_row ∷ second_row ∷ []))
    ≡ first_row ∷ second_row ∷ []
read_table-table_pages_example =
    read_table-table_pages artists 4 first_row (second_row ∷ []) table.0 table.1

table_pages-IsChain_example :
    IsChain 4 table.0.pages × (table.0.next_idx ≡ 4 + length table.0.pages)
table_pages-IsChain_example =
    table_pages-IsChain artists 4 first_row (second_row ∷ []) table.0 (omega arith) table.1

builder-IsShortBuilder : IsShortBuilder as_number as_number builder
unfolding no_entities sort_by_id insert_by_id key_rows playlist_entry_rows build_track_row
    track_strings track_texts string_offsets track_fields bytes_of encode_string encode_isrc
    utf8_char utf16_char release_date decimal trim_slashes last_part unwrap_or build_artist_row
    build_album_row
builder-IsShortBuilder = record {
  short_tracks = (omega arith, tt);
  short_genres = tt;
  short_artists = (omega arith, tt);
  short_albums = (omega arith, tt);
  short_labels = tt;
  short_keys = ([], refl, tt);
  short_playlists = tt;
  short_entries = tt;
  short_artworks = tt;
}

build-Returns_example : (bytes : List ℕ) × (build as_number as_number builder ≡ done bytes)
build-Returns_example = build-Returns as_number as_number builder builder-IsShortBuilder

file : List ℕ
file = (build-Returns as_number as_number builder builder-IsShortBuilder).0

file_built : build as_number as_number builder ≡ done file
unfolding file
file_built = (build-Returns as_number as_number builder builder-IsShortBuilder).1

few_pages : page_bound as_number as_number builder all_types < 2 ^ 32 - 21
unfolding all_types added_rows count_rows no_entities sort_by_id insert_by_id key_rows
    playlist_entry_rows
few_pages = omega arith

build-not_valid_example :
    (length file / page_size + 5 ≤ u32_at file 12) × ((validate_pdb file).valid ≡ false)
build-not_valid_example = build-not_valid as_number as_number builder file file_built few_pages
