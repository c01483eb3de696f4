-- ===== src/Export/Tests.antt =====
-- An export of one track with a playlist, which names a track that is not exported as well.
use bvault_app.Prelude.{ℕ, ◌≡◌, refl, false, none, some, Option, List, [], ◌∷◌, All}
use bvault_app.Text.{Text, text_equal}
use bvault_app.Anlz.Path.{generate_anlz_path}
use bvault_app.Track.Analysis.{TrackAnalysis, flac}
use bvault_app.Pdb.{
  PdbBuilder, new, add_track, add_track_with_artwork, add_with_key, get_or_create_artist,
  get_or_create_name, get_or_create_album, get_or_create_album_entry, optional, key_number,
  add_playlist,
}
use bvault_app.Pdb.Entities.{no_entities, get_or_create, created, find}
use bvault_app.Pdb.References.{Refers}
use bvault_app.Export.{
  PlaylistInput, contents_path, id_of, cons_some, content_ids, text_le, insert_by_name, is_named,
  sorted_playlists, loaded, load_tracks, add_tracks, add_playlists, export_builder,
}
use bvault_app.Export.Playlists.{IsOf, track_ids, export_builder-IsClosed}

abbrev hash : Text
hash = b'a' ∷ b'b' ∷ []

-- The id and the path of a stored analysis are replaced.
abbrev with_id : ℕ → Text → TrackAnalysis ℕ
with_id id file_path = record {
  id = id;
  file_path = file_path;
  title = b'C' ∷ [];
  artist = b'A' ∷ b'n' ∷ b'a' ∷ [];
  album = some (b'L' ∷ b'P' ∷ []);
  genre = none;
  label = none;
  duration_secs = 240;
  sample_rate = 44_100;
  bit_depth = 16;
  bitrate = 320;
  bpm = 12_800;
  key = none;
  beat_grid = record { bpm = 12_800; first_beat_ms = 0; beats = [] };
  waveform = record { preview = []; color_preview = []; detail = [] };
  cue_points = [];
  file_size = 1000;
  file_hash = 5;
  year = some 1999;
  comment = none;
  track_number = none;
  file_type = flac;
}

abbrev load : Text → Option (TrackAnalysis ℕ)
load h = some (with_id 0 [])

abbrev extension : Text → Option Text
extension raw_location = none

abbrev tracks : List (Text × Text)
tracks = (hash, b'r' ∷ []) ∷ []

abbrev playlists : List PlaylistInput
playlists =
    record { name = []; hashes = hash ∷ [] }
    ∷ record { name = b'P' ∷ []; hashes = hash ∷ (b'z' ∷ []) ∷ [] }
    ∷ []

abbrev builder : PdbBuilder ℕ
builder = record {
  tracks =
      record {
        analysis = with_id 1 (b'/' ∷ contents_path hash none);
        artist_id = 1;
        album_id = 1;
        genre_id = 0;
        label_id = 0;
        key_id = 0;
        artwork_id = 0;
        analyze_path = generate_anlz_path 1;
      }
      ∷ [];
  artists = record { ids = (b'A' ∷ b'n' ∷ b'a' ∷ [], 1) ∷ []; next_id = 2 };
  albums = record { ids = ((b'L' ∷ b'P' ∷ [], 1), 1) ∷ []; next_id = 2 };
  genres = no_entities;
  labels = no_entities;
  keys = no_entities;
  playlists =
      record {
        id = 1;
        parent_id = 0;
        name = b'P' ∷ [];
        is_folder = false;
        sort_order = 0;
        track_ids = 1 ∷ [];
      }
      ∷ [];
  artworks = no_entities;
}

exported : export_builder load extension tracks playlists ≡ some builder
unfolding contents_path id_of cons_some content_ids text_le insert_by_name is_named sorted_playlists
    loaded load_tracks add_tracks add_playlists export_builder new add_track add_track_with_artwork
    add_with_key get_or_create_artist get_or_create_name get_or_create_album
    get_or_create_album_entry optional key_number add_playlist no_entities get_or_create created
    find text_equal
exported = refl

export_builder-IsClosed_example :
    All (Refers builder) builder.tracks × All (IsOf (track_ids builder)) builder.playlists
export_builder-IsClosed_example =
    export_builder-IsClosed load extension tracks playlists builder exported
