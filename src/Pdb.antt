-- ===== src/Pdb.antt =====
-- crates/bvault-core/src/pdb.rs: what the database builder collects before it writes pages. An
-- `f64` is a value of a type `F`; `none` is the panic of a key whose pitch class is out of range.
pub mod Entities
pub mod Lookup
pub mod Growth
pub mod Additions
pub mod References
pub mod FixedRows
pub mod Rows
pub mod Tables
pub mod Build
pub mod Tests
pub mod Paging
use bvault_app.Prelude.{ℕ, Bool, true, false, Option, some, none, List, [], ◌∷◌, ◌++◌, length, u32}
use bvault_app.Text.{Text}
use bvault_app.Track.{Key, to_rekordbox_id, name}
use bvault_app.Track.Analysis.{TrackAnalysis}
use bvault_app.Pdb.Entities.{EntityMap, no_entities, get_or_create, text_key, album_key, number_key}

pub record PlaylistInfo : Type 0 where
  pub id : ℕ
  pub parent_id : ℕ
  pub name : Text
  pub is_folder : Bool
  pub sort_order : ℕ
  pub track_ids : List ℕ

pub record TrackInfo (F : Type 0) : Type 0 where
  pub analysis : TrackAnalysis F
  pub artist_id : ℕ
  pub album_id : ℕ
  pub genre_id : ℕ
  pub label_id : ℕ
  pub key_id : ℕ
  pub artwork_id : ℕ
  pub analyze_path : Text

pub record PdbBuilder (F : Type 0) : Type 0 where
  pub tracks : List (TrackInfo F)
  pub artists : EntityMap Text
  pub albums : EntityMap (Text × ℕ)
  pub genres : EntityMap Text
  pub labels : EntityMap Text
  pub keys : EntityMap ℕ
  pub playlists : List PlaylistInfo
  pub artworks : EntityMap Text

-- The four maps of names: no name, no row.
unfoldable pub get_or_create_name : Text → EntityMap Text → EntityMap Text × ℕ
get_or_create_name [] s = (s, 0)
get_or_create_name (c ∷ cs) s = get_or_create text_key (c ∷ cs) s

unfoldable pub get_or_create_album_entry :
    Text → ℕ → EntityMap (Text × ℕ) → EntityMap (Text × ℕ) × ℕ
get_or_create_album_entry [] artist_id s = (s, 0)
get_or_create_album_entry (c ∷ cs) artist_id s = get_or_create album_key (c ∷ cs, artist_id) s

-- The id of an optional value, 0 for none: `.map(…).unwrap_or(0)`.
unfoldable pub optional : {A B : Type 0} → (A → B → B × ℕ) → Option A → B → B × ℕ
optional op none s = (s, 0)
optional op (some a) s = op a s

-- `k.to_rekordbox_id()` and `k.name()`, each an array access by the pitch class.
unfoldable pub key_number : Option Key → Option (Option ℕ)
key_number none = some none
key_number (some k) = elim (to_rekordbox_id k) [
  | none ↦ none
  | some id ↦ elim (name k) [ none ↦ none | some text ↦ some (some id) ]
]

module _ {F : Type 0} where
  unfoldable pub new : PdbBuilder F
  new = record {
    tracks = [];
    artists = no_entities;
    albums = no_entities;
    genres = no_entities;
    labels = no_entities;
    keys = no_entities;
    playlists = [];
    artworks = no_entities;
  }

  unfoldable pub get_or_create_artist : Text → PdbBuilder F → PdbBuilder F × ℕ
  get_or_create_artist name b =
      let (artists, id) = get_or_create_name name b.artists in (record b { artists = artists }, id)

  unfoldable pub get_or_create_album : Text → ℕ → PdbBuilder F → PdbBuilder F × ℕ
  get_or_create_album name artist_id b =
      let (albums, id) = get_or_create_album_entry name artist_id b.albums in
      (record b { albums = albums }, id)

  unfoldable pub get_or_create_genre : Text → PdbBuilder F → PdbBuilder F × ℕ
  get_or_create_genre name b =
      let (genres, id) = get_or_create_name name b.genres in (record b { genres = genres }, id)

  unfoldable pub get_or_create_label : Text → PdbBuilder F → PdbBuilder F × ℕ
  get_or_create_label name b =
      let (labels, id) = get_or_create_name name b.labels in (record b { labels = labels }, id)

  unfoldable pub get_or_create_key : ℕ → PdbBuilder F → PdbBuilder F × ℕ
  get_or_create_key rekordbox_id b =
      let (keys, id) = get_or_create number_key rekordbox_id b.keys in
      (record b { keys = keys }, id)

  unfoldable pub get_or_create_artwork : Text → PdbBuilder F → PdbBuilder F × ℕ
  get_or_create_artwork path b =
      let (artworks, id) = get_or_create_name path b.artworks in
      (record b { artworks = artworks }, id)

  -- The track's row, for a key whose number is known.
  unfoldable pub add_with_key :
      TrackAnalysis F → Text → Option Text → PdbBuilder F → Option ℕ → PdbBuilder F × ℕ
  add_with_key analysis analyze_path artwork_path b0 key =
      let (b1, artist_id) = get_or_create_artist analysis.artist b0 in
      let (b2, album_id) =
        optional (λ name. get_or_create_album name artist_id) analysis.album b1 in
      let (b3, genre_id) = optional get_or_create_genre analysis.genre b2 in
      let (b4, label_id) = optional get_or_create_label analysis.label b3 in
      let (b5, key_id) = optional get_or_create_key key b4 in
      let (b6, artwork_id) = optional get_or_create_artwork artwork_path b5 in
      let row : TrackInfo F = record {
        analysis = analysis;
        artist_id = artist_id;
        album_id = album_id;
        genre_id = genre_id;
        label_id = label_id;
        key_id = key_id;
        artwork_id = artwork_id;
        analyze_path = analyze_path;
      } in
      (record b6 { tracks = b6.tracks ++ row ∷ [] }, analysis.id)

  unfoldable pub add_track_with_artwork :
      TrackAnalysis F → Text → Option Text → PdbBuilder F → Option (PdbBuilder F × ℕ)
  unfolding add_with_key
  add_track_with_artwork analysis analyze_path artwork_path b = elim (key_number analysis.key) [
    | none ↦ none
    | some key ↦ some (add_with_key analysis analyze_path artwork_path b key)
  ]

  unfoldable pub add_track : TrackAnalysis F → Text → PdbBuilder F → Option (PdbBuilder F × ℕ)
  unfolding add_track_with_artwork
  add_track analysis analyze_path b = add_track_with_artwork analysis analyze_path none b

  unfoldable pub add_playlist : ℕ → ℕ → Text → List ℕ → PdbBuilder F → PdbBuilder F
  add_playlist id parent_id name track_ids b =
      let playlist : PlaylistInfo = record {
        id = id;
        parent_id = parent_id;
        name = name;
        is_folder = false;
        sort_order = u32 (length b.playlists);
        track_ids = track_ids;
      } in
      record b { playlists = b.playlists ++ playlist ∷ [] }

  unfoldable pub add_folder : ℕ → ℕ → Text → PdbBuilder F → PdbBuilder F
  add_folder id parent_id name b =
      let playlist : PlaylistInfo = record {
        id = id;
        parent_id = parent_id;
        name = name;
        is_folder = true;
        sort_order = u32 (length b.playlists);
        track_ids = [];
      } in
      record b { playlists = b.playlists ++ playlist ∷ [] }
