-- ===== src/Pdb/Growth.antt =====
-- pdb.rs: what the `get_or_create` steps leave of the builder, and the row that each finds.
use bvault_app.Prelude.{ℕ, ◌≡◌, refl, Option, some, none, List}
use bvault_app.Text.{Text}
use bvault_app.Pdb.Entities.{find, text_key, album_key, number_key}
use bvault_app.Pdb.{
  PdbBuilder, TrackInfo, optional, get_or_create_artist, get_or_create_album, get_or_create_genre,
  get_or_create_label, get_or_create_key, get_or_create_artwork,
}
use bvault_app.Pdb.Lookup.{
  Extends, Extends-refl, get_or_create-found, IsNameRow, IsAlbumRow, IsOptional,
  get_or_create_name-found, get_or_create_album_entry-found,
}

module _ {F : Type 0} where
  -- The builder has kept every entry of its maps.
  pub record Keeps (b c : PdbBuilder F) : Type 0 where
    pub artists : Extends text_key b.artists c.artists
    pub albums : Extends album_key b.albums c.albums
    pub genres : Extends text_key b.genres c.genres
    pub labels : Extends text_key b.labels c.labels
    pub keys : Extends number_key b.keys c.keys
    pub artworks : Extends text_key b.artworks c.artworks

  -- It has kept its tracks and playlists besides.
  pub record Grows (b c : PdbBuilder F) : Type 0 where
    pub tracks : c.tracks ≡ b.tracks
    pub playlists : c.playlists ≡ b.playlists
    pub maps : Keeps b c

  pub Keeps-refl : (b : PdbBuilder F) → Keeps b b
  Keeps-refl b = record {
    artists = Extends-refl text_key b.artists;
    albums = Extends-refl album_key b.albums;
    genres = Extends-refl text_key b.genres;
    labels = Extends-refl text_key b.labels;
    keys = Extends-refl number_key b.keys;
    artworks = Extends-refl text_key b.artworks;
  }

  pub Keeps-trans : (b c d : PdbBuilder F) → Keeps b c → Keeps c d → Keeps b d
  Keeps-trans b c d g h = record {
    artists = record { kept = λ k id e. h.artists.kept k id (g.artists.kept k id e) };
    albums = record { kept = λ k id e. h.albums.kept k id (g.albums.kept k id e) };
    genres = record { kept = λ k id e. h.genres.kept k id (g.genres.kept k id e) };
    labels = record { kept = λ k id e. h.labels.kept k id (g.labels.kept k id e) };
    keys = record { kept = λ k id e. h.keys.kept k id (g.keys.kept k id e) };
    artworks = record { kept = λ k id e. h.artworks.kept k id (g.artworks.kept k id e) };
  }

  pub with_tracks-Keeps :
      (b : PdbBuilder F) (tracks : List (TrackInfo F)) → Keeps b (record b { tracks = tracks })
  with_tracks-Keeps b tracks = record {
    artists = Extends-refl text_key b.artists;
    albums = Extends-refl album_key b.albums;
    genres = Extends-refl text_key b.genres;
    labels = Extends-refl text_key b.labels;
    keys = Extends-refl number_key b.keys;
    artworks = Extends-refl text_key b.artworks;
  }

  pub optional-found :
      {A : Type 0} (P : PdbBuilder F → A → ℕ → Type 0) (op : A → PdbBuilder F → PdbBuilder F × ℕ)
      (o : Option A) (b : PdbBuilder F)
      → ((a : A) → Grows b (op a b).0 × P (op a b).0 a (op a b).1)
      → Grows b (optional op o b).0 × IsOptional (P (optional op o b).0) o (optional op o b).1
  unfolding optional IsOptional
  optional-found P op none b h =
      (record { tracks = refl; playlists = refl; maps = Keeps-refl b }, refl)
  optional-found P op (some a) b h = h a

  pub grown_artist :
      (name : Text) (b : PdbBuilder F)
      → Grows b (get_or_create_artist name b).0
        × IsNameRow (get_or_create_artist name b).0.artists name (get_or_create_artist name b).1
  unfolding get_or_create_artist
  grown_artist name b =
      let (x, r) = get_or_create_name-found name b.artists in
      (
        record {
          tracks = refl;
          playlists = refl;
          maps = record {
            artists = x;
            albums = Extends-refl album_key b.albums;
            genres = Extends-refl text_key b.genres;
            labels = Extends-refl text_key b.labels;
            keys = Extends-refl number_key b.keys;
            artworks = Extends-refl text_key b.artworks;
          };
        },
        r,
      )

  pub grown_genre :
      (name : Text) (b : PdbBuilder F)
      → Grows b (get_or_create_genre name b).0
        × IsNameRow (get_or_create_genre name b).0.genres name (get_or_create_genre name b).1
  unfolding get_or_create_genre
  grown_genre name b =
      let (x, r) = get_or_create_name-found name b.genres in
      (
        record {
          tracks = refl;
          playlists = refl;
          maps = record {
            artists = Extends-refl text_key b.artists;
            albums = Extends-refl album_key b.albums;
            genres = x;
            labels = Extends-refl text_key b.labels;
            keys = Extends-refl number_key b.keys;
            artworks = Extends-refl text_key b.artworks;
          };
        },
        r,
      )

  pub grown_label :
      (name : Text) (b : PdbBuilder F)
      → Grows b (get_or_create_label name b).0
        × IsNameRow (get_or_create_label name b).0.labels name (get_or_create_label name b).1
  unfolding get_or_create_label
  grown_label name b =
      let (x, r) = get_or_create_name-found name b.labels in
      (
        record {
          tracks = refl;
          playlists = refl;
          maps = record {
            artists = Extends-refl text_key b.artists;
            albums = Extends-refl album_key b.albums;
            genres = Extends-refl text_key b.genres;
            labels = x;
            keys = Extends-refl number_key b.keys;
            artworks = Extends-refl text_key b.artworks;
          };
        },
        r,
      )

  pub grown_artwork :
      (name : Text) (b : PdbBuilder F)
      → Grows b (get_or_create_artwork name b).0
        × IsNameRow (get_or_create_artwork name b).0.artworks name (get_or_create_artwork name b).1
  unfolding get_or_create_artwork
  grown_artwork name b =
      let (x, r) = get_or_create_name-found name b.artworks in
      (
        record {
          tracks = refl;
          playlists = refl;
          maps = record {
            artists = Extends-refl text_key b.artists;
            albums = Extends-refl album_key b.albums;
            genres = Extends-refl text_key b.genres;
            labels = Extends-refl text_key b.labels;
            keys = Extends-refl number_key b.keys;
            artworks = x;
          };
        },
        r,
      )

  pub grown_album :
      (name : Text) (artist_id : ℕ) (b : PdbBuilder F)
      → Grows b (get_or_create_album name artist_id b).0
        × IsAlbumRow
            (get_or_create_album name artist_id b).0.albums
            artist_id
            name
            (get_or_create_album name artist_id b).1
  unfolding get_or_create_album
  grown_album name artist_id b =
      let (x, r) = get_or_create_album_entry-found name artist_id b.albums in
      (
        record {
          tracks = refl;
          playlists = refl;
          maps = record {
            artists = Extends-refl text_key b.artists;
            albums = x;
            genres = Extends-refl text_key b.genres;
            labels = Extends-refl text_key b.labels;
            keys = Extends-refl number_key b.keys;
            artworks = Extends-refl text_key b.artworks;
          };
        },
        r,
      )

  pub grown_key :
      (k : ℕ) (b : PdbBuilder F)
      → Grows b (get_or_create_key k b).0
        × (find number_key k (get_or_create_key k b).0.keys.ids ≡ some (get_or_create_key k b).1)
  unfolding get_or_create_key
  grown_key k b =
      let (x, r) = get_or_create-found number_key k b.keys in
      (
        record {
          tracks = refl;
          playlists = refl;
          maps = record {
            artists = Extends-refl text_key b.artists;
            albums = Extends-refl album_key b.albums;
            genres = Extends-refl text_key b.genres;
            labels = Extends-refl text_key b.labels;
            keys = x;
            artworks = Extends-refl text_key b.artworks;
          };
        },
        r,
      )
