-- ===== src/Pdb/References.antt =====
-- pdb.rs: every track of the builder refers to rows that are there and carry its names.
use bvault_app.Prelude.{
  ℕ, ◌≡◌, ◌∙◌, sym, subst, inl, inr, Option, some, none, [], ◌∷◌, ◌++◌, All, All-map, All-append,
  Option-cases,
}
use bvault_app.Text.{Text}
use bvault_app.Track.Analysis.{TrackAnalysis}
use bvault_app.Pdb.Entities.{find, number_key}
use bvault_app.Pdb.{
  TrackInfo, PdbBuilder, optional, key_number, get_or_create_artist, get_or_create_album,
  get_or_create_genre, get_or_create_label, get_or_create_key, get_or_create_artwork, add_with_key,
  add_track_with_artwork,
}
use bvault_app.Pdb.Lookup.{
  IsNameRow, IsAlbumRow, IsOptional, IsKeyRow, IsNameRow-Extends, IsAlbumRow-Extends,
  IsOptional-map, IsKeyRow-Extends,
}
use bvault_app.Pdb.Growth.{
  Keeps, Keeps-trans, with_tracks-Keeps, optional-found, grown_artist, grown_album, grown_genre,
  grown_label, grown_key, grown_artwork,
}

module _ {F : Type 0} where
  -- Each id of the track is 0 where the track has no such name, and else the id under which the
  -- name (an album's with the artist's id, a key by its number) is found in the builder's map.
  pub record Refers (b : PdbBuilder F) (t : TrackInfo F) : Type 0 where
    pub artist : IsNameRow b.artists t.analysis.artist t.artist_id
    pub album : IsOptional (IsAlbumRow b.albums t.artist_id) t.analysis.album t.album_id
    pub genre : IsOptional (IsNameRow b.genres) t.analysis.genre t.genre_id
    pub label : IsOptional (IsNameRow b.labels) t.analysis.label t.label_id
    pub key : IsKeyRow b.keys (key_number t.analysis.key) t.key_id
    pub artwork : (path : Option Text) × IsOptional (IsNameRow b.artworks) path t.artwork_id

  Refers-Keeps : (b c : PdbBuilder F) → Keeps b c → (t : TrackInfo F) → Refers b t → Refers c t
  Refers-Keeps b c g t r = record {
    artist = IsNameRow-Extends b.artists c.artists _ _ g.artists r.artist;
    album =
        IsOptional-map _ _ t.analysis.album t.album_id
          (λ name id. IsAlbumRow-Extends b.albums c.albums t.artist_id name id g.albums) r.album;
    genre =
        IsOptional-map _ _ t.analysis.genre t.genre_id
          (λ name id. IsNameRow-Extends b.genres c.genres name id g.genres) r.genre;
    label =
        IsOptional-map _ _ t.analysis.label t.label_id
          (λ name id. IsNameRow-Extends b.labels c.labels name id g.labels) r.label;
    key = IsKeyRow-Extends b.keys c.keys (key_number t.analysis.key) t.key_id g.keys r.key;
    artwork = (
      r.artwork.0,
      IsOptional-map _ _ r.artwork.0 t.artwork_id
          (λ name id. IsNameRow-Extends b.artworks c.artworks name id g.artworks) r.artwork.1,
    );
  }

  -- The row that is added refers to the builder it is added to, which has kept the rest.
  add_with_key-Refers :
      (analysis : TrackAnalysis F) (analyze_path : Text) (artwork_path : Option Text)
      (b : PdbBuilder F) (key : Option ℕ)
      → key_number analysis.key ≡ some key
      → All (Refers b) b.tracks
      → All
          (Refers (add_with_key analysis analyze_path artwork_path b key).0)
          (add_with_key analysis analyze_path artwork_path b key).0.tracks
  unfolding add_with_key
  add_with_key-Refers analysis analyze_path artwork_path b0 key number old =
      let s1 = get_or_create_artist analysis.artist b0 in
      let s2 = optional (λ name. get_or_create_album name s1.1) analysis.album s1.0 in
      let s3 = optional get_or_create_genre analysis.genre s2.0 in
      let s4 = optional get_or_create_label analysis.label s3.0 in
      let s5 = optional get_or_create_key key s4.0 in
      let s6 = optional get_or_create_artwork artwork_path s5.0 in
      let (g1, artist) = grown_artist analysis.artist b0 in
      let (g2, album) =
        optional-found (λ b. IsAlbumRow b.albums s1.1) (λ name. get_or_create_album name s1.1)
          analysis.album s1.0 (λ name. grown_album name s1.1 s1.0) in
      let (g3, genre) =
        optional-found (λ b. IsNameRow b.genres) get_or_create_genre analysis.genre s2.0
          (λ name. grown_genre name s2.0) in
      let (g4, label) =
        optional-found (λ b. IsNameRow b.labels) get_or_create_label analysis.label s3.0
          (λ name. grown_label name s3.0) in
      let (g5, keyed) =
        optional-found (λ b k id. find number_key k b.keys.ids ≡ some id) get_or_create_key key s4.0
          (λ k. grown_key k s4.0) in
      let (g6, artwork) =
        optional-found (λ b. IsNameRow b.artworks) get_or_create_artwork artwork_path s5.0
          (λ path. grown_artwork path s5.0) in
      let k56 = Keeps-trans s4.0 s5.0 s6.0 g5.maps g6.maps in
      let k46 = Keeps-trans s3.0 s4.0 s6.0 g4.maps k56 in
      let k36 = Keeps-trans s2.0 s3.0 s6.0 g3.maps k46 in
      let k26 = Keeps-trans s1.0 s2.0 s6.0 g2.maps k36 in
      let k16 = Keeps-trans b0 s1.0 s6.0 g1.maps k26 in
      let kept : s6.0.tracks ≡ b0.tracks =
        g6.tracks ∙ g5.tracks ∙ g4.tracks ∙ g3.tracks ∙ g2.tracks ∙ g1.tracks in
      let row : TrackInfo F = record {
        analysis = analysis;
        artist_id = s1.1;
        album_id = s2.1;
        genre_id = s3.1;
        label_id = s4.1;
        key_id = s5.1;
        artwork_id = s6.1;
        analyze_path = analyze_path;
      } in
      let b7 : PdbBuilder F = record s6.0 { tracks = s6.0.tracks ++ row ∷ [] } in
      let k67 = with_tracks-Keeps s6.0 (s6.0.tracks ++ row ∷ []) in
      let k17 = Keeps-trans b0 s6.0 b7 k16 k67 in
      let here : Refers s6.0 row = record {
        artist = IsNameRow-Extends _ _ analysis.artist s1.1 k26.artists artist;
        album =
            IsOptional-map _ _ analysis.album s2.1
              (λ name id. IsAlbumRow-Extends _ _ s1.1 name id k36.albums) album;
        genre =
            IsOptional-map _ _ analysis.genre s3.1
              (λ name id. IsNameRow-Extends _ _ name id k46.genres) genre;
        label =
            IsOptional-map _ _ analysis.label s4.1
              (λ name id. IsNameRow-Extends _ _ name id k56.labels) label;
        key = rw number (
            IsKeyRow-Extends s5.0.keys s6.0.keys (some key) s5.1 g6.maps.keys
              (unfold IsKeyRow in keyed));
        artwork = (artwork_path, artwork);
      } in
      subst (λ ts. All (Refers b7) (ts ++ row ∷ [])) (sym kept)
        (All-append (Refers b7) b0.tracks (row ∷ [])
          (All-map (Refers b0) (Refers b7) b0.tracks (Refers-Keeps b0 b7 k17) old)
          (Refers-Keeps s6.0 b7 k67 row here, tt))

  -- Adding a track keeps the builder's references whole: where every track's artist, album, genre,
  -- label, key and artwork ids are those that the builder's maps hold for its names, they still
  -- are after the call, for the new track as well.
  pub add_track_with_artwork-Refers :
      (analysis : TrackAnalysis F) (analyze_path : Text) (artwork_path : Option Text)
      (b c : PdbBuilder F) (id : ℕ)
      → All (Refers b) b.tracks
      → add_track_with_artwork analysis analyze_path artwork_path b ≡ some (c, id)
      → All (Refers c) c.tracks
  unfolding add_track_with_artwork
  add_track_with_artwork-Refers analysis analyze_path artwork_path b c id old e =
      elim (Option-cases (key_number analysis.key)) [
        | inl panic ↦
            let stopped : ◌≡◌ {A = Option (PdbBuilder F × ℕ)} none (some (c, id)) =
              rw (panic, add_track_with_artwork) at e in
            cc
        | inr (key, number) ↦
            let made : some (add_with_key analysis analyze_path artwork_path b key) ≡ some (c, id) =
              rw (number, add_track_with_artwork) at e in
            let same : add_with_key analysis analyze_path artwork_path b key ≡ (c, id) = cc in
            subst (λ r. All (Refers r.0) r.0.tracks) same
              (add_with_key-Refers analysis analyze_path artwork_path b key number old)
      ]
