-- ===== src/Pdb/Additions.antt =====
-- pdb.rs: what a call of add_track_with_artwork adds to the builder.
use bvault_app.Prelude.{
  ℕ, ◌≡◌, ◌∙◌, subst, inl, inr, Option, some, none, [], ◌∷◌, ◌++◌, map, map-append, ap,
  Option-cases,
}
use bvault_app.Text.{Text}
use bvault_app.Track.Analysis.{TrackAnalysis}
use bvault_app.Pdb.Entities.{find, number_key}
use bvault_app.Pdb.{
  PdbBuilder, optional, key_number, get_or_create_artist, get_or_create_album, get_or_create_genre,
  get_or_create_label, get_or_create_key, get_or_create_artwork, add_with_key,
  add_track_with_artwork,
}
use bvault_app.Pdb.Lookup.{IsNameRow, IsAlbumRow}
use bvault_app.Pdb.Growth.{
  optional-found, grown_artist, grown_album, grown_genre, grown_label, grown_key, grown_artwork,
}

module _ {F : Type 0} where
  -- One track more, under the id of its analysis, and the same playlists.
  pub record Added (b c : PdbBuilder F) (id : ℕ) : Type 0 where
    pub ids : map (λ t. t.analysis.id) c.tracks ≡ map (λ t. t.analysis.id) b.tracks ++ id ∷ []
    pub playlists : c.playlists ≡ b.playlists

  add_with_key-Added :
      (analysis : TrackAnalysis F) (analyze_path : Text) (artwork_path : Option Text)
      (b : PdbBuilder F) (key : Option ℕ)
      → Added b (add_with_key analysis analyze_path artwork_path b key).0 analysis.id
  unfolding add_with_key
  add_with_key-Added analysis analyze_path artwork_path b0 key =
      let s1 = get_or_create_artist analysis.artist b0 in
      let s2 = optional (λ name. get_or_create_album name s1.1) analysis.album s1.0 in
      let s3 = optional get_or_create_genre analysis.genre s2.0 in
      let s4 = optional get_or_create_label analysis.label s3.0 in
      let s5 = optional get_or_create_key key s4.0 in
      let (g1, _) = grown_artist analysis.artist b0 in
      let (g2, _) =
        optional-found (λ b. IsAlbumRow b.albums s1.1) (λ name. get_or_create_album name s1.1)
          analysis.album s1.0 (λ name. grown_album name s1.1 s1.0) in
      let (g3, _) =
        optional-found (λ b. IsNameRow b.genres) get_or_create_genre analysis.genre s2.0
          (λ name. grown_genre name s2.0) in
      let (g4, _) =
        optional-found (λ b. IsNameRow b.labels) get_or_create_label analysis.label s3.0
          (λ name. grown_label name s3.0) in
      let (g5, _) =
        optional-found (λ b k id. find number_key k b.keys.ids ≡ some id) get_or_create_key key s4.0
          (λ k. grown_key k s4.0) in
      let (g6, _) =
        optional-found (λ b. IsNameRow b.artworks) get_or_create_artwork artwork_path s5.0
          (λ path. grown_artwork path s5.0) in
      record {
        ids =
            map-append (λ t. t.analysis.id) _ _
            ∙ ap (λ ts. map (λ t. t.analysis.id) ts ++ analysis.id ∷ [])
                (g6.tracks ∙ g5.tracks ∙ g4.tracks ∙ g3.tracks ∙ g2.tracks ∙ g1.tracks);
        playlists =
            g6.playlists ∙ g5.playlists ∙ g4.playlists ∙ g3.playlists ∙ g2.playlists ∙ g1.playlists;
      }

  pub add_track_with_artwork-Added :
      (analysis : TrackAnalysis F) (analyze_path : Text) (artwork_path : Option Text)
      (b c : PdbBuilder F) (id : ℕ)
      → add_track_with_artwork analysis analyze_path artwork_path b ≡ some (c, id)
      → Added b c analysis.id
  unfolding add_track_with_artwork
  add_track_with_artwork-Added analysis analyze_path artwork_path b c id e =
      elim (Option-cases (key_number analysis.key)) [
        | inl panic ↦
            let stopped : ◌≡◌ {A = Option (PdbBuilder F × ℕ)} none (some (c, id)) =
              rw (panic, add_track_with_artwork) at e in
            cc
        | inr (key, number) ↦
            let made : some (add_with_key analysis analyze_path artwork_path b key) ≡ some (c, id) =
              rw (number, add_track_with_artwork) at e in
            let same : add_with_key analysis analyze_path artwork_path b key ≡ (c, id) = cc in
            subst (λ r. Added b r.0 analysis.id) same
              (add_with_key-Added analysis analyze_path artwork_path b key)
      ]
