-- ===== src/Export/Playlists.antt =====
-- build.rs: the builder of an export has whole references, and its playlists are of its tracks.
use mathlib.Core.List.{Memᴰ}
use mathlib.Core.List.Memᴰ as Memᴰ
use bvault_app.Prelude.{
  ℕ, suc, ◌≡◌, refl, ◌∙◌, sym, ap, subst, Bool-cases, inl, inr, Option, some, none, List, [], ◌∷◌,
  ◌++◌, map, map-append, append_assoc, append-nil, All, All-append, All-map, Option-cases, u32, ◌+◌,
}
use bvault_app.Text.{Text, text_equal}
use bvault_app.Anlz.Path.{generate_anlz_path}
use bvault_app.Track.Analysis.{TrackAnalysis}
use bvault_app.Pdb.{PdbBuilder, PlaylistInfo, new, add_track, add_playlist}
use bvault_app.Pdb.Additions.{add_track_with_artwork-Added}
use bvault_app.Pdb.References.{Refers, add_track_with_artwork-Refers}
use bvault_app.Export.{
  PlaylistInput, Loaded, id_of, cons_some, content_ids, sorted_playlists, loaded, load_tracks,
  add_tracks, add_playlists, export_builder, contents_path,
}

-- Every id that a hash was given is one of `ids`.
abbrev AreIds : List ℕ → List (Text × ℕ) → Type 0
AreIds ids pairs = All (λ e. Memᴰ e.1 ids) pairs

-- Every track of the playlist is one of `ids`.
abbrev pub IsOf : List ℕ → PlaylistInfo → Type 0
IsOf ids p = All (λ id. Memᴰ id ids) p.track_ids

id_of-AreIds :
    (ids : List ℕ) (h : Text) (pairs : List (Text × ℕ)) (id : ℕ)
    → AreIds ids pairs
    → id_of h pairs ≡ some id
    → Memᴰ id ids
unfolding id_of
id_of-AreIds ids h [] id a e = absurd (cc)
id_of-AreIds ids h ((hash, i) ∷ pairs) id a e = elim (Bool-cases (text_equal h hash)) [
  | inl same ↦
      let found : some i ≡ some id = rw (same, id_of) at e in
      let here : i ≡ id = cc in subst (λ i. Memᴰ i ids) here a.0
  | inr other ↦
      let later : id_of h pairs ≡ some id = rw (other, id_of) at e in
      id_of-AreIds ids h pairs id a.1 later
]

content_ids-AreIds :
    (ids : List ℕ) (pairs : List (Text × ℕ)) (hashes : List Text)
    → AreIds ids pairs
    → All (λ id. Memᴰ id ids) (content_ids pairs hashes)
unfolding content_ids cons_some
content_ids-AreIds ids pairs [] a = tt
content_ids-AreIds ids pairs (h ∷ hashes) a = elim (Option-cases (id_of h pairs)) [
  | inl missing ↦ rw (missing, cons_some) (content_ids-AreIds ids pairs hashes a)
  | inr (id, found) ↦
      rw (found, cons_some)
        (id_of-AreIds ids h pairs id a found, content_ids-AreIds ids pairs hashes a)
]

module _ {F : Type 0} where
  abbrev analysis_ids : List (TrackAnalysis F) → List ℕ
  analysis_ids analyses = map (λ a. a.id) analyses

  abbrev pub track_ids : PdbBuilder F → List ℕ
  track_ids b = map (λ t. t.analysis.id) b.tracks

  -- The ids that were given out are ids of analyses.
  load_tracks-AreIds :
      (load : Text → Option (TrackAnalysis F)) (extension : Text → Option Text) (i : ℕ)
      (tracks : List (Text × Text)) (l m : Loaded F)
      → AreIds (analysis_ids l.analyses) l.id_by_hash
      → load_tracks load extension i tracks l ≡ some m
      → AreIds (analysis_ids m.analyses) m.id_by_hash
  unfolding load_tracks loaded
  load_tracks-AreIds load extension i [] l m a e =
      let same : l ≡ m = cc in subst (λ l. AreIds (analysis_ids l.analyses) l.id_by_hash) same a
  load_tracks-AreIds load extension i ((hash, raw_location) ∷ tracks) l m a e =
      elim (Option-cases (load hash)) [
        | inl missing ↦
            let stopped : ◌≡◌ {A = Option (Loaded F)} none (some m) =
              rw (missing, load_tracks) at e in
            absurd (cc)
        | inr (analysis, there) ↦
            let id = u32 (u32 i + 1) in
            let rest : load_tracks load extension (suc i) tracks
                  (loaded extension i hash raw_location l analysis)
                ≡ some m =
              rw (there, load_tracks) at e in
            let split =
              map-append (λ a. a.id) l.analyses
                (record analysis {
                  id = id;
                  file_path = b'/' ∷ contents_path hash (extension raw_location);
                }
                  ∷ []) in
            load_tracks-AreIds load extension (suc i) tracks
              (loaded extension i hash raw_location l analysis) m
              (subst (λ ids. AreIds ids ((hash, id) ∷ l.id_by_hash)) (sym split)
                (
                  Memᴰ.append_right (analysis_ids l.analyses) (Memᴰ.head refl),
                  All-map _ _ l.id_by_hash (λ e old. Memᴰ.append_left (id ∷ []) old) a,
                ))
              rest
      ]

  -- What is left of the builder's making after its tracks.
  record AddedAll (analyses : List (TrackAnalysis F)) (b c : PdbBuilder F) : Type 0 where
    ids : track_ids c ≡ track_ids b ++ analysis_ids analyses
    playlists : c.playlists ≡ b.playlists
    refers : All (Refers b) b.tracks → All (Refers c) c.tracks

  add_tracks-AddedAll :
      (analyses : List (TrackAnalysis F)) (b c : PdbBuilder F)
      → add_tracks analyses b ≡ some c
      → AddedAll analyses b c
  unfolding add_tracks add_track
  add_tracks-AddedAll [] b c e =
      let same : b ≡ c = cc in
      subst (AddedAll [] b) same
        (record { ids = sym (append-nil (track_ids b)); playlists = refl; refers = λ r. r })
  add_tracks-AddedAll (a ∷ analyses) b c e =
      elim (Option-cases (add_track a (generate_anlz_path a.id) b)) [
        | inl panic ↦
            let stopped : ◌≡◌ {A = Option (PdbBuilder F)} none (some c) =
              rw (panic, add_tracks) at e in
            absurd (cc)
        | inr ((d, id), there) ↦
            let rest : add_tracks analyses d ≡ some c = rw (there, add_tracks) at e in
            let one = add_track_with_artwork-Added a (generate_anlz_path a.id) none b d id there in
            let all = add_tracks-AddedAll analyses d c rest in
            record {
              ids =
                  all.ids
                  ∙ ap (λ ids. ids ++ analysis_ids analyses) one.ids
                  ∙ append_assoc (track_ids b) (a.id ∷ []) (analysis_ids analyses);
              playlists = all.playlists ∙ one.playlists;
              refers = λ r.
                  all.refers
                    (add_track_with_artwork-Refers a (generate_anlz_path a.id) none b d id r there);
            }
      ]

  -- Adding playlists leaves the rest of the builder alone.
  add_playlists-IsOf :
      (i : ℕ) (pairs : List (Text × ℕ)) (inputs : List PlaylistInput) (b : PdbBuilder F)
      → AreIds (track_ids b) pairs
      → All (Refers b) b.tracks
      → All (IsOf (track_ids b)) b.playlists
      → let c = add_playlists i pairs inputs b in
        All (Refers c) c.tracks × All (IsOf (track_ids c)) c.playlists
  unfolding add_playlists add_playlist
  add_playlists-IsOf i pairs [] b a r p = (r, p)
  add_playlists-IsOf i pairs (input ∷ inputs) b a r p =
      let c = add_playlist (u32 (u32 i + 1)) 0 input.name (content_ids pairs input.hashes) b in
      add_playlists-IsOf (suc i) pairs inputs c a
        (All-map (Refers b) (Refers c) b.tracks
          (λ t t_refers. record {
            artist = t_refers.artist;
            album = t_refers.album;
            genre = t_refers.genre;
            label = t_refers.label;
            key = t_refers.key;
            artwork = t_refers.artwork;
          })
          r)
        (All-append (IsOf (track_ids b)) b.playlists _ p
          (content_ids-AreIds (track_ids b) pairs input.hashes a, tt))

-- The database of an export refers to nothing that is not in it: if its builder is made at all,
-- each track's artist, album, genre, label, key and artwork ids are those that the builder's maps
-- hold for its names, and each track of a playlist is a track of the database.
pub export_builder-IsClosed :
    {F : Type 0} (load : Text → Option (TrackAnalysis F)) (extension : Text → Option Text)
    (tracks : List (Text × Text)) (playlists : List PlaylistInput) (b : PdbBuilder F)
    → export_builder load extension tracks playlists ≡ some b
    → All (Refers b) b.tracks × All (IsOf (track_ids b)) b.playlists
unfolding export_builder new
export_builder-IsClosed load extension tracks playlists b e =
    let empty : Loaded _ = record { analyses = []; refs = []; id_by_hash = [] } in
    elim (Option-cases (load_tracks load extension 0 tracks empty)) [
      | inl missing ↦
          let stopped : ◌≡◌ {A = Option (PdbBuilder _)} none (some b) =
            rw (missing, export_builder) at e in
          absurd (cc)
      | inr (l, there) ↦ elim (Option-cases (add_tracks l.analyses new)) [
        | inl panic ↦
            let stopped : ◌≡◌ {A = Option (PdbBuilder _)} none (some b) =
              rw (there, panic, export_builder) at e in
            absurd (cc)
        | inr (c, added) ↦
            let made : some (add_playlists 0 l.id_by_hash (sorted_playlists playlists) c) ≡ some b =
              rw (there, added, export_builder) at e in
            let same : add_playlists 0 l.id_by_hash (sorted_playlists playlists) c ≡ b = cc in
            let ids = load_tracks-AreIds load extension 0 tracks empty l tt there in
            let all = add_tracks-AddedAll l.analyses new c added in
            subst (λ b. All (Refers b) b.tracks × All (IsOf (track_ids b)) b.playlists) same
              (add_playlists-IsOf 0 l.id_by_hash (sorted_playlists playlists) c
                (subst (λ ids. AreIds ids l.id_by_hash) (sym all.ids) ids) (all.refers tt)
                (subst (All (IsOf (track_ids c))) (sym all.playlists) tt))
      ]
    ]
