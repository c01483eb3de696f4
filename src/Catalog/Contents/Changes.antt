-- ===== src/Catalog/Contents/Changes.antt =====
-- queries.rs: each statement on playlists as a change of the sets of tracks.
use Prim.Native.String.{String}
use text.Mathlib.Text.{◌==◌ as str_eq}
use text.Mathlib.TextEquality.{eq_iff}
use bvault_app.Prelude.{
  ℕ, ◌≡◌, refl, ap, sym, ◌∙◌, inl, inr, arith, Bool, true, false, not, ◌&&◌, ◌||◌, List, [], ◌∷◌,
  ◌==◌, Bool-cases, Option-cases,
}
use bvault_app.Catalog.Rows.{any, select, delete_where}
use bvault_app.Catalog.Rows.Laws.{any-delete_none}
use bvault_app.Catalog.Rows.Finding.{any-find_first-none}
use bvault_app.Catalog.{
  Member, Meta, Playlist, is_playlist, remove_playlist_tracks, get_playlist, delete_playlist,
}
use bvault_app.Catalog.Contents.{
  has_track, has_row, any-delete_own, any-delete_where, has_track-has_row,
}

-- Playlists as sets of tracks, each statement as a change at one id: to the union with the new tracks,
-- to the difference, to the empty set.
abbrev pub added : List String → ℕ → (String → ℕ → Bool) → String → ℕ → Bool
added hashes id f g j = f g j || ((j == id) && any (str_eq g) hashes)

abbrev pub removed : List String → ℕ → (String → ℕ → Bool) → String → ℕ → Bool
removed hashes id f g j = f g j && not ((j == id) && any (str_eq g) hashes)

abbrev pub emptied : ℕ → (String → ℕ → Bool) → String → ℕ → Bool
emptied id f g j = f g j && not (j == id)

abbrev pub sets : ℕ → Meta → String → ℕ → Bool
sets user m g j = has_track g user j m

-- A deletion of rows is felt by the set in the rows of its own tracks.
has_row-delete_where :
    (g : String) (j : ℕ) (q : Member → Bool) (c : Bool) (members : List Member)
    → ((x : Member) → x.playlist_id ≡ j → x.hash ≡ g → q x ≡ c)
    → has_row g j (delete_where q members) ≡ has_row g j members && not c
unfolding has_row
has_row-delete_where g j q c members h =
    any-delete_where (λ x. (x.playlist_id == j) && str_eq g x.hash) q c members
      (λ x p.
        let place : x.playlist_id ≡ j = ground arith in
        let same : str_eq g x.hash ≡ true = ground arith in
        h x place (sym ((eq_iff g x.hash).0 same)))

any-select_other :
    (j user id : ℕ) (ps : List Playlist)
    → (j == id) ≡ false
    → any (λ p. j == p.id) (select (is_playlist user id) ps) ≡ false
unfolding any select
any-select_other j user id [] apart = refl
any-select_other j user id (p ∷ ps) apart = ground (arith, any-select_other j user id ps apart)

module _ (user id : ℕ) (m : Meta) where
  pub remove_playlist_tracks-removed :
      (hashes : List String) (g : String) (j : ℕ)
      → sets user (remove_playlist_tracks user id hashes m) g j
        ≡ removed hashes id (sets user m) g j
  unfolding get_playlist remove_playlist_tracks
  remove_playlist_tracks-removed hashes g j = elim (Option-cases (get_playlist user id m)) [
    | inl missing ↦
        let gone : any (is_playlist user id) m.playlists ≡ false =
          any-find_first-none (is_playlist user id) m.playlists missing in
        let here : j ≡ id → any (is_playlist user j) m.playlists ≡ false = λ e. rw e gone in
        let same : remove_playlist_tracks user id hashes m ≡ m =
          rw (missing, remove_playlist_tracks) refl in
        ap (λ m. sets user m g j) same ∙ ground (arith, has_track-has_row g user j m, here)
    | inr (p, found) ↦
        let q = λ (x : Member). (x.playlist_id == id) && any (str_eq x.hash) hashes in
        let after = record m { playlist_tracks = delete_where q m.playlist_tracks } in
        let same : remove_playlist_tracks user id hashes m ≡ after =
          rw (found, remove_playlist_tracks) refl in
        ap (λ m. sets user m g j) same
        ∙ ground (
          arith,
          has_track-has_row g user j after,
          has_track-has_row g user j m,
          has_row-delete_where g j q ((j == id) && any (str_eq g) hashes) m.playlist_tracks
              (λ x place same. rw (place, same) refl),
        )
  ]

  pub delete_playlist-emptied :
      (g : String) (j : ℕ)
      → sets user (delete_playlist user id m) g j ≡ emptied id (sets user m) g j
  unfolding delete_playlist
  delete_playlist-emptied g j =
      let gone = select (is_playlist user id) m.playlists in
      let own = any (is_playlist user j) (delete_where (is_playlist user id) m.playlists) in
      elim (Bool-cases (j == id)) [
        | inl same ↦
            let e : j ≡ id = ground arith in
            let none_left : own ≡ false = rw e (any-delete_own (is_playlist user id) m.playlists) in
            ground (arith, has_track-has_row g user j (delete_playlist user id m))
        | inr apart ↦
            let kept : own ≡ any (is_playlist user j) m.playlists =
              any-delete_none (is_playlist user j) (is_playlist user id) m.playlists
                (λ p e. ground arith) in
            let no_rows : has_row g j (delete_playlist user id m).playlist_tracks
                ≡ has_row g j m.playlist_tracks && true =
              has_row-delete_where g j (λ x. any (λ p. x.playlist_id == p.id) gone) false
                m.playlist_tracks
                (λ x place same. rw place (any-select_other j user id m.playlists apart)) in
            ground (
              arith,
              has_track-has_row g user j (delete_playlist user id m),
              has_track-has_row g user j m,
              no_rows,
            )
      ]
