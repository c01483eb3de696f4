-- ===== src/Catalog/Contents/Creation.antt =====
-- queries.rs: the creation of a playlist, and what follows it, as changes of the sets of tracks.
use Prim.Native.String.{String}
use text.Mathlib.Text.{◌==◌ as str_eq}
use bvault_app.Prelude.{
  ℕ, ◌≡◌, sym, subst, inl, inr, arith, true, false, ◌&&◌, Option, List, [], ◌∷◌, ◌++◌, ◌==◌,
  Bool-cases, Option-cases,
}
use bvault_app.Catalog.Rows.{any, all, find_first}
use bvault_app.Catalog.Rows.Laws.{any-append, any-none}
use bvault_app.Catalog.Ownership.{find_first-is_named}
use bvault_app.Catalog.{
  Meta, add_members, Result, ok, err, foreign_key_violation, unique_violation, is_hash, is_user,
  is_named, is_playlist, with_members, new_playlist, create_playlist, remove_playlist_tracks,
  delete_playlist,
}
use bvault_app.Catalog.Contents.{has_row, has_track-has_row, has_row-add_members}
use bvault_app.Catalog.Contents.Changes.{
  added, removed, emptied, sets, remove_playlist_tracks-removed, delete_playlist-emptied,
}

with_members-added :
    (user id i : ℕ) (hashes : List String) (m m' : Meta)
    → any (is_playlist user id) m.playlists ≡ true
    → with_members id hashes m ≡ ok (m', i)
    → (i ≡ id) × ((g : String) (j : ℕ) → sets user m' g j ≡ added hashes id (sets user m) g j)
unfolding with_members
with_members-added user id i hashes m m' own e =
    let after = record m { playlist_tracks = add_members id hashes m.playlist_tracks } in
    elim (Bool-cases (all (λ hash. any (is_hash hash) m.tracks) hashes)) [
      | inr missing ↦
          let no_result : ◌≡◌ {A = Result (Meta × ℕ)} (err foreign_key_violation) (ok (m', i)) =
            rw (missing) at e in
          absurd (cc)
      | inl whole ↦
          let made : ◌≡◌ {A = Result (Meta × ℕ)} (ok (after, id)) (ok (m', i)) = rw (whole) at e in
          let state : after ≡ m' = cc in
          let same : id ≡ i = cc in
          (
            sym same,
            λ g j.
                subst (λ m'. sets user m' g j ≡ added hashes id (sets user m) g j) state
                  (let own_at : j ≡ id → any (is_playlist user j) m.playlists ≡ true =
                      λ e. rw e own in
                    ground (
                      arith,
                      has_track-has_row g user j after,
                      has_track-has_row g user j m,
                      has_row-add_members g j id hashes m.playlist_tracks,
                      own_at,
                    )),
          )
    ]

-- A new playlist has no tracks yet.
sets-new_playlist :
    (user new_id now : ℕ) (name : String) (description : Option String) (m : Meta)
    → any (λ x. x.playlist_id == new_id) m.playlist_tracks ≡ false
    → (g : String) (j : ℕ)
    → sets user
        (record m { playlists = m.playlists ++ new_playlist user new_id name description now ∷ [] })
        g
        j
      ≡ sets user m g j
unfolding new_playlist
sets-new_playlist user new_id now name description m unused g j =
    let p = new_playlist user new_id name description now in
    let after = record m { playlists = m.playlists ++ p ∷ [] } in
    let no_rows : j ≡ new_id → has_row g j m.playlist_tracks ≡ false = λ e. rw e (
      unfold has_row in
      any-none (λ x. (x.playlist_id == new_id) && str_eq g x.hash) (λ x. x.playlist_id == new_id)
        m.playlist_tracks (λ x h. ground arith) unused) in
    ground (
      arith,
      has_track-has_row g user j after,
      has_track-has_row g user j m,
      any-append (is_playlist user j) m.playlists p,
      no_rows,
    )

-- A playlist that was created with an answer `id` has the tracks that are named, besides those that it
-- had if there was one of its name; every later removal takes the tracks that are named, and a deletion
-- all; and no other playlist of the user changes at any of these.
pub record Changes (user id : ℕ) (hashes : List String) (m m' : Meta) : Type 0 where
  pub creates : (g : String) (j : ℕ) → sets user m' g j ≡ added hashes id (sets user m) g j
  pub removes :
      (i : ℕ) (gone : List String) (g : String) (j : ℕ)
      → sets user (remove_playlist_tracks user i gone m') g j ≡ removed gone i (sets user m') g j
  pub deletes :
      (i : ℕ) (g : String) (j : ℕ)
      → sets user (delete_playlist user i m') g j ≡ emptied i (sets user m') g j

module _ (user new_id now : ℕ) (name : String) (description : Option String) (hashes : List String)
    (m m' : Meta) (id : ℕ) where
  created-added :
      any (λ x. x.playlist_id == new_id) m.playlist_tracks ≡ false
      → create_playlist user new_id name description hashes now m ≡ ok (m', id)
      → (g : String) (j : ℕ) → sets user m' g j ≡ added hashes id (sets user m) g j
  unfolding create_playlist
  created-added unused e g j = elim (Option-cases (find_first (is_named user name) m.playlists)) [
    | inr (p, found) ↦
        let own = find_first-is_named user name m.playlists p found in
        let (same, sets_of) =
          with_members-added user p.id id hashes m m' own (rw (found, create_playlist) at e) in
        rw same (sets_of g j)
    | inl missing ↦
        let p = new_playlist user new_id name description now in
        let m1 = record m { playlists = m.playlists ++ p ∷ [] } in
        elim (Bool-cases (any (λ p. p.id == new_id) m.playlists)) [
          | inl taken ↦
              let refused : ◌≡◌ {A = Result (Meta × ℕ)} (err unique_violation) (ok (m', id)) =
                rw (taken) at (rw (missing, create_playlist) at e) in
              absurd (cc)
          | inr free ↦ elim (Bool-cases (is_user user m)) [
            | inr unknown ↦
                let refused : ◌≡◌ {A = Result (Meta × ℕ)} (err foreign_key_violation)
                    (ok (m', id)) =
                  rw (free, unknown) at (rw (missing, create_playlist) at e) in
                absurd (cc)
            | inl known ↦
                let made : with_members new_id hashes m1 ≡ ok (m', id) =
                  rw (free, known) at (rw (missing, create_playlist) at e) in
                let own : any (is_playlist user new_id) m1.playlists ≡ true =
                  unfold new_playlist in
                  ground (arith, any-append (is_playlist user new_id) m.playlists p) in
                let (same, sets_of) = with_members-added user new_id id hashes m1 m' own made in
                let before = sets-new_playlist user new_id now name description m unused g j in
                rw same (ground (arith, sets_of g j, before))
          ]
        ]
  ]

  -- For a user a playlist is a set of tracks. Creating one, of any name, adds the tracks that are named
  -- to the set of its id, which is the old one where the user has a playlist of the name; removing
  -- tracks is the difference, deleting the playlist leaves the empty set, and each changes the set of no
  -- other id. The id that the database makes up is that of no playlist's tracks.
  pub create_playlist-Changes :
      any (λ x. x.playlist_id == new_id) m.playlist_tracks ≡ false
      → create_playlist user new_id name description hashes now m ≡ ok (m', id)
      → Changes user id hashes m m'
  create_playlist-Changes unused e = record {
    creates = created-added unused e;
    removes = λ i gone. remove_playlist_tracks-removed user i m' gone;
    deletes = λ i. delete_playlist-emptied user i m';
  }
