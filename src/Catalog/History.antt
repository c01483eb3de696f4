-- ===== src/Catalog/History.antt =====
-- queries.rs: any sequence of statements, of any users.
use bvault_app.Prelude.{
  ℕ, ◌≢◌, refl, ◌∙◌, inl, inr, Option, List, [], ◌∷◌, ◌++◌, ◌==◌, All, Bool-cases, Option-cases,
}
use Prim.Native.String.{String}
use bvault_app.Catalog.Rows.{any, all, find_first}
use bvault_app.Catalog.Ownership.{AreDistinct, AreDistinct-append, AreDistinct-delete}
use bvault_app.Catalog.{
  Meta, is_hash, is_named, is_playlist, is_user, upsert_track, with_members, new_playlist,
  create_playlist, delete_playlist, get_playlist, remove_playlist_tracks, create_batch,
}
use bvault_app.Catalog.Statements.{
  Statement, track, playlist, drop_playlist, drop_tracks, batch, settled_with, execute, IsUntouched,
}
use bvault_app.Catalog.Isolation.{execute-IsUntouched}

with_members-AreDistinct :
    (id : ℕ) (hashes : List String) (m m' : Meta)
    → AreDistinct m.playlists
    → AreDistinct m'.playlists
    → AreDistinct (settled_with m (with_members id hashes m')).playlists
unfolding with_members
with_members-AreDistinct id hashes m m' d d' =
    elim (Bool-cases (all (λ hash. any (is_hash hash) m'.tracks) hashes)) [
      | inr missing ↦ rw missing d
      | inl whole ↦ rw whole d'
    ]

create_playlist-AreDistinct :
    (user new_id : ℕ) (name : String) (description : Option String) (hashes : List String) (now : ℕ)
    (m : Meta)
    → AreDistinct m.playlists
    → AreDistinct
        (settled_with m (create_playlist user new_id name description hashes now m)).playlists
unfolding create_playlist new_playlist
create_playlist-AreDistinct user new_id name description hashes now m d =
    let p = new_playlist user new_id name description now in
    elim (Option-cases (find_first (is_named user name) m.playlists)) [
      | inr (q, found) ↦ rw (found, create_playlist) (with_members-AreDistinct q.id hashes m m d d)
      | inl missing ↦
          rw (missing, create_playlist)
            (elim (Bool-cases (any (λ p. p.id == new_id) m.playlists)) [
              | inl taken ↦ rw taken d
              | inr free ↦ rw free (elim (Bool-cases (is_user user m)) [
                | inr unknown ↦ rw unknown d
                | inl known ↦ rw known (
                    with_members-AreDistinct new_id hashes m
                      (record m { playlists = m.playlists ++ p ∷ [] }) d
                      (AreDistinct-append m.playlists p d free))
              ])
            ])
    ]

execute-AreDistinct :
    (now user : ℕ) (s : Statement) (m : Meta)
    → AreDistinct m.playlists
    → AreDistinct (execute now user s m).playlists
unfolding execute
execute-AreDistinct now user (track hash raw_location title artist) m d =
    unfold upsert_track in
    elim (Bool-cases (is_user user m)) [ inl known ↦ rw known d | inr unknown ↦ rw unknown d ]
execute-AreDistinct now user (playlist new_id name description hashes) m d =
    create_playlist-AreDistinct user new_id name description hashes now m d
execute-AreDistinct now user (drop_playlist id) m d =
    unfold delete_playlist in AreDistinct-delete (is_playlist user id) m.playlists d
execute-AreDistinct now user (drop_tracks id hashes) m d =
    elim (Option-cases (get_playlist user id m)) [
      | inl missing ↦ rw (missing, remove_playlist_tracks) d
      | inr (p, found) ↦ rw (found, remove_playlist_tracks) d
    ]
execute-AreDistinct now user (batch new_id name hashes) m d =
    unfold create_batch in
    elim (Bool-cases (any (λ b. b.id == new_id) m.batches)) [
      | inl taken ↦ rw taken d
      | inr free ↦ rw free (elim (Bool-cases (is_user user m)) [
        | inr unknown ↦ rw unknown d
        | inl known ↦ rw known d
      ])
    ]

-- Statements with their times and users, one after another.
unfoldable pub execute_all : List (ℕ × ℕ × Statement) → Meta → Meta
unfolding execute
execute_all [] m = m
execute_all ((now, user, s) ∷ statements) m = execute_all statements (execute now user s m)

-- Whatever the other users do in whatever order, with ids and names of their choice, the rows of user
-- `v` stay as they are, where playlist ids are distinct at the start: those of the user's tracks, with
-- title and artist, but not the shared rows of the raw files, the playlists with their members, and the
-- batches. The ids of playlists stay distinct.
pub execute_all-IsUntouched :
    (v : ℕ) (statements : List (ℕ × ℕ × Statement)) (m : Meta)
    → AreDistinct m.playlists
    → All (λ s. s.1 ≢ v) statements
    → IsUntouched v m (execute_all statements m) × AreDistinct (execute_all statements m).playlists
unfolding execute_all
execute_all-IsUntouched v [] m d h =
    (record { tracks = refl; playlists = refl; members = refl; batches = refl }, d)
execute_all-IsUntouched v ((now, user, s) ∷ statements) m d h =
    let one = execute-IsUntouched user v h.0 now s m d in
    let (rest, distinct) =
      execute_all-IsUntouched v statements (execute now user s m)
        (execute-AreDistinct now user s m d) h.1 in
    (
      record {
        tracks = rest.tracks ∙ one.tracks;
        playlists = rest.playlists ∙ one.playlists;
        members = rest.members ∙ one.members;
        batches = rest.batches ∙ one.batches;
      },
      distinct,
    )
