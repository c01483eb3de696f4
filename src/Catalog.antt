-- ===== src/Catalog.antt =====
-- crates/bvault-meta/src/queries.rs and model.rs: the catalog of users, sessions, tracks, playlists
-- and batches in the tables of services/gateway/migrations, each statement one transaction at time
-- `now`. An id that the database makes up is an argument. `lower` and `ilike` of the database's
-- locale are parameters.
pub mod Rows
pub mod Tables
pub mod Accounts
pub mod Library
pub mod Statements
pub mod Ownership
pub mod Isolation
pub mod History
pub mod Contents
pub mod Tracks
pub mod Tests
use Prim.Native.String.{String}
use text.Mathlib.Text.{◌==◌ as str_eq}
use bvault_app.Prelude.{
  ℕ, Bool, true, false, not, ◌&&◌, ◌||◌, Option, some, none, List, [], ◌∷◌, ◌++◌, map, take, drop,
  ltb, leb, ◌==◌, if◌then◌else◌,
}
use bvault_app.Catalog.Rows.{find_first, select, delete_where, update_where, any, all, order_by}
pub use bvault_app.Catalog.Tables.{
  User, Session, TrackRow, UserTrack, Track, Playlist, Member, Batch, Meta, Failure, username_taken,
  unique_violation, foreign_key_violation, Result, ok, err, owned_by,
}
unfoldable pub use bvault_app.Catalog.Tables.{is_user}
unfoldable pub use bvault_app.Catalog.Accounts.{
  create_user, find_credentials, create_session, lookup_session, delete_session,
}
unfoldable pub use bvault_app.Catalog.Library.{
  coalesce, is_hash, is_owned, put_track, put_user_track, upsert_track, joined, cons_joined,
  join_all, title_matches, list_tracks, get_track_by_hash,
}

-- `insert into playlist_tracks select $1, unnest($2) on conflict do nothing`
unfoldable pub add_members : ℕ → List String → List Member → List Member
unfolding any
add_members id [] members = members
add_members id (hash ∷ hashes) members =
    let row : Member = record { playlist_id = id; hash = hash } in
    add_members id hashes (
      if any (λ x. (x.playlist_id == id) && str_eq x.hash hash) members
      then members
      else members ++ row ∷ [])

abbrev pub is_named : ℕ → String → Playlist → Bool
is_named user name p = owned_by user p.user_id && str_eq p.name name

abbrev pub is_playlist : ℕ → ℕ → Playlist → Bool
is_playlist user id p = (p.id == id) && owned_by user p.user_id

-- The second insert of the transaction, after which it is committed, or rolled back.
unfoldable pub with_members : ℕ → List String → Meta → Result (Meta × ℕ)
unfolding any all add_members
with_members id hashes m =
    if all (λ hash. any (is_hash hash) m.tracks) hashes
    then ok (record m { playlist_tracks = add_members id hashes m.playlist_tracks }, id)
    else err foreign_key_violation

unfoldable pub new_playlist : ℕ → ℕ → String → Option String → ℕ → Playlist
new_playlist user id name description now = record {
  id = id;
  name = name;
  description = description;
  created_at = now;
  updated_at = now;
  user_id = some user;
}

-- `new_id` is the id that the database makes up, if it inserts a playlist.
unfoldable pub create_playlist :
    ℕ → ℕ → String → Option String → List String → ℕ → Meta → Result (Meta × ℕ)
unfolding find_first with_members new_playlist any is_user
create_playlist user new_id name description hashes now m =
    elim (find_first (is_named user name) m.playlists) [
      | some p ↦ with_members p.id hashes m
      | none ↦
          if any (λ p. p.id == new_id) m.playlists
          then err unique_violation
          else if is_user user m
          then with_members new_id hashes (record m {
            playlists = m.playlists ++ new_playlist user new_id name description now ∷ [];
          })
          else err foreign_key_violation
    ]

-- The members of a playlist that is deleted are deleted too, by `on delete cascade`.
unfoldable pub delete_playlist : ℕ → ℕ → Meta → Meta
unfolding delete_where any
delete_playlist user id m =
    let gone = select (is_playlist user id) m.playlists in
    record m {
      playlists = delete_where (is_playlist user id) m.playlists;
      playlist_tracks = delete_where (λ x. any (λ p. x.playlist_id == p.id) gone) m.playlist_tracks;
    }

unfoldable pub get_playlist : ℕ → ℕ → Meta → Option Playlist
unfolding find_first
get_playlist user id m = find_first (is_playlist user id) m.playlists

unfoldable pub remove_playlist_tracks : ℕ → ℕ → List String → Meta → Meta
unfolding get_playlist delete_where any
remove_playlist_tracks user id hashes m = elim (get_playlist user id m) [
  | none ↦ m
  | some p ↦ record m {
    playlist_tracks =
        delete_where (λ x. (x.playlist_id == id) && any (str_eq x.hash) hashes) m.playlist_tracks;
  }
]

unfoldable pub list_playlists : ℕ → Meta → List Playlist
unfolding select order_by
list_playlists user m =
    order_by (λ s t. leb t.created_at s.created_at)
      (select (λ p. owned_by user p.user_id) m.playlists)

unfoldable pub playlist_hashes : ℕ → ℕ → Meta → List String
unfolding select any
playlist_hashes user id m =
    map (λ x. x.hash)
      (select (λ x. (x.playlist_id == id) && any (is_playlist user id) m.playlists)
        m.playlist_tracks)

-- `select distinct`; the rows come in no order, here that of the table of tracks, whose key is the
-- hash.
unfoldable pub resolve_hashes : ℕ → List ℕ → Meta → List (String × String)
unfolding select any
resolve_hashes user playlist_ids m =
    map (λ t. (t.hash, t.raw_location))
      (select
        (λ t.
          any
            (λ x.
              str_eq x.hash t.hash
              && (any (λ id. id == x.playlist_id) playlist_ids
                  && any (is_playlist user x.playlist_id) m.playlists))
            m.playlist_tracks)
        m.tracks)

unfoldable pub create_batch : ℕ → ℕ → Option String → List String → ℕ → Meta → Result (Meta × ℕ)
unfolding any is_user
create_batch user new_id name hashes now m =
    let row : Batch = record {
      id = new_id;
      name = name;
      hashes = hashes;
      created_at = now;
      user_id = some user;
    } in
    if any (λ b. b.id == new_id) m.batches
    then err unique_violation
    else if is_user user m
    then ok (record m { batches = m.batches ++ row ∷ [] }, new_id)
    else err foreign_key_violation

unfoldable pub get_batch : ℕ → ℕ → Meta → Option Batch
unfolding find_first
get_batch user id m = find_first (λ b. (b.id == id) && owned_by user b.user_id) m.batches
