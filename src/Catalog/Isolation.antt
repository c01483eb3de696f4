-- ===== src/Catalog/Isolation.antt =====
-- queries.rs: what a user's statements leave of the rows of another user.
pub mod Playlists
use Prim.Native.String.{String}
use text.Mathlib.Text.{◌==◌ as str_eq}
use bvault_app.Prelude.{
  ℕ, ◌≡◌, ◌≢◌, refl, ◌∙◌, inl, inr, arith, Bool, true, false, ◌&&◌, ◌||◌, Option, some, List, [],
  ◌∷◌, ◌++◌, ◌==◌, Bool-cases, Option-cases,
}
use bvault_app.Catalog.Rows.{any, all, select, find_first, delete_where}
use bvault_app.Catalog.Rows.Laws.{
  select-eq, select-append_none, select-update_none, select-delete_none, any-append,
  any-delete_none, any-none, find_first_passes,
}
use bvault_app.Catalog.Ownership.{
  AreDistinct, owned_by-other, any-other, find_first-is_named, is_playlist-other,
}
use bvault_app.Catalog.{
  Playlist, Member, Meta, Result, ok, err, owned_by, is_hash, is_owned, is_named, is_playlist,
  is_user, put_user_track, upsert_track, add_members, with_members, new_playlist, create_playlist,
  delete_playlist, get_playlist, remove_playlist_tracks, create_batch,
}
use bvault_app.Catalog.Statements.{
  Statement, track, playlist, drop_playlist, drop_tracks, batch, settled, settled_with, execute,
  in_own, IsUntouched, IsUntouched-same,
}
use bvault_app.Catalog.Isolation.Playlists.{
  playlist-IsUntouched, drop_playlist-IsUntouched, drop_tracks-IsUntouched,
}

module _ (u v : ℕ) (h : u ≢ v) where
  track-IsUntouched :
      (hash raw_location : String) (title artist : Option String) (now : ℕ) (m : Meta)
      → IsUntouched v m (settled m (upsert_track u hash raw_location title artist now m))
  unfolding upsert_track put_user_track
  track-IsUntouched hash raw_location title artist now m = elim (Bool-cases (is_user u m)) [
    | inr unknown ↦ rw unknown (IsUntouched-same v m)
    | inl known ↦ rw known (record {
      tracks = elim (Bool-cases (any (is_owned u hash) m.user_tracks)) [
        | inl old ↦ rw old (
            select-update_none (λ t. t.user_id == v) (is_owned u hash) _ m.user_tracks
              (λ t owned. (ground arith, ground arith)))
        | inr fresh ↦
            rw fresh (select-append_none (λ t. t.user_id == v) m.user_tracks _ (ground arith))
      ];
      playlists = refl;
      members = refl;
      batches = refl;
    })
  ]

  batch-IsUntouched :
      (new_id : ℕ) (name : Option String) (hashes : List String) (now : ℕ) (m : Meta)
      → IsUntouched v m (settled_with m (create_batch u new_id name hashes now m))
  unfolding create_batch
  batch-IsUntouched new_id name hashes now m =
      elim (Bool-cases (any (λ b. b.id == new_id) m.batches)) [
        | inl taken ↦ rw taken (IsUntouched-same v m)
        | inr free ↦ rw free (elim (Bool-cases (is_user u m)) [
          | inr unknown ↦ rw unknown (IsUntouched-same v m)
          | inl known ↦ rw known (record {
            tracks = refl;
            playlists = refl;
            members = refl;
            batches = select-append_none (λ b. owned_by v b.user_id) m.batches _ (ground arith);
          })
        ])
      ]

  pub execute-IsUntouched :
      (now : ℕ) (s : Statement) (m : Meta)
      → AreDistinct m.playlists
      → IsUntouched v m (execute now u s m)
  unfolding execute
  execute-IsUntouched now (track hash raw_location title artist) m d =
      track-IsUntouched hash raw_location title artist now m
  execute-IsUntouched now (playlist new_id name description hashes) m d =
      playlist-IsUntouched u v h new_id name description hashes now m d
  execute-IsUntouched now (drop_playlist id) m d = drop_playlist-IsUntouched u v h id m d
  execute-IsUntouched now (drop_tracks id hashes) m d = drop_tracks-IsUntouched u v h id hashes m d
  execute-IsUntouched now (batch new_id name hashes) m d =
      batch-IsUntouched new_id name hashes now m
