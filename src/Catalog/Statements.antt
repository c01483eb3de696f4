-- ===== src/Catalog/Statements.antt =====
-- queries.rs: the statements of a user, and the rows of another that they leave alone.
use Prim.Native.String.{String}
use bvault_app.Prelude.{ℕ, ◌≡◌, refl, Bool, Option, List, ◌==◌}
use bvault_app.Catalog.Rows.{any, select}
use bvault_app.Catalog.{
  Playlist, Member, Meta, Result, ok, err, owned_by, is_playlist, upsert_track, create_playlist,
  delete_playlist, remove_playlist_tracks, create_batch,
}

-- The statements that write rows of a user.
pub data Statement : Type 0 where
  track : String → String → Option String → Option String → Statement
  playlist : ℕ → String → Option String → List String → Statement
  drop_playlist : ℕ → Statement
  drop_tracks : ℕ → List String → Statement
  batch : ℕ → Option String → List String → Statement

-- A statement that fails is rolled back.
abbrev pub settled : Meta → Result Meta → Meta
settled m (ok m') = m'
settled m (err e) = m

abbrev pub settled_with : Meta → Result (Meta × ℕ) → Meta
settled_with m (ok (m', id)) = m'
settled_with m (err e) = m

unfoldable pub execute : ℕ → ℕ → Statement → Meta → Meta
unfolding upsert_track create_playlist delete_playlist remove_playlist_tracks create_batch
execute now user (track hash raw_location title artist) m =
    settled m (upsert_track user hash raw_location title artist now m)
execute now user (playlist new_id name description hashes) m =
    settled_with m (create_playlist user new_id name description hashes now m)
execute now user (drop_playlist id) m = delete_playlist user id m
execute now user (drop_tracks id hashes) m = remove_playlist_tracks user id hashes m
execute now user (batch new_id name hashes) m =
    settled_with m (create_batch user new_id name hashes now m)

abbrev pub in_own : ℕ → List Playlist → Member → Bool
in_own v ps x = any (is_playlist v x.playlist_id) ps

-- The rows of user `v`: the user's rows of tracks, the playlists with their members, the batches.
pub record IsUntouched (v : ℕ) (m m' : Meta) : Type 0 where
  pub tracks :
      select (λ t. t.user_id == v) m'.user_tracks ≡ select (λ t. t.user_id == v) m.user_tracks
  pub playlists :
      select (λ p. owned_by v p.user_id) m'.playlists
      ≡ select (λ p. owned_by v p.user_id) m.playlists
  pub members :
      select (in_own v m'.playlists) m'.playlist_tracks
      ≡ select (in_own v m.playlists) m.playlist_tracks
  pub batches :
      select (λ b. owned_by v b.user_id) m'.batches ≡ select (λ b. owned_by v b.user_id) m.batches

pub IsUntouched-same : (v : ℕ) (m : Meta) → IsUntouched v m m
IsUntouched-same v m = record { tracks = refl; playlists = refl; members = refl; batches = refl }
