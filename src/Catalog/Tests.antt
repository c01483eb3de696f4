-- ===== src/Catalog/Tests.antt =====
-- Two users who have one track; what the second one does.
use Prim.Native.String.{String}
use bvault_app.Prelude.{false, ◌==◌, ◌≡◌, refl, arith, ℕ, some, none, List, [], ◌∷◌}
use bvault_app.Catalog.{
  create_playlist, Meta, User, ok, upsert_track, get_track_by_hash, playlist_hashes, resolve_hashes,
}
use bvault_app.Catalog.Rows.{any, find_first, select, update_where, delete_where}
use bvault_app.Catalog.Ownership.{AreDistinct}
use bvault_app.Catalog.Statements.{
  Statement, track, playlist, drop_playlist, drop_tracks, batch, settled, settled_with, IsUntouched,
  execute,
}
use bvault_app.Catalog.Contents.Creation.{Changes, create_playlist-Changes}
use bvault_app.Catalog.History.{execute_all, execute_all-IsUntouched}
use bvault_app.Catalog.Tracks.Upsert.{Upserted, upsert_track-Upserted}

catalog : Unit {0}
unfolding execute_all execute get_track_by_hash playlist_hashes resolve_hashes any find_first select
    update_where delete_where
catalog = tt

abbrev user : ℕ → String → User
user id name = record { id = id; username = name; password_hash = ""; youtube_cookies = none }

abbrev no_rows : Meta
no_rows = record {
  users = user 1 "ann" ∷ user 2 "bob" ∷ [];
  sessions = [];
  tracks = [];
  user_tracks = [];
  playlists = [];
  playlist_tracks = [];
  batches = [];
}

abbrev of_ann : List (ℕ × ℕ × Statement)
of_ann =
    (10, 1, track "aa" "aa.mp3" (some "Song") none)
    ∷ (11, 1, playlist 7 "Set" none ("aa" ∷ []))
    ∷ []

-- Among them a playlist of the same name, and Ann's playlist under its id.
abbrev of_bob : List (ℕ × ℕ × Statement)
of_bob =
    (20, 2, track "aa" "bb.mp3" none none)
    ∷ (21, 2, playlist 8 "Set" none ("aa" ∷ []))
    ∷ (22, 2, drop_tracks 7 ("aa" ∷ []))
    ∷ (23, 2, drop_playlist 7)
    ∷ (24, 2, batch 9 none ("aa" ∷ []))
    ∷ []

before : Meta
unfolding catalog
before = execute_all of_ann no_rows

after : Meta
unfolding catalog
after = execute_all of_bob before

catalog_tests :
    (playlist_hashes 1 7 after ≡ "aa" ∷ [])
    × (playlist_hashes 2 7 after ≡ [])
    × (resolve_hashes 2 (8 ∷ []) after ≡ ("aa", "bb.mp3") ∷ [])
    × (resolve_hashes 1 (8 ∷ []) after ≡ [])
unfolding catalog before after
catalog_tests = (refl, refl, refl, refl)

before-AreDistinct : AreDistinct before.playlists
unfolding catalog before
before-AreDistinct = (refl, tt)

execute_all-IsUntouched_example :
    IsUntouched 1 before (execute_all of_bob before)
    × AreDistinct (execute_all of_bob before).playlists
execute_all-IsUntouched_example = execute_all-IsUntouched 1 of_bob before before-AreDistinct (
  (λ e. omega (arith, e)),
  (
    (λ e. omega (arith, e)),
    ((λ e. omega (arith, e)), ((λ e. omega (arith, e)), ((λ e. omega (arith, e)), tt))),
  ),
)

moved : Meta
unfolding catalog
moved = settled before (upsert_track 2 "aa" "bb.mp3" none none 20 before)

bob_upserts : upsert_track 2 "aa" "bb.mp3" none none 20 before ≡ ok moved
unfolding catalog before moved
bob_upserts = refl

-- Ann reads the file that Bob has named.
moved_test :
    get_track_by_hash 1 "aa" moved
    ≡ some (record {
      hash = "aa";
      raw_location = "bb.mp3";
      title = some "Song";
      artist = none;
      added_at = 10;
    })
unfolding catalog before moved
moved_test = refl

upsert_track-Upserted_example : Upserted 2 "aa" "bb.mp3" none none 20 before moved
upsert_track-Upserted_example =
    upsert_track-Upserted 2 "aa" "bb.mp3" none none 20 before moved bob_upserts

-- Ann creates a playlist of the name that she has, so the track is added to the old one.
both : Meta
unfolding catalog
both = settled_with before (create_playlist 1 11 "Set" none ("aa" ∷ []) 30 before)

ann_creates : create_playlist 1 11 "Set" none ("aa" ∷ []) 30 before ≡ ok (both, 7)
unfolding catalog before both
ann_creates = refl

no_tracks_yet : any (λ x. x.playlist_id == 11) before.playlist_tracks ≡ false
unfolding catalog before
no_tracks_yet = refl

create_playlist-Changes_example : Changes 1 7 ("aa" ∷ []) before both
create_playlist-Changes_example =
    create_playlist-Changes 1 11 30 "Set" none ("aa" ∷ []) before both 7 no_tracks_yet ann_creates
