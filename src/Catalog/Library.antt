-- ===== src/Catalog/Library.antt =====
-- queries.rs: the tracks of users.
use Prim.Native.String.{String}
use text.Mathlib.Text.{◌==◌ as str_eq}
use bvault_app.Prelude.{
  ℕ, Bool, true, false, ◌&&◌, Option, some, none, List, [], ◌∷◌, ◌++◌, take, drop, leb, ◌==◌,
  if◌then◌else◌,
}
use bvault_app.Catalog.Rows.{find_first, select, update_where, any, order_by}
use bvault_app.Catalog.Tables.{
  TrackRow, UserTrack, Track, Meta, foreign_key_violation, Result, ok, err, is_user,
}

-- `coalesce(excluded.x, x)`
unfoldable pub coalesce : {A : Type 0} → Option A → Option A → Option A
coalesce none old = old
coalesce (some a) old = some a

abbrev pub is_hash : String → TrackRow → Bool
is_hash hash t = str_eq t.hash hash

abbrev pub is_owned : ℕ → String → UserTrack → Bool
is_owned user hash t = (t.user_id == user) && str_eq t.hash hash

-- `insert into tracks … on conflict (hash) do update`
unfoldable pub put_track : String → String → List TrackRow → List TrackRow
unfolding any update_where
put_track hash raw_location tracks =
    let row : TrackRow = record { hash = hash; raw_location = raw_location } in
    if any (is_hash hash) tracks
    then update_where (is_hash hash) (λ t. record t { raw_location = raw_location }) tracks
    else tracks ++ row ∷ []

-- `insert into user_tracks … on conflict (user_id, hash) do update`
unfoldable pub put_user_track :
    ℕ → String → Option String → Option String → ℕ → List UserTrack → List UserTrack
unfolding any update_where coalesce
put_user_track user hash title artist now tracks =
    let row : UserTrack = record {
      user_id = user;
      hash = hash;
      title = title;
      artist = artist;
      added_at = now;
    } in
    if any (is_owned user hash) tracks
    then update_where (is_owned user hash)
        (λ t. record t { title = coalesce title t.title; artist = coalesce artist t.artist }) tracks
    else tracks ++ row ∷ []

unfoldable pub upsert_track :
    ℕ → String → String → Option String → Option String → ℕ → Meta → Result Meta
unfolding is_user put_track put_user_track
upsert_track user hash raw_location title artist now m =
    if is_user user m
    then ok (record m {
      tracks = put_track hash raw_location m.tracks;
      user_tracks = put_user_track user hash title artist now m.user_tracks;
    })
    else err foreign_key_violation

-- `join tracks t on t.hash = ut.hash`; a row whose raw file is not there is left out.
unfoldable pub joined : List TrackRow → UserTrack → Option Track
unfolding find_first
joined tracks ut = elim (find_first (is_hash ut.hash) tracks) [
  | none ↦ none
  | some t ↦ some (record {
    hash = t.hash;
    raw_location = t.raw_location;
    title = ut.title;
    artist = ut.artist;
    added_at = ut.added_at;
  })
]

unfoldable pub cons_joined : Option Track → List Track → List Track
cons_joined none rest = rest
cons_joined (some t) rest = t ∷ rest

unfoldable pub join_all : List TrackRow → List UserTrack → List Track
unfolding joined cons_joined
join_all tracks [] = []
join_all tracks (ut ∷ rest) = cons_joined (joined tracks ut) (join_all tracks rest)

unfoldable pub title_matches : (String → String → Bool) → Option String → Option String → Bool
title_matches ilike none title = true
title_matches ilike (some q) none = false
title_matches ilike (some q) (some title) = ilike title q

unfoldable pub list_tracks :
    (String → String → Bool) → ℕ → ℕ → ℕ → Option String → Meta → List Track
unfolding select order_by join_all title_matches
list_tracks ilike user limit offset q m =
    let rows = select (λ t. (t.user_id == user) && title_matches ilike q t.title) m.user_tracks in
    take limit (drop offset (order_by (λ s t. leb t.added_at s.added_at) (join_all m.tracks rows)))

unfoldable pub get_track_by_hash : ℕ → String → Meta → Option Track
unfolding find_first joined
get_track_by_hash user hash m = elim (find_first (is_owned user hash) m.user_tracks) [
  | none ↦ none
  | some ut ↦ joined m.tracks ut
]
