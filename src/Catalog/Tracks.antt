-- ===== src/Catalog/Tracks.antt =====
-- queries.rs: what a user reads of a track after an upsert of any user.
pub mod Upsert
use Prim.Native.String.{String}
use text.Mathlib.Text.{◌==◌ as str_eq}
use text.Mathlib.TextEquality.{eq_iff}
use bvault_app.Prelude.{
  ℕ, ◌≡◌, ◌≢◌, refl, ap, ◌∙◌, inl, inr, arith, Bool, true, false, ◌&&◌, Option, some, none, List,
  [], ◌∷◌, ◌++◌, ◌==◌, Bool-cases, Option-cases, if◌then◌else◌,
}
use bvault_app.Catalog.Rows.{find_first, any, update_where}
use bvault_app.Catalog.Rows.Finding.{
  find_first-update, find_first-update_other, find_first-none-any, find_first-some-any,
  find_first-append_here, find_first-append_other,
}
use bvault_app.Catalog.Rows.Laws.{find_first_passes}
use bvault_app.Catalog.{
  TrackRow, UserTrack, Track, Meta, Result, ok, err, is_hash, is_owned, coalesce, put_track,
  put_user_track, joined, is_user, upsert_track, get_track_by_hash,
}

-- What a user's row of a track is after an upsert, by what it was before.
unfoldable pub merged :
    ℕ → String → Option String → Option String → ℕ → Option UserTrack → UserTrack
unfolding coalesce
merged user hash title artist now none = record {
  user_id = user;
  hash = hash;
  title = title;
  artist = artist;
  added_at = now;
}
merged user hash title artist now (some t) = record t {
  title = coalesce title t.title;
  artist = coalesce artist t.artist;
}

pub str_eq_refl : (s : String) → str_eq s s ≡ true
str_eq_refl s = (eq_iff s s).1 refl

pub put_track-same :
    (hash raw_location : String) (tracks : List TrackRow)
    → find_first (is_hash hash) (put_track hash raw_location tracks)
      ≡ some (record { hash = hash; raw_location = raw_location })
unfolding put_track
put_track-same hash raw_location tracks = elim (Bool-cases (any (is_hash hash) tracks)) [
  | inl old ↦ rw old (
      let (t, found) = find_first-some-any (is_hash hash) tracks old in
      let is : str_eq t.hash hash ≡ true = (find_first_passes (is_hash hash) tracks t found).0 in
      let same : t.hash ≡ hash = (eq_iff t.hash hash).0 is in
      find_first-update (is_hash hash) (λ t. record t { raw_location = raw_location }) tracks t
        (λ r. refl) found
      ∙ ap (λ h. some (record { hash = h; raw_location = raw_location })) same)
  | inr fresh ↦ rw fresh (
      find_first-append_here (is_hash hash) tracks _
        (find_first-none-any (is_hash hash) tracks fresh) (str_eq_refl hash))
]

pub put_track-other :
    (hash raw_location g : String) (tracks : List TrackRow)
    → str_eq hash g ≡ false
    → find_first (is_hash g) (put_track hash raw_location tracks) ≡ find_first (is_hash g) tracks
unfolding put_track
put_track-other hash raw_location g tracks apart = elim (Bool-cases (any (is_hash hash) tracks)) [
  | inl old ↦ rw old (
      find_first-update_other (is_hash g) (is_hash hash) _ tracks (λ r is.
        let same : r.hash ≡ hash = (eq_iff r.hash hash).0 is in
        let not_g : str_eq r.hash g ≡ false = rw same apart in (not_g, not_g)))
  | inr fresh ↦ rw fresh (find_first-append_other (is_hash g) tracks _ apart)
]

module _ (user : ℕ) (hash : String) (title artist : Option String) (now : ℕ) where
  pub put_user_track-same :
      (tracks : List UserTrack)
      → find_first (is_owned user hash) (put_user_track user hash title artist now tracks)
        ≡ some (merged user hash title artist now (find_first (is_owned user hash) tracks))
  unfolding put_user_track
  put_user_track-same tracks = elim (Bool-cases (any (is_owned user hash) tracks)) [
    | inl old ↦ rw old (
        let (t, found) = find_first-some-any (is_owned user hash) tracks old in
        rw found
          (unfold merged in find_first-update (is_owned user hash) _ tracks t (λ r. refl) found))
    | inr fresh ↦ rw fresh (
        let missing = find_first-none-any (is_owned user hash) tracks fresh in
        let own : (user == user) && str_eq hash hash ≡ true =
          rw (str_eq_refl hash) (ground arith) in
        rw missing
          (unfold merged in find_first-append_here (is_owned user hash) tracks _ missing own))
  ]

  pub put_user_track-other :
      (v : ℕ) (g : String) (tracks : List UserTrack)
      → (user == v) && str_eq hash g ≡ false
      → find_first (is_owned v g) (put_user_track user hash title artist now tracks)
        ≡ find_first (is_owned v g) tracks
  unfolding put_user_track
  put_user_track-other v g tracks apart = elim (Bool-cases (any (is_owned user hash) tracks)) [
    | inl old ↦ rw old (
        find_first-update_other (is_owned v g) (is_owned user hash) _ tracks (λ r is.
          let same_user : r.user_id ≡ user = ground arith in
          let is_hash' : str_eq r.hash hash ≡ true = ground arith in
          let same_hash : r.hash ≡ hash = (eq_iff r.hash hash).0 is_hash' in
          let differs : (r.user_id == v) && str_eq r.hash g ≡ false =
            rw (same_user, same_hash) apart in
          (differs, differs)))
    | inr fresh ↦ rw fresh (find_first-append_other (is_owned v g) tracks _ apart)
  ]
