-- ===== src/Catalog/Tracks/Upsert.antt =====
-- queries.rs: what every user reads of every track after an upsert.
use Prim.Native.String.{String}
use text.Mathlib.Text.{◌==◌ as str_eq}
use text.Mathlib.TextEquality.{eq_iff}
use bvault_app.Prelude.{
  ℕ, ◌≡◌, ◌≢◌, refl, ap, sym, subst, ◌∙◌, inl, inr, arith, true, false, ◌&&◌, Option, some, none,
  List, ◌==◌, Bool-cases, Option-cases,
}
use bvault_app.Catalog.Rows.{find_first}
use bvault_app.Catalog.Rows.Laws.{find_first_passes}
use bvault_app.Catalog.{
  TrackRow, UserTrack, Track, Meta, ok, err, foreign_key_violation, is_hash, is_owned, put_track,
  put_user_track, joined, is_user, upsert_track, get_track_by_hash,
}
use bvault_app.Catalog.Tracks.{
  merged, put_track-same, put_track-other, put_user_track-same, put_user_track-other,
}

-- The track as it is read.
unfoldable pub as_track : String → UserTrack → Track
as_track raw_location t = record {
  hash = t.hash;
  raw_location = raw_location;
  title = t.title;
  artist = t.artist;
  added_at = t.added_at;
}

-- The user's own track has the new place, and a title and an artist that are kept where none is given;
-- another user's track of the hash has the new place too; no other track changes.
pub record Upserted (user : ℕ) (hash raw_location : String) (title artist : Option String) (now : ℕ)
    (m m' : Meta) : Type 0 where
  pub own :
      get_track_by_hash user hash m'
      ≡ some (
          as_track raw_location
            (merged user hash title artist now (find_first (is_owned user hash) m.user_tracks)))
  pub shared :
      (v : ℕ) (t : Track)
      → v ≢ user
      → get_track_by_hash v hash m ≡ some t
      → get_track_by_hash v hash m' ≡ some (record t { raw_location = raw_location })
  pub others : (v : ℕ) (g : String) → g ≢ hash → get_track_by_hash v g m' ≡ get_track_by_hash v g m

joined_found :
    (tracks : List TrackRow) (ut : UserTrack) (row : TrackRow)
    → find_first (is_hash ut.hash) tracks ≡ some row
    → joined tracks ut ≡ some (as_track row.raw_location (record ut { hash = row.hash }))
unfolding joined as_track
joined_found tracks ut row found = rw (found, joined) refl

joined_missing :
    (tracks : List TrackRow) (ut : UserTrack)
    → find_first (is_hash ut.hash) tracks ≡ none
    → joined tracks ut ≡ none
unfolding joined
joined_missing tracks ut missing = rw (missing, joined) refl

get_missing :
    (v : ℕ) (g : String) (m : Meta)
    → find_first (is_owned v g) m.user_tracks ≡ none
    → get_track_by_hash v g m ≡ none
unfolding get_track_by_hash
get_missing v g m missing = rw (missing, get_track_by_hash) refl

get_row :
    (v : ℕ) (g : String) (m : Meta) (ut : UserTrack)
    → find_first (is_owned v g) m.user_tracks ≡ some ut
    → get_track_by_hash v g m ≡ joined m.tracks ut
unfolding get_track_by_hash
get_row v g m ut found = rw (found, get_track_by_hash) refl

joined-put_track :
    (hash raw_location : String) (tracks : List TrackRow) (ut : UserTrack)
    → ut.hash ≡ hash
    → joined (put_track hash raw_location tracks) ut ≡ some (as_track raw_location ut)
joined-put_track hash raw_location tracks ut same =
    let row : TrackRow = record { hash = hash; raw_location = raw_location } in
    let found : find_first (is_hash ut.hash) (put_track hash raw_location tracks) ≡ some row =
      subst (λ h. find_first (is_hash h) (put_track hash raw_location tracks) ≡ some row) (sym same)
        (put_track-same hash raw_location tracks) in
    joined_found (put_track hash raw_location tracks) ut row found
    ∙ ap (λ h. some (as_track raw_location (record ut { hash = h }))) (sym same)

joined-put_track_other :
    (hash raw_location g : String) (tracks : List TrackRow) (ut : UserTrack)
    → ut.hash ≡ g
    → str_eq hash g ≡ false
    → joined (put_track hash raw_location tracks) ut ≡ joined tracks ut
joined-put_track_other hash raw_location g tracks ut same apart =
    let kept : find_first (is_hash ut.hash) (put_track hash raw_location tracks)
        ≡ find_first (is_hash ut.hash) tracks =
      put_track-other hash raw_location ut.hash tracks (rw same apart) in
    elim (Option-cases (find_first (is_hash ut.hash) tracks)) [
      | inl missing ↦
          joined_missing (put_track hash raw_location tracks) ut (kept ∙ missing)
          ∙ sym (joined_missing tracks ut missing)
      | inr (row, found) ↦
          joined_found (put_track hash raw_location tracks) ut row (kept ∙ found)
          ∙ sym (joined_found tracks ut row found)
    ]

joined-found :
    (tracks : List TrackRow) (ut : UserTrack) (t : Track) (raw_location : String)
    → joined tracks ut ≡ some t
    → as_track raw_location ut ≡ record t { raw_location = raw_location }
joined-found tracks ut t raw_location e =
    elim (Option-cases (find_first (is_hash ut.hash) tracks)) [
      | inl missing ↦
          let no_track : ◌≡◌ {A = Option Track} none (some t) =
            sym (joined_missing tracks ut missing) ∙ e in
          absurd (cc)
      | inr (row, found) ↦
          let is = (find_first_passes (is_hash ut.hash) tracks row found).0 in
          let same : row.hash ≡ ut.hash = (eq_iff row.hash ut.hash).0 is in
          let read : some (as_track row.raw_location (record ut { hash = row.hash })) ≡ some t =
            sym (joined_found tracks ut row found) ∙ e in
          let equal : as_track row.raw_location (record ut { hash = row.hash }) ≡ t = cc in
          ap (λ h. as_track raw_location (record ut { hash = h })) (sym same)
          ∙ (unfold as_track in ap (λ (t : Track). record t { raw_location = raw_location }) equal)
    ]

owner-hash :
    (v : ℕ) (g : String) (tracks : List UserTrack) (ut : UserTrack)
    → find_first (is_owned v g) tracks ≡ some ut
    → ut.hash ≡ g
owner-hash v g tracks ut found =
    let both = (find_first_passes (is_owned v g) tracks ut found).0 in
    let is : str_eq ut.hash g ≡ true = ground arith in (eq_iff ut.hash g).0 is

merged-hash :
    (user : ℕ) (hash : String) (title artist : Option String) (now : ℕ) (old : Option UserTrack)
    → ((t : UserTrack) → old ≡ some t → t.hash ≡ hash)
    → (merged user hash title artist now old).hash ≡ hash
unfolding merged
merged-hash user hash title artist now none h = refl
merged-hash user hash title artist now (some t) h = h t refl

rows-Upserted :
    (user : ℕ) (hash raw_location : String) (title artist : Option String) (now : ℕ) (m : Meta)
    → Upserted user hash raw_location title artist now m (record m {
      tracks = put_track hash raw_location m.tracks;
      user_tracks = put_user_track user hash title artist now m.user_tracks;
    })
rows-Upserted user hash raw_location title artist now m =
    let tracks = put_track hash raw_location m.tracks in
    let after = record m {
      tracks = tracks;
      user_tracks = put_user_track user hash title artist now m.user_tracks;
    } in
    record {
      own =
          let old = find_first (is_owned user hash) m.user_tracks in
          let new = merged user hash title artist now old in
          let same : new.hash ≡ hash =
            merged-hash user hash title artist now old
              (λ t found. owner-hash user hash m.user_tracks t found) in
          get_row user hash after new (put_user_track-same user hash title artist now m.user_tracks)
          ∙ joined-put_track hash raw_location m.tracks new same;
      shared = λ v t h e.
          let apart : (user == v) && str_eq hash hash ≡ false = ground arith in
          let kept = put_user_track-other user hash title artist now v hash m.user_tracks apart in
          elim (Option-cases (find_first (is_owned v hash) m.user_tracks)) [
            | inl missing ↦
                let no_track : ◌≡◌ {A = Option Track} none (some t) =
                  sym (get_missing v hash m missing) ∙ e in
                absurd (cc)
            | inr (ut, found) ↦
                let read = sym (get_row v hash m ut found) ∙ e in
                get_row v hash after ut (kept ∙ found)
                ∙ joined-put_track hash raw_location m.tracks ut
                    (owner-hash v hash m.user_tracks ut found)
                ∙ ap some (joined-found m.tracks ut t raw_location read)
          ];
      others = λ v g h.
          let apart : str_eq hash g ≡ false = elim (Bool-cases (str_eq hash g)) [
            | inr differs ↦ differs
            | inl same ↦ absurd (h (sym ((eq_iff hash g).0 same)))
          ] in
          let pair : (user == v) && str_eq hash g ≡ false = ground arith in
          let kept = put_user_track-other user hash title artist now v g m.user_tracks pair in
          elim (Option-cases (find_first (is_owned v g) m.user_tracks)) [
            | inl missing ↦ get_missing v g after (kept ∙ missing) ∙ sym (get_missing v g m missing)
            | inr (ut, found) ↦
                get_row v g after ut (kept ∙ found)
                ∙ joined-put_track_other hash raw_location g m.tracks ut
                    (owner-hash v g m.user_tracks ut found) apart
                ∙ sym (get_row v g m ut found)
          ];
    }

-- After an upsert of a track the user reads it at its new place, with the new title and artist, or the
-- old ones where none is given. Every other user who has the track reads the new place as well,
-- whoever named it, and nothing else; all other tracks are read as before.
pub upsert_track-Upserted :
    (user : ℕ) (hash raw_location : String) (title artist : Option String) (now : ℕ) (m m' : Meta)
    → upsert_track user hash raw_location title artist now m ≡ ok m'
    → Upserted user hash raw_location title artist now m m'
unfolding upsert_track
upsert_track-Upserted user hash raw_location title artist now m m' e =
    elim (Bool-cases (is_user user m)) [
      | inr unknown ↦
          let no_result : err foreign_key_violation ≡ ok m' = rw (unknown) at e in absurd (cc)
      | inl known ↦
          let made : ok (record m {
            tracks = put_track hash raw_location m.tracks;
            user_tracks = put_user_track user hash title artist now m.user_tracks;
          })
              ≡ ok m' =
            rw (known) at e in
          let same : record m {
            tracks = put_track hash raw_location m.tracks;
            user_tracks = put_user_track user hash title artist now m.user_tracks;
          }
              ≡ m' =
            cc in
          subst (Upserted user hash raw_location title artist now m) same
            (rows-Upserted user hash raw_location title artist now m)
    ]
