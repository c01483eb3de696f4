-- ===== src/Catalog/Contents.antt =====
-- queries.rs: a playlist as the set of its tracks.
pub mod Changes
pub mod Creation
use Prim.Native.String.{String}
use text.Mathlib.Text.{◌==◌ as str_eq}
use text.Mathlib.TextEquality.{eq_iff}
use bvault_app.Prelude.{
  ℕ, ◌≡◌, ◌≢◌, refl, ap, sym, ◌∙◌, inl, inr, arith, Bool, true, false, not, ◌&&◌, ◌||◌, Option,
  some, none, List, [], ◌∷◌, ◌++◌, ◌==◌, map, Bool-cases, Option-cases, if◌then◌else◌,
}
use bvault_app.Catalog.Rows.{any, select, delete_where, find_first}
use bvault_app.Catalog.Rows.Laws.{any-append}
use bvault_app.Catalog.{
  Member, Meta, is_playlist, add_members, playlist_hashes, remove_playlist_tracks, get_playlist,
  delete_playlist,
}

-- The track `g` is in the playlist of that id, if it is the user's.
abbrev pub has_track : String → ℕ → ℕ → Meta → Bool
has_track g user id m = any (str_eq g) (playlist_hashes user id m)

-- There is a row of `g` and the id, whoever's the playlist is.
unfoldable pub has_row : String → ℕ → List Member → Bool
has_row g id members = any (λ x. (x.playlist_id == id) && str_eq g x.hash) members

module _ {A : Type 0} where
  any-implied :
      (p q : A → Bool) (rs : List A)
      → ((r : A) → p r ≡ true → q r ≡ true)
      → any p rs ≡ true
      → any q rs ≡ true
  unfolding any
  any-implied p q [] h e = e
  any-implied p q (r ∷ rs) h e = ground (arith, h r, any-implied p q rs h)

  pub any-delete_own : (p : A → Bool) (rs : List A) → any p (delete_where p rs) ≡ false
  unfolding any delete_where select
  any-delete_own p [] = refl
  any-delete_own p (r ∷ rs) = ground (arith, any-delete_own p rs)

  -- A deletion that takes all rows of a test, or none of them.
  pub any-delete_where :
      (p q : A → Bool) (c : Bool) (rs : List A)
      → ((r : A) → p r ≡ true → q r ≡ c)
      → any p (delete_where q rs) ≡ any p rs && not c
  unfolding any delete_where select
  any-delete_where p q c [] h = refl
  any-delete_where p q c (r ∷ rs) h = ground (arith, h r, any-delete_where p q c rs h)

own_rows :
    (g : String) (id : ℕ) (own : Bool) (members : List Member)
    → any (str_eq g) (map (λ x. x.hash) (select (λ x. (x.playlist_id == id) && own) members))
      ≡ own && has_row g id members
unfolding any select has_row
own_rows g id own [] = ground arith
own_rows g id own (x ∷ members) = ground (arith, own_rows g id own members)

pub has_track-has_row :
    (g : String) (user id : ℕ) (m : Meta)
    → has_track g user id m
      ≡ any (is_playlist user id) m.playlists && has_row g id m.playlist_tracks
unfolding playlist_hashes
has_track-has_row g user id m =
    own_rows g id (any (is_playlist user id) m.playlists) m.playlist_tracks

-- A row that is not inserted twice is there.
has_row_twice :
    (g hash : String) (id : ℕ) (members : List Member)
    → any (λ x. (x.playlist_id == id) && str_eq x.hash hash) members ≡ true
    → str_eq g hash ≡ true
    → has_row g id members ≡ true
unfolding has_row
has_row_twice g hash id members old same =
    let equal : g ≡ hash = (eq_iff g hash).0 same in
    any-implied (λ x. (x.playlist_id == id) && str_eq x.hash hash)
      (λ x. (x.playlist_id == id) && str_eq g x.hash) members
      (λ x h.
        let is : str_eq x.hash hash ≡ true = ground arith in
        let back : str_eq g x.hash ≡ true =
          (eq_iff g x.hash).1 (equal ∙ sym ((eq_iff x.hash hash).0 is)) in
        ground arith)
      old

pub has_row-add_members :
    (g : String) (j id : ℕ) (hashes : List String) (members : List Member)
    → has_row g j (add_members id hashes members)
      ≡ has_row g j members || ((j == id) && any (str_eq g) hashes)
unfolding add_members any
has_row-add_members g j id [] members = ground arith
has_row-add_members g j id (hash ∷ hashes) members =
    let row : Member = record { playlist_id = id; hash = hash } in
    let twice = λ (x : Member). (x.playlist_id == id) && str_eq x.hash hash in
    elim (Bool-cases (any twice members)) [
      | inl old ↦ rw old (
          has_row-add_members g j id hashes members
          ∙ ground (arith, has_row_twice g hash id members old))
      | inr new ↦ rw new (
          has_row-add_members g j id hashes (members ++ row ∷ [])
          ∙ (unfold has_row in
              ground
                (arith, any-append (λ x. (x.playlist_id == j) && str_eq g x.hash) members row)))
    ]
