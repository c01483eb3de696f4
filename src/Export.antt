-- ===== src/Export.antt =====
-- crates/bvault-export/src/build.rs: the ids, paths and playlists of an export, and the builder of
-- its database. The stored analyses and `Path::extension` are parameters; `none` is an error.
pub mod Playlists
pub mod Tests
use bvault_app.Prelude.{
  ℕ, suc, ◌+◌, Bool, true, false, ◌&&◌, ◌||◌, Option, some, none, List, [], ◌∷◌, ◌++◌, ltb, ◌==◌,
  if◌then◌else◌, u32,
}
use bvault_app.Text.{Text, text_equal}
use bvault_app.Anlz.Path.{generate_anlz_path}
use bvault_app.Track.Analysis.{TrackAnalysis}
use bvault_app.Pdb.{PdbBuilder, new, add_track, add_playlist}

pub record PlaylistInput : Type 0 where
  pub name : Text
  pub hashes : List Text

pub record TrackRef : Type 0 where
  pub hash : Text
  pub raw_location : Text
  pub contents_usb : Text

-- What the first loop has collected; a hash that comes again replaces its id.
pub record Loaded (F : Type 0) : Type 0 where
  pub analyses : List (TrackAnalysis F)
  pub refs : List TrackRef
  pub id_by_hash : List (Text × ℕ)

unfoldable pub contents_path : Text → Option Text → Text
contents_path hash none =
    (b'C' ∷ b'o' ∷ b'n' ∷ b't' ∷ b'e' ∷ b'n' ∷ b't' ∷ b's' ∷ b'/' ∷ [])
    ++ (hash ++ (b'.' ∷ b'b' ∷ b'i' ∷ b'n' ∷ []))
contents_path hash (some ext) =
    (b'C' ∷ b'o' ∷ b'n' ∷ b't' ∷ b'e' ∷ b'n' ∷ b't' ∷ b's' ∷ b'/' ∷ []) ++ (hash ++ b'.' ∷ ext)

-- `id_by_hash.get(h)`, the last id that was inserted.
unfoldable pub id_of : Text → List (Text × ℕ) → Option ℕ
id_of h [] = none
id_of h ((hash, id) ∷ ids) = if text_equal h hash then some id else id_of h ids

-- `filter_map` over a playlist's hashes.
unfoldable pub cons_some : {A : Type 0} → Option A → List A → List A
cons_some none xs = xs
cons_some (some a) xs = a ∷ xs

unfoldable pub content_ids : List (Text × ℕ) → List Text → List ℕ
unfolding id_of cons_some
content_ids ids [] = []
content_ids ids (h ∷ hashes) = cons_some (id_of h ids) (content_ids ids hashes)

-- The order of strings, by characters, which is that of their bytes.
unfoldable pub text_le : Text → Text → Bool
text_le [] bs = true
text_le (a ∷ xs) [] = false
text_le (a ∷ xs) (b ∷ bs) = ltb a b || (a == b && text_le xs bs)

unfoldable pub insert_by_name : PlaylistInput → List PlaylistInput → List PlaylistInput
unfolding text_le
insert_by_name p [] = p ∷ []
insert_by_name p (q ∷ playlists) =
    if text_le p.name q.name then p ∷ q ∷ playlists else q ∷ insert_by_name p playlists

unfoldable pub is_named : Text → Bool
is_named [] = false
is_named (c ∷ cs) = true

-- Playlists without a name are left out; the others are sorted by name, equal names in their order.
unfoldable pub sorted_playlists : List PlaylistInput → List PlaylistInput
unfolding insert_by_name is_named
sorted_playlists [] = []
sorted_playlists (p ∷ playlists) =
    let rest = sorted_playlists playlists in if is_named p.name then insert_by_name p rest else rest

module _ {F : Type 0} (extension : Text → Option Text) where
  unfoldable pub loaded : ℕ → Text → Text → Loaded F → TrackAnalysis F → Loaded F
  unfolding contents_path
  loaded i hash raw_location l analysis =
      let id = u32 (u32 i + 1) in
      let contents_usb = contents_path hash (extension raw_location) in
      record {
        analyses = l.analyses ++ record analysis { id = id; file_path = b'/' ∷ contents_usb } ∷ [];
        refs =
            l.refs
            ++ record { hash = hash; raw_location = raw_location; contents_usb = contents_usb }
              ∷ [];
        id_by_hash = (hash, id) ∷ l.id_by_hash;
      }

module _ {F : Type 0} (load : Text → Option (TrackAnalysis F))
    (extension : Text → Option Text) where
  -- The first loop, at track `i`.
  unfoldable pub load_tracks : ℕ → List (Text × Text) → Loaded F → Option (Loaded F)
  unfolding loaded
  load_tracks i [] l = some l
  load_tracks i ((hash, raw_location) ∷ tracks) l = elim (load hash) [
    | none ↦ none
    | some analysis ↦ load_tracks (suc i) tracks (loaded extension i hash raw_location l analysis)
  ]

module _ {F : Type 0} where
  unfoldable pub add_tracks : List (TrackAnalysis F) → PdbBuilder F → Option (PdbBuilder F)
  add_tracks [] b = some b
  add_tracks (a ∷ analyses) b = elim (add_track a (generate_anlz_path a.id) b) [
    | none ↦ none
    | some (c, id) ↦ add_tracks analyses c
  ]

  unfoldable pub add_playlists :
      ℕ → List (Text × ℕ) → List PlaylistInput → PdbBuilder F → PdbBuilder F
  unfolding content_ids
  add_playlists i ids [] b = b
  add_playlists i ids (p ∷ playlists) b =
      add_playlists (suc i) ids playlists
        (add_playlist (u32 (u32 i + 1)) 0 p.name (content_ids ids p.hashes) b)

-- The builder that `build` is called on.
unfoldable pub export_builder :
    {F : Type 0}
    → (Text → Option (TrackAnalysis F))
    → (Text → Option Text)
    → List (Text × Text)
    → List PlaylistInput
    → Option (PdbBuilder F)
unfolding load_tracks add_tracks add_playlists sorted_playlists
export_builder load extension tracks playlists =
    elim (load_tracks load extension 0 tracks
      (record { analyses = []; refs = []; id_by_hash = [] })) [
        | none ↦ none
        | some l ↦ elim (add_tracks l.analyses new) [
          | none ↦ none
          | some b ↦ some (add_playlists 0 l.id_by_hash (sorted_playlists playlists) b)
        ]
      ]
