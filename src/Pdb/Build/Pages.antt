-- ===== src/Pdb/Build/Pages.antt =====
-- pdb.rs: the pages that the loop over the tables collects.
use bvault_app.Prelude.{
  ℕ, ◌≡◌, refl, ap, sym, subst, ◌⊎◌, inl, inr, true, Option, some, none, List, length, length-map,
}
use bvault_app.Page.{
  PageType, PageResult, ok, page_overflow, tracks, genres, artists, albums, labels, keys, colors,
  playlist_tree, playlist_entries, unknown9, unknown10, history_playlists, history_entries, artwork,
  unknown14, unknown15, columns, unknown17, unknown18, history,
}
use bvault_app.Pdb.{PdbBuilder}
use bvault_app.Pdb.Paging.{DataPages, empty_data_pages, table_pages, single_page}
use bvault_app.Pdb.Paging.Layout.{
  IsLaidOut, empty_data_pages-IsLaidOut, table_pages-IsLaidOut, single_page-IsLaidOut,
}
use bvault_app.Pdb.Tables.{
  Outcome, done, failed, panicked, ◌>>=◌, of_result, of_option, build_data_pages, key_rows,
  playlist_entry_rows,
}
use bvault_app.Pdb.Entities.{sort_by_id}

module _ {ℓ} {A B : Type ℓ} where
  pub >>=-eq-done :
      (m : Outcome A) (next : A → Outcome B) {b : B}
      → (m >>= next) ≡ done b
      → (a : A) × (m ≡ done a) × (next a ≡ done b)
  >>=-eq-done (done a) next e = (a, refl, e)
  >>=-eq-done (failed w n) next e = cc
  >>=-eq-done panicked next e = cc

of_result-eq-done : {A : Type 0} (m : PageResult A) {a : A} → of_result m ≡ done a → m ≡ ok a
of_result-eq-done (ok a) e = cc
of_result-eq-done (page_overflow w n) e = cc

pub of_option-eq-done : {A : Type 0} (o : Option A) {a : A} → of_option o ≡ done a → o ≡ some a
of_option-eq-done none e = cc
of_option-eq-done (some a) e = cc

-- The tables that have data whatever was added.
unfoldable pub always_data : PageType → ℕ
always_data colors = 1
always_data columns = 1
always_data unknown17 = 1
always_data unknown18 = 1
always_data history = 1
always_data _ = 0

-- The rows of an optional table.
unfoldable pub count_rows : Option (List (List ℕ)) → ℕ
count_rows none = 0
count_rows (some rows) = length rows

module _ {F : Type 0} where
  -- The rows that a table gets from what was added.
  unfoldable pub added_rows : PdbBuilder F → PageType → ℕ
  unfolding count_rows
  added_rows b tracks = length b.tracks
  added_rows b genres = length (sort_by_id b.genres.ids)
  added_rows b artists = length (sort_by_id b.artists.ids)
  added_rows b albums = length (sort_by_id b.albums.ids)
  added_rows b labels = length (sort_by_id b.labels.ids)
  added_rows b keys = count_rows (key_rows (sort_by_id b.keys.ids))
  added_rows b playlist_tree = length b.playlists
  added_rows b playlist_entries = length (playlist_entry_rows b.playlists)
  added_rows b artwork = length (sort_by_id b.artworks.ids)
  added_rows b _ = 0

module _ {F : Type 0} (tempo_of seconds_of : F → ℕ) (b : PdbBuilder F) where
  -- A table of rows that were added.
  added :
      (t u : PageType) (next : ℕ) (rows : List (List ℕ)) (n : ℕ) (built : DataPages)
      → always_data u ≡ 0
      → length rows ≡ n
      → of_result (table_pages t next rows) ≡ done built
      → IsLaidOut n next built × ((always_data u ≡ 0) ⊎ (built.has_data ≡ true))
  added t u next rows n built nil size e = (
    subst (λ k. IsLaidOut k next built) size
        (table_pages-IsLaidOut t next rows built (of_result-eq-done _ e)),
    inl nil,
  )

  -- A table of fixed rows.
  fixed :
      (t u : PageType) (next : ℕ) (rows : List (List ℕ)) (built : DataPages)
      → of_result (single_page t next rows) ≡ done built
      → IsLaidOut 0 next built × ((always_data u ≡ 0) ⊎ (built.has_data ≡ true))
  fixed t u next rows built e =
      let (laid, filled) = single_page-IsLaidOut t next rows built (of_result-eq-done _ e) in
      (laid, inr filled)

  empty :
      (u : PageType) (next : ℕ) (built : DataPages)
      → always_data u ≡ 0
      → done (empty_data_pages next) ≡ done built
      → IsLaidOut 0 next built × ((always_data u ≡ 0) ⊎ (built.has_data ≡ true))
  empty u next built nil e =
      let same : empty_data_pages next ≡ built = cc in
      (subst (IsLaidOut 0 next) same (empty_data_pages-IsLaidOut next), inl nil)

  pub build_data_pages-IsLaidOut :
      (t : PageType) (next : ℕ) (built : DataPages)
      → build_data_pages tempo_of seconds_of b t next ≡ done built
      → IsLaidOut (added_rows b t) next built × ((always_data t ≡ 0) ⊎ (built.has_data ≡ true))
  unfolding build_data_pages always_data added_rows count_rows
  build_data_pages-IsLaidOut tracks next built e =
      added tracks tracks next _ _ built refl (length-map _ _) e
  build_data_pages-IsLaidOut genres next built e =
      added genres genres next _ _ built refl (length-map _ _) e
  build_data_pages-IsLaidOut artists next built e =
      added artists artists next _ _ built refl (length-map _ _) e
  build_data_pages-IsLaidOut albums next built e =
      added albums albums next _ _ built refl (length-map _ _) e
  build_data_pages-IsLaidOut labels next built e =
      added labels labels next _ _ built refl (length-map _ _) e
  build_data_pages-IsLaidOut keys next built e =
      let (rows, found, made) = >>=-eq-done (of_option (key_rows (sort_by_id b.keys.ids))) _ e in
      let listed : key_rows (sort_by_id b.keys.ids) ≡ some rows = of_option-eq-done _ found in
      added keys keys next rows _ built refl (sym (ap count_rows listed)) made
  build_data_pages-IsLaidOut colors next built e = fixed colors colors next _ built e
  build_data_pages-IsLaidOut playlist_tree next built e =
      added playlist_tree playlist_tree next _ _ built refl (length-map _ _) e
  build_data_pages-IsLaidOut playlist_entries next built e =
      added playlist_entries playlist_entries next _ _ built refl refl e
  build_data_pages-IsLaidOut unknown9 next built e = empty unknown9 next built refl e
  build_data_pages-IsLaidOut unknown10 next built e = empty unknown10 next built refl e
  build_data_pages-IsLaidOut history_playlists next built e =
      empty history_playlists next built refl e
  build_data_pages-IsLaidOut history_entries next built e = empty history_entries next built refl e
  build_data_pages-IsLaidOut artwork next built e =
      added artwork artwork next _ _ built refl (length-map _ _) e
  build_data_pages-IsLaidOut unknown14 next built e = empty unknown14 next built refl e
  build_data_pages-IsLaidOut unknown15 next built e = empty unknown15 next built refl e
  build_data_pages-IsLaidOut columns next built e = fixed columns columns next _ built e
  build_data_pages-IsLaidOut unknown17 next built e = fixed unknown17 unknown17 next _ built e
  build_data_pages-IsLaidOut unknown18 next built e = fixed unknown18 unknown18 next _ built e
  build_data_pages-IsLaidOut history next built e = fixed history history next _ built e
