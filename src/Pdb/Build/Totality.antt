-- ===== src/Pdb/Build/Totality.antt =====
-- pdb.rs: a builder whose rows each fit a page is written out.
use bvault_app.Prelude.{
  ℕ, ◌+◌, ◌*◌, ◌/◌, ◌≤◌, ◌≡◌, refl, arith, some, List, [], ◌∷◌, map, All, length,
}
use bvault_app.Page.{
  PageType, PageResult, ok, page_overflow, tracks, genres, artists, albums, labels, keys, colors,
  playlist_tree, playlist_entries, unknown9, unknown10, history_playlists, history_entries, artwork,
  unknown14, unknown15, columns, unknown17, unknown18, history, page_size, heap_start,
  row_group_size,
}
use bvault_app.Text.{utf8_char}
use bvault_app.DeviceString.{encode_string}
use bvault_app.Pdb.{PdbBuilder}
use bvault_app.Pdb.Entities.{sort_by_id}
use bvault_app.Pdb.FixedRows as Fixed
use bvault_app.Pdb.FixedRows.{columns_data, dataset, unknown18_data, words_row, history_row}
use bvault_app.Pdb.Paging.{table_pages, single_page}
use bvault_app.Pdb.Paging.Totality.{Succeeds, IsShort, table_pages-Succeeds}
use bvault_app.Pdb.Paging.SinglePage.{single_page-Succeeds, padded_size}
use bvault_app.Pdb.Rows.{
  build_track_row, build_artist_row, build_album_row, build_genre_row, build_label_row,
  build_color_row, build_playlist_tree_row, build_artwork_row,
}
use bvault_app.Pdb.Tables.{
  Outcome, done, failed, panicked, of_result, build_data_pages, key_rows, playlist_entry_rows,
}

-- A call that returns a value.
abbrev pub Returns : {A : Type 0} → Outcome A → Type 0
Returns (done a) = Unit {0}
Returns (failed wanted available) = ⊥
Returns panicked = ⊥

pub Returns-eq-done : {A : Type 0} (m : Outcome A) → Returns m → (a : A) × (m ≡ done a)
Returns-eq-done (done a) r = (a, refl)
Returns-eq-done (failed w n) r = absurd r
Returns-eq-done panicked r = absurd r

of_result-Returns : {A : Type 0} (m : PageResult A) → Succeeds m → Returns (of_result m)
of_result-Returns (ok a) s = tt
of_result-Returns (page_overflow w n) s = s

-- The bytes that the fixed rows take on their page.
Fits : List (List ℕ) → Type 0
Fits rows = heap_start + padded_size rows + (length rows / 16 + 1) * row_group_size ≤ page_size

color_rows-Fits : Fits (map (λ (id, n). build_color_row id n) Fixed.colors)
unfolding Fits Fixed.colors build_color_row encode_string utf8_char
color_rows-Fits = omega arith

columns-Fits : Fits columns_data
unfolding Fits columns_data
columns-Fits = omega arith

unknown17-Fits : Fits (map words_row dataset)
unfolding Fits dataset words_row
unknown17-Fits = omega arith

unknown18-Fits : Fits (map words_row unknown18_data)
unfolding Fits unknown18_data words_row
unknown18-Fits = omega arith

history-Fits : Fits (history_row ∷ [])
unfolding Fits history_row
history-Fits = omega arith

fixed :
    (t : PageType) (next : ℕ) (rows : List (List ℕ))
    → Fits rows
    → Returns (of_result (single_page t next rows))
unfolding Fits
fixed t next rows h = of_result-Returns _ (single_page-Succeeds t next rows h)

module _ {F : Type 0} (tempo_of seconds_of : F → ℕ) where
  -- No row of the builder is longer than a page can hold, and the numbers of its keys name keys.
  pub record IsShortBuilder (b : PdbBuilder F) : Type 0 where
    pub short_tracks : All IsShort (map (build_track_row tempo_of seconds_of) b.tracks)
    pub short_genres : All IsShort (map (λ (n, id). build_genre_row id n) (sort_by_id b.genres.ids))
    pub short_artists :
        All IsShort (map (λ (n, id). build_artist_row id n) (sort_by_id b.artists.ids))
    pub short_albums :
        All IsShort
          (map (λ ((n, artist_id), id). build_album_row id artist_id n) (sort_by_id b.albums.ids))
    pub short_labels : All IsShort (map (λ (n, id). build_label_row id n) (sort_by_id b.labels.ids))
    pub short_keys :
        (rows : List (List ℕ)) × (key_rows (sort_by_id b.keys.ids) ≡ some rows) × All IsShort rows
    pub short_playlists : All IsShort (map build_playlist_tree_row b.playlists)
    pub short_entries : All IsShort (playlist_entry_rows b.playlists)
    pub short_artworks :
        All IsShort (map (λ (p, id). build_artwork_row id p) (sort_by_id b.artworks.ids))

  added :
      (t : PageType) (next : ℕ) (rows : List (List ℕ))
      → All IsShort rows
      → Returns (of_result (table_pages t next rows))
  added t next rows h = of_result-Returns _ ((table_pages-Succeeds t next rows).1 h)

  pub build_data_pages-Returns :
      (b : PdbBuilder F) (t : PageType) (next : ℕ)
      → IsShortBuilder b
      → Returns (build_data_pages tempo_of seconds_of b t next)
  unfolding build_data_pages
  build_data_pages-Returns b tracks next h = added tracks next _ h.short_tracks
  build_data_pages-Returns b genres next h = added genres next _ h.short_genres
  build_data_pages-Returns b artists next h = added artists next _ h.short_artists
  build_data_pages-Returns b albums next h = added albums next _ h.short_albums
  build_data_pages-Returns b labels next h = added labels next _ h.short_labels
  build_data_pages-Returns b keys next h =
      let (rows, found, short) = h.short_keys in rw found (added keys next rows short)
  build_data_pages-Returns b colors next h = fixed colors next _ color_rows-Fits
  build_data_pages-Returns b playlist_tree next h = added playlist_tree next _ h.short_playlists
  build_data_pages-Returns b playlist_entries next h = added playlist_entries next _ h.short_entries
  build_data_pages-Returns b artwork next h = added artwork next _ h.short_artworks
  build_data_pages-Returns b columns next h = fixed columns next columns_data columns-Fits
  build_data_pages-Returns b unknown17 next h = fixed unknown17 next _ unknown17-Fits
  build_data_pages-Returns b unknown18 next h = fixed unknown18 next _ unknown18-Fits
  build_data_pages-Returns b history next h = fixed history next (history_row ∷ []) history-Fits
  build_data_pages-Returns b unknown9 next h = tt
  build_data_pages-Returns b unknown10 next h = tt
  build_data_pages-Returns b history_playlists next h = tt
  build_data_pages-Returns b history_entries next h = tt
  build_data_pages-Returns b unknown14 next h = tt
  build_data_pages-Returns b unknown15 next h = tt
