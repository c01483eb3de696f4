-- ===== src/Pdb/Tables.antt =====
-- crates/bvault-core/src/pdb.rs: the data pages of each table, from what the builder holds.
use bvault_app.Prelude.{ℕ, ◌+◌, true, false, Option, some, none, List, [], ◌∷◌, ◌++◌, map, suc, u32}
use bvault_app.Track.{from_rekordbox_id, name}
use bvault_app.Page.{
  PageType, tracks, genres, artists, albums, labels, keys, colors, playlist_tree, playlist_entries,
  artwork, columns, unknown17, unknown18, history, PageResult, ok, page_overflow,
}
use bvault_app.Pdb.{PdbBuilder, PlaylistInfo}
use bvault_app.Pdb.Entities.{sort_by_id}
use bvault_app.Pdb.FixedRows as Fixed
use bvault_app.Pdb.FixedRows.{columns_data, dataset, unknown18_data, words_row, history_row}
use bvault_app.Pdb.Paging.{DataPages, empty_data_pages, table_pages, single_page}
use bvault_app.Pdb.Rows.{
  build_track_row, build_artist_row, build_album_row, build_genre_row, build_key_row,
  build_label_row, build_color_row, build_playlist_tree_row, build_playlist_entry_row,
  build_artwork_row,
}

-- A call's result: a value, the one error, or a panic.
pub data Outcome {ℓ} (A : Type ℓ) : Type ℓ where
  done : A → Outcome A
  failed : ℕ → ℕ → Outcome A
  panicked : Outcome A

module _ {ℓ} {A B : Type ℓ} where
  infixl 5 ◌>>=◌
  abbrev pub ◌>>=◌ : Outcome A → (A → Outcome B) → Outcome B
  done a >>= next = next a
  failed wanted available >>= next = failed wanted available
  panicked >>= next = panicked

abbrev pub of_result {ℓ} : {A : Type ℓ} → PageResult A → Outcome A
of_result (ok a) = done a
of_result (page_overflow wanted available) = failed wanted available

abbrev pub of_option {ℓ} : {A : Type ℓ} → Option A → Outcome A
of_option none = panicked
of_option (some a) = done a

-- A row of the keys table, whose name comes from the rekordbox number.
unfoldable pub key_row : ℕ × ℕ → Option (List ℕ)
key_row (rekordbox_id, id) = elim (from_rekordbox_id rekordbox_id) [
  | none ↦ none
  | some key ↦ elim (name key) [ none ↦ none | some text ↦ some (build_key_row id text) ]
]

unfoldable pub cons_row : Option (List ℕ) → Option (List (List ℕ)) → Option (List (List ℕ))
cons_row none rows = none
cons_row (some row) none = none
cons_row (some row) (some rows) = some (row ∷ rows)

unfoldable pub key_rows : List (ℕ × ℕ) → Option (List (List ℕ))
unfolding key_row cons_row
key_rows [] = some []
key_rows (entry ∷ ids) = cons_row (key_row entry) (key_rows ids)

-- `enumerate()` from `idx` on: the entry's number counts from 1.
unfoldable pub entries_of : ℕ → ℕ → List ℕ → List (List ℕ)
entries_of playlist_id idx [] = []
entries_of playlist_id idx (track_id ∷ track_ids) =
    build_playlist_entry_row (u32 (idx + 1)) track_id playlist_id
    ∷ entries_of playlist_id (suc idx) track_ids

unfoldable pub playlist_entry_rows : List PlaylistInfo → List (List ℕ)
unfolding entries_of
playlist_entry_rows [] = []
playlist_entry_rows (p ∷ playlists) =
    elim p.is_folder [ true ↦ [] | false ↦ entries_of p.id 0 p.track_ids ]
    ++ playlist_entry_rows playlists

module _ {F : Type 0} (tempo_of seconds_of : F → ℕ) where
  -- The `match` of `build_table_with_sequence`, on the table's type.
  unfoldable pub build_data_pages : PdbBuilder F → PageType → ℕ → Outcome DataPages
  build_data_pages b tracks next =
      of_result (table_pages tracks next (map (build_track_row tempo_of seconds_of) b.tracks))
  build_data_pages b genres next =
      of_result
        (table_pages genres next (map (λ (n, id). build_genre_row id n) (sort_by_id b.genres.ids)))
  build_data_pages b artists next =
      of_result (
        table_pages artists next
          (map (λ (n, id). build_artist_row id n) (sort_by_id b.artists.ids)))
  build_data_pages b albums next = of_result (
      table_pages albums next
        (map (λ ((n, artist_id), id). build_album_row id artist_id n) (sort_by_id b.albums.ids)))
  build_data_pages b labels next =
      of_result
        (table_pages labels next (map (λ (n, id). build_label_row id n) (sort_by_id b.labels.ids)))
  build_data_pages b keys next = do
    rows ← of_option (key_rows (sort_by_id b.keys.ids))
    of_result (table_pages keys next rows)
  build_data_pages b colors next =
      of_result (single_page colors next (map (λ (id, n). build_color_row id n) Fixed.colors))
  build_data_pages b playlist_tree next =
      of_result (table_pages playlist_tree next (map build_playlist_tree_row b.playlists))
  build_data_pages b playlist_entries next =
      of_result (table_pages playlist_entries next (playlist_entry_rows b.playlists))
  build_data_pages b artwork next = of_result (
      table_pages artwork next
        (map (λ (p, id). build_artwork_row id p) (sort_by_id b.artworks.ids)))
  build_data_pages b columns next = of_result (single_page columns next columns_data)
  build_data_pages b unknown17 next = of_result (single_page unknown17 next (map words_row dataset))
  build_data_pages b unknown18 next =
      of_result (single_page unknown18 next (map words_row unknown18_data))
  build_data_pages b history next = of_result (single_page history next (history_row ∷ []))
  build_data_pages b _ next = done (empty_data_pages next)
