-- ===== src/Pdb/Rows/TrackStrings.antt =====
-- pdb.rs: the strings of a track row are found through the offsets in it.
use bvault_app.Prelude.{
  ℕ, zero, suc, ◌+◌, ◌*◌, ◌^◌, ◌≤◌, ◌<◌, ◌≡◌, refl, ap, sym, subst, ◌∙◌, arith, Option, some, List,
  [], ◌∷◌, ◌++◌, map, append_assoc, All, length, length-append, get_elem?, take, drop,
  drop-append_exact, slice, concat_map, u16, le16, of_le, of_le-le16,
}
use bvault_app.Text.{Text, IsScalar}
use bvault_app.DeviceString.{encode_string}
use bvault_app.DeviceString.RoundTrip.{decode_string, decode_string-encode_string}
use bvault_app.Pdb.{TrackInfo}
use bvault_app.Pdb.Rows.{
  track_texts, track_strings, string_offsets, bytes_of, track_fields, build_track_row, header_size,
  fixed_size,
}

-- The string under number `i` of a track row.
unfoldable pub read_track_string : List ℕ → ℕ → Option Text
read_track_string row i = decode_string (drop (of_le (slice (fixed_size + i * 2) 2 row)) row)

length-string_offsets :
    (current : ℕ) (strings : List (List ℕ))
    → length (string_offsets current strings) ≡ length strings
unfolding string_offsets
length-string_offsets current [] = refl
length-string_offsets current (s ∷ strings) =
    ap suc (length-string_offsets (current + length s) strings)

joined : List (List ℕ) → List ℕ
joined = concat_map (λ s. s)

-- Offset `i` leads to string `i`, where the strings stand behind `before`.
offset_found :
    (before : List ℕ) (strings : List (List ℕ)) (i : ℕ) (s : List ℕ)
    → get_elem? strings i ≡ some s
    → length before + length (joined strings) < 2 ^ 16
    → (offset : ℕ) × (rest : List ℕ) × (get_elem? (string_offsets (length before) strings) i
        ≡ some offset)
      × (offset < 2 ^ 16)
      × (drop offset (before ++ joined strings) ≡ s ++ rest)
unfolding string_offsets joined
offset_found before [] i s e small = absurd (cc)
offset_found before (x ∷ strings) zero s e small =
    let same : x ≡ s = cc in
    let whole : u16 (length before) ≡ length before = omega arith in
    (
      length before,
      joined strings,
      ap some whole,
      omega arith,
      drop-append_exact (length before) before (x ++ joined strings) refl
          ∙ ap (λ (y : List ℕ). y ++ joined strings) same,
    )
offset_found before (x ∷ strings) (suc i) s e small =
    let size = length-append before x in
    let (offset, rest, found, low, here) =
      offset_found (before ++ x) strings i s e
        (omega (arith, size, length-append x (joined strings))) in
    (
      offset,
      rest,
      subst (λ (n : ℕ). get_elem? (string_offsets n strings) i ≡ some offset) size found,
      low,
      ap (drop offset) (sym (append_assoc before x (joined strings))) ∙ here,
    )

-- Word `i` of a sequence of words that stands behind `before`.
word_found :
    (before : List ℕ) (words : List ℕ) (after : List ℕ) (i v : ℕ)
    → get_elem? words i ≡ some v
    → slice (length before + i * 2) 2 (before ++ (bytes_of words ++ after)) ≡ le16 v
unfolding bytes_of
word_found before [] after i v e = absurd (cc)
word_found before (w ∷ words) after zero v e =
    let same : w ≡ v = cc in
    let here : length before + 0 * 2 ≡ length before = omega arith in
    ap (λ (n : ℕ). slice n 2 (before ++ (le16 w ++ bytes_of words ++ after))) here
    ∙ ap (take 2) (drop-append_exact (length before) before _ refl)
    ∙ ap le16 same
word_found before (w ∷ words) after (suc i) v e =
    let size : length before + suc i * 2 ≡ length (before ++ le16 w) + i * 2 =
      omega (arith, length-append before (le16 w)) in
    ap (λ (n : ℕ). slice n 2 (before ++ (le16 w ++ bytes_of words ++ after))) size
    ∙ ap (slice (length (before ++ le16 w) + i * 2) 2) (
        ap (◌++◌ before) (append_assoc (le16 w) (bytes_of words) after)
        ∙ sym (append_assoc before (le16 w) (bytes_of words ++ after)))
    ∙ word_found (before ++ le16 w) words after i v e

get_elem?-map :
    {A B : Type 0} (f : A → B) (xs : List A) (i : ℕ) (x : A)
    → get_elem? xs i ≡ some x
    → get_elem? (map f xs) i ≡ some (f x)
get_elem?-map f [] i x e = absurd (cc)
get_elem?-map f (y ∷ xs) zero x e = cc
get_elem?-map f (y ∷ xs) (suc i) x e = get_elem?-map f xs i x e

module _ {F : Type 0} (tempo_of seconds_of : F → ℕ) (track : TrackInfo F) where
  abbrev fields : List ℕ
  fields = joined (track_fields tempo_of seconds_of track)

  abbrev offsets : List ℕ
  offsets = string_offsets header_size (track_strings track)

  header_lengths :
      (length fields ≡ fixed_size) × (length (fields ++ bytes_of offsets) ≡ header_size)
  unfolding joined track_fields bytes_of track_strings track_texts string_offsets
  header_lengths = (refl, refl)

  row_split :
      build_track_row tempo_of seconds_of track
      ≡ fields ++ (bytes_of offsets ++ joined (track_strings track))
  unfolding build_track_row joined
  row_split = refl

  -- Each of the strings 1 to 20 of a track row, the title and the paths among them, is read back
  -- through its offset, for a row shorter than 64 KiB and a string of at most 16,382 characters.
  pub build_track_row-strings :
      (i : ℕ) (s : Text)
      → get_elem? (track_texts track) i ≡ some s
      → All IsScalar s
      → length s ≤ 16_382
      → length (build_track_row tempo_of seconds_of track) < 2 ^ 16
      → read_track_string (build_track_row tempo_of seconds_of track) (suc i) ≡ some s
  unfolding read_track_string
  build_track_row-strings i s found scalars short small =
      let strings = track_strings track in
      let before = fields ++ bytes_of offsets in
      let encoded : get_elem? strings (suc i) ≡ some (encode_string s) =
        unfold track_strings in get_elem?-map encode_string (track_texts track) i s found in
      let whole : build_track_row tempo_of seconds_of track ≡ before ++ joined strings =
        row_split ∙ sym (append_assoc fields (bytes_of offsets) (joined strings)) in
      let size = header_lengths in
      let (offset, rest, listed, low, here) =
        offset_found before strings (suc i) (encode_string s) encoded
          (omega (arith, small, ap length whole, length-append before (joined strings))) in
      let listed' : get_elem? offsets (suc i) ≡ some offset =
        subst (λ (n : ℕ). get_elem? (string_offsets n strings) (suc i) ≡ some offset) (size.1)
          listed in
      let slot : of_le
            (slice (fixed_size + suc i * 2) 2 (build_track_row tempo_of seconds_of track))
          ≡ offset =
        ap of_le (
          ap (slice (fixed_size + suc i * 2) 2) row_split
          ∙ subst
              (λ (n : ℕ).
                slice (n + suc i * 2) 2 (fields ++ (bytes_of offsets ++ joined strings))
                ≡ le16 offset)
              (size.0) (word_found fields offsets (joined strings) (suc i) offset listed'))
        ∙ of_le-le16 offset low in
      ap (λ (n : ℕ). decode_string (drop n (build_track_row tempo_of seconds_of track))) slot
      ∙ ap (λ (d : List ℕ). decode_string (drop offset d)) whole
      ∙ ap decode_string here
      ∙ decode_string-encode_string s rest scalars short
