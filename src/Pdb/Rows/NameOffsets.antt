-- ===== src/Pdb/Rows/NameOffsets.antt =====
-- pdb.rs: the names of artists and albums, near or far from the start of their rows.
use bvault_app.Prelude.{
  ℕ, ◌-◌, ◌/◌, ◌%◌, ◌^◌, ◌≤◌, ◌<◌, ◌≡◌, ap, ap₂, sym, ◌∙◌, inl, inr, arith, Option, some, List, [],
  append-nil, All, length, get_or, drop, slice, leb, ◌==◌, if◌then◌else◌, of_le, of_le-le32,
  Bool-cases,
}
use bvault_app.Text.{Text, IsScalar}
use bvault_app.DeviceString.{encode_string}
use bvault_app.DeviceString.RoundTrip.{decode_string, decode_string-encode_string}
use bvault_app.Pdb.Rows.{build_artist_row, build_album_row}

-- The name's offset: a word at `far` where bit 2 of the subtype is set, else the byte before it.
unfoldable pub name_offset : ℕ → List ℕ → ℕ
name_offset far row =
    if of_le (slice 0 2 row) / 4 % 2 == 1 then of_le (slice far 2 row) else get_or row (far - 1) 0

-- The id and the name of an artist's row.
unfoldable pub read_artist : List ℕ → ℕ × Option Text
unfolding name_offset
read_artist row = (of_le (slice 4 4 row), decode_string (drop (name_offset 10 row) row))

-- The artist's id, the id and the name of an album's row.
unfoldable pub read_album : List ℕ → ℕ × ℕ × Option Text
unfolding name_offset
read_album row =
    (of_le (slice 8 4 row), of_le (slice 12 4 row), decode_string (drop (name_offset 22 row) row))

whole_name :
    (name : Text)
    → All IsScalar name
    → length name ≤ 16_382
    → decode_string (encode_string name) ≡ some name
whole_name name scalars short =
    ap decode_string (sym (append-nil (encode_string name)))
    ∙ decode_string-encode_string name [] scalars short

-- An artist's row gives its id and its name back, whichever of the two layouts the length of the
-- name has chosen, for an id of 32 bits and a name of at most 16,382 characters.
pub read_artist-build_artist_row :
    (id : ℕ) (name : Text)
    → id < 2 ^ 32
    → All IsScalar name
    → length name ≤ 16_382
    → read_artist (build_artist_row id name) ≡ (id, some name)
unfolding read_artist build_artist_row name_offset
read_artist-build_artist_row id name small scalars short =
    elim (Bool-cases (leb (length (encode_string name)) 200)) [
      | inl near ↦ rw near (
          ap₂ (λ (i : ℕ) (o : Option Text). (i, o)) (of_le-le32 id small)
            (whole_name name scalars short))
      | inr far ↦ rw far (
          ap₂ (λ (i : ℕ) (o : Option Text). (i, o)) (of_le-le32 id small)
            (whole_name name scalars short))
    ]

-- An album's row gives its artist, its id and its name back, in both layouts.
pub read_album-build_album_row :
    (id artist_id : ℕ) (name : Text)
    → id < 2 ^ 32
    → artist_id < 2 ^ 32
    → All IsScalar name
    → length name ≤ 16_382
    → read_album (build_album_row id artist_id name) ≡ (artist_id, id, some name)
unfolding read_album build_album_row name_offset
read_album-build_album_row id artist_id name small small' scalars short =
    elim (Bool-cases (leb (length (encode_string name)) 200)) [
      | inl near ↦ rw near (
          ground (
            arith,
            of_le-le32 id small,
            of_le-le32 artist_id small',
            whole_name name scalars short,
          ))
      | inr far ↦ rw far (
          ground (
            arith,
            of_le-le32 id small,
            of_le-le32 artist_id small',
            whole_name name scalars short,
          ))
    ]
