-- ===== src/Pdb/Lookup.antt =====
-- pdb.rs: what the maps of names find, before and after `get_or_create`.
use bvault_app.Prelude.{
  ℕ, ◌≡◌, refl, inl, inr, arith, Option, some, none, List, [], ◌∷◌, ◌++◌, Bool-cases, Option-cases,
}
use bvault_app.Text.{Text}
use bvault_app.Pdb.Entities.{
  KeyEq, EntityMap, find, created, get_or_create, text_key, album_key, number_key,
}
use bvault_app.Pdb.{get_or_create_name, get_or_create_album_entry}

module _ {K : Type 0} (key : KeyEq K) where
  -- Every entry of `s` is found in `t` as well.
  pub record Extends (s t : EntityMap K) : Type 0 where
    pub kept : (k : K) (id : ℕ) → find key k s.ids ≡ some id → find key k t.ids ≡ some id

  pub Extends-refl : (s : EntityMap K) → Extends s s
  Extends-refl s = record { kept = λ k id e. e }

  find-append :
      (k : K) (id : ℕ) (ids more : List (K × ℕ))
      → find key k ids ≡ some id
      → find key k (ids ++ more) ≡ some id
  unfolding find
  find-append k id [] more e = cc
  find-append k id ((k', id') ∷ ids) more e = elim (Bool-cases (key.equal k k')) [
    | inl same ↦ rw same (ground arith)
    | inr other ↦ rw other (find-append k id ids more (ground arith))
  ]

  find-new :
      (k : K) (id : ℕ) (ids : List (K × ℕ))
      → find key k ids ≡ none
      → find key k (ids ++ (k, id) ∷ []) ≡ some id
  unfolding find
  find-new k id [] e = rw (key.reflexive k) refl
  find-new k id ((k', id') ∷ ids) e = elim (Bool-cases (key.equal k k')) [
    | inl same ↦ absurd (ground arith)
    | inr other ↦ rw other (find-new k id ids (ground arith))
  ]

  -- The id returned is the one found afterwards, and what was found is still found.
  pub get_or_create-found :
      (k : K) (s : EntityMap K)
      → Extends s (get_or_create key k s).0
        × (find key k (get_or_create key k s).0.ids ≡ some (get_or_create key k s).1)
  unfolding get_or_create
  get_or_create-found k s = elim (Option-cases (find key k s.ids)) [
    | inl missing ↦ rw missing (
        unfold created in
        (
          record { kept = λ k' id e. find-append k' id s.ids ((k, s.next_id) ∷ []) e },
          find-new k s.next_id s.ids missing,
        ))
    | inr (id, e) ↦ rw e (unfold created in (Extends-refl s, e))
  ]

-- The row that a name's id stands for; the empty name has none.
unfoldable pub IsNameRow : EntityMap Text → Text → ℕ → Type 0
IsNameRow s [] id = id ≡ 0
IsNameRow s (c ∷ cs) id = find text_key (c ∷ cs) s.ids ≡ some id

unfoldable pub IsAlbumRow : EntityMap (Text × ℕ) → ℕ → Text → ℕ → Type 0
IsAlbumRow s artist_id [] id = id ≡ 0
IsAlbumRow s artist_id (c ∷ cs) id = find album_key (c ∷ cs, artist_id) s.ids ≡ some id

unfoldable pub IsOptional : {A : Type 0} → (A → ℕ → Type 0) → Option A → ℕ → Type 0
IsOptional P none id = id ≡ 0
IsOptional P (some a) id = P a id

unfoldable pub IsKeyRow : EntityMap ℕ → Option (Option ℕ) → ℕ → Type 0
IsKeyRow s none id = ⊥
IsKeyRow s (some o) id = IsOptional (λ k id'. find number_key k s.ids ≡ some id') o id

pub IsNameRow-Extends :
    (s t : EntityMap Text) (name : Text) (id : ℕ)
    → Extends text_key s t
    → IsNameRow s name id
    → IsNameRow t name id
unfolding IsNameRow
IsNameRow-Extends s t [] id x r = r
IsNameRow-Extends s t (c ∷ cs) id x r = x.kept (c ∷ cs) id r

pub IsAlbumRow-Extends :
    (s t : EntityMap (Text × ℕ)) (artist_id : ℕ) (name : Text) (id : ℕ)
    → Extends album_key s t
    → IsAlbumRow s artist_id name id
    → IsAlbumRow t artist_id name id
unfolding IsAlbumRow
IsAlbumRow-Extends s t artist_id [] id x r = r
IsAlbumRow-Extends s t artist_id (c ∷ cs) id x r = x.kept (c ∷ cs, artist_id) id r

pub IsOptional-map :
    {A : Type 0} (P Q : A → ℕ → Type 0) (o : Option A) (id : ℕ)
    → ((a : A) (id : ℕ) → P a id → Q a id)
    → IsOptional P o id
    → IsOptional Q o id
unfolding IsOptional
IsOptional-map P Q none id h r = r
IsOptional-map P Q (some a) id h r = h a id r

pub IsKeyRow-Extends :
    (s t : EntityMap ℕ) (o : Option (Option ℕ)) (id : ℕ)
    → Extends number_key s t
    → IsKeyRow s o id
    → IsKeyRow t o id
unfolding IsKeyRow
IsKeyRow-Extends s t none id x r = r
IsKeyRow-Extends s t (some o) id x r = IsOptional-map _ _ o id x.kept r

pub get_or_create_name-found :
    (name : Text) (s : EntityMap Text)
    → Extends text_key s (get_or_create_name name s).0
      × IsNameRow (get_or_create_name name s).0 name (get_or_create_name name s).1
unfolding get_or_create_name IsNameRow
get_or_create_name-found [] s = (Extends-refl text_key s, refl)
get_or_create_name-found (c ∷ cs) s = get_or_create-found text_key (c ∷ cs) s

pub get_or_create_album_entry-found :
    (name : Text) (artist_id : ℕ) (s : EntityMap (Text × ℕ))
    → Extends album_key s (get_or_create_album_entry name artist_id s).0
      × IsAlbumRow
          (get_or_create_album_entry name artist_id s).0
          artist_id
          name
          (get_or_create_album_entry name artist_id s).1
unfolding get_or_create_album_entry IsAlbumRow
get_or_create_album_entry-found [] artist_id s = (Extends-refl album_key s, refl)
get_or_create_album_entry-found (c ∷ cs) artist_id s =
    get_or_create-found album_key (c ∷ cs, artist_id) s
