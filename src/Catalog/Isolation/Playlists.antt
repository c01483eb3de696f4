-- ===== src/Catalog/Isolation/Playlists.antt =====
-- queries.rs: what a user's statements on playlists leave of the rows of another user.
use Prim.Native.String.{String}
use text.Mathlib.Text.{◌==◌ as str_eq}
use bvault_app.Prelude.{
  ℕ, ◌≡◌, ◌≢◌, refl, ◌∙◌, inl, inr, arith, true, false, ◌&&◌, ◌||◌, Option, some, List, [], ◌∷◌,
  ◌++◌, ◌==◌, Bool-cases, Option-cases,
}
use bvault_app.Catalog.Rows.{any, all, select, find_first, delete_where}
use bvault_app.Catalog.Rows.Laws.{
  select-eq, select-append_none, select-delete_none, any-append, any-delete_none, any-none,
  find_first_passes,
}
use bvault_app.Catalog.Ownership.{
  AreDistinct, owned_by-other, any-other, find_first-is_named, is_playlist-other,
}
use bvault_app.Catalog.{
  Playlist, Member, Meta, owned_by, is_hash, is_named, is_playlist, is_user, add_members,
  with_members, new_playlist, create_playlist, delete_playlist, get_playlist,
  remove_playlist_tracks,
}
use bvault_app.Catalog.Statements.{settled_with, in_own, IsUntouched, IsUntouched-same}

-- A playlist that is deleted is one of the user's.
any_of_select :
    (u id j : ℕ) (ps : List Playlist)
    → any (λ p. j == p.id) (select (is_playlist u id) ps) ≡ true
    → any (is_playlist u j) ps ≡ true
unfolding any select
any_of_select u id j [] e = e
any_of_select u id j (p ∷ ps) e = elim (Bool-cases (is_playlist u id p)) [
  | inr miss ↦
      let later : any (λ p. j == p.id) (select (is_playlist u id) ps) ≡ true = rw (miss) at e in
      ground (arith, any_of_select u id j ps later)
  | inl hit ↦
      let either : (j == p.id) || any (λ p. j == p.id) (select (is_playlist u id) ps) ≡ true =
        rw (hit) at e in
      ground (arith, any_of_select u id j ps)
]

module _ (u v : ℕ) (h : u ≢ v) where
  add_members-select :
      (ps : List Playlist) (id : ℕ) (hashes : List String) (members : List Member)
      → any (is_playlist v id) ps ≡ false
      → select (in_own v ps) (add_members id hashes members) ≡ select (in_own v ps) members
  unfolding add_members
  add_members-select ps id [] members e = refl
  add_members-select ps id (hash ∷ hashes) members e =
      let row : Member = record { playlist_id = id; hash = hash } in
      elim (Bool-cases (any (λ x. (x.playlist_id == id) && str_eq x.hash hash) members)) [
        | inl old ↦ rw old (add_members-select ps id hashes members e)
        | inr fresh ↦ rw fresh (
            add_members-select ps id hashes (members ++ row ∷ []) e
            ∙ select-append_none (in_own v ps) members row e)
      ]

  with_members-IsUntouched :
      (id : ℕ) (hashes : List String) (m m' : Meta)
      → any (is_playlist v id) m'.playlists ≡ false
      → IsUntouched v m m
      → IsUntouched v m m'
      → IsUntouched v m (settled_with m (with_members id hashes m'))
  unfolding with_members
  with_members-IsUntouched id hashes m m' e r r' =
      elim (Bool-cases (all (λ hash. any (is_hash hash) m'.tracks) hashes)) [
        | inr missing ↦ rw missing r
        | inl whole ↦ rw whole (record {
          tracks = r'.tracks;
          playlists = r'.playlists;
          members = add_members-select m'.playlists id hashes m'.playlist_tracks e ∙ r'.members;
          batches = r'.batches;
        })
      ]

  -- A new playlist of `u`, which has no members yet.
  appended-IsUntouched :
      (m : Meta) (p : Playlist)
      → p.user_id ≡ some u
      → IsUntouched v m (record m { playlists = m.playlists ++ p ∷ [] })
  appended-IsUntouched m p owner =
      let not_own : owned_by v p.user_id ≡ false = rw owner (ground arith) in
      record {
        tracks = refl;
        playlists = select-append_none (λ p. owned_by v p.user_id) m.playlists p not_own;
        members =
            select-eq (in_own v (m.playlists ++ p ∷ [])) (in_own v m.playlists) m.playlist_tracks
              (λ x.
                let none_here : is_playlist v x.playlist_id p ≡ false = ground arith in
                any-append (is_playlist v x.playlist_id) m.playlists p
                ∙ (rw none_here (ground arith)));
        batches = refl;
      }

  pub playlist-IsUntouched :
      (new_id : ℕ) (name : String) (description : Option String) (hashes : List String) (now : ℕ)
      (m : Meta)
      → AreDistinct m.playlists
      → IsUntouched v m (settled_with m (create_playlist u new_id name description hashes now m))
  unfolding create_playlist new_playlist
  playlist-IsUntouched new_id name description hashes now m d =
      elim (Option-cases (find_first (is_named u name) m.playlists)) [
        | inr (p, found) ↦
            let own = find_first-is_named u name m.playlists p found in
            rw (found, create_playlist)
              (with_members-IsUntouched p.id hashes m m (any-other u v p.id m.playlists h d own)
                (IsUntouched-same v m) (IsUntouched-same v m))
        | inl missing ↦
            rw (missing, create_playlist)
              (elim (Bool-cases (any (λ p. p.id == new_id) m.playlists)) [
                | inl taken ↦ rw taken (IsUntouched-same v m)
                | inr free ↦ rw free (elim (Bool-cases (is_user u m)) [
                  | inr unknown ↦ rw unknown (IsUntouched-same v m)
                  | inl known ↦ rw known (
                      let p = new_playlist u new_id name description now in
                      let none_yet =
                        any-none (is_playlist v new_id) (λ p. p.id == new_id) m.playlists
                          (λ q k. ground arith) free in
                      let not_own : is_playlist v new_id p ≡ false =
                        unfold new_playlist in ground arith in
                      with_members-IsUntouched new_id hashes m
                        (record m { playlists = m.playlists ++ p ∷ [] })
                        (any-append (is_playlist v new_id) m.playlists p
                          ∙ (rw (none_yet, not_own) refl))
                        (IsUntouched-same v m) (appended-IsUntouched m p refl))
                ])
              ])
      ]

  pub drop_playlist-IsUntouched :
      (id : ℕ) (m : Meta) → AreDistinct m.playlists → IsUntouched v m (delete_playlist u id m)
  unfolding delete_playlist
  drop_playlist-IsUntouched id m d =
      let gone = select (is_playlist u id) m.playlists in
      record {
        tracks = refl;
        playlists =
            select-delete_none (λ p. owned_by v p.user_id) (is_playlist u id) m.playlists
              (λ p e. ground (arith, owned_by-other u v p.user_id h));
        members =
            select-eq (in_own v (delete_where (is_playlist u id) m.playlists))
              (in_own v m.playlists) _
              (λ x.
                any-delete_none (is_playlist v x.playlist_id) (is_playlist u id) m.playlists
                  (λ p e. is_playlist-other u v id p h e x.playlist_id))
            ∙ select-delete_none (in_own v m.playlists) (λ x. any (λ p. x.playlist_id == p.id) gone)
                m.playlist_tracks
                (λ x e.
                  any-other u v x.playlist_id m.playlists h d
                    (any_of_select u id x.playlist_id m.playlists e));
        batches = refl;
      }

  pub drop_tracks-IsUntouched :
      (id : ℕ) (hashes : List String) (m : Meta)
      → AreDistinct m.playlists
      → IsUntouched v m (remove_playlist_tracks u id hashes m)
  unfolding remove_playlist_tracks get_playlist
  drop_tracks-IsUntouched id hashes m d =
      elim (Option-cases (find_first (is_playlist u id) m.playlists)) [
        | inl missing ↦ rw (missing, remove_playlist_tracks) (IsUntouched-same v m)
        | inr (p, found) ↦
            rw (found, remove_playlist_tracks)
              (record {
                tracks = refl;
                playlists = refl;
                members =
                    select-delete_none (in_own v m.playlists)
                      (λ x. (x.playlist_id == id) && any (str_eq x.hash) hashes) m.playlist_tracks
                      (λ x e.
                        let same : x.playlist_id ≡ id = ground arith in
                        let own = (find_first_passes (is_playlist u id) m.playlists p found).1 in
                        rw same (any-other u v id m.playlists h d own));
                batches = refl;
              })
      ]
