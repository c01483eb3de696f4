-- ===== src/Catalog/Ownership.antt =====
-- queries.rs: a playlist has one owner, as its id is the table's key.
use Prim.Native.String.{String}
use bvault_app.Prelude.{
  ℕ, ◌≡◌, ◌≢◌, refl, inl, inr, arith, Bool, true, false, Option, some, none, List, [], ◌∷◌, ◌++◌,
  ◌==◌, Bool-cases,
}
use bvault_app.Catalog.Rows.{any, delete_where, select, find_first}
use bvault_app.Catalog.Rows.Laws.{any-none, any-append}
use bvault_app.Catalog.{Playlist, owned_by, is_playlist, is_named}

-- No two playlists have one id.
abbrev pub AreDistinct : List Playlist → Type 0
AreDistinct [] = Unit {0}
AreDistinct (p ∷ ps) = (any (λ q. q.id == p.id) ps ≡ false) × AreDistinct ps

pub owned_by-other : (u v : ℕ) (o : Option ℕ) → u ≢ v → owned_by u o ≡ true → owned_by v o ≡ false
owned_by-other u v none h e = refl
owned_by-other u v (some w) h e = ground arith

pub is_playlist-other :
    (u v id : ℕ) (p : Playlist)
    → u ≢ v
    → is_playlist u id p ≡ true
    → (j : ℕ) → is_playlist v j p ≡ false
is_playlist-other u v id p h e j = ground (arith, owned_by-other u v p.user_id h)

-- A playlist of one user is no playlist of another.
pub any-other :
    (u v id : ℕ) (ps : List Playlist)
    → u ≢ v
    → AreDistinct ps
    → any (is_playlist u id) ps ≡ true
    → any (is_playlist v id) ps ≡ false
unfolding any
any-other u v id [] h d e = refl
any-other u v id (p ∷ ps) h d e = elim (Bool-cases (is_playlist u id p)) [
  | inl here ↦
      let same : (p.id == id) ≡ true = ground arith in
      let rest = any-none (is_playlist v id) (λ q. q.id == p.id) ps (λ q k. ground arith) d.0 in
      ground (arith, is_playlist-other u v id p h here id, rest)
  | inr elsewhere ↦
      let later : any (is_playlist u id) ps ≡ true = ground arith in
      let rest = any-other u v id ps h d.1 later in
      let not_here : is_playlist v id p ≡ false = elim (Bool-cases (p.id == id)) [
        | inr differs ↦ ground arith
        | inl same ↦
            let none_there =
              any-none (is_playlist u id) (λ q. q.id == p.id) ps (λ q k. ground arith) d.0 in
            absurd (cc)
      ] in
      ground (arith, not_here, rest)
]

pub find_first-is_named :
    (u : ℕ) (name : String) (ps : List Playlist) (p : Playlist)
    → find_first (is_named u name) ps ≡ some p
    → any (is_playlist u p.id) ps ≡ true
unfolding find_first any
find_first-is_named u name [] p e = absurd (cc)
find_first-is_named u name (q ∷ ps) p e = elim (Bool-cases (is_named u name q)) [
  | inl here ↦
      let same : some q ≡ some p = rw (here) at e in
      let equal : q ≡ p = cc in
      let owns : owned_by u q.user_id ≡ true = ground arith in rw (← equal) (ground (arith, owns))
  | inr elsewhere ↦
      let later : find_first (is_named u name) ps ≡ some p = rw (elsewhere) at e in
      ground (arith, find_first-is_named u name ps p later)
]

pub AreDistinct-append :
    (ps : List Playlist) (p : Playlist)
    → AreDistinct ps
    → any (λ q. q.id == p.id) ps ≡ false
    → AreDistinct (ps ++ p ∷ [])
unfolding any
AreDistinct-append [] p d fresh = (refl, tt)
AreDistinct-append (q ∷ ps) p d fresh =
    let apart : (p.id == q.id) ≡ false = ground arith in
    let rest : any (λ r. r.id == p.id) ps ≡ false = ground arith in
    (ground (arith, any-append (λ r. r.id == q.id) ps p), AreDistinct-append ps p d.1 rest)

any-delete :
    (p q : Playlist → Bool) (ps : List Playlist)
    → any p ps ≡ false
    → any p (delete_where q ps) ≡ false
unfolding any delete_where select
any-delete p q [] e = refl
any-delete p q (r ∷ ps) e = ground (arith, any-delete p q ps)

pub AreDistinct-delete :
    (q : Playlist → Bool) (ps : List Playlist) → AreDistinct ps → AreDistinct (delete_where q ps)
unfolding delete_where select
AreDistinct-delete q [] d = tt
AreDistinct-delete q (p ∷ ps) d = elim (Bool-cases (q p)) [
  | inl gone ↦ rw gone (AreDistinct-delete q ps d.1)
  | inr kept ↦ rw kept (any-delete (λ r. r.id == p.id) q ps d.0, AreDistinct-delete q ps d.1)
]
