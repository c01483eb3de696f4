-- ===== src/Catalog/Tables.antt =====
-- crates/bvault-meta/src/model.rs and the tables of services/gateway/migrations.
use Prim.Native.String.{String}
use bvault_app.Prelude.{◌≡◌, ◌⊎◌, refl, inl, inr, ℕ, Bool, false, Option, some, none, List, ◌==◌}
use bvault_app.Catalog.Rows.{any}

pub record User : Type 0 where
  pub id : ℕ
  pub username : String
  pub password_hash : String
  pub youtube_cookies : Option (List ℕ)

pub record Session : Type 0 where
  pub token_hash : String
  pub user_id : ℕ
  pub expires_at : ℕ

-- The table of the raw files, and that of their owners.
pub record TrackRow : Type 0 where
  pub hash : String
  pub raw_location : String

pub record UserTrack : Type 0 where
  pub user_id : ℕ
  pub hash : String
  pub title : Option String
  pub artist : Option String
  pub added_at : ℕ

pub record Track : Type 0 where
  pub hash : String
  pub raw_location : String
  pub title : Option String
  pub artist : Option String
  pub added_at : ℕ

-- Rows of before the ownership migration have no user.
pub record Playlist : Type 0 where
  pub id : ℕ
  pub name : String
  pub description : Option String
  pub created_at : ℕ
  pub updated_at : ℕ
  pub user_id : Option ℕ

pub record Member : Type 0 where
  pub playlist_id : ℕ
  pub hash : String

pub record Batch : Type 0 where
  pub id : ℕ
  pub name : Option String
  pub hashes : List String
  pub created_at : ℕ
  pub user_id : Option ℕ

pub record Meta : Type 0 where
  pub users : List User
  pub sessions : List Session
  pub tracks : List TrackRow
  pub user_tracks : List UserTrack
  pub playlists : List Playlist
  pub playlist_tracks : List Member
  pub batches : List Batch

pub data Failure : Type 0 where
  username_taken unique_violation foreign_key_violation : Failure

pub data Result (A : Type 0) : Type 0 where
  ok : A → Result A
  err : Failure → Result A

-- `user_id = $1`, which is not true of a null.
abbrev pub owned_by : ℕ → Option ℕ → Bool
owned_by user none = false
owned_by user (some u) = u == user

unfoldable pub is_user : ℕ → Meta → Bool
unfolding any
is_user user m = any (λ u. u.id == user) m.users

pub Result-cases :
    {A : Type 0} (r : Result A) → ((a : A) × (r ≡ ok a)) ⊎ ((e : Failure) × (r ≡ err e))
Result-cases (ok a) = inl (a, refl)
Result-cases (err e) = inr (e, refl)
