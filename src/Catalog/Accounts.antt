-- ===== src/Catalog/Accounts.antt =====
-- queries.rs: users and sessions.
use Prim.Native.String.{String}
use text.Mathlib.Text.{◌==◌ as str_eq}
use bvault_app.Prelude.{ℕ, ◌&&◌, ◌||◌, Option, some, none, [], ◌∷◌, ◌++◌, ltb, ◌==◌, if◌then◌else◌}
use bvault_app.Catalog.Rows.{find_first, delete_where, any}
use bvault_app.Catalog.Tables.{
  User, Session, Meta, username_taken, unique_violation, foreign_key_violation, Result, ok, err,
  is_user,
}

module _ (lower : String → String) where
  -- A second user of the name, in either case, or a second one of the id.
  unfoldable pub create_user : ℕ → String → String → Meta → Result (Meta × ℕ)
  unfolding any
  create_user id username password_hash m =
      let row : User = record {
        id = id;
        username = username;
        password_hash = password_hash;
        youtube_cookies = none;
      } in
      if any (λ u. str_eq (lower u.username) (lower username) || (u.id == id)) m.users
      then err username_taken
      else ok (record m { users = m.users ++ row ∷ [] }, id)

  unfoldable pub find_credentials : String → Meta → Option (ℕ × String)
  unfolding find_first
  find_credentials username m =
      elim (find_first (λ u. str_eq (lower u.username) (lower username)) m.users) [
        | none ↦ none
        | some u ↦ some (u.id, u.password_hash)
      ]

unfoldable pub create_session : String → ℕ → ℕ → Meta → Result Meta
unfolding any is_user
create_session token_hash user_id expires_at m =
    let row : Session = record {
      token_hash = token_hash;
      user_id = user_id;
      expires_at = expires_at;
    } in
    if any (λ s. str_eq s.token_hash token_hash) m.sessions
    then err unique_violation
    else if is_user user_id m
    then ok (record m { sessions = m.sessions ++ row ∷ [] })
    else err foreign_key_violation

unfoldable pub lookup_session : String → ℕ → Meta → Option ℕ
unfolding find_first
lookup_session token_hash now m =
    elim (find_first (λ s. str_eq s.token_hash token_hash && ltb now s.expires_at) m.sessions) [
      | none ↦ none
      | some s ↦ some s.user_id
    ]

unfoldable pub delete_session : String → Meta → Meta
unfolding delete_where
delete_session token_hash m = record m {
  sessions = delete_where (λ s. str_eq s.token_hash token_hash) m.sessions;
}
