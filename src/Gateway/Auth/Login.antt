-- ===== src/Gateway/Auth/Login.antt =====
-- routes.rs: the two ways in which a login ends.
use Prim.Native.String.{String}
use text.Mathlib.Text.{◌==◌ as str_eq}
use bvault_app.Prelude.{
  ℕ, ◌+◌, ◌≡◌, ◌⊎◌, ◌∙◌, refl, sym, subst, inl, inr, arith, Bool, Bool-cases, Option-cases, true,
  false, Option, some, none, List, [], ◌∷◌, ◌++◌, ◌==◌,
}
use bvault_app.Catalog.Rows.{any, find_first}
use bvault_app.Catalog.{Meta, User, Session, ok, is_user, find_credentials, create_session}
use bvault_app.Gateway.{
  External, Config, AppState, ApiResult, done, unauthorized, Headers, SessionResponse,
  session_micros, issue_session, login,
}
use bvault_app.Gateway.Auth.{is_token, Carries, IsSession, login-IsSession}

find_first-any :
    (p q : User → Bool) (users : List User) (u : User)
    → find_first p users ≡ some u
    → q u ≡ true
    → any q users ≡ true
unfolding find_first any
find_first-any p q [] u found h = absurd (cc)
find_first-any p q (v ∷ users) u found h = elim (Bool-cases (p v)) [
  | inl hit ↦
      let same : some v ≡ some u = rw (hit) at found in
      let one : v ≡ u = cc in let passes : q v ≡ true = rw one h in ground arith
  | inr miss ↦
      let later : find_first p users ≡ some u = rw (miss) at found in
      ground (arith, find_first-any p q users u later h)
]

pub find_credentials-is_user :
    (lower : String → String) (username : String) (m : Meta) (user : ℕ) (hash : String)
    → find_credentials lower username m ≡ some (user, hash)
    → is_user user m ≡ true
unfolding find_credentials is_user
find_credentials-is_user lower username m user hash e =
    elim (Option-cases (find_first (λ u. str_eq (lower u.username) (lower username)) m.users)) [
      | inl nobody ↦
          let no_user : ◌≡◌ {A = Option (ℕ × String)} none (some (user, hash)) =
            rw (nobody, find_credentials) at e in
          absurd (cc)
      | inr (u, found) ↦
          let read : ◌≡◌ {A = Option (ℕ × String)} (some (u.id, u.password_hash))
              (some (user, hash)) =
            rw (found, find_credentials) at e in
          let same : u.id ≡ user = cc in
          find_first-any (λ u. str_eq (lower u.username) (lower username)) (λ u. u.id == user)
            m.users u found (rw same (ground arith))
    ]

module _ (x : External) (config : Config) where
  pub issue_session_succeeds :
      (now : ℕ) (token : String) (user : ℕ) (st : AppState)
      → is_user user st.meta ≡ true
      → any (is_token (x.hash_token token)) st.meta.sessions ≡ false
      → (st' : AppState) × (r : SessionResponse) × (issue_session x config now token user st
          ≡ (st', done r))
  unfolding issue_session
  issue_session_succeeds now token user st known free =
      let expires_at = now + session_micros config in
      let row : Session = record {
        token_hash = x.hash_token token;
        user_id = user;
        expires_at = expires_at;
      } in
      let m = record st.meta { sessions = st.meta.sessions ++ row ∷ [] } in
      let created : create_session (x.hash_token token) user expires_at st.meta ≡ ok m =
        unfold create_session in rw (free, known) refl in
      let r : SessionResponse = record { token = token; user_id = user; expires_at = expires_at } in
      (record st { meta = m }, r, rw (created, issue_session) refl)

  -- What a login gives: a session, or nothing, for an unknown name or a wrong password.
  abbrev pub LoginOutcome :
      String → String → AppState → AppState × ApiResult SessionResponse → Type 0
  LoginOutcome username password st (st', answer) =
      ((answer ≡ unauthorized)
        × (st' ≡ st)
        × ((user : ℕ) (hash : String)
            → find_credentials x.lower username st.meta ≡ some (user, hash)
            → x.verify_password password hash ≡ false))
      ⊎ ((r : SessionResponse) × (answer ≡ done r)
          × ((headers : Headers)
              → Carries x config headers r.token
              → IsSession x config username password st st' headers r))

  -- A login with a token whose fingerprint is new either succeeds or is refused. Where it succeeds the
  -- password was the user's, and the token stands for that user in every request until the session
  -- expires, but not from then on, nor after a logout; where it is refused, nothing has changed, and
  -- the name is unknown or the password is wrong.
  pub login_outcome :
      (now : ℕ) (token username password : String) (st : AppState)
      → any (is_token (x.hash_token token)) st.meta.sessions ≡ false
      → LoginOutcome username password st (login x config now token username password st)
  unfolding login
  login_outcome now token username password st free =
      let out = login x config now token username password st in
      let outcome = LoginOutcome username password st in
      elim (Option-cases (find_credentials x.lower username st.meta)) [
        | inl nobody ↦
            let refused : out ≡ (st, unauthorized) = rw (nobody, login) refl in
            subst outcome (sym refused) (
              inl (
                refl,
                refl,
                λ user hash e.
                    let no_user : ◌≡◌ {A = Option (ℕ × String)} none (some (user, hash)) =
                      sym nobody ∙ e in
                    absurd (cc),
              ))
        | inr ((user, hash), found) ↦ elim (Bool-cases (x.verify_password password hash)) [
          | inr wrong ↦
              let refused : out ≡ (st, unauthorized) = rw (found, login) (rw wrong refl) in
              subst outcome (sym refused) (
                inl (
                  refl,
                  refl,
                  λ user' hash' e.
                      let both : ◌≡◌ {A = Option (ℕ × String)} (some (user, hash))
                          (some (user', hash')) =
                        sym found ∙ e in
                      let one : hash ≡ hash' = cc in rw (← one) wrong,
                ))
          | inl right ↦
              let known = find_credentials-is_user x.lower username st.meta user hash found in
              let (st', r, made) = issue_session_succeeds now token user st known free in
              let succeeded : out ≡ (st', done r) = rw (found, login) (rw right made) in
              subst outcome (sym succeeded) (
                inr (
                  r,
                  refl,
                  λ headers c.
                      login-IsSession x config now token username password st st' headers r
                        succeeded c,
                ))
        ]
      ]
