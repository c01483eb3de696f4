-- ===== src/Gateway/Auth/Registration.antt =====
-- routes.rs: a user who has registered.
use Prim.Native.String.{String, len}
use text.Mathlib.Text.{◌==◌ as str_eq}
use text.Mathlib.TextEquality.{eq_iff}
use bvault_app.Prelude.{
  ℕ, ◌≡◌, ◌∙◌, refl, ap, sym, subst, inl, inr, arith, Bool-cases, true, false, ◌||◌, some, none, [],
  ◌∷◌, ◌++◌, ◌==◌, ltb,
}
use bvault_app.Catalog.Rows.{any}
use bvault_app.Catalog.Rows.Finding.{find_first-none-any, find_first-append_here}
use bvault_app.Catalog.Rows.Laws.{any-none}
use bvault_app.Catalog.Tables.{Result-cases}
use bvault_app.Catalog.{
  Meta, User, Session, Result, ok, err, username_taken, unique_violation, foreign_key_violation,
  is_user, create_user, find_credentials, create_session,
}
use bvault_app.Gateway.{
  External, Config, AppState, ApiResult, done, bad_request, meta_error, SessionResponse, is_blank,
  issue_session, register, login,
}
use bvault_app.Gateway.Auth.{is_token, issued}
use bvault_app.Gateway.Auth.Login.{find_credentials-is_user, issue_session_succeeds}

-- The credentials of a user who was created are found by the name.
find_credentials-create_user :
    (lower : String → String) (id user : ℕ) (username hash : String) (m m' : Meta)
    → create_user lower id username hash m ≡ ok (m', user)
    → find_credentials lower username m' ≡ some (user, hash)
unfolding create_user find_credentials
find_credentials-create_user lower id user username hash m m' e =
    let row : User = record {
      id = id;
      username = username;
      password_hash = hash;
      youtube_cookies = none;
    } in
    let same_name = λ (u : User). str_eq (lower u.username) (lower username) in
    let taken = λ (u : User). same_name u || (u.id == id) in
    let after = record m { users = m.users ++ row ∷ [] } in
    elim (Bool-cases (any taken m.users)) [
      | inl old ↦
          let refused : ◌≡◌ {A = Result (Meta × ℕ)} (err username_taken) (ok (m', user)) =
            rw (old) at e in
          absurd (cc)
      | inr new ↦
          let made : ◌≡◌ {A = Result (Meta × ℕ)} (ok (after, id)) (ok (m', user)) = rw (new) at e in
          let pair : ◌≡◌ {A = Meta × ℕ} (after, id) (m', user) = cc in
          let nobody =
            find_first-none-any same_name m.users
              (any-none same_name taken m.users (λ u h. ground arith) new) in
          let own : same_name row ≡ true = (eq_iff (lower username) (lower username)).1 refl in
          let found = find_first-append_here same_name m.users row nobody own in
          subst (λ (p : Meta × ℕ). find_credentials lower username p.0 ≡ some (p.1, hash)) pair
            (rw (found, find_credentials) refl)
    ]

-- A session does not touch the credentials.
find_credentials-create_session :
    (lower : String → String) (username token_hash : String) (user expires_at : ℕ) (m m' : Meta)
    → create_session token_hash user expires_at m ≡ ok m'
    → find_credentials lower username m' ≡ find_credentials lower username m
unfolding create_session find_credentials
find_credentials-create_session lower username token_hash user expires_at m m' e =
    let row : Session = record {
      token_hash = token_hash;
      user_id = user;
      expires_at = expires_at;
    } in
    let after = record m { sessions = m.sessions ++ row ∷ [] } in
    elim (Bool-cases (any (is_token token_hash) m.sessions)) [
      | inl taken ↦ let no_session : err unique_violation ≡ ok m' = rw (taken) at e in absurd (cc)
      | inr free ↦ elim (Bool-cases (is_user user m)) [
        | inr unknown ↦
            let no_session : err foreign_key_violation ≡ ok m' = rw (free, unknown) at e in
            absurd (cc)
        | inl known ↦
            let made : ok after ≡ ok m' = rw (free, known) at e in
            let state : after ≡ m' = cc in
            ap (λ (m : Meta). find_credentials lower username m) (sym state)
      ]
    ]

module _ (x : External) (config : Config) (now : ℕ) (token : String) (id : ℕ)
    (hash username password : String) (st st' : AppState) (r : SessionResponse) where
  registered :
      register x config now token id (some hash) username password st ≡ (st', done r)
      → (m : Meta) × (user : ℕ) × (is_blank (x.trim username) || ltb (len password) 8 ≡ false)
        × (create_user x.lower id (x.trim username) hash st.meta ≡ ok (m, user))
        × (issue_session x config now token user (record st { meta = m }) ≡ (st', done r))
  unfolding register
  registered e = elim (Bool-cases (is_blank (x.trim username) || ltb (len password) 8)) [
    | inl short ↦
        let refused : ◌≡◌ {A = AppState × ApiResult SessionResponse} (st, bad_request)
            (st', done r) =
          rw (short) at e in
        absurd (cc)
    | inr good ↦ elim (Result-cases (create_user x.lower id (x.trim username) hash st.meta)) [
      | inr (failure, failed) ↦
          let refused : ◌≡◌ {A = AppState × ApiResult SessionResponse} (st, meta_error failure)
              (st', done r) =
            rw (failed, register) at (rw (good) at e) in
          absurd (cc)
      | inl ((m, user), created) ↦
          (m, user, good, created, rw (created, register) at (rw (good) at e))
    ]
  ]

  -- Who has registered can log in: with the name, trimmed as it is stored, and the password, which
  -- verifies against its own hash, every later login gives a session of the user that the registration
  -- gave, where the second token's fingerprint is new.
  pub login-register :
      (later : ℕ) (second : String)
      → register x config now token id (some hash) username password st ≡ (st', done r)
      → x.verify_password password hash ≡ true
      → any (is_token (x.hash_token second)) st'.meta.sessions ≡ false
      → let (st'', answer) = login x config later second (x.trim username) password st' in
        (s : SessionResponse) × (answer ≡ done s) × (s.user_id ≡ r.user_id) × (s.token ≡ second)
  unfolding login
  login-register later second e right free =
      let (m, user, good, created, made) = registered e in
      let (session, same_user, same_token) =
        issued x config now token user (record st { meta = m }) st' r made in
      let stored =
        find_credentials-create_user x.lower id user (x.trim username) hash st.meta m created in
      let found =
        find_credentials-create_session x.lower (x.trim username) (x.hash_token token) user
          r.expires_at m st'.meta session
        ∙ stored in
      let known = find_credentials-is_user x.lower (x.trim username) st'.meta user hash found in
      let (st'', s, again) = issue_session_succeeds x config later second user st' known free in
      let (_, its_user, its_token) = issued x config later second user st' st'' s again in
      let out : login x config later second (x.trim username) password st' ≡ (st'', done s) =
        rw (found, login) (rw right again) in
      subst
        (λ (o : AppState × ApiResult SessionResponse).
          (s : SessionResponse) × (o.1 ≡ done s) × (s.user_id ≡ r.user_id) × (s.token ≡ second))
        (sym out) (s, refl, its_user ∙ sym same_user, its_token)
