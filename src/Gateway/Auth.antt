-- ===== src/Gateway/Auth.antt =====
-- routes.rs: a session from its login to its end.
pub mod Login
pub mod Registration
use Prim.Native.String.{String}
use text.Mathlib.Text.{◌==◌ as str_eq}
use text.Mathlib.TextEquality.{eq_iff}
use bvault_app.Prelude.{
  ℕ, ◌≡◌, ◌<◌, ◌≤◌, ◌+◌, refl, ap, sym, ◌∙◌, subst, inl, inr, arith, Bool, true, false, ◌&&◌,
  Option, some, none, List, [], ◌∷◌, ◌++◌, ltb, Bool-cases, Option-cases,
}
use bvault_app.Catalog.Rows.{find_first, any, delete_where, select}
use bvault_app.Catalog.Rows.Laws.{any-none}
use bvault_app.Catalog.Rows.Finding.{
  find_first-none-any, find_first-append_here, find_first-append_other,
}
use bvault_app.Catalog.Tables.{Result-cases}
use bvault_app.Catalog.{
  Session, Meta, ok, err, unique_violation, foreign_key_violation, is_user, create_session,
  lookup_session, delete_session, find_credentials,
}
use bvault_app.Gateway.{
  External, Config, AppState, ApiResult, done, unauthorized, meta_error, Headers, bearer_token,
  internal_user, session_user, auth_user, SessionResponse, session_micros, issue_session, login,
  logout,
}

abbrev pub is_token : String → Session → Bool
is_token token_hash s = str_eq s.token_hash token_hash

-- A session that was created is found until it expires, and not after.
lookup_session-create_session :
    (token_hash : String) (user expires_at : ℕ) (m m' : Meta)
    → create_session token_hash user expires_at m ≡ ok m'
    → (t : ℕ)
    → (t < expires_at → lookup_session token_hash t m' ≡ some user)
      × (expires_at ≤ t → lookup_session token_hash t m' ≡ none)
unfolding create_session lookup_session
lookup_session-create_session token_hash user expires_at m m' e t =
    elim (Bool-cases (any (is_token token_hash) m.sessions)) [
      | inl taken ↦ let no_session : err unique_violation ≡ ok m' = rw (taken) at e in absurd (cc)
      | inr free ↦ elim (Bool-cases (is_user user m)) [
        | inr unknown ↦
            let no_session : err foreign_key_violation ≡ ok m' = rw (free, unknown) at e in
            absurd (cc)
        | inl known ↦
            let row : Session = record {
              token_hash = token_hash;
              user_id = user;
              expires_at = expires_at;
            } in
            let made : ok (record m { sessions = m.sessions ++ row ∷ [] }) ≡ ok m' =
              rw (free, known) at e in
            let same : record m { sessions = m.sessions ++ row ∷ [] } ≡ m' = cc in
            let live = λ (s : Session). str_eq s.token_hash token_hash && ltb t s.expires_at in
            let before : find_first live m.sessions ≡ none =
              find_first-none-any live m.sessions
                (any-none live (is_token token_hash) m.sessions (λ s h. ground arith) free) in
            subst
              (λ m'.
                (t < expires_at → lookup_session token_hash t m' ≡ some user)
                × (expires_at ≤ t → lookup_session token_hash t m' ≡ none))
              same
              (
                (λ soon.
                    let here : live row ≡ true =
                      rw ((eq_iff token_hash token_hash).1 refl) (ground arith) in
                    rw (find_first-append_here live m.sessions row before here, lookup_session)
                      refl),
                (λ late.
                    let gone : live row ≡ false = ground arith in
                    rw (find_first-append_other live m.sessions row gone ∙ before, lookup_session)
                      refl),
              )
      ]
    ]

no_token :
    (token_hash : String) (t : ℕ) (sessions : List Session)
    → find_first
        (λ s. str_eq s.token_hash token_hash && ltb t s.expires_at)
        (delete_where (is_token token_hash) sessions)
      ≡ none
unfolding find_first delete_where select
no_token token_hash t [] = refl
no_token token_hash t (s ∷ sessions) = ground (arith, no_token token_hash t sessions)

lookup_session-delete_session :
    (token_hash : String) (t : ℕ) (m : Meta)
    → lookup_session token_hash t (delete_session token_hash m) ≡ none
unfolding lookup_session delete_session
lookup_session-delete_session token_hash t m =
    rw (no_token token_hash t m.sessions, lookup_session) refl

-- What the headers with a token give, where they name no internal user.
pub record Carries (x : External) (config : Config) (headers : Headers) (token : String)
    : Type 0 where
  pub bearer : bearer_token headers ≡ some token
  pub outside : internal_user x config headers ≡ none

abbrev FoundUser : ApiResult ℕ → Option ℕ → Type 0
FoundUser r none = r ≡ unauthorized
FoundUser r (some user) = r ≡ done user

module _ (x : External) (config : Config) where
  auth_user-session :
      (t : ℕ) (headers : Headers) (token : String) (st : AppState) (o : Option ℕ)
      → Carries x config headers token
      → lookup_session (x.hash_token token) t st.meta ≡ o
      → FoundUser (auth_user x config t headers st) o
  unfolding auth_user session_user
  auth_user-session t headers token st none c e =
      rw (c.outside, auth_user) (rw (c.bearer, session_user) (rw (e, session_user) refl))
  auth_user-session t headers token st (some user) c e =
      rw (c.outside, auth_user) (rw (c.bearer, session_user) (rw (e, session_user) refl))

  -- What a login promises of its session: the password was the user's, the token is accepted for that
  -- user until it expires and not from then on, nor after a logout.
  pub record IsSession (username password : String) (st st' : AppState) (headers : Headers)
      (r : SessionResponse) : Type 0 where
    pub checked :
        (hash : String) × (find_credentials x.lower username st.meta ≡ some (r.user_id, hash))
        × (x.verify_password password hash ≡ true)
    pub valid : (t : ℕ) → t < r.expires_at → auth_user x config t headers st' ≡ done r.user_id
    pub expired : (t : ℕ) → r.expires_at ≤ t → auth_user x config t headers st' ≡ unauthorized
    pub ended : (t : ℕ) → auth_user x config t headers (logout x config headers st') ≡ unauthorized

  pub issued :
      (now : ℕ) (token : String) (user : ℕ) (st st' : AppState) (r : SessionResponse)
      → issue_session x config now token user st ≡ (st', done r)
      → (create_session (x.hash_token token) user r.expires_at st.meta ≡ ok st'.meta)
        × (r.user_id ≡ user)
        × (r.token ≡ token)
  unfolding issue_session
  issued now token user st st' r e =
      let expires_at = now + session_micros config in
      elim (Result-cases (create_session (x.hash_token token) user expires_at st.meta)) [
        | inr (failure, failed) ↦
            let no_session : ◌≡◌ {A = AppState × ApiResult SessionResponse} (st, meta_error failure)
                (st', done r) =
              rw (failed, issue_session) at e in
            absurd (cc)
        | inl (m, created) ↦
            let response : SessionResponse = record {
              token = token;
              user_id = user;
              expires_at = expires_at;
            } in
            let made : ◌≡◌ {A = AppState × ApiResult SessionResponse}
                (record st { meta = m }, done response) (st', done r) =
              rw (created, issue_session) at e in
            let same : response ≡ r = cc in
            let state : m ≡ st'.meta =
              ap (λ (p : AppState × ApiResult SessionResponse). p.0.meta) made in
            (
              subst
                  (λ (r : SessionResponse).
                    create_session (x.hash_token token) user r.expires_at st.meta ≡ ok st'.meta)
                  same (created ∙ ap ok state),
              ap (λ (r : SessionResponse). r.user_id) (sym same),
              ap (λ (r : SessionResponse). r.token) (sym same),
            )
      ]

  checked_login :
      (now : ℕ) (token username password : String) (st st' : AppState) (r : SessionResponse)
      → login x config now token username password st ≡ (st', done r)
      → (user : ℕ) × (hash : String) × (find_credentials x.lower username st.meta
          ≡ some (user, hash))
        × (x.verify_password password hash ≡ true)
        × (issue_session x config now token user st ≡ (st', done r))
  unfolding login
  checked_login now token username password st st' r e =
      elim (Option-cases (find_credentials x.lower username st.meta)) [
        | inl nobody ↦
            let refused : ◌≡◌ {A = AppState × ApiResult SessionResponse} (st, unauthorized)
                (st', done r) =
              rw (nobody, login) at e in
            absurd (cc)
        | inr ((user, hash), found) ↦ elim (Bool-cases (x.verify_password password hash)) [
          | inr wrong ↦
              let refused : ◌≡◌ {A = AppState × ApiResult SessionResponse} (st, unauthorized)
                  (st', done r) =
                rw (wrong) at (rw (found, login) at e) in
              absurd (cc)
          | inl right ↦
              let made : issue_session x config now token user st ≡ (st', done r) =
                rw (right) at (rw (found, login) at e) in
              (user, hash, found, right, made)
        ]
      ]

  -- A login that succeeds has checked the user's password, and its token stands for that user in every
  -- request until the session expires; from then on, and after a logout, it is refused.
  pub login-IsSession :
      (now : ℕ) (token username password : String) (st st' : AppState) (headers : Headers)
      (r : SessionResponse)
      → login x config now token username password st ≡ (st', done r)
      → Carries x config headers r.token
      → IsSession username password st st' headers r
  login-IsSession now token username password st st' headers r e c =
      let (user, hash, found, right, made) = checked_login now token username password st st' r e in
      let (created, same_user, same_token) = issued now token user st st' r made in
      let read =
        lookup_session-create_session (x.hash_token token) user r.expires_at st.meta st'.meta
          created in
      let carried = subst (Carries x config headers) same_token c in
      record {
        checked = (hash, found ∙ ap (λ (u : ℕ). some (u, hash)) (sym same_user), right);
        valid = λ t soon.
            auth_user-session t headers token st' (some user) carried ((read t).0 soon)
            ∙ ap done (sym same_user);
        expired = λ t late. auth_user-session t headers token st' none carried ((read t).1 late);
        ended = λ t. auth_user-session t headers token (logout x config headers st') none carried (
            unfold logout in
            rw (carried.bearer, logout)
              (lookup_session-delete_session (x.hash_token token) t st'.meta));
      }
