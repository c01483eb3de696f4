-- ===== src/Gateway.antt =====
-- services/gateway/src/routes.rs: the handlers over the catalog, the queue and the store, at time
-- `now`. What other crates compute (passwords, token fingerprints, JSON, UUIDs) is the record
-- External, and what is random is an argument. Reading a request and writing a response is left out.
pub mod Auth
pub mod Analyze
pub mod Reports
pub mod FileName
pub mod Upload
pub mod Tests
use Prim.Native.String.{String, len, slice}
use Prim.Native.String as String
use Prim.Native.Char.{code}
use text.Mathlib.Text.{◌==◌ as str_eq, starts_with}
use bvault_app.Prelude.{
  ℕ, ◌+◌, ◌*◌, Bool, true, false, ◌||◌, Option, some, none, List, [], ◌∷◌, ltb, if◌then◌else◌,
}
use bvault_app.Text.{Text}
use bvault_app.Transfer.Files.{Drive}
use bvault_app.Store.{Disk, exists}
use bvault_app.Jobs.{Table, micros}
use bvault_app.Catalog.{
  Meta, Failure, Result, ok, err, create_user, find_credentials, create_session, lookup_session,
  delete_session,
}

-- The payloads of the jobs, of bvault-jobs.
pub record AnalysisJob : Type 0 where
  pub hash : String
  pub raw_location : String
  pub fallback_title : Option String

pub record YtDlpIngestJob : Type 0 where
  pub url : String
  pub user_id : String

pub record External : Type 0 where
  pub lower : String → String
  pub trim : String → String
  pub parse_uuid : String → Option ℕ
  pub uuid_text : ℕ → String
  pub verify_password : String → String → Bool
  pub hash_token : String → String
  pub analysis_json : AnalysisJob → String
  pub ytdlp_json : YtDlpIngestJob → String
  -- `payload.get("user_id").as_str()`
  pub json_user_id : String → Option String

pub record Config : Type 0 where
  pub analysis_max_attempts : ℕ
  pub session_ttl : ℕ
  pub yt_dlp_service_url : Option String
  pub internal_api_key : Option String
  pub artifact_store_root : Text
  pub raw_store_root : Text

pub record AppState : Type 0 where
  pub meta : Meta
  pub queue : Table
  pub artifacts : Disk
  -- The files below the root of the raw store, and the temporary ones.
  pub raw : Drive

pub data ApiResult (A : Type 0) : Type 0 where
  done : A → ApiResult A
  not_found bad_request unauthorized internal jobs_error : ApiResult A
  meta_error : Failure → ApiResult A

-- The headers that are looked at, where they are visible ASCII.
pub record Headers : Type 0 where
  pub internal_key : Option String
  pub user_id : Option String
  pub authorization : Option String

-- The characters of a text.
abbrev pub codes : String → Text
codes String.[] = []
codes (String.◌∷◌ c s) = code c ∷ codes s

unfoldable pub strip_prefix : String → String → Option String
strip_prefix prefix s = if starts_with s prefix then some (slice s (len prefix) (len s)) else none

unfoldable pub bearer_token : Headers → Option String
unfolding strip_prefix
bearer_token headers = elim headers.authorization [
  | none ↦ none
  | some value ↦ strip_prefix "Bearer " value
]

unfoldable pub keys_match : Option String → Option String → Bool
keys_match none given = false
keys_match (some key) none = false
keys_match (some key) (some given) = str_eq given key

-- `InternalAuth`
unfoldable pub internal_auth : Config → Headers → Bool
unfolding keys_match
internal_auth config headers = keys_match config.internal_api_key headers.internal_key

-- 30 days where the configured time is longer than a `chrono::Duration` can be.
unfoldable pub session_micros : Config → ℕ
session_micros config =
    if ltb 9_223_372_036_854_775 config.session_ttl
    then 30 * 86_400 * micros
    else config.session_ttl * micros

pub record SessionResponse : Type 0 where
  pub token : String
  pub user_id : ℕ
  pub expires_at : ℕ

unfoldable pub is_blank : String → Bool
is_blank s = str_eq s ""

module _ (x : External) (config : Config) where
  unfoldable pub internal_user : Headers → Option ℕ
  unfolding internal_auth
  internal_user headers =
      let named : Option ℕ = elim headers.user_id [ none ↦ none | some text ↦ x.parse_uuid text ] in
      if internal_auth config headers then named else none

  unfoldable pub session_user : ℕ → Option String → AppState → ApiResult ℕ
  unfolding lookup_session
  session_user now none st = unauthorized
  session_user now (some token) st = elim (lookup_session (x.hash_token token) now st.meta) [
    | none ↦ unauthorized
    | some user ↦ done user
  ]

  -- `AuthUser`, which every handler of a user's request asks for.
  unfoldable pub auth_user : ℕ → Headers → AppState → ApiResult ℕ
  unfolding internal_user session_user bearer_token
  auth_user now headers st = elim (internal_user headers) [
    | some user ↦ done user
    | none ↦ session_user now (bearer_token headers) st
  ]

  -- `token` is the random token.
  unfoldable pub issue_session : ℕ → String → ℕ → AppState → AppState × ApiResult SessionResponse
  unfolding session_micros create_session
  issue_session now token user st =
      let expires_at = now + session_micros config in
      elim (create_session (x.hash_token token) user expires_at st.meta) [
        | err e ↦ (st, meta_error e)
        | ok m ↦ (
          record st { meta = m },
          done (record { token = token; user_id = user; expires_at = expires_at }),
        )
      ]

  -- `password_hash` is what the hashing of the password with a random salt gives, if it does.
  unfoldable pub register :
      ℕ
      → String
      → ℕ
      → Option String
      → String
      → String
      → AppState
      → AppState × ApiResult SessionResponse
  unfolding is_blank create_user issue_session
  register now token id password_hash username password st =
      let name = x.trim username in
      let created : AppState × ApiResult SessionResponse = elim password_hash [
        | none ↦ (st, internal)
        | some hash ↦ elim (create_user x.lower id name hash st.meta) [
          | err e ↦ (st, meta_error e)
          | ok (m, user) ↦ issue_session now token user (record st { meta = m })
        ]
      ] in
      if is_blank name || ltb (len password) 8 then (st, bad_request) else created

  unfoldable pub login :
      ℕ → String → String → String → AppState → AppState × ApiResult SessionResponse
  unfolding find_credentials issue_session
  login now token username password st = elim (find_credentials x.lower username st.meta) [
    | none ↦ (st, unauthorized)
    | some (user, hash) ↦
        if x.verify_password password hash
        then issue_session now token user st
        else (st, unauthorized)
  ]

  unfoldable pub logout : Headers → AppState → AppState
  unfolding bearer_token delete_session
  logout headers st = elim (bearer_token headers) [
    | none ↦ st
    | some token ↦ record st { meta = delete_session (x.hash_token token) st.meta }
  ]

  -- `ArtifactStore::exists`
  unfoldable pub analyzed : String → AppState → Bool
  unfolding exists
  analyzed hash st = exists config.artifact_store_root (codes hash) st.artifacts
