-- ===== src/Auth.antt =====
-- The authorization database of the server, crates/aver-server/src/auth.rs.
-- `Connection` is the record of its tables, each with the columns that the code reads or writes.
-- Texts are lists of code points. Times are seconds since the epoch, as natural numbers: the clock
-- is an argument of each operation, once for each place that reads it, and so are the random
-- identifiers that the operation draws. SHA-256, base64, the `url` crate and serde_json are the
-- fields of `Crates`. The statements of `open` and failures of SQLite that are not a constraint
-- are not modelled.
pub mod Scopes
pub mod Pkce
pub mod Clients
pub mod Tokens
pub mod Codes
pub mod Users
pub mod Consents
pub mod Sessions
pub mod Calls
pub mod Effects
pub mod SingleUse
pub mod Dead
pub mod Revocation
pub mod Words
pub mod Provenance
pub mod Lifetimes
pub mod Rotation
pub mod Grants
pub mod Refreshing
pub mod Accounts
pub mod Registered
pub mod Endpoint
pub mod Answers
pub mod ConstantTime
use aver.Prelude.{
  list_eq, nat_eq, ◌≡◌, refl, ◌==◌, ◌↔◌, ℕ, Bool, true, false, Option, none, some, List, Table, not,
  ◌||◌, find,
}

abbrev pub Text : Type 0
Text = List ℕ

-- `url::Url`, by the parts that the code reads.
pub record Url : Type 0 where
  pub scheme : Text
  pub host_str : Option Text
  -- `port_or_known_default`
  pub port : Option ℕ

pub record Crates : Type 0 where
  -- the digest of the UTF-8 bytes in URL-safe base64 without padding
  pub sha256_base64 : Text → Text
  -- `Url::parse`
  pub parse_url : Text → Option Url
  -- `serde_json::to_string` and `from_str`
  pub to_json : List Text → Option Text
  pub from_json : Text → Option (List Text)
  -- whether SQLite is built to enforce foreign keys
  pub foreign_keys : Bool

-- The errors of the operations, by their messages.
pub data AuthError : Type 0 where
  client_name_required redirect_uri_required redirect_uris_refused malformed_json : AuthError
  no_such_code code_already_used client_id_mismatch pkce_mismatch code_expired : AuthError
  redirect_uri_mismatch unknown_refresh_token reuse_detected refresh_token_expired : AuthError
  already_rotated user_id_required created_at_required client_id_required : AuthError
  ttl_required oidc_without_external_id unknown_user_kind constraint : AuthError

pub data AuthResult (A : Type 0) : Type 0 where
  done : A → AuthResult A
  failed : AuthError → AuthResult A

pub record RegisteredClient : Type 0 where
  pub client_id : Text
  pub client_name : Text
  pub redirect_uris : List Text

-- A row of `oauth_clients`, its key aside.
pub record ClientRow : Type 0 where
  pub client_name : Text
  pub redirect_uris : Text
  pub created_at : ℕ

-- A row of `authorization_codes`.
pub record CodeRow : Type 0 where
  pub client_id : Text
  pub user_id : Text
  pub code_challenge : Text
  pub redirect_uri : Text
  pub used_at : Option ℕ
  pub expires_at : ℕ
  pub created_at : ℕ
  pub granted_scopes : Text

-- A row of `access_tokens`, and one of `refresh_tokens`.
pub record TokenRow : Type 0 where
  pub user_id : Text
  pub client_id : Option Text
  pub family_id : Text
  pub created_at : ℕ
  pub expires_at : ℕ
  pub revoked_at : Option ℕ
  pub granted_scopes : Text

pub record AccessTokenGrant : Type 0 where
  pub user_id : Text
  pub client_id : Option Text
  pub granted_scopes : Text

pub record TokenPair : Type 0 where
  pub access_token : Text
  pub refresh_token : Text

pub record UserRow : Type 0 where
  pub kind : Text
  pub external_id : Option Text
  pub created_at : ℕ

-- A row of `client_consents`.
pub record ConsentRow : Type 0 where
  pub granted_scopes : Text
  pub granted_at : ℕ
  pub last_used_at : Option ℕ
  pub revoked_at : Option ℕ

-- A row of `sessions`.
pub record SessionRow : Type 0 where
  pub user_id : Text
  pub created_at : ℕ
  pub expires_at : ℕ

pub record AuthDb : Type 0 where
  pub clients : Table Text ClientRow
  pub codes : Table Text CodeRow
  pub access_tokens : Table Text TokenRow
  pub refresh_tokens : Table Text TokenRow
  pub users : Table Text UserRow
  pub consents : Table (Text × Text) ConsentRow
  pub sessions : Table Text SessionRow

abbrev pub access_token_ttl_secs : ℕ
access_token_ttl_secs = 3600

abbrev pub refresh_token_ttl_secs : ℕ
refresh_token_ttl_secs = 2592000

abbrev pub is_some {ℓ} : {A : Type ℓ} → Option A → Bool
is_some none = false
is_some (some a) = true

-- `anyhow::ensure!(test, error)`: goes on, or fails and leaves the database.
unfoldable pub ensure :
    {A : Type 0} → Bool → AuthError → AuthDb → AuthResult A × AuthDb → AuthResult A × AuthDb
ensure true e db next = next
ensure false e db next = (failed e, db)

-- `FOREIGN KEY (user_id) REFERENCES users(id)`, for a row that is inserted.
abbrev pub admits_user : Crates → AuthDb → Text → Bool
admits_user crates db user = not crates.foreign_keys || is_some (find user db.users)

-- `revoked_at IS NULL`
abbrev pub is_live : TokenRow → Bool
is_live row = not (is_some row.revoked_at)

-- `SET revoked_at = now`
abbrev pub revoke : ℕ → TokenRow → TokenRow
revoke now row = record row { revoked_at = some now }

abbrev pub hash_token : Crates → Text → Text
hash_token crates token = crates.sha256_base64 token

pub text_agrees : (s t : Text) → ((s == t) ≡ true) ↔ (s ≡ t)
text_agrees = list_eq.agrees

-- A guarded operation that succeeds has passed its guard.
pub ensure-done :
    {A : Type 0} (b : Bool) (e : AuthError) (db : AuthDb) (next : AuthResult A × AuthDb) (a : A)
    → (ensure b e db next).0 ≡ done a
    → (b ≡ true) × (ensure b e db next ≡ next) × (next.0 ≡ done a)
unfolding ensure
ensure-done true e db next a h = (refl, refl, h)
ensure-done false e db next a h = cc h

pub ensure_pass :
    {A : Type 0} (b : Bool) (e : AuthError) (db : AuthDb) (next : AuthResult A × AuthDb)
    → b ≡ true
    → ensure b e db next ≡ next
unfolding ensure
ensure_pass true e db next h = refl
ensure_pass false e db next h = cc h
