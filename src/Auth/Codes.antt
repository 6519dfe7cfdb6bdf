-- ===== src/Auth/Codes.antt =====
-- auth.rs: the authorization codes, from their issue to their exchange for a pair of tokens.
use aver.Prelude.{
  ℕ, Option, none, some, List, find, insert, modify, ◌==◌, ltb, not, list_eq, nat_eq, ◌+◌,
}
use aver.Auth.{
  Text, Crates, AuthResult, done, failed, no_such_code, code_already_used, client_id_mismatch,
  pkce_mismatch, code_expired, redirect_uri_mismatch, constraint, CodeRow, TokenPair, AuthDb,
  ensure, is_some,
}
use aver.Auth.Scopes.{encode_scopes, decode_scopes}
use aver.Auth.Pkce.{verify_pkce_s256}
use aver.Auth.Tokens.{issue_token_pair}

abbrev pub code_ttl : ℕ
code_ttl = 600

unfoldable pub store_authorization_code :
    AuthDb
    → (client user challenge redirect_uri : Text) → List Text
    → (code : Text) (now : ℕ) → AuthResult Text × AuthDb
store_authorization_code db client user challenge uri scopes code now =
    ensure (not (is_some (find code db.codes))) constraint db (
      done code,
      record db {
        codes =
            insert code
              (record {
                client_id = client;
                user_id = user;
                code_challenge = challenge;
                redirect_uri = uri;
                used_at = none;
                expires_at = now + code_ttl;
                created_at = now;
                granted_scopes = encode_scopes scopes;
              })
              db.codes;
      },
    )

-- `SET used_at = now`
abbrev pub spend : ℕ → CodeRow → CodeRow
spend now row = record row { used_at = some now }

abbrev pub exchange_from :
    Crates
    → AuthDb
    → (code client verifier redirect_uri : Text) (now later : ℕ) (family : Text) → TokenPair
    → Option CodeRow
    → AuthResult TokenPair × AuthDb
exchange_from crates db code client verifier uri now later family pair none =
    (failed no_such_code, db)
exchange_from crates db code client verifier uri now later family pair (some row) =
    ensure (not (is_some row.used_at)) code_already_used db (
      ensure (row.client_id == client) client_id_mismatch db (
        ensure (verify_pkce_s256 crates verifier row.code_challenge) pkce_mismatch db (
          ensure (ltb now row.expires_at) code_expired db (
            ensure (row.redirect_uri == uri) redirect_uri_mismatch db (
              issue_token_pair crates (record db { codes = modify code (spend now) db.codes })
                row.user_id (some client) (decode_scopes row.granted_scopes) family pair later)))))

-- `now` is the clock at the guards, `later` at the issue of the tokens.
unfoldable pub exchange_authorization_code_for_tokens :
    Crates
    → AuthDb
    → (code client verifier redirect_uri : Text) (now later : ℕ) (family : Text) → TokenPair
    → AuthResult TokenPair × AuthDb
unfolding verify_pkce_s256 decode_scopes issue_token_pair
exchange_authorization_code_for_tokens crates db code client verifier uri now later family pair =
    exchange_from crates db code client verifier uri now later family pair (find code db.codes)

abbrev access_of : AuthResult TokenPair → AuthResult Text
access_of (done pair) = done pair.access_token
access_of (failed e) = failed e

unfoldable pub exchange_authorization_code :
    Crates
    → AuthDb
    → (code client verifier redirect_uri : Text) (now later : ℕ) (family : Text) → TokenPair
    → AuthResult Text × AuthDb
unfolding exchange_authorization_code_for_tokens
exchange_authorization_code crates db code client verifier uri now later family pair =
    let (r, db') =
      exchange_authorization_code_for_tokens crates db code client verifier uri now later family
        pair in
    (access_of r, db')
