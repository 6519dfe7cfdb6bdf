-- ===== src/Auth/Endpoint.antt =====
-- crates/aver-server/src/http.rs: the token endpoint and the bearer check, over the authorization
-- database. The lock is taken for each request, so a request is one step. A poisoned lock is not
-- modelled.
use aver.Prelude.{
  ◌||◌, ℕ, Bool, true, false, Option, none, some, List, [], ◌∷◌, ◌==◌, if◌then◌else◌, nat_eq,
  list_eq,
}
use aver.Text.{codes}
use aver.Auth.{
  Text, Crates, TokenPair, AuthDb, AuthResult, done, failed, AccessTokenGrant, hash_token,
}
use aver.Auth.Codes.{exchange_authorization_code_for_tokens}
use aver.Auth.Tokens.{refresh_access_token, access_token_grant}
use aver.OauthScopes.{Scope, parse_scope_list_lossy}

-- The form's fields; one that is missing is empty.
pub record TokenRequest : Type 0 where
  pub grant_type : Text
  pub code : Text
  pub client_id : Text
  pub code_verifier : Text
  pub redirect_uri : Text
  pub refresh_token : Text

pub data TokenError : Type 0 where
  invalid_request invalid_grant unsupported_grant_type : TokenError

-- A 200 with the pair, or a 400 with an error of RFC 6749.
pub data TokenReply : Type 0 where
  tokens : TokenPair → TokenReply
  token_error : TokenError → TokenReply

abbrev pub is_empty_text : Text → Bool
is_empty_text [] = true
is_empty_text (c ∷ s) = false

-- `map_err(|_| token_error(BAD_REQUEST, "invalid_grant"))`
abbrev pub granted_or : AuthResult TokenPair × AuthDb → TokenReply × AuthDb
granted_or (done pair, db) = (tokens pair, db)
granted_or (failed e, db) = (token_error invalid_grant, db)

abbrev pub lacks_a_field : TokenRequest → Bool
lacks_a_field request =
    is_empty_text request.code
    || is_empty_text request.client_id
    || is_empty_text request.code_verifier
    || is_empty_text request.redirect_uri

-- The clock is read twice, and the pair and the family are drawn, where the operation asks for them.
unfoldable pub oauth_token :
    Crates
    → AuthDb
    → TokenRequest
    → (now later : ℕ) (family : Text) → TokenPair
    → TokenReply × AuthDb
oauth_token c db request now later family pair =
    if request.grant_type == codes "authorization_code"
    then (if lacks_a_field request
        then (token_error invalid_request, db)
        else granted_or (
            exchange_authorization_code_for_tokens c db request.code request.client_id
              request.code_verifier request.redirect_uri now later family pair))
    else if request.grant_type == codes "refresh_token"
    then (if is_empty_text request.refresh_token
        then (token_error invalid_request, db)
        else granted_or (refresh_access_token c db request.refresh_token now later pair))
    else (token_error unsupported_grant_type, db)

-- What the bearer check of a request ends with: a 401, or the request with its extensions.
pub data Bearer : Type 0 where
  unauthorized : Bearer
  authenticated : (granted : List Scope) (client : Option Text) → Bearer

-- `str::strip_prefix`
abbrev pub strip_prefix : Text → Text → Option Text
strip_prefix [] s = some s
strip_prefix (p ∷ ps) [] = none
strip_prefix (p ∷ ps) (c ∷ s) = let rest = strip_prefix ps s in if p == c then rest else none

abbrev pub bearer_from : Option AccessTokenGrant → Bearer
bearer_from none = unauthorized
bearer_from (some grant) =
    authenticated (parse_scope_list_lossy grant.granted_scopes) grant.client_id

abbrev pub token_of : Option Text → Option Text
token_of none = none
token_of (some value) = strip_prefix (codes "Bearer ") value

abbrev pub validate_token : Crates → AuthDb → Option Text → ℕ → Bearer
validate_token c db none now = unauthorized
validate_token c db (some token) now = bearer_from (access_token_grant db (hash_token c token) now)

-- `authorization` is the header's value, where it is there and is text.
unfoldable pub validate_bearer_token :
    Crates → AuthDb → (authorization : Option Text) (now : ℕ) → Bearer
unfolding access_token_grant parse_scope_list_lossy
validate_bearer_token c db authorization now = validate_token c db (token_of authorization) now
