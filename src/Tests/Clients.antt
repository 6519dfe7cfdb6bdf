-- ===== src/Tests/Clients.antt =====
-- Clients and the endpoints over the authorization database at concrete inputs.
use aver.Auth.Clients.{register_client, redirect_uri_allowed}
use aver.OauthScopes.{parse_scope_list_lossy, claims_read}
use aver.Prelude.{list_eq, nat_eq, arith, some, [], ◌∷◌, ◌≡◌, refl, find}
use aver.Text.{codes}
use aver.Auth.{ensure, done, RegisteredClient}
use aver.Auth.Tokens.{refresh_access_token}
use aver.Auth.Answers.{oauth_token-Justified, validate_bearer_token_iff, Justified}
use aver.Auth.Endpoint.{TokenRequest, oauth_token, tokens, validate_bearer_token, authenticated}
use aver.Tests.AuthFixtures.{host, empty_db, access_row, live_db, next_pair}

abbrev registered : RegisteredClient
registered = record {
  client_id = codes "aver-7";
  client_name = codes "App";
  redirect_uris = codes "https://app" ∷ [];
}

registers_it :
    (register_client host empty_db (codes "App") (codes "https://app" ∷ []) (codes "7") 100).0
    ≡ done registered
unfolding register_client ensure find redirect_uri_allowed
registers_it = refl

abbrev refresh_form : TokenRequest
refresh_form = record {
  grant_type = codes "refresh_token";
  code = [];
  client_id = [];
  code_verifier = [];
  redirect_uri = [];
  refresh_token = codes "r";
}

endpoint_refreshes :
    (oauth_token host live_db refresh_form 300 301 (codes "g") next_pair).0 ≡ tokens next_pair
unfolding oauth_token refresh_access_token ensure find
endpoint_refreshes = refl

oauth_token-Justified_example : Justified host live_db refresh_form 300
oauth_token-Justified_example =
    oauth_token-Justified host live_db refresh_form 300 301 (codes "g") next_pair next_pair
      endpoint_refreshes

validate_bearer_token_iff_example :
    validate_bearer_token host live_db (some (codes "Bearer a")) 400
    ≡ authenticated (claims_read ∷ []) (some (codes "app"))
unfolding find parse_scope_list_lossy
validate_bearer_token_iff_example =
    (validate_bearer_token_iff host live_db (codes "a") 400 (claims_read ∷ [])
        (some (codes "app"))).1
      (access_row, refl, refl, omega arith, refl, refl)
