-- ===== src/Tests/Consents.antt =====
-- The consent flow at concrete requests.
use aver.Auth.Consents.{get_consent, touch_consent_last_used, record_consent}
use aver.Auth.Codes.{store_authorization_code}
use aver.Auth.Clients.{get_client, lists_uri, client_allows_redirect_uri}
use aver.Consent.Origin.{validate_browser_origin}
use aver.Auth.{ensure, AuthDb}
use aver.Consent.Session.{authenticate_request, ensure_session, current_session, verify_csrf_token}
use aver.Prelude.{find, modify, true, none, some, [], ◌∷◌, ◌++◌, ◌≡◌, refl, ◌⊎◌}
use aver.Text.{codes}
use aver.Consent.{check, Headers, Web, Deps, Visit, redirect_code}
use aver.Consent.Forms.{
  consent_covers, parse_scope, selected_scopes_from_form, AuthorizeQuery, DecisionForm,
}
use aver.Consent.Handlers.{
  from_allowed_origin, handle_authorize_decision, handle_loopback_get_authorize,
}
use aver.Consent.Approved.{Approval, decision-Approval}
use aver.Consent.Covered.{Coverage, authorize-Coverage}
use aver.Tests.AuthFixtures.{host, empty_db}

abbrev web : Web
web = record {
  crates = host;
  hmac_base64 = λ key message. key ++ message;
  header_name = λ name. some name;
}

abbrev deps : Deps
deps = record {
  base_url = codes "http://localhost";
  trusted_auth_header = none;
  csrf_secret = codes "k";
}

abbrev headers : Headers
headers = record {
  cookie = some (codes "a=1; aver_session=s1");
  sec_fetch_site = some (codes "Same-Origin");
  origin = some (some (codes "http://localhost"));
  by_name = λ name. none;
}

abbrev visit : Visit
visit = record {
  is_loopback = true;
  headers = headers;
  now = 500;
  session_id = codes "s2";
  code = codes "c1";
}

abbrev known_db : AuthDb
known_db = record empty_db {
  clients =
      (
        codes "app",
        record { client_name = codes "App"; redirect_uris = codes "https://app"; created_at = 1 },
      )
      ∷ [];
  users = (codes "local", record { kind = codes "local"; external_id = none; created_at = 2 }) ∷ [];
  sessions =
      (codes "s1", record { user_id = codes "local"; created_at = 400; expires_at = 9000 }) ∷ [];
}

abbrev consented_db : AuthDb
consented_db = record known_db {
  consents =
      (
        (codes "local", codes "app"),
        record {
          granted_scopes = codes "claims:read claims:write";
          granted_at = 3;
          last_used_at = none;
          revoked_at = none;
        },
      )
      ∷ [];
}

abbrev form : DecisionForm
form = record {
  client_id = codes "app";
  redirect_uri = codes "https://app";
  code_challenge = codes "hv";
  code_challenge_method = codes "S256";
  scope = some (codes "claims:read");
  state = none;
  csrf_token = codes "ks1|app|hv";
  decision = codes "approve";
  scope_selection_present = none;
  extra_fields = λ name. none;
}

abbrev query : AuthorizeQuery
query = record {
  response_type = codes "code";
  client_id = codes "app";
  redirect_uri = codes "https://app";
  code_challenge = codes "hv";
  code_challenge_method = codes "S256";
  scope = some (codes "claims:read");
  state = none;
}

approved :
    (handle_authorize_decision web deps known_db visit form).0
    ≡ redirect_code (codes "https://app") (codes "c1") none none
unfolding handle_authorize_decision authenticate_request ensure find modify from_allowed_origin
    validate_browser_origin check current_session verify_csrf_token client_allows_redirect_uri
    selected_scopes_from_form record_consent store_authorization_code
approved = refl

decision-Approval_example :
    ((handle_authorize_decision web deps known_db visit form).1.codes ≡ [])
    ⊎ Approval web deps known_db visit form
        (handle_authorize_decision web deps known_db visit form).1
decision-Approval_example = decision-Approval web deps known_db visit form

skipped :
    (handle_loopback_get_authorize web deps consented_db visit query).0
    ≡ redirect_code (codes "https://app") (codes "c1") none none
unfolding handle_loopback_get_authorize check from_allowed_origin validate_browser_origin
    authenticate_request ensure find modify get_client lists_uri ensure_session get_consent
    consent_covers parse_scope store_authorization_code touch_consent_last_used
skipped = refl

authorize-Coverage_example :
    ((handle_loopback_get_authorize web deps consented_db visit query).1.codes ≡ [])
    ⊎ Coverage web deps consented_db visit query
        (handle_loopback_get_authorize web deps consented_db visit query).1
authorize-Coverage_example = authorize-Coverage web deps consented_db visit query
