-- ===== src/Consent/Handlers.antt =====
-- consent.rs: the three handlers, `handle_loopback_get_authorize`, `handle_authorize_decision` and
-- `handle_revoke_consent`.
use aver.Prelude.{
  Bool, true, false, Option, none, some, List, [], ◌∷◌, String, ◌==◌, ◌&&◌, not, nat_eq,
  if◌then◌else◌, list_eq,
}
use aver.Text.{codes, all_whitespace}
use aver.Auth.{Text, Url, AuthDb, AuthResult, done, failed, is_some, RegisteredClient}
use aver.Auth.Users.{User}
use aver.Auth.Sessions.{Session}
use aver.Auth.Clients.{get_client, lists_uri, client_allows_redirect_uri}
use aver.Auth.Codes.{store_authorization_code}
use aver.Auth.Consents.{
  ClientConsent, record_consent, get_consent, revoke_consent, touch_consent_last_used,
}
use aver.Auth.Endpoint.{is_empty_text}
use aver.OauthScopes.{Parsed, parsed, unknown}
use aver.Consent.{
  Headers, Web, Deps, Visit, Response, html_error, html_message, consent_page, redirect_code,
  redirect_error, check,
}
use aver.Consent.Origin.{Verdict, passes, refused, validate_browser_origin}
use aver.Consent.Session.{
  authenticate_request, current_session, ensure_session, compute_csrf_token, verify_csrf_token,
}
use aver.Consent.Forms.{
  AuthorizeQuery, DecisionForm, parse_scope, selected_scopes_from_form, consent_covers,
}

abbrev pub Reply : Type 0
Reply = Response × AuthDb

-- The guards that every handler has: the base URL parses, and the origin passes.
abbrev pub judged : Verdict → String → AuthDb → Reply → Reply
judged passes title db next = next
judged (refused e) title db next = (html_error 403 title, db)

abbrev pub with_base : Web → Headers → String → AuthDb → Option Url → Reply → Reply
with_base w headers title db none next = (html_error 500 "Server misconfiguration", db)
with_base w headers title db (some base) next =
    judged (validate_browser_origin w.crates headers (base ∷ [])) title db next

unfoldable pub from_allowed_origin : Web → Deps → Visit → String → AuthDb → Reply → Reply
from_allowed_origin w deps visit title db next =
    with_base w visit.headers title db (w.crates.parse_url deps.base_url) next

abbrev pub as_user : AuthResult (Option User) × AuthDb → (User → AuthDb → Reply) → Reply
as_user (failed e, db) next = (html_error 500 "Server error", db)
as_user (done none, db) next = (html_error 403 "Authorization unavailable", db)
as_user (done (some user), db) next = next user db

-- `redirect_with_code` and `redirect_with_error`
abbrev pub redirect_with_code : Web → (uri code : Text) → Option Text → Option Text → Response
redirect_with_code w uri code state cookie =
    if is_some (w.crates.parse_url uri)
    then redirect_code uri code state cookie
    else html_error 400 "Invalid redirect_uri"

abbrev pub redirect_with_error : Web → Text → String → Option Text → Response
redirect_with_error w uri error state =
    if is_some (w.crates.parse_url uri)
    then redirect_error uri error state
    else html_error 400 "Invalid redirect_uri"

abbrev pub code_reply : Web → Text → Option Text → Option Text → AuthResult Text × AuthDb → Reply
code_reply w uri state cookie (failed e, db) = (html_error 500 "Server error", db)
code_reply w uri state cookie (done code, db) = (redirect_with_code w uri code state cookie, db)

abbrev pub cookie_if : Bool → Text → Option Text
cookie_if b id = if b then some id else none

abbrev pub no_scopes : List Text → Bool
no_scopes [] = true
no_scopes (s ∷ rest) = false

-- Whether a consent lets the screen be skipped.
abbrev pub skips : Option ClientConsent → List Text → Bool
skips none scopes = false
skips (some consent) scopes =
    not (is_some consent.revoked_at)
    && not (no_scopes consent.granted_scopes)
    && consent_covers consent.granted_scopes scopes

abbrev pub granted_of : Option ClientConsent → List Text
granted_of none = []
granted_of (some consent) = consent.granted_scopes

-- From the session on: the code of a consent that covers the request, or the screen.
unfoldable pub answer_authorize :
    Web → Deps → Visit → AuthorizeQuery → User → AuthResult (Session × Bool) × AuthDb → Reply
answer_authorize w deps visit query user (failed e, db) = (html_error 500 "Server error", db)
answer_authorize w deps visit query user (done (session, new), db) =
    let cookie = cookie_if new session.id in
    let consent = get_consent db user.id query.client_id in
    if skips consent (parse_scope query.scope)
    then code_reply w query.redirect_uri query.state cookie (
        store_authorization_code (touch_consent_last_used db user.id query.client_id visit.now)
          query.client_id user.id query.code_challenge query.redirect_uri (granted_of consent)
          visit.code visit.now)
    else (
      consent_page
          (compute_csrf_token w deps.csrf_secret session.id query.client_id query.code_challenge)
          cookie,
      db,
    )

abbrev pub with_client :
    Web
    → Deps
    → Visit
    → AuthorizeQuery
    → User
    → AuthDb
    → AuthResult (Option RegisteredClient)
    → Reply
with_client w deps visit query user db (failed e) = (html_error 500 "Server error", db)
with_client w deps visit query user db (done none) = (html_error 400 "Unknown client", db)
with_client w deps visit query user db (done (some client)) =
    check (lists_uri query.redirect_uri client.redirect_uris)
      (html_error 400 "Redirect URI mismatch") db
      (answer_authorize w deps visit query user (ensure_session w db visit user.id))

unfoldable pub handle_loopback_get_authorize : Web → Deps → AuthDb → Visit → AuthorizeQuery → Reply
unfolding answer_authorize
handle_loopback_get_authorize w deps db visit query =
    check (query.response_type == codes "code") (html_error 400 "Unsupported response_type") db (
      check (query.code_challenge_method == codes "S256")
        (html_error 400 "Unsupported code_challenge_method") db
        (check (not (is_empty_text query.code_challenge)) (html_error 400 "Missing code_challenge")
          db
          (from_allowed_origin w deps visit "Cross-site request rejected" db (
            as_user (authenticate_request w db visit deps.trusted_auth_header) (λ user db'.
              with_client w deps visit query user db' (get_client w.crates db' query.client_id))))))

-- The consent is recorded, and then the code stored.
abbrev pub after_consent :
    Web → Visit → DecisionForm → User → List Text → AuthResult Unit × AuthDb → Reply
after_consent w visit form user scopes (failed e, db) = (html_error 500 "Server error", db)
after_consent w visit form user scopes (done u, db) =
    code_reply w form.redirect_uri form.state none (
      store_authorization_code db form.client_id user.id form.code_challenge form.redirect_uri
        scopes visit.code visit.now)

abbrev pub approve : Web → Visit → DecisionForm → User → AuthDb → Parsed (List Text) → Reply
approve w visit form user db (unknown raw) = (html_error 400 "Invalid scope", db)
approve w visit form user db (parsed scopes) =
    after_consent w visit form user scopes
      (record_consent w.crates db user.id form.client_id scopes visit.now)

unfoldable pub decide : Web → Visit → DecisionForm → User → AuthDb → Reply
decide w visit form user db =
    if form.decision == codes "approve"
    then approve w visit form user db (selected_scopes_from_form form)
    else if form.decision == codes "deny"
    then (redirect_with_error w form.redirect_uri "access_denied" form.state, db)
    else (html_error 400 "Invalid decision", db)

abbrev pub registered : AuthDb → AuthResult Bool → Reply → Reply
registered db (failed e) next = (html_error 500 "Server error", db)
registered db (done false) next = (html_error 400 "Redirect URI mismatch", db)
registered db (done true) next = next

-- The session's user has to be the one that the request authenticates.
abbrev pub in_session : User → AuthDb → Option (Session × User) → (Session → User → Reply) → Reply
in_session authenticated db none next = (html_error 400 "Missing session", db)
in_session authenticated db (some (session, user)) next =
    check (user.id == authenticated.id) (html_error 403 "Wrong user") db (next session user)

unfoldable pub handle_authorize_decision : Web → Deps → AuthDb → Visit → DecisionForm → Reply
unfolding decide
handle_authorize_decision w deps db0 visit form =
    as_user (authenticate_request w db0 visit deps.trusted_auth_header) (λ authenticated db.
      from_allowed_origin w deps visit "Cross-site POST rejected" db (
        check (form.code_challenge_method == codes "S256")
          (html_error 400 "Unsupported code_challenge_method") db
          (in_session authenticated db (current_session visit.headers db visit.now) (λ session user.
            check
              (verify_csrf_token w deps.csrf_secret session.id form.client_id form.code_challenge
                form.csrf_token)
              (html_error 400 "Invalid CSRF token") db
              (registered db
                (client_allows_redirect_uri w.crates db form.client_id form.redirect_uri)
                (decide w visit form user db))))))

abbrev pub known_client : AuthDb → AuthResult (Option RegisteredClient) → Reply → Reply
known_client db (failed e) next = (html_error 500 "Server error", db)
known_client db (done none) next = (html_error 400 "Unknown client", db)
known_client db (done (some client)) next = next

unfoldable pub handle_revoke_consent : Web → Deps → AuthDb → Visit → (client_id : Text) → Reply
handle_revoke_consent w deps db0 visit client =
    as_user (authenticate_request w db0 visit deps.trusted_auth_header) (λ authenticated db.
      from_allowed_origin w deps visit "Cross-site POST rejected" db (
        in_session authenticated db (current_session visit.headers db visit.now) (λ session user.
          check (not (all_whitespace client)) (html_error 400 "Missing client_id") db (
            known_client db (get_client w.crates db client) (
              html_message "Consent revoked",
              revoke_consent db authenticated.id client visit.now,
            )))))
