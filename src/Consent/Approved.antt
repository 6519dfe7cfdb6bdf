-- ===== src/Consent/Approved.antt =====
-- What has to hold for the decision handler of consent.rs to issue a code.
use aver.Prelude.{
  [], ◌∷◌, none, false, Option, Bool-cases, inr, refl, arith, ◌&&◌, option_eq, string_eq, true,
  some, List, insert, ◌≡◌, ◌⊎◌, inl, ◌==◌, list_eq, nat_eq,
}
use aver.Text.{codes, any}
use aver.Auth.{Text, Url, AuthDb, done, Crates, text_agrees}
use aver.Auth.Users.{User}
use aver.Auth.Sessions.{Session}
use aver.Auth.Clients.{client_allows_redirect_uri}
use aver.OauthScopes.{parsed}
use aver.Consent.{Headers, Web, Deps, Visit, check-either}
use aver.Consent.Origin.{
  passes, validate_browser_origin, matched, check_origin, is_cross_site, origins_match,
  eq_ignore_ascii_case, has_non_cross_site_fetch_metadata,
}
use aver.Consent.Session.{authenticate_request, current_session, verify_csrf_token}
use aver.Consent.Forms.{DecisionForm, selected_scopes_from_form}
use aver.Consent.Handlers.{handle_authorize_decision}
use aver.Consent.Guards.{
  approved_row, Guarded, from_allowed_origin-either, in_session-either, registered-either,
  as_user-either, decide-either, authenticate-codes,
}

-- The browser does not call the request cross-site, and it carries no Origin header, or an Origin that
-- has the scheme, the host and the port of the server's own URL, or the Origin `null` next to a
-- Sec-Fetch-Site of `same-origin`, `same-site` or `none`.
abbrev pub IsOwnOrigin : Crates → Headers → Url → Type 0
IsOwnOrigin c headers base =
    (is_cross_site headers.sec_fetch_site ≡ false)
    × ((headers.origin ≡ none)
        ⊎ ((origin : Text) × (headers.origin ≡ some (some origin))
            × (((eq_ignore_ascii_case origin (codes "null") ≡ true)
                  × (has_non_cross_site_fetch_metadata headers.sec_fetch_site ≡ true))
                ⊎ ((url : Url) × (c.parse_url origin ≡ some url)
                    × (url.scheme ≡ base.scheme)
                    × (url.host_str ≡ base.host_str)
                    × (url.port ≡ base.port)))))

matched-IsOwnOrigin :
    (base : Url) (o : Option Url)
    → matched (base ∷ []) o ≡ passes
    → (url : Url) × (o ≡ some url)
      × (url.scheme ≡ base.scheme)
      × (url.host_str ≡ base.host_str)
      × (url.port ≡ base.port)
unfolding origins_match any
matched-IsOwnOrigin base none h = cc h
matched-IsOwnOrigin base (some url) h = elim (Bool-cases (origins_match url base)) [
  | inr differs ↦ cc (rw (differs, any) at h)
  | inl same ↦ (
    url,
    refl,
    (list_eq.agrees url.scheme base.scheme).0 (ground (arith, same)),
    (option_eq.agrees url.host_str base.host_str).0 (ground (arith, same)),
    (option_eq.agrees url.port base.port).0 (ground (arith, same)),
  )
]

check_origin-IsOwnOrigin :
    (c : Crates) (headers : Headers) (base : Url) (o : Option (Option Text))
    → headers.origin ≡ o
    → is_cross_site headers.sec_fetch_site ≡ false
    → check_origin c headers.sec_fetch_site (base ∷ []) o ≡ passes
    → IsOwnOrigin c headers base
check_origin-IsOwnOrigin c headers base none e here h = (here, inl e)
check_origin-IsOwnOrigin c headers base (some none) e here h = cc h
check_origin-IsOwnOrigin c headers base (some (some origin)) e here h =
    let null = eq_ignore_ascii_case origin (codes "null") in
    let same = has_non_cross_site_fetch_metadata headers.sec_fetch_site in
    elim (Bool-cases (null && same)) [
      | inl both ↦ (here, inr (origin, e, inl (ground (arith, both), ground (arith, both))))
      | inr other ↦
          let h' : matched (base ∷ []) (c.parse_url origin) ≡ passes = rw other at h in
          (here, inr (origin, e, inr (matched-IsOwnOrigin base (c.parse_url origin) h')))
    ]

validate-IsOwnOrigin :
    (c : Crates) (headers : Headers) (base : Url)
    → validate_browser_origin c headers (base ∷ []) ≡ passes
    → IsOwnOrigin c headers base
unfolding validate_browser_origin
validate-IsOwnOrigin c headers base h = elim (Bool-cases (is_cross_site headers.sec_fetch_site)) [
  | inl cross ↦ cc (rw cross at h)
  | inr here ↦ check_origin-IsOwnOrigin c headers base headers.origin refl here (rw here at h)
]

-- The user who made the request, by the loopback address or the trusted header, holds the session of
-- the cookie; the origin check of `IsOwnOrigin` passes; the token is that of the session, the client and the challenge;
-- the client has registered the redirect URI; and the form approves.
pub record Approval (w : Web) (deps : Deps) (db : AuthDb) (visit : Visit) (form : DecisionForm)
    (issued : AuthDb) : Type 0 where
  pub authenticated : User
  pub session : Session
  pub user : User
  pub base : Url
  pub scopes : List Text
  pub is_authenticated :
      (authenticate_request w db visit deps.trusted_auth_header).0 ≡ done (some authenticated)
  pub based : w.crates.parse_url deps.base_url ≡ some base
  pub from_origin : IsOwnOrigin w.crates visit.headers base
  pub by_s256 : form.code_challenge_method ≡ codes "S256"
  pub in_its_session :
      current_session visit.headers
        (authenticate_request w db visit deps.trusted_auth_header).1
        visit.now
      ≡ some (session, user)
  pub same_user : user.id ≡ authenticated.id
  pub csrf :
      verify_csrf_token w deps.csrf_secret session.id form.client_id form.code_challenge
        form.csrf_token
      ≡ true
  pub uri_registered :
      client_allows_redirect_uri w.crates
        (authenticate_request w db visit deps.trusted_auth_header).1
        form.client_id
        form.redirect_uri
      ≡ done true
  pub approves : form.decision ≡ codes "approve"
  pub selected : selected_scopes_from_form form ≡ parsed scopes
  pub stored : issued.codes ≡ insert visit.code (approved_row form user scopes visit.now) db.codes

-- The decision handler leaves the authorization codes as they are, or it has stored one code, and then
-- the request was authenticated as the user of its session, was not called cross-site and had no
-- Origin header, the server's own origin, or the Origin `null` with fetch metadata of the same site or
-- of no site, had the anti-CSRF token of that session, client and challenge, named a redirect URI of the client, and
-- approved; the code is the user's, and has the scopes that the form selected.
pub decision-Approval :
    (w : Web) (deps : Deps) (db : AuthDb) (visit : Visit) (form : DecisionForm)
    → ((handle_authorize_decision w deps db visit form).1.codes ≡ db.codes)
      ⊎ Approval w deps db visit form (handle_authorize_decision w deps db visit form).1
unfolding handle_authorize_decision
decision-Approval w deps db visit form =
    let now_db = (authenticate_request w db visit deps.trusted_auth_header).1 in
    let same = authenticate-codes w db visit deps.trusted_auth_header in
    let Issues : AuthDb → Type 0 = Approval w deps db visit form in
    as_user-either db Issues _ _ same λ authenticated is_auth.
      from_allowed_origin-either db Issues w deps visit _ now_db _ same λ base based from_origin.
        check-either (Guarded db Issues) (form.code_challenge_method == codes "S256") _ now_db _
          (inl same)
          λ s256.
            in_session-either db Issues authenticated now_db _ _ same
              λ session user in_its same_user.
                check-either (Guarded db Issues)
                  (verify_csrf_token w deps.csrf_secret session.id form.client_id
                    form.code_challenge form.csrf_token)
                  _ now_db _ (inl same)
                  λ csrf. registered-either db Issues now_db _ _ same λ uri_ok.
                    decide-either db Issues w visit form user now_db same
                      λ scopes d approves selected stored. record {
                        authenticated = authenticated;
                        session = session;
                        user = user;
                        base = base;
                        scopes = scopes;
                        is_authenticated = is_auth;
                        based = based;
                        from_origin = validate-IsOwnOrigin w.crates visit.headers base from_origin;
                        by_s256 = (text_agrees _ _).0 s256;
                        in_its_session = in_its;
                        same_user = same_user;
                        csrf = csrf;
                        uri_registered = uri_ok;
                        approves = approves;
                        selected = selected;
                        stored = stored;
                      }
