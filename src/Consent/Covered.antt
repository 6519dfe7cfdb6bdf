-- ===== src/Consent/Covered.antt =====
-- What has to hold for the authorize handler of consent.rs to issue a code without the screen.
use aver.Prelude.{
  ℕ, Bool, true, false, Option, none, some, List, insert, ◌≡◌, refl, ◌∙◌, ap, arith, ◌⊎◌, inl, inr,
  Bool-cases, ◌==◌, list_eq, nat_eq, not, ◌+◌,
}
use aver.Text.{codes}
use aver.Auth.{
  Text, AuthDb, AuthResult, done, failed, CodeRow, Crates, RegisteredClient, text_agrees,
}
use aver.Auth.Scopes.{encode_scopes}
use aver.Auth.Users.{User}
use aver.Auth.Sessions.{Session, create_session}
use aver.Auth.Clients.{get_client, lists_uri}
use aver.Auth.Codes.{store_authorization_code, code_ttl}
use aver.Auth.Consents.{ClientConsent, get_consent, touch_consent_last_used}
use aver.Auth.Effects.{ensure-either}
use aver.Auth.Endpoint.{is_empty_text}
use aver.Consent.{Web, Deps, Visit, check-either}
use aver.Consent.Session.{
  authenticate_request, ensure_session, session_for, made_session, session_ttl_secs,
}
use aver.Consent.Forms.{AuthorizeQuery, parse_scope, consent_covers}
use aver.Consent.Handlers.{
  no_scopes, skips, answer_authorize, with_client, handle_loopback_get_authorize,
}
use aver.Consent.Guards.{
  Guarded, from_allowed_origin-either, as_user-either, code_reply-either, authenticate-codes,
}

-- The row of a code that is issued on an earlier consent.
abbrev pub covered_row : AuthorizeQuery → User → List Text → ℕ → CodeRow
covered_row query user scopes now = record {
  client_id = query.client_id;
  user_id = user.id;
  code_challenge = query.code_challenge;
  redirect_uri = query.redirect_uri;
  used_at = none;
  expires_at = now + code_ttl;
  created_at = now;
  granted_scopes = encode_scopes scopes;
}

-- The consent that the user had given to the client, on the database as the handler has it after it
-- saw to the session.
pub record Coverage (w : Web) (deps : Deps) (db : AuthDb) (visit : Visit) (query : AuthorizeQuery)
    (issued : AuthDb) : Type 0 where
  pub user : User
  pub client : RegisteredClient
  pub consent : ClientConsent
  pub is_authenticated :
      (authenticate_request w db visit deps.trusted_auth_header).0 ≡ done (some user)
  pub known :
      get_client w.crates
        (authenticate_request w db visit deps.trusted_auth_header).1
        query.client_id
      ≡ done (some client)
  pub uri_registered : lists_uri query.redirect_uri client.redirect_uris ≡ true
  pub challenged : query.code_challenge_method ≡ codes "S256"
  pub consented :
      get_consent
        (ensure_session w
          (authenticate_request w db visit deps.trusted_auth_header).1
          visit
          user.id).1
        user.id
        query.client_id
      ≡ some consent
  pub unrevoked : consent.revoked_at ≡ none
  pub not_empty : no_scopes consent.granted_scopes ≡ false
  pub covers : consent_covers consent.granted_scopes (parse_scope query.scope) ≡ true
  pub stored :
      issued.codes
      ≡ insert visit.code (covered_row query user consent.granted_scopes visit.now) db.codes

made_session-db : (r : AuthResult Session × AuthDb) → (made_session r).1 ≡ r.1
made_session-db (failed e, db) = refl
made_session-db (done session, db) = refl

create_session-codes :
    (c : Crates) (db : AuthDb) (user : Text) (ttl : ℕ) (id : Text) (now : ℕ)
    → (create_session c db user ttl id now).1.codes ≡ db.codes
unfolding create_session
create_session-codes c db user ttl id now =
    ensure-either (λ d. d.codes ≡ db.codes) _ _ db _ refl
      λ _.
        ensure-either (λ d. d.codes ≡ db.codes) _ _ db _ refl
          λ _. ensure-either (λ d. d.codes ≡ db.codes) _ _ db _ refl λ _. refl

made_session-codes :
    (w : Web) (db : AuthDb) (visit : Visit) (id : Text)
    → (made_session
        (create_session w.crates db id session_ttl_secs visit.session_id visit.now)).1.codes
      ≡ db.codes
made_session-codes w db visit id =
    ap (λ (d : AuthDb). d.codes)
      (made_session-db (create_session w.crates db id session_ttl_secs visit.session_id visit.now))
    ∙ create_session-codes w.crates db id session_ttl_secs visit.session_id visit.now

session_for-codes :
    (w : Web) (db : AuthDb) (visit : Visit) (id : Text) (o : Option (Session × User))
    → (session_for w db visit id o).1.codes ≡ db.codes
session_for-codes w db visit id none = made_session-codes w db visit id
session_for-codes w db visit id (some (session, user)) = elim (Bool-cases (user.id == id)) [
  | inl same ↦ rw same refl
  | inr other ↦ rw other (made_session-codes w db visit id)
]

skips-some :
    (o : Option ClientConsent) (scopes : List Text)
    → skips o scopes ≡ true
    → (consent : ClientConsent) × (o ≡ some consent)
      × (consent.revoked_at ≡ none)
      × (no_scopes consent.granted_scopes ≡ false)
      × (consent_covers consent.granted_scopes scopes ≡ true)
skips-some none scopes h = cc h
skips-some (some consent) scopes h =
    (consent, refl, ground (arith, h), ground (arith, h), ground (arith, h))

module _ (old : AuthDb) (Issues : AuthDb → Type 0) where
  answer_authorize-either :
      (w : Web) (deps : Deps) (visit : Visit) (query : AuthorizeQuery) (user : User)
      (r : AuthResult (Session × Bool) × AuthDb)
      → r.1.codes ≡ old.codes
      → ((consent : ClientConsent) (d : AuthDb)
          → get_consent r.1 user.id query.client_id ≡ some consent
          → consent.revoked_at ≡ none
          → no_scopes consent.granted_scopes ≡ false
          → consent_covers consent.granted_scopes (parse_scope query.scope) ≡ true
          → d.codes
            ≡ insert visit.code (covered_row query user consent.granted_scopes visit.now) old.codes
          → Issues d)
      → Guarded old Issues (answer_authorize w deps visit query user r)
  unfolding answer_authorize store_authorization_code touch_consent_last_used
  answer_authorize-either w deps visit query user (failed e, db) same go = inl same
  answer_authorize-either w deps visit query user (done (session, new), db) same go =
      elim (Bool-cases (skips (get_consent db user.id query.client_id) (parse_scope query.scope))) [
        | inl skip ↦
            let (consent, found, unrevoked, some_scopes, covers) = skips-some _ _ skip in
            rw (skip, found)
              (code_reply-either old Issues w query.redirect_uri query.state _ _ (
                ensure-either (λ d. (d.codes ≡ old.codes) ⊎ Issues d) _ _ _ _ (inl same)
                  (λ free. inr (
                    go consent _ found unrevoked some_scopes covers (
                      ap
                        (insert visit.code
                          (covered_row query user consent.granted_scopes visit.now))
                        same)))))
        | inr show ↦ rw show (inl same)
      ]

  with_client-either :
      (w : Web) (deps : Deps) (visit : Visit) (query : AuthorizeQuery) (user : User) (db : AuthDb)
      (r : AuthResult (Option RegisteredClient))
      → db.codes ≡ old.codes
      → (ensure_session w db visit user.id).1.codes ≡ old.codes
      → ((client : RegisteredClient)
          → r ≡ done (some client)
          → lists_uri query.redirect_uri client.redirect_uris ≡ true
          → (consent : ClientConsent) (d : AuthDb)
          → get_consent (ensure_session w db visit user.id).1 user.id query.client_id ≡ some consent
          → consent.revoked_at ≡ none
          → no_scopes consent.granted_scopes ≡ false
          → consent_covers consent.granted_scopes (parse_scope query.scope) ≡ true
          → d.codes
            ≡ insert visit.code (covered_row query user consent.granted_scopes visit.now) old.codes
          → Issues d)
      → Guarded old Issues (with_client w deps visit query user db r)
  with_client-either w deps visit query user db (failed e) same later go = inl same
  with_client-either w deps visit query user db (done none) same later go = inl same
  with_client-either w deps visit query user db (done (some client)) same later go =
      check-either (Guarded old Issues) (lists_uri query.redirect_uri client.redirect_uris) _ db _
        (inl same)
        λ listed.
          answer_authorize-either w deps visit query user (ensure_session w db visit user.id) later
            (go client refl listed)

-- The authorize handler leaves the authorization codes as they are, or it has stored one code, and then
-- the authenticated user has a consent to that client which is not revoked, is not empty and covers
-- every scope of the request, the redirect URI is one of the client's, and the code has the scopes of
-- the consent.
pub authorize-Coverage :
    (w : Web) (deps : Deps) (db : AuthDb) (visit : Visit) (query : AuthorizeQuery)
    → ((handle_loopback_get_authorize w deps db visit query).1.codes ≡ db.codes)
      ⊎ Coverage w deps db visit query (handle_loopback_get_authorize w deps db visit query).1
unfolding handle_loopback_get_authorize ensure_session
authorize-Coverage w deps db visit query =
    let now_db = (authenticate_request w db visit deps.trusted_auth_header).1 in
    let same = authenticate-codes w db visit deps.trusted_auth_header in
    let Issues : AuthDb → Type 0 = Coverage w deps db visit query in
    check-either (Guarded db Issues) (query.response_type == codes "code") _ db _ (inl refl) λ _.
      check-either (Guarded db Issues) (query.code_challenge_method == codes "S256") _ db _
        (inl refl)
        λ s256.
          check-either (Guarded db Issues) (not (is_empty_text query.code_challenge)) _ db _
            (inl refl)
            λ _.
              from_allowed_origin-either db Issues w deps visit _ db _ refl
                λ base based from_origin. as_user-either db Issues _ _ same λ user is_auth.
                  with_client-either db Issues w deps visit query user now_db _ same
                    (session_for-codes w now_db visit user.id _ ∙ same)
                    λ client known listed consent d found unrevoked some_scopes covers stored.
                      record {
                        user = user;
                        client = client;
                        consent = consent;
                        is_authenticated = is_auth;
                        known = known;
                        uri_registered = listed;
                        challenged = (text_agrees _ _).0 s256;
                        consented = found;
                        unrevoked = unrevoked;
                        not_empty = some_scopes;
                        covers = covers;
                        stored = stored;
                      }
