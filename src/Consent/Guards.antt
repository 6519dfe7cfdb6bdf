-- ===== src/Consent/Guards.antt =====
-- The guards of the handlers of consent.rs, as to the authorization codes: each leaves them as they
-- are, or goes on.
use aver.Auth.Effects.{ensure-either}
use aver.Prelude.{
  find, pair_eq, [], ◌∷◌, ℕ, Bool, true, false, Option, none, some, List, insert, String, ◌≡◌, refl,
  ◌∙◌, ap, ◌⊎◌, inl, inr, Bool-cases, ◌==◌, list_eq, nat_eq, ◌+◌,
}
use aver.Text.{codes}
use aver.Auth.{
  Text, Url, AuthDb, AuthResult, done, failed, CodeRow, UserRow, ConsentRow, Crates, text_agrees,
}
use aver.Auth.Scopes.{encode_scopes}
use aver.Auth.Users.{local, header, User, upserted, upsert_user}
use aver.Auth.Sessions.{Session}
use aver.Auth.Codes.{store_authorization_code, code_ttl}
use aver.Auth.Consents.{record_consent, granted}
use aver.OauthScopes.{Parsed, parsed, unknown}
use aver.Consent.{Headers, Web, Deps, Visit, check-either}
use aver.Consent.Origin.{Verdict, passes, refused, validate_browser_origin}
use aver.Consent.Session.{authenticate_request, after_upsert, upserts_named}
use aver.Consent.Forms.{DecisionForm, selected_scopes_from_form}
use aver.Consent.Handlers.{
  Reply, judged, with_base, from_allowed_origin, as_user, code_reply, after_consent, approve,
  decide, registered, in_session,
}

-- The row of a code that an approval stores.
abbrev pub approved_row : DecisionForm → User → List Text → ℕ → CodeRow
approved_row form user scopes now = record {
  client_id = form.client_id;
  user_id = user.id;
  code_challenge = form.code_challenge;
  redirect_uri = form.redirect_uri;
  used_at = none;
  expires_at = now + code_ttl;
  created_at = now;
  granted_scopes = encode_scopes scopes;
}

after_upsert-db : (id : Text) (r : AuthResult Unit × AuthDb) → (after_upsert id r).1 ≡ r.1
after_upsert-db id (failed e, db) = refl
after_upsert-db id (done u, db) = refl

upserted-codes :
    (db : AuthDb) (id : Text) (row : UserRow) (o : Option UserRow)
    → (upserted db id row o).codes ≡ db.codes
upserted-codes db id row none = refl
upserted-codes db id row (some old) = refl

upsert_user-codes : (db : AuthDb) (user : User) → (upsert_user db user).1.codes ≡ db.codes
unfolding upsert_user
upsert_user-codes db user =
    ensure-either (λ d. d.codes ≡ db.codes) _ _ db _ refl
      λ _.
        ensure-either (λ d. d.codes ≡ db.codes) _ _ db _ refl
          λ _. upserted-codes db user.id _ (find user.id db.users)

after_upsert-codes :
    (id : Text) (db : AuthDb) (user : User)
    → (after_upsert id (upsert_user db user)).1.codes ≡ db.codes
after_upsert-codes id db user =
    ap (λ (d : AuthDb). d.codes) (after_upsert-db id (upsert_user db user))
    ∙ upsert_user-codes db user

upserts_named-codes :
    (db : AuthDb) (now : ℕ) (o : Option Text) → (upserts_named db now o).1.codes ≡ db.codes
upserts_named-codes db now none = refl
upserts_named-codes db now (some id) =
    after_upsert-codes id db
      (record { id = id; kind = header; external_id = none; created_at = now })

pub authenticate-codes :
    (w : Web) (db : AuthDb) (visit : Visit) (trusted : Option Text)
    → (authenticate_request w db visit trusted).1.codes ≡ db.codes
unfolding authenticate_request
authenticate-codes w db visit trusted = elim (Bool-cases visit.is_loopback) [
  | inl loopback ↦ rw loopback (
      after_upsert-codes (codes "local") db
        (record { id = codes "local"; kind = local; external_id = none; created_at = visit.now }))
  | inr remote ↦ rw remote (upserts_named-codes db visit.now _)
]

granted-codes :
    (c : Crates) (key : Text × Text) (scopes : Text) (now : ℕ) (db : AuthDb) (o : Option ConsentRow)
    → (granted c key scopes now db o).1.codes ≡ db.codes
granted-codes c key scopes now db none =
    ensure-either (λ d. d.codes ≡ db.codes) _ _ db _ refl λ _. refl
granted-codes c key scopes now db (some old) = refl

record_consent-codes :
    (c : Crates) (db : AuthDb) (user client : Text) (scopes : List Text) (now : ℕ)
    → (record_consent c db user client scopes now).1.codes ≡ db.codes
unfolding record_consent
record_consent-codes c db user client scopes now =
    ensure-either (λ d. d.codes ≡ db.codes) _ _ db _ refl
      λ _.
        ensure-either (λ d. d.codes ≡ db.codes) _ _ db _ refl
          λ _. granted-codes c (user, client) _ now db (find (user, client) db.consents)

module _ (old : AuthDb) (Issues : AuthDb → Type 0) where
  -- The codes are those of before, or `Issues` holds.
  abbrev pub Guarded : Reply → Type 0
  Guarded r = (r.1.codes ≡ old.codes) ⊎ Issues r.1

  pub judged-either :
      (v : Verdict) (title : String) (db : AuthDb) (next : Reply)
      → db.codes ≡ old.codes
      → (v ≡ passes → Guarded next)
      → Guarded (judged v title db next)
  judged-either passes title db next same go = go refl
  judged-either (refused e) title db next same go = inl same

  pub with_base-either :
      (w : Web) (headers : Headers) (title : String) (db : AuthDb) (o : Option Url) (next : Reply)
      → db.codes ≡ old.codes
      → ((base : Url)
          → o ≡ some base
          → validate_browser_origin w.crates headers (base ∷ []) ≡ passes
          → Guarded next)
      → Guarded (with_base w headers title db o next)
  with_base-either w headers title db none next same go = inl same
  with_base-either w headers title db (some base) next same go =
      judged-either (validate_browser_origin w.crates headers (base ∷ [])) title db next same
        (go base refl)

  pub from_allowed_origin-either :
      (w : Web) (deps : Deps) (visit : Visit) (title : String) (db : AuthDb) (next : Reply)
      → db.codes ≡ old.codes
      → ((base : Url)
          → w.crates.parse_url deps.base_url ≡ some base
          → validate_browser_origin w.crates visit.headers (base ∷ []) ≡ passes
          → Guarded next)
      → Guarded (from_allowed_origin w deps visit title db next)
  unfolding from_allowed_origin
  from_allowed_origin-either w deps visit title db next same go =
      with_base-either w visit.headers title db (w.crates.parse_url deps.base_url) next same go

  pub in_session-either :
      (authenticated : User) (db : AuthDb) (o : Option (Session × User))
      (next : Session → User → Reply)
      → db.codes ≡ old.codes
      → ((session : Session) (user : User)
          → o ≡ some (session, user)
          → user.id ≡ authenticated.id
          → Guarded (next session user))
      → Guarded (in_session authenticated db o next)
  in_session-either authenticated db none next same go = inl same
  in_session-either authenticated db (some (session, user)) next same go =
      check-either Guarded (user.id == authenticated.id) _ db _ (inl same)
        λ p. go session user refl ((text_agrees user.id authenticated.id).0 p)

  pub registered-either :
      (db : AuthDb) (r : AuthResult Bool) (next : Reply)
      → db.codes ≡ old.codes
      → (r ≡ done true → Guarded next)
      → Guarded (registered db r next)
  registered-either db (failed e) next same go = inl same
  registered-either db (done false) next same go = inl same
  registered-either db (done true) next same go = go refl

  pub as_user-either :
      (r : AuthResult (Option User) × AuthDb) (next : User → AuthDb → Reply)
      → r.1.codes ≡ old.codes
      → ((user : User) → r.0 ≡ done (some user) → Guarded (next user r.1))
      → Guarded (as_user r next)
  as_user-either (failed e, db) next same go = inl same
  as_user-either (done none, db) next same go = inl same
  as_user-either (done (some user), db) next same go = go user refl

  pub code_reply-either :
      (w : Web) (uri : Text) (state cookie : Option Text) (r : AuthResult Text × AuthDb)
      → (r.1.codes ≡ old.codes) ⊎ Issues r.1
      → Guarded (code_reply w uri state cookie r)
  code_reply-either w uri state cookie (failed e, db) h = h
  code_reply-either w uri state cookie (done code, db) h = h

  pub after_consent-either :
      (w : Web) (visit : Visit) (form : DecisionForm) (user : User) (scopes : List Text)
      (r : AuthResult Unit × AuthDb)
      → r.1.codes ≡ old.codes
      → ((db : AuthDb)
          → db.codes ≡ insert visit.code (approved_row form user scopes visit.now) old.codes
          → Issues db)
      → Guarded (after_consent w visit form user scopes r)
  unfolding store_authorization_code
  after_consent-either w visit form user scopes (failed e, db) same go = inl same
  after_consent-either w visit form user scopes (done u, db) same go =
      code_reply-either w form.redirect_uri form.state none _ (
        ensure-either (λ d. (d.codes ≡ old.codes) ⊎ Issues d) _ _ db _ (inl same)
          (λ free.
            inr (go _ (ap (insert visit.code (approved_row form user scopes visit.now)) same))))

  pub approve-either :
      (w : Web) (visit : Visit) (form : DecisionForm) (user : User) (db : AuthDb)
      (p : Parsed (List Text))
      → db.codes ≡ old.codes
      → ((scopes : List Text) (d : AuthDb)
          → p ≡ parsed scopes
          → d.codes ≡ insert visit.code (approved_row form user scopes visit.now) old.codes
          → Issues d)
      → Guarded (approve w visit form user db p)
  approve-either w visit form user db (unknown raw) same go = inl same
  approve-either w visit form user db (parsed scopes) same go =
      after_consent-either w visit form user scopes _
        (record_consent-codes w.crates db user.id form.client_id scopes visit.now ∙ same)
        (λ d. go scopes d refl)

  pub decide-either :
      (w : Web) (visit : Visit) (form : DecisionForm) (user : User) (db : AuthDb)
      → db.codes ≡ old.codes
      → ((scopes : List Text) (d : AuthDb)
          → form.decision ≡ codes "approve"
          → selected_scopes_from_form form ≡ parsed scopes
          → d.codes ≡ insert visit.code (approved_row form user scopes visit.now) old.codes
          → Issues d)
      → Guarded (decide w visit form user db)
  unfolding decide
  decide-either w visit form user db same go =
      elim (Bool-cases (form.decision == codes "approve")) [
        | inl yea ↦ rw yea (
            approve-either w visit form user db (selected_scopes_from_form form) same
              (λ scopes d. go scopes d ((text_agrees _ _).0 yea)))
        | inr nay ↦ elim (Bool-cases (form.decision == codes "deny")) [
          | inl deny ↦ rw (nay, deny) (inl same)
          | inr other ↦ rw (nay, other) (inl same)
        ]
      ]
