-- ===== src/Auth/Answers.antt =====
-- What the token endpoint and the bearer check of http.rs answer.
use aver.Prelude.{
  if_true, if_false, Bool-cases, ◌↔◌, ℕ, Bool, true, false, Option, none, some, List, [], ◌∷◌, ◌++◌,
  find, ◌≡◌, refl, ap, ◌∙◌, sym, arith, list_eq, nat_eq, ◌==◌, ==_refl, inl, inr, ◌<◌,
  if◌then◌else◌,
}
use aver.Text.{codes}
use aver.Auth.{
  text_agrees, Text, Crates, TokenPair, TokenRow, CodeRow, AuthDb, AuthResult, done, failed,
  hash_token, is_live,
}
use aver.Auth.Codes.{exchange_authorization_code_for_tokens}
use aver.Auth.Tokens.{refresh_access_token, access_token_grant, grant_from}
use aver.Auth.SingleUse.{Exchangeable, exchange_from-done}
use aver.Auth.Refreshing.{Refreshable, refresh_from-done}
use aver.Auth.Endpoint.{
  TokenError, invalid_request, TokenRequest, TokenReply, tokens, token_error, granted_or,
  lacks_a_field, is_empty_text, oauth_token, authenticated, strip_prefix, bearer_from,
  validate_token, validate_bearer_token,
}
use aver.OauthScopes.{Scope, parse_scope_list_lossy}

granted_or-tokens :
    (r : AuthResult TokenPair × AuthDb) (got : TokenPair)
    → (granted_or r).0 ≡ tokens got
    → r.0 ≡ done got
granted_or-tokens (done pair, db) got h = ground (arith, h)
granted_or-tokens (failed e, db) got h = cc h

-- The two ways to be given tokens.
pub data Justified (c : Crates) (db : AuthDb) (request : TokenRequest) (now : ℕ) : Type 0 where
  by_code :
      (row : CodeRow)
      → request.grant_type ≡ codes "authorization_code"
      → find request.code db.codes ≡ some row
      → Exchangeable c request.client_id request.code_verifier request.redirect_uri now row
      → Justified c db request now
  by_refresh :
      (row : TokenRow)
      → request.grant_type ≡ codes "refresh_token"
      → find (hash_token c request.refresh_token) db.refresh_tokens ≡ some row
      → Refreshable now row
      → Justified c db request now

-- Branches that answer with an error give no tokens.
only_else :
    (b : Bool) (e : TokenError) (db : AuthDb) (next : TokenReply × AuthDb) (got : TokenPair)
    → (if b then (token_error e, db) else next).0 ≡ tokens got
    → next.0 ≡ tokens got
only_else true e db next got h = cc h
only_else false e db next got h = h

exchange-Justified :
    (c : Crates) (db : AuthDb) (request : TokenRequest) (now later : ℕ) (family : Text)
    (pair got : TokenPair)
    → request.grant_type ≡ codes "authorization_code"
    → (exchange_authorization_code_for_tokens c db request.code request.client_id
        request.code_verifier request.redirect_uri now later family pair).0
      ≡ done got
    → Justified c db request now
unfolding exchange_authorization_code_for_tokens
exchange-Justified c db request now later family pair got g h =
    let (row, f, ok, _) =
      exchange_from-done c db request.code request.client_id request.code_verifier
        request.redirect_uri now later family pair got (find request.code db.codes) h in
    by_code row g f ok

refresh-Justified :
    (c : Crates) (db : AuthDb) (request : TokenRequest) (now later : ℕ) (pair got : TokenPair)
    → request.grant_type ≡ codes "refresh_token"
    → (refresh_access_token c db request.refresh_token now later pair).0 ≡ done got
    → Justified c db request now
unfolding refresh_access_token
refresh-Justified c db request now later pair got g h =
    let hash = hash_token c request.refresh_token in
    let (row, f, ok, _) =
      refresh_from-done c db hash now later pair got (find hash db.refresh_tokens) h in
    by_refresh row g f ok

-- The token endpoint answers with tokens only to a request that presents, with its grant type, either
-- a code that may be exchanged with the request's client, verifier and redirect URI, or a refresh
-- token that is live and has not expired.
pub oauth_token-Justified :
    (c : Crates) (db : AuthDb) (request : TokenRequest) (now later : ℕ) (family : Text)
    (pair got : TokenPair)
    → (oauth_token c db request now later family pair).0 ≡ tokens got
    → Justified c db request now
unfolding oauth_token
oauth_token-Justified c db request now later family pair got h =
    elim (Bool-cases (request.grant_type == codes "authorization_code")) [
      | inl code ↦
          exchange-Justified c db request now later family pair got ((text_agrees _ _).0 code) (
            granted_or-tokens _ got (
              only_else (lacks_a_field request) invalid_request db _ got
                (sym (ap (λ (r : TokenReply × AuthDb). r.0) (if_true _ _ _ code)) ∙ h)))
      | inr other ↦ elim (Bool-cases (request.grant_type == codes "refresh_token")) [
        | inl refresh ↦
            refresh-Justified c db request now later pair got ((text_agrees _ _).0 refresh) (
              granted_or-tokens _ got (
                only_else (is_empty_text request.refresh_token) invalid_request db _ got (
                  sym (
                    ap (λ (r : TokenReply × AuthDb). r.0)
                      (if_false _ _ _ other ∙ if_true _ _ _ refresh))
                  ∙ h)))
        | inr neither ↦ absurd (
            ground (
              arith,
              sym (
                    ap (λ (r : TokenReply × AuthDb). r.0)
                      (if_false _ _ _ other ∙ if_false _ _ _ neither))
                  ∙ h,
            ))
      ]
    ]

strip_prefix-append : (p s : Text) → strip_prefix p (p ++ s) ≡ some s
strip_prefix-append [] s = refl
strip_prefix-append (c ∷ p) s = rw (==_refl c) (strip_prefix-append p s)

bearer_some :
    (now : ℕ) (granted : List Scope) (client : Option Text) (o : Option TokenRow)
    → (bearer_from (grant_from now o) ≡ authenticated granted client) ↔ (
        (row : TokenRow) × (o ≡ some row)
        × (is_live row ≡ true)
        × (now < row.expires_at)
        × (parse_scope_list_lossy row.granted_scopes ≡ granted)
        × (row.client_id ≡ client))
bearer_some now granted client none = (λ h. cc h, λ (row, e, live, fresh, scopes, same). cc e)
bearer_some now granted client (some row) = (
  λ h. (row, refl, ground (arith, h), ground (arith, h), ground (arith, h), ground (arith, h)),
  λ (r, e, live, fresh, scopes, same). ground (arith, e, live, fresh, scopes, same),
)

bearer-grant :
    (c : Crates) (db : AuthDb) (token : Text) (now : ℕ)
    → validate_bearer_token c db (some (codes "Bearer " ++ token)) now
      ≡ bearer_from (access_token_grant db (hash_token c token) now)
unfolding validate_bearer_token
bearer-grant c db token now =
    ap (λ o. validate_token c db o now) (strip_prefix-append (codes "Bearer ") token)

-- A bearer token is accepted exactly while its row is there, not revoked and not expired; the request
-- then carries the known scopes of the row and its client.
pub validate_bearer_token_iff :
    (c : Crates) (db : AuthDb) (token : Text) (now : ℕ) (granted : List Scope)
    (client : Option Text)
    → (validate_bearer_token c db (some (codes "Bearer " ++ token)) now
        ≡ authenticated granted client)
      ↔ ((row : TokenRow) × (find (hash_token c token) db.access_tokens ≡ some row)
          × (is_live row ≡ true)
          × (now < row.expires_at)
          × (parse_scope_list_lossy row.granted_scopes ≡ granted)
          × (row.client_id ≡ client))
unfolding access_token_grant
validate_bearer_token_iff c db token now granted client =
    rw (bearer-grant c db token now)
      (bearer_some now granted client (find (hash_token c token) db.access_tokens))
