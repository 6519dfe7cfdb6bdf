-- ===== src/Auth/Refreshing.antt =====
-- The refresh of a pair in auth.rs: when it succeeds, and what the new pair grants.
use aver.Prelude.{
  ℕ, Bool, true, false, Option, none, some, find, modify, ◌+◌, ◌<◌, ◌≡◌, ◌↔◌, refl, sym, ap, ◌∙◌,
  arith, list_eq, nat_eq, find-replace, find-modify_hit, ◌==◌, ltb, if◌then◌else◌,
}
use aver.Auth.{
  AuthError, reuse_detected, Text, Crates, TokenPair, TokenRow, AccessTokenGrant, AuthDb,
  AuthResult, done, failed, is_some, revoke, hash_token, ensure-done, ensure_pass,
  refresh_token_expired, already_rotated, refresh_token_ttl_secs,
}
use aver.Auth.Scopes.{encode_scopes, decode_scopes}
use aver.Auth.Words.{decode-encode-decode}
use aver.Auth.Tokens.{
  affected, issue_token_pair_in, refresh_access_token, refresh_from, rotate, revoke_live,
  access_token_grant, minted,
}
use aver.Auth.Grants.{issued_in_time}

-- What the refresh asks of the stored row.
abbrev pub Refreshable : ℕ → TokenRow → Type 0
Refreshable now row = (is_some row.revoked_at ≡ false) × (now < row.expires_at)

-- Where one branch fails, success comes from the other.
if_failed :
    {A : Type 0} (b : Bool) (e : AuthError) (db : AuthDb) (next : AuthResult A × AuthDb) (a : A)
    → (if b then (failed e, db) else next).0 ≡ done a
    → (b ≡ false) × ((if b then (failed e, db) else next) ≡ next)
if_failed true e db next a h = cc h
if_failed false e db next a h = (refl, refl)

abbrev pub rotated_db : Crates → AuthDb → Text → TokenRow → (now later : ℕ) → TokenPair → AuthDb
rotated_db c db hash row now later pair =
    (issue_token_pair_in c
      (record db { refresh_tokens = modify hash (revoke_live now) db.refresh_tokens }) row.user_id
      row.client_id row.family_id (decode_scopes row.granted_scopes) pair later).1

pub refresh_from-done :
    (c : Crates) (db : AuthDb) (hash : Text) (now later : ℕ) (pair got : TokenPair)
    (o : Option TokenRow)
    → (refresh_from c db hash now later pair o).0 ≡ done got
    → (row : TokenRow) × (o ≡ some row)
      × Refreshable now row
      × (refresh_from c db hash now later pair o
          ≡ (done pair, rotated_db c db hash row now later pair))
unfolding rotate issue_token_pair_in
refresh_from-done c db hash now later pair got none h = cc h
refresh_from-done c db hash now later pair got (some row) h =
    let (live, e1) = if_failed (is_some row.revoked_at) reuse_detected _ _ got h in
    let (fresh, e2, h2) =
      ensure-done (ltb now row.expires_at) _ db _ got (sym (ap (λ r. r.0) e1) ∙ h) in
    let (found, e3, h3) = ensure-done (affected (find hash db.refresh_tokens)) _ db _ got h2 in
    (row, refl, (live, ground (arith, fresh)), e1 ∙ e2 ∙ e3)

refresh_from-pass :
    (c : Crates) (db : AuthDb) (hash : Text) (now later : ℕ) (pair : TokenPair) (row : TokenRow)
    → find hash db.refresh_tokens ≡ some row
    → Refreshable now row
    → (refresh_from c db hash now later pair (some row)).0 ≡ done pair
unfolding rotate issue_token_pair_in
refresh_from-pass c db hash now later pair row f (live, fresh) =
    rw
      (
        live,
        ensure_pass (ltb now row.expires_at) refresh_token_expired db _ (ground (arith, fresh)),
        ensure_pass (affected (find hash db.refresh_tokens)) already_rotated db _
            (rw f (ground (arith, live))),
      )
      refl

-- A refresh succeeds exactly when the token is stored, is neither rotated nor revoked, and has not
-- expired; the check that the rotation wrote a row never fails by itself.
pub refresh_iff :
    (c : Crates) (db : AuthDb) (token : Text) (now later : ℕ) (pair : TokenPair)
    → ((row : TokenRow) × (find (hash_token c token) db.refresh_tokens ≡ some row)
        × Refreshable now row)
      ↔ ((refresh_access_token c db token now later pair).0 ≡ done pair)
unfolding refresh_access_token
refresh_iff c db token now later pair = (
  λ (row, f, ok). rw f (refresh_from-pass c db (hash_token c token) now later pair row f ok),
  λ h.
      let (row, f, ok, _) =
        refresh_from-done c db (hash_token c token) now later pair pair
          (find (hash_token c token) db.refresh_tokens) h in
      (row, f, ok),
)

rotated-old :
    (c : Crates) (db : AuthDb) (hash : Text) (row : TokenRow) (now later : ℕ) (pair : TokenPair)
    → find hash db.refresh_tokens ≡ some row
    → is_some row.revoked_at ≡ false
    → (hash_token c pair.refresh_token == hash) ≡ false
    → find hash (rotated_db c db hash row now later pair).refresh_tokens ≡ some (revoke now row)
unfolding issue_token_pair_in
rotated-old c db hash row now later pair f live other =
    rw
      (
        find-replace (hash_token c pair.refresh_token) hash
            (minted row.user_id row.client_id row.family_id (decode_scopes row.granted_scopes) later
              refresh_token_ttl_secs)
            (modify hash (revoke_live now) db.refresh_tokens),
        other,
        find-modify_hit hash (revoke_live now) db.refresh_tokens,
        f,
        live,
      )
      refl

-- A refresh that succeeds answers with the pair that was drawn, and until its lifetime has passed the
-- access token of that pair has the user and the client of the old token and decodes to its scopes, and the old token is
-- revoked unless the new one has the same hash.
pub refresh-grant :
    (c : Crates) (db : AuthDb) (token : Text) (now later : ℕ) (pair got : TokenPair)
    → (refresh_access_token c db token now later pair).0 ≡ done got
    → (got ≡ pair)
      × (row : TokenRow) × (find (hash_token c token) db.refresh_tokens ≡ some row)
      × ((time : ℕ)
          → time < later + 3600
          → (grant : AccessTokenGrant) × (access_token_grant
                (refresh_access_token c db token now later pair).1
                (hash_token c pair.access_token)
                time
              ≡ some grant)
            × (grant.user_id ≡ row.user_id)
            × (grant.client_id ≡ row.client_id)
            × (decode_scopes grant.granted_scopes ≡ decode_scopes row.granted_scopes))
      × (((hash_token c pair.refresh_token == hash_token c token) ≡ false)
          → find
              (hash_token c token)
              (refresh_access_token c db token now later pair).1.refresh_tokens
            ≡ some (revoke now row))
unfolding refresh_access_token
refresh-grant c db token now later pair got h =
    let hash = hash_token c token in
    let (row, f, (live, _), e) =
      refresh_from-done c db hash now later pair got (find hash db.refresh_tokens) h in
    let answers : done pair ≡ done got = sym (ap (λ r. r.0) e) ∙ h in
    (
      cc answers,
      row,
      f,
      λ time early. (
        record {
          user_id = row.user_id;
          client_id = row.client_id;
          granted_scopes = encode_scopes (decode_scopes row.granted_scopes);
        },
        ap (λ r. access_token_grant r.1 (hash_token c pair.access_token) time) e
            ∙ issued_in_time c _ row.user_id row.client_id row.family_id
                (decode_scopes row.granted_scopes) pair later time early,
        refl,
        refl,
        decode-encode-decode row.granted_scopes,
      ),
      λ other.
          ap (λ r. find hash r.1.refresh_tokens) e
          ∙ rotated-old c db hash row now later pair f live other,
    )
