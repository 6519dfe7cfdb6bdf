-- ===== src/Auth/Effects.antt =====
-- What a call of auth.rs does to the codes and the tokens: an abstract step, which the invariants of
-- histories are proved on.
use aver.Auth.Sessions.{create_session, delete_session}
use aver.Auth.Consents.{granted, record_consent, revoke_consent, touch_consent_last_used, given_to}
use aver.Auth.Users.{upserted, upsert_user}
use aver.Auth.Clients.{insert_client, register_client}
use aver.Auth.Codes.{
  exchange_from, store_authorization_code, exchange_authorization_code_for_tokens, spend,
}
use aver.Auth.Tokens.{
  rotate, refresh_from, revoke_token_family, store_access_token_hash,
  store_access_token_hash_for_client, issue_token_pair, issue_token_pair_in, refresh_access_token,
  minted, in_family, revoke_live,
}
use aver.Auth.Calls.{
  registers, stores_token, stores_code, exchanges, refreshes, upserts, consents, revokes, touches,
  opens, deletes, Call, perform,
}
use aver.Prelude.{
  pair_eq, inl, inr, Bool-cases, Option-cases, list_eq, nat_eq, ℕ, Bool, true, false, Option, none,
  some, List, find, insert, modify, replace, update_where, ◌≡◌, refl, arith,
}
use aver.Auth.{
  UserRow, ConsentRow, Text, Crates, AuthError, AuthResult, TokenPair, TokenRow, CodeRow, AuthDb,
  ensure, is_some, is_live, revoke, hash_token, access_token_ttl_secs, refresh_token_ttl_secs,
}
use aver.Auth.Scopes.{decode_scopes}

-- The three tables that the steps speak about.
abbrev pub Same : AuthDb → AuthDb → Type 0
Same db db' =
    (db'.access_tokens ≡ db.access_tokens)
    × (db'.refresh_tokens ≡ db.refresh_tokens)
    × (db'.codes ≡ db.codes)

pub data Effect (c : Crates) (db db' : AuthDb) : Call → Type 0 where
  quiet : {call : Call} → Same db db' → Effect c db db' call
  stored :
      {hash user : Text} {scopes : List Text} {family : Text} {now : ℕ}
      → db'.access_tokens
        ≡ replace hash (minted user none family scopes now access_token_ttl_secs) db.access_tokens
      → db'.refresh_tokens ≡ db.refresh_tokens
      → db'.codes ≡ db.codes
      → Effect c db db' (stores_token hash user scopes family now)
  coded :
      {call : Call} (code : Text) (row : CodeRow)
      → find code db.codes ≡ none
      → row.used_at ≡ none
      → db'.access_tokens ≡ db.access_tokens
      → db'.refresh_tokens ≡ db.refresh_tokens
      → db'.codes ≡ insert code row db.codes
      → Effect c db db' call
  exchanged :
      {code client verifier uri : Text} {now later : ℕ} {family : Text} {pair : TokenPair}
      (row : CodeRow)
      → find code db.codes ≡ some row
      → is_some row.used_at ≡ false
      → row.client_id ≡ client
      → db'.access_tokens
        ≡ replace
            (hash_token c pair.access_token)
            (minted row.user_id
              (some client)
              family
              (decode_scopes row.granted_scopes)
              later
              access_token_ttl_secs)
            db.access_tokens
      → db'.refresh_tokens
        ≡ replace
            (hash_token c pair.refresh_token)
            (minted row.user_id
              (some client)
              family
              (decode_scopes row.granted_scopes)
              later
              refresh_token_ttl_secs)
            db.refresh_tokens
      → db'.codes ≡ modify code (spend now) db.codes
      → Effect c db db' (exchanges code client verifier uri now later family pair)
  rotated :
      {token : Text} {now later : ℕ} {pair : TokenPair} (row : TokenRow)
      → find (hash_token c token) db.refresh_tokens ≡ some row
      → is_live row ≡ true
      → db'.access_tokens
        ≡ replace
            (hash_token c pair.access_token)
            (minted row.user_id row.client_id row.family_id
              (decode_scopes row.granted_scopes)
              later
              access_token_ttl_secs)
            db.access_tokens
      → db'.refresh_tokens
        ≡ replace
            (hash_token c pair.refresh_token)
            (minted row.user_id row.client_id row.family_id
              (decode_scopes row.granted_scopes)
              later
              refresh_token_ttl_secs)
            (modify (hash_token c token) (revoke_live now) db.refresh_tokens)
      → db'.codes ≡ db.codes
      → Effect c db db' (refreshes token now later pair)
  withdrawn :
      {call : Call} (p : TokenRow → Bool) (now : ℕ)
      → db'.access_tokens ≡ update_where p (revoke now) db.access_tokens
      → db'.refresh_tokens ≡ update_where p (revoke now) db.refresh_tokens
      → db'.codes ≡ db.codes
      → Effect c db db' call

pub ensure-either :
    {A : Type 0} (P : AuthDb → Type 0) (b : Bool) (e : AuthError) (db : AuthDb)
    (next : AuthResult A × AuthDb)
    → P db
    → (b ≡ true → P next.1)
    → P (ensure b e db next).1
unfolding ensure
ensure-either P true e db next p q = q refl
ensure-either P false e db next p q = p

unchanged : (c : Crates) (db : AuthDb) (call : Call) → Effect c db db call
unchanged c db call = quiet (refl, refl, refl)

insert_client-Effect :
    (c : Crates) (db : AuthDb) (call : Call) (id name : Text) (uris : List Text) (now : ℕ)
    (json : Option Text)
    → Effect c db (insert_client db id name uris now json).1 call
insert_client-Effect c db call id name uris now none = unchanged c db call
insert_client-Effect c db call id name uris now (some json) =
    ensure-either (λ d. Effect c db d call) _ _ db _ (unchanged c db call)
      λ h. quiet (refl, refl, refl)

exchange_from-Effect :
    (c : Crates) (db : AuthDb) (code client verifier uri : Text) (now later : ℕ) (family : Text)
    (pair : TokenPair) (o : Option CodeRow)
    → find code db.codes ≡ o
    → Effect c db
        (exchange_from c db code client verifier uri now later family pair o).1
        (exchanges code client verifier uri now later family pair)
unfolding issue_token_pair issue_token_pair_in
exchange_from-Effect c db code client verifier uri now later family pair none h = unchanged c db _
exchange_from-Effect c db code client verifier uri now later family pair (some row) h =
    let P : AuthDb → Type 0 =
      λ d. Effect c db d (exchanges code client verifier uri now later family pair) in
    let stop = unchanged c db (exchanges code client verifier uri now later family pair) in
    ensure-either P _ _ db _ stop λ unused. ensure-either P _ _ db _ stop λ same.
      ensure-either P _ _ db _ stop λ _. ensure-either P _ _ db _ stop λ _.
        ensure-either P _ _ db _ stop
          λ _. exchanged row h (ground arith) ((list_eq.agrees _ _).0 same) refl refl refl

rotate-Effect :
    (c : Crates) (db : AuthDb) (token : Text) (row : TokenRow) (now later : ℕ) (pair : TokenPair)
    → find (hash_token c token) db.refresh_tokens ≡ some row
    → is_live row ≡ true
    → Effect c db
        (rotate c db (hash_token c token) row now later pair).1
        (refreshes token now later pair)
unfolding rotate issue_token_pair_in
rotate-Effect c db token row now later pair h live =
    ensure-either (λ d. Effect c db d (refreshes token now later pair)) _ _ db _ (unchanged c db _)
      λ _. rotated row h live refl refl refl

refresh_from-Effect :
    (c : Crates) (db : AuthDb) (token : Text) (now later : ℕ) (pair : TokenPair)
    (o : Option TokenRow)
    → find (hash_token c token) db.refresh_tokens ≡ o
    → Effect c db
        (refresh_from c db (hash_token c token) now later pair o).1
        (refreshes token now later pair)
unfolding revoke_token_family
refresh_from-Effect c db token now later pair none h = unchanged c db _
refresh_from-Effect c db token now later pair (some row) h =
    elim (Bool-cases (is_some row.revoked_at)) [
      | inl dead ↦ rw dead (withdrawn (in_family row.family_id) later refl refl refl)
      | inr live ↦ rw live (
          ensure-either (λ d. Effect c db d (refreshes token now later pair)) _ _ db _
            (unchanged c db _) λ _. rotate-Effect c db token row now later pair h (ground arith))
    ]

upserted-Effect :
    (c : Crates) (db : AuthDb) (call : Call) (id : Text) (row : UserRow) (o : Option UserRow)
    → Effect c db (upserted db id row o) call
upserted-Effect c db call id row none = quiet (refl, refl, refl)
upserted-Effect c db call id row (some old) = quiet (refl, refl, refl)

granted-Effect :
    (c : Crates) (db : AuthDb) (call : Call) (key : Text × Text) (scopes : Text) (now : ℕ)
    (o : Option ConsentRow)
    → Effect c db (granted c key scopes now db o).1 call
granted-Effect c db call key scopes now none =
    ensure-either (λ d. Effect c db d call) _ _ db _ (unchanged c db call)
      λ h. quiet (refl, refl, refl)
granted-Effect c db call key scopes now (some old) = quiet (refl, refl, refl)

-- Every call has one of the six effects on the codes and the tokens.
pub perform-Effect : (c : Crates) (db : AuthDb) (call : Call) → Effect c db (perform c db call) call
unfolding perform register_client store_access_token_hash store_access_token_hash_for_client
    store_authorization_code exchange_authorization_code_for_tokens refresh_access_token upsert_user
    record_consent revoke_consent touch_consent_last_used create_session delete_session
perform-Effect c db (registers name uris uuid now) =
    let P : AuthDb → Type 0 = λ d. Effect c db d (registers name uris uuid now) in
    ensure-either P _ _ db _ (unchanged c db _) λ _.
      ensure-either P _ _ db _ (unchanged c db _) λ _.
        ensure-either P _ _ db _ (unchanged c db _)
          λ _. insert_client-Effect c db _ _ name uris now (c.to_json uris)
perform-Effect c db (stores_token hash user scopes family now) = stored refl refl refl
perform-Effect c db (stores_code client user challenge uri scopes code now) =
    ensure-either (λ d. Effect c db d (stores_code client user challenge uri scopes code now)) _ _
      db _ (unchanged c db _)
      λ free. coded code _ (ground (arith, Option-cases (find code db.codes))) refl refl refl refl
perform-Effect c db (exchanges code client verifier uri now later family pair) =
    exchange_from-Effect c db code client verifier uri now later family pair _ refl
perform-Effect c db (refreshes token now later pair) =
    refresh_from-Effect c db token now later pair _ refl
perform-Effect c db (upserts user) =
    let P : AuthDb → Type 0 = λ d. Effect c db d (upserts user) in
    ensure-either P _ _ db _ (unchanged c db _) λ _.
      ensure-either P _ _ db _ (unchanged c db _)
        λ _. upserted-Effect c db _ _ _ (find user.id db.users)
perform-Effect c db (consents user client scopes now) =
    let P : AuthDb → Type 0 = λ d. Effect c db d (consents user client scopes now) in
    ensure-either P _ _ db _ (unchanged c db _) λ _.
      ensure-either P _ _ db _ (unchanged c db _)
        λ _. granted-Effect c db _ _ _ now (find (user, client) db.consents)
perform-Effect c db (revokes user client now) = withdrawn (given_to user client) now refl refl refl
perform-Effect c db (touches user client now) = quiet (refl, refl, refl)
perform-Effect c db (opens user ttl id now) =
    let P : AuthDb → Type 0 = λ d. Effect c db d (opens user ttl id now) in
    ensure-either P _ _ db _ (unchanged c db _) λ _.
      ensure-either P _ _ db _ (unchanged c db _)
        λ _. ensure-either P _ _ db _ (unchanged c db _) λ _. quiet (refl, refl, refl)
perform-Effect c db (deletes id) = quiet (refl, refl, refl)
