-- ===== src/Auth/Grants.antt =====
-- The tokens that auth.rs issues: what an access token grants, from the consent to the pair.
use aver.Prelude.{
  ℕ, true, Option, none, some, List, find, ◌+◌, ◌<◌, ◌≡◌, refl, ◌∙◌, arith, list_eq, nat_eq,
  find-replace, find-insert, ltb, if◌then◌else◌,
}
use aver.Auth.{
  done, Text, Crates, TokenPair, CodeRow, AccessTokenGrant, AuthDb, hash_token, text_agrees, ensure,
  access_token_ttl_secs,
}
use aver.Auth.Scopes.{encode_scopes, decode_scopes}
use aver.Auth.Words.{AllWords, decode-encode, decode-encode-decode}
use aver.Auth.Pkce.{verify_pkce_s256}
use aver.Auth.Codes.{store_authorization_code, exchange_authorization_code_for_tokens, code_ttl}
use aver.Auth.Tokens.{issue_token_pair_in, issue_token_pair, access_token_grant, minted}
use aver.Auth.SingleUse.{Exchangeable, exchange_from-pass}

-- A pair that was issued is accepted until its lifetime has passed, for its user, client and scopes.
issue-grant :
    (c : Crates) (db : AuthDb) (user : Text) (client : Option Text) (family : Text)
    (scopes : List Text) (pair : TokenPair) (issued now : ℕ)
    → access_token_grant
        (issue_token_pair_in c db user client family scopes pair issued).1
        (hash_token c pair.access_token)
        now
      ≡ (if ltb now (issued + access_token_ttl_secs)
          then some
              (record { user_id = user; client_id = client; granted_scopes = encode_scopes scopes })
          else none)
unfolding access_token_grant issue_token_pair_in
issue-grant c db user client family scopes pair issued now =
    let key = hash_token c pair.access_token in
    rw
      (
        find-replace key key (minted user client family scopes issued access_token_ttl_secs)
            db.access_tokens,
        (text_agrees key key).1 refl,
      )
      refl

pub issued_in_time :
    (c : Crates) (db : AuthDb) (user : Text) (client : Option Text) (family : Text)
    (scopes : List Text) (pair : TokenPair) (issued now : ℕ)
    → now < issued + 3600
    → access_token_grant
        (issue_token_pair_in c db user client family scopes pair issued).1
        (hash_token c pair.access_token)
        now
      ≡ some (record { user_id = user; client_id = client; granted_scopes = encode_scopes scopes })
issued_in_time c db user client family scopes pair issued now early =
    issue-grant c db user client family scopes pair issued now ∙ ground (arith, early)

exchanged-done :
    (c : Crates) (db : AuthDb) (code client verifier uri : Text) (now later : ℕ) (family : Text)
    (pair : TokenPair) (row : CodeRow)
    → find code db.codes ≡ some row
    → Exchangeable c client verifier uri now row
    → (exchange_authorization_code_for_tokens c db code client verifier uri now later family pair).0
      ≡ done pair
unfolding exchange_authorization_code_for_tokens issue_token_pair issue_token_pair_in
exchanged-done c db code client verifier uri now later family pair row f ok =
    rw (f, exchange_from-pass c db code client verifier uri now later family pair row ok) refl

exchanged-grant :
    (c : Crates) (db : AuthDb) (code client verifier uri : Text) (now later time : ℕ)
    (family : Text) (pair : TokenPair) (row : CodeRow)
    → find code db.codes ≡ some row
    → Exchangeable c client verifier uri now row
    → time < later + 3600
    → access_token_grant
        (exchange_authorization_code_for_tokens c db code client verifier uri now later family
          pair).1
        (hash_token c pair.access_token)
        time
      ≡ some (record {
        user_id = row.user_id;
        client_id = some client;
        granted_scopes = encode_scopes (decode_scopes row.granted_scopes);
      })
unfolding exchange_authorization_code_for_tokens issue_token_pair
exchanged-grant c db code client verifier uri now later time family pair row f ok soon =
    rw (f, exchange_from-pass c db code client verifier uri now later family pair row ok)
      (issued_in_time c _ row.user_id (some client) family (decode_scopes row.granted_scopes) pair
        later time soon)

-- The row that the endpoint of the consent stores.
abbrev stored_row : (client user challenge uri : Text) → List Text → ℕ → CodeRow
stored_row client user challenge uri scopes now = record {
  client_id = client;
  user_id = user;
  code_challenge = challenge;
  redirect_uri = uri;
  used_at = none;
  expires_at = now + code_ttl;
  created_at = now;
  granted_scopes = encode_scopes scopes;
}

stored-found :
    (db : AuthDb) (client user challenge uri : Text) (scopes : List Text) (code : Text) (now : ℕ)
    → find code db.codes ≡ none
    → find code (store_authorization_code db client user challenge uri scopes code now).1.codes
      ≡ some (stored_row client user challenge uri scopes now)
unfolding store_authorization_code ensure
stored-found db client user challenge uri scopes code now free =
    rw
      (
        free,
        find-insert code code (stored_row client user challenge uri scopes now) db.codes,
        (text_agrees code code).1 refl,
      )
      refl

-- The scopes of a consent reach the access token: a code that was stored and is exchanged in time, by
-- its client, from its redirect URI and with the verifier of its challenge, answers with the pair
-- that was drawn, whose access token is accepted until its lifetime has passed, for the code's user and client, and whose scopes
-- decode to the list that was stored, if its entries are words.
pub authorize-grant :
    (c : Crates) (db : AuthDb) (client user challenge uri verifier code : Text) (scopes : List Text)
    (stored now later time : ℕ) (family : Text) (pair : TokenPair)
    → find code db.codes ≡ none
    → AllWords scopes
    → verify_pkce_s256 c verifier challenge ≡ true
    → now < stored + 600
    → time < later + 3600
    → ((exchange_authorization_code_for_tokens c
          (store_authorization_code db client user challenge uri scopes code stored).1
          code
          client
          verifier
          uri
          now
          later
          family
          pair).0
        ≡ done pair)
      × (grant : AccessTokenGrant) × (access_token_grant
            (exchange_authorization_code_for_tokens c
              (store_authorization_code db client user challenge uri scopes code stored).1
              code
              client
              verifier
              uri
              now
              later
              family
              pair).1
            (hash_token c pair.access_token)
            time
          ≡ some grant)
      × (grant.user_id ≡ user)
      × (grant.client_id ≡ some client)
      × (decode_scopes grant.granted_scopes ≡ scopes)
authorize-grant c db client user challenge uri verifier code scopes stored now later time family
      pair free words pkce early soon =
    let found = stored-found db client user challenge uri scopes code stored free in
    let exchangeable : Exchangeable c client verifier uri now
        (stored_row client user challenge uri scopes stored) =
      (refl, refl, pkce, early, refl) in
    (
      exchanged-done c _ code client verifier uri now later family pair
          (stored_row client user challenge uri scopes stored) found exchangeable,
      record {
        user_id = user;
        client_id = some client;
        granted_scopes = encode_scopes (decode_scopes (encode_scopes scopes));
      },
      exchanged-grant c _ code client verifier uri now later time family pair
          (stored_row client user challenge uri scopes stored) found exchangeable soon,
      refl,
      refl,
      decode-encode-decode (encode_scopes scopes) ∙ decode-encode scopes words,
    )
