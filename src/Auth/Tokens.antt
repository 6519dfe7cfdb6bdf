-- ===== src/Auth/Tokens.antt =====
-- auth.rs: the access and refresh tokens. A refresh token is rotated at each use, and the tokens
-- that descend from one login share a family.
use mathlib.Core.Option
use aver.Prelude.{
  ℕ, Bool, Option, none, some, List, find, modify, replace, update_where, ◌==◌, ltb, ◌&&◌,
  if◌then◌else◌, list_eq, ◌+◌, nat_eq,
}
use aver.Auth.{
  Text, Crates, AuthResult, done, failed, unknown_refresh_token, reuse_detected,
  refresh_token_expired, already_rotated, TokenRow, AccessTokenGrant, TokenPair, AuthDb, ensure,
  is_some, is_live, revoke, hash_token, access_token_ttl_secs, refresh_token_ttl_secs, false,
}
use aver.Auth.Scopes.{encode_scopes, decode_scopes}

-- The columns that both INSERT statements of a pair write.
abbrev pub minted : Text → Option Text → Text → List Text → ℕ → ℕ → TokenRow
minted user client family scopes now ttl = record {
  user_id = user;
  client_id = client;
  family_id = family;
  created_at = now;
  expires_at = now + ttl;
  revoked_at = none;
  granted_scopes = encode_scopes scopes;
}

unfoldable pub store_access_token_hash_for_client :
    AuthDb
    → (token_hash user : Text) → Option Text
    → (family : Text) → List Text
    → (now : ℕ) → AuthDb
store_access_token_hash_for_client db hash user client family scopes now = record db {
  access_tokens =
      replace hash (minted user client family scopes now access_token_ttl_secs) db.access_tokens;
}

unfoldable pub store_access_token_hash :
    AuthDb → (token_hash user : Text) → List Text → (family : Text) (now : ℕ) → AuthDb
unfolding store_access_token_hash_for_client
store_access_token_hash db hash user scopes family now =
    store_access_token_hash_for_client db hash user none family scopes now

-- The pair carries the random texts that the caller draws for it.
unfoldable pub issue_token_pair_in :
    Crates
    → AuthDb
    → (user : Text) → Option Text
    → (family : Text) → List Text
    → TokenPair
    → (now : ℕ) → TokenPair × AuthDb
issue_token_pair_in crates db user client family scopes pair now = (
  pair,
  record db {
    access_tokens =
        replace (hash_token crates pair.access_token)
          (minted user client family scopes now access_token_ttl_secs) db.access_tokens;
    refresh_tokens =
        replace (hash_token crates pair.refresh_token)
          (minted user client family scopes now refresh_token_ttl_secs) db.refresh_tokens;
  },
)

unfoldable pub issue_token_pair :
    Crates
    → AuthDb
    → (user : Text) → Option Text
    → List Text
    → (family : Text) → TokenPair
    → (now : ℕ) → AuthResult TokenPair × AuthDb
unfolding issue_token_pair_in
issue_token_pair crates db user client scopes family pair now =
    let (tokens, db') = issue_token_pair_in crates db user client family scopes pair now in
    (done tokens, db')

-- `family_id = ?1 AND revoked_at IS NULL`
abbrev pub in_family : Text → TokenRow → Bool
in_family family row = (row.family_id == family) && is_live row

unfoldable pub revoke_token_family : AuthDb → Text → (now : ℕ) → AuthDb
revoke_token_family db family now = record db {
  access_tokens = update_where (in_family family) (revoke now) db.access_tokens;
  refresh_tokens = update_where (in_family family) (revoke now) db.refresh_tokens;
}

-- The number of rows that the rotation's UPDATE writes.
abbrev pub affected : Option TokenRow → Bool
affected none = false
affected (some row) = is_live row

abbrev pub revoke_live : ℕ → TokenRow → TokenRow
revoke_live now row = if is_live row then revoke now row else row

-- The transaction that replaces a refresh token, `row` as it was read before.
unfoldable pub rotate :
    Crates → AuthDb → Text → TokenRow → (now later : ℕ) → TokenPair → AuthResult TokenPair × AuthDb
unfolding issue_token_pair_in decode_scopes
rotate crates db hash row now later pair =
    ensure (affected (find hash db.refresh_tokens)) already_rotated db (
      let db1 = record db { refresh_tokens = modify hash (revoke_live now) db.refresh_tokens } in
      let (tokens, db2) =
        issue_token_pair_in crates db1 row.user_id row.client_id row.family_id
          (decode_scopes row.granted_scopes) pair later in
      (done tokens, db2))

abbrev pub refresh_from :
    Crates
    → AuthDb
    → Text
    → (now later : ℕ) → TokenPair
    → Option TokenRow
    → AuthResult TokenPair × AuthDb
refresh_from crates db hash now later pair none = (failed unknown_refresh_token, db)
refresh_from crates db hash now later pair (some row) =
    if is_some row.revoked_at
    then (failed reuse_detected, revoke_token_family db row.family_id later)
    else ensure (ltb now row.expires_at) refresh_token_expired db
        (rotate crates db hash row now later pair)

-- `now` is the clock at the start, `later` at the revocation of the family or the new pair.
unfoldable pub refresh_access_token :
    Crates → AuthDb → Text → (now later : ℕ) → TokenPair → AuthResult TokenPair × AuthDb
unfolding rotate revoke_token_family
refresh_access_token crates db token now later pair =
    let hash = hash_token crates token in
    refresh_from crates db hash now later pair (find hash db.refresh_tokens)

abbrev pub grant_from : ℕ → Option TokenRow → Option AccessTokenGrant
grant_from now none = none
grant_from now (some row) =
    if is_live row && ltb now row.expires_at
    then some (record {
      user_id = row.user_id;
      client_id = row.client_id;
      granted_scopes = row.granted_scopes;
    })
    else none

unfoldable pub access_token_grant : AuthDb → Text → (now : ℕ) → Option AccessTokenGrant
access_token_grant db hash now = grant_from now (find hash db.access_tokens)

unfoldable pub validate_access_token : AuthDb → Text → (now : ℕ) → Option (Text × Text)
unfolding access_token_grant
validate_access_token db hash now =
    Option.map (λ grant. (grant.user_id, grant.granted_scopes)) (access_token_grant db hash now)
