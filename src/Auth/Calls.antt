-- ===== src/Auth/Calls.antt =====
-- auth.rs: the operations that write, as the calls of a history. A call carries the arguments of its
-- operation, what the clock reads and the random texts that it draws.
use aver.Prelude.{ℕ, List, [], ◌∷◌}
use aver.Auth.{Text, Crates, TokenPair, AuthDb}
use aver.Auth.Clients.{register_client}
use aver.Auth.Codes.{store_authorization_code, exchange_authorization_code_for_tokens}
use aver.Auth.Tokens.{store_access_token_hash, refresh_access_token}
use aver.Auth.Users.{User, upsert_user}
use aver.Auth.Consents.{record_consent, revoke_consent, touch_consent_last_used}
use aver.Auth.Sessions.{create_session, delete_session}

pub data Call : Type 0 where
  registers : (name : Text) (uris : List Text) (uuid : Text) (now : ℕ) → Call
  stores_token : (hash user : Text) (scopes : List Text) (family : Text) (now : ℕ) → Call
  stores_code :
      (client user challenge uri : Text) (scopes : List Text) (code : Text) (now : ℕ) → Call
  exchanges :
      (code client verifier uri : Text) (now later : ℕ) (family : Text) (pair : TokenPair) → Call
  refreshes : (token : Text) (now later : ℕ) (pair : TokenPair) → Call
  upserts : (user : User) → Call
  consents : (user client : Text) (scopes : List Text) (now : ℕ) → Call
  revokes : (user client : Text) (now : ℕ) → Call
  touches : (user client : Text) (now : ℕ) → Call
  opens : (user : Text) (ttl : ℕ) (id : Text) (now : ℕ) → Call
  deletes : (id : Text) → Call

-- The database that a call leaves, whether it succeeds or fails.
unfoldable pub perform : Crates → AuthDb → Call → AuthDb
perform c db (registers name uris uuid now) = (register_client c db name uris uuid now).1
perform c db (stores_token hash user scopes family now) =
    store_access_token_hash db hash user scopes family now
perform c db (stores_code client user challenge uri scopes code now) =
    (store_authorization_code db client user challenge uri scopes code now).1
perform c db (exchanges code client verifier uri now later family pair) =
    (exchange_authorization_code_for_tokens c db code client verifier uri now later family pair).1
perform c db (refreshes token now later pair) = (refresh_access_token c db token now later pair).1
perform c db (upserts user) = (upsert_user db user).1
perform c db (consents user client scopes now) = (record_consent c db user client scopes now).1
perform c db (revokes user client now) = revoke_consent db user client now
perform c db (touches user client now) = touch_consent_last_used db user client now
perform c db (opens user ttl id now) = (create_session c db user ttl id now).1
perform c db (deletes id) = delete_session db id

unfoldable pub run : Crates → AuthDb → List Call → AuthDb
unfolding perform
run c db [] = db
run c db (call ∷ calls) = run c (perform c db call) calls
