-- ===== src/Auth/Consents.antt =====
-- auth.rs: the consents that users give to clients, and their revocation.
use mathlib.Core.Option
use aver.Prelude.{
  pair_eq, option_eq, list_eq, nat_eq, ℕ, Option, none, some, List, find, insert, modify,
  update_where, ◌==◌, not, ◌&&◌,
}
use aver.Text.{all_whitespace}
use aver.Auth.{
  Text, AuthResult, done, user_id_required, client_id_required, TokenRow, ConsentRow, AuthDb,
  ensure, is_live, revoke, Bool, Crates, admits_user, constraint,
}
use aver.Auth.Scopes.{encode_scopes, decode_scopes}

pub record ClientConsent : Type 0 where
  pub user_id : Text
  pub client_id : Text
  pub granted_scopes : List Text
  pub granted_at : ℕ
  pub last_used_at : Option ℕ
  pub revoked_at : Option ℕ

-- `ON CONFLICT(user_id, client_id) DO UPDATE SET …`
abbrev pub granted :
    Crates → Text × Text → Text → ℕ → AuthDb → Option ConsentRow → AuthResult Unit × AuthDb
granted crates key scopes now db none = ensure (admits_user crates db key.0) constraint db (
  done tt,
  record db {
    consents =
        insert key
          (record {
            granted_scopes = scopes;
            granted_at = now;
            last_used_at = none;
            revoked_at = none;
          })
          db.consents;
  },
)
granted crates key scopes now db (some old) = (
  done tt,
  record db {
    consents =
        modify key
          (λ old. record old { granted_scopes = scopes; granted_at = now; revoked_at = none })
          db.consents;
  },
)

unfoldable pub record_consent :
    Crates → AuthDb → (user client : Text) → List Text → (now : ℕ) → AuthResult Unit × AuthDb
unfolding all_whitespace
record_consent crates db user client scopes now =
    ensure (not (all_whitespace user)) user_id_required db (
      ensure (not (all_whitespace client)) client_id_required db (
        granted crates (user, client) (encode_scopes scopes) now db
          (find (user, client) db.consents)))

abbrev pub consent_of : Text → Text → ConsentRow → ClientConsent
consent_of user client row = record {
  user_id = user;
  client_id = client;
  granted_scopes = decode_scopes row.granted_scopes;
  granted_at = row.granted_at;
  last_used_at = row.last_used_at;
  revoked_at = row.revoked_at;
}

unfoldable pub get_consent : AuthDb → (user client : Text) → Option ClientConsent
unfolding decode_scopes
get_consent db user client = Option.map (consent_of user client) (find (user, client) db.consents)

-- `user_id = ?1 AND client_id = ?2 AND revoked_at IS NULL`
abbrev pub given_to : Text → Text → TokenRow → Bool
given_to user client row = (row.user_id == user) && (row.client_id == some client) && is_live row

unfoldable pub revoke_consent : AuthDb → (user client : Text) (now : ℕ) → AuthDb
revoke_consent db user client now = record db {
  consents = modify (user, client) (λ row. record row { revoked_at = some now }) db.consents;
  access_tokens = update_where (given_to user client) (revoke now) db.access_tokens;
  refresh_tokens = update_where (given_to user client) (revoke now) db.refresh_tokens;
}

unfoldable pub touch_consent_last_used : AuthDb → (user client : Text) (now : ℕ) → AuthDb
touch_consent_last_used db user client now = record db {
  consents = modify (user, client) (λ row. record row { last_used_at = some now }) db.consents;
}
