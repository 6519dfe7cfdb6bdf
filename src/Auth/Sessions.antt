-- ===== src/Auth/Sessions.antt =====
-- auth.rs: the browser sessions.
use aver.Prelude.{
  ℕ, Option, none, some, find, insert, remove, leb, ltb, not, if◌then◌else◌, nat_eq, ◌&&◌, list_eq,
  ◌+◌,
}
use aver.Text.{all_whitespace}
use aver.Auth.{
  Text, AuthResult, done, user_id_required, ttl_required, constraint, SessionRow, AuthDb, ensure,
  is_some, Crates, admits_user,
}

pub record Session : Type 0 where
  pub id : Text
  pub user_id : Text
  pub created_at : ℕ
  pub expires_at : ℕ

unfoldable pub create_session :
    Crates
    → AuthDb
    → (user : Text) (ttl_secs : ℕ) (id : Text) (now : ℕ) → AuthResult Session × AuthDb
unfolding all_whitespace
create_session crates db user ttl_secs id now =
    ensure (not (all_whitespace user)) user_id_required db (
      ensure (ltb 0 ttl_secs) ttl_required db (
        ensure (not (is_some (find id db.sessions)) && admits_user crates db user) constraint db (
          done (record { id = id; user_id = user; created_at = now; expires_at = now + ttl_secs }),
          record db {
            sessions =
                insert id (record { user_id = user; created_at = now; expires_at = now + ttl_secs })
                  db.sessions;
          },
        )))

abbrev pub session_from : Text → ℕ → Option SessionRow → Option Session
session_from id now none = none
session_from id now (some row) =
    if leb row.expires_at now
    then none
    else some (record {
      id = id;
      user_id = row.user_id;
      created_at = row.created_at;
      expires_at = row.expires_at;
    })

unfoldable pub get_session : AuthDb → Text → (now : ℕ) → Option Session
get_session db id now = session_from id now (find id db.sessions)

unfoldable pub delete_session : AuthDb → Text → AuthDb
delete_session db id = record db { sessions = remove id db.sessions }
