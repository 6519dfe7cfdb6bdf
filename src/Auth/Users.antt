-- ===== src/Auth/Users.antt =====
-- auth.rs: the users, and the two columns that hold a `UserKind`.
use aver.Prelude.{
  ℕ, Option, none, some, find, insert, modify, ◌==◌, ltb, not, if◌then◌else◌, list_eq, nat_eq,
}
use aver.Text.{codes, all_whitespace}
use aver.Auth.{
  Text, AuthResult, done, failed, user_id_required, created_at_required, oidc_without_external_id,
  unknown_user_kind, UserRow, AuthDb, ensure,
}

pub data UserKind : Type 0 where
  local header : UserKind
  oidc : (issuer : Text) → UserKind

pub record User : Type 0 where
  pub id : Text
  pub kind : UserKind
  pub external_id : Option Text
  pub created_at : ℕ

-- `UserKind::to_columns`
abbrev pub to_columns : UserKind → Text × Option Text
to_columns local = (codes "local", none)
to_columns header = (codes "header", none)
to_columns (oidc issuer) = (codes "oidc", some issuer)

abbrev pub oidc_from : Option Text → AuthResult UserKind
oidc_from none = failed oidc_without_external_id
oidc_from (some issuer) = done (oidc issuer)

-- `UserKind::from_columns`
unfoldable pub from_columns : Text → Option Text → AuthResult UserKind
from_columns kind external_id =
    if kind == codes "local"
    then done local
    else if kind == codes "header"
    then done header
    else if kind == codes "oidc"
    then oidc_from external_id
    else failed unknown_user_kind

-- `Option::or_else`
abbrev pub or_else : Option Text → Option Text → Option Text
or_else none b = b
or_else (some a) b = some a

-- `ON CONFLICT(id) DO UPDATE SET kind, external_id`
abbrev pub upserted : AuthDb → Text → UserRow → Option UserRow → AuthDb
upserted db id row none = record db { users = insert id row db.users }
upserted db id row (some old) = record db {
  users = modify id (λ old. record old { kind = row.kind; external_id = row.external_id }) db.users;
}

unfoldable pub upsert_user : AuthDb → User → AuthResult Unit × AuthDb
unfolding all_whitespace
upsert_user db user = ensure (not (all_whitespace user.id)) user_id_required db (
    ensure (ltb 0 user.created_at) created_at_required db (
      done tt,
      let (kind, encoded) = to_columns user.kind in
          upserted db user.id
            (record {
              kind = kind;
              external_id = or_else encoded user.external_id;
              created_at = user.created_at;
            })
            (find user.id db.users),
    ))

abbrev pub user_of : Text → UserRow → AuthResult UserKind → AuthResult (Option User)
user_of id row (failed e) = failed e
user_of id row (done kind) = done (
    some
      (record { id = id; kind = kind; external_id = row.external_id; created_at = row.created_at }))

abbrev pub user_from : Text → Option UserRow → AuthResult (Option User)
user_from id none = done none
user_from id (some row) = user_of id row (from_columns row.kind row.external_id)

unfoldable pub get_user : AuthDb → Text → AuthResult (Option User)
unfolding from_columns
get_user db id = user_from id (find id db.users)
