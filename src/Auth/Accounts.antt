-- ===== src/Auth/Accounts.antt =====
-- What the queries of auth.rs read back: users, consents and sessions after a write.
use aver.Auth.Words.{AllWords, decode-encode}
use mathlib.Core.Option
use aver.Prelude.{
  if_true, ℕ, Option, none, some, List, find, ◌+◌, ◌≡◌, refl, ap, ◌∙◌, arith, list_eq, nat_eq,
  pair_eq, find-insert, find-remove, find-modify_hit, ==_refl, ltb, leb, not, if◌then◌else◌,
}
use aver.Text.{all_whitespace}
use aver.Auth.{
  Text, Crates, AuthDb, done, UserRow, SessionRow, ConsentRow, ensure-done, text_agrees,
}
use aver.Auth.Scopes.{encode_scopes}
use aver.Auth.Users.{
  UserKind, local, header, oidc, User, to_columns, from_columns, or_else, upserted, upsert_user,
  get_user, user_from,
}
use aver.Auth.Sessions.{session_from, Session, create_session, get_session, delete_session}
use aver.Auth.Consents.{consent_of, granted, record_consent, get_consent}

from_columns-to_columns :
    (kind : UserKind) (external_id : Option Text)
    → from_columns (to_columns kind).0 (or_else (to_columns kind).1 external_id) ≡ done kind
unfolding from_columns
from_columns-to_columns local e = refl
from_columns-to_columns header e = refl
from_columns-to_columns (oidc issuer) e = refl

-- The time of creation that an upsert leaves.
abbrev pub first_created : Option UserRow → ℕ → ℕ
first_created none now = now
first_created (some old) now = old.created_at

upserted-find :
    (db : AuthDb) (id : Text) (row : UserRow) (o : Option UserRow)
    → find id db.users ≡ o
    → find id (upserted db id row o).users
      ≡ some (record row { created_at = first_created o row.created_at })
upserted-find db id row none f =
    find-insert id id row db.users ∙ ground (arith, (text_agrees id id).1 refl)
upserted-find db id row (some old) f =
    find-modify_hit id (λ old. record old { kind = row.kind; external_id = row.external_id })
      db.users
    ∙ rw f refl

-- A user that was upserted is read back with the kind that was given, its issuer as the external id
-- where it has one, and the time of its first creation.
pub upsert-get_user :
    (db : AuthDb) (user : User)
    → (upsert_user db user).0 ≡ done tt
    → get_user (upsert_user db user).1 user.id
      ≡ done (
          some (record {
            id = user.id;
            kind = user.kind;
            external_id = or_else (to_columns user.kind).1 user.external_id;
            created_at = first_created (find user.id db.users) user.created_at;
          }))
unfolding upsert_user get_user
upsert-get_user db user h =
    let (named, e1, h1) = ensure-done (not (all_whitespace user.id)) _ db _ tt h in
    let (dated, e2, h2) = ensure-done (ltb 0 user.created_at) _ db _ tt h1 in
    ap (λ r. user_from user.id (find user.id r.1.users)) (e1 ∙ e2)
    ∙ rw
        (
          upserted-find db user.id _ (find user.id db.users) refl,
          from_columns-to_columns user.kind user.external_id,
        )
        refl

-- The last use that a consent keeps when it is given again.
abbrev pub last_used : Option ConsentRow → Option ℕ
last_used none = none
last_used (some old) = old.last_used_at

granted-find :
    (c : Crates) (key : Text × Text) (scopes : Text) (now : ℕ) (db : AuthDb) (o : Option ConsentRow)
    → find key db.consents ≡ o
    → (granted c key scopes now db o).0 ≡ done tt
    → find key (granted c key scopes now db o).1.consents
      ≡ some (record {
        granted_scopes = scopes;
        granted_at = now;
        last_used_at = last_used o;
        revoked_at = none;
      })
granted-find c key scopes now db none f h =
    let (_, e, _) = ensure-done _ _ db _ tt h in
    ap (λ r. find key r.1.consents) e
    ∙ find-insert key key _ db.consents
    ∙ if_true _ _ _ (==_refl key)
granted-find c key scopes now db (some old) f h =
    find-modify_hit key
      (λ old. record old { granted_scopes = scopes; granted_at = now; revoked_at = none })
      db.consents
    ∙ rw f refl

-- A consent that was recorded is read back as live, with the scopes that were given, if they are
-- words, and with the last use that it had before.
pub record-get_consent :
    (c : Crates) (db : AuthDb) (user client : Text) (scopes : List Text) (now : ℕ)
    → (record_consent c db user client scopes now).0 ≡ done tt
    → AllWords scopes
    → get_consent (record_consent c db user client scopes now).1 user client
      ≡ some (record {
        user_id = user;
        client_id = client;
        granted_scopes = scopes;
        granted_at = now;
        last_used_at = last_used (find (user, client) db.consents);
        revoked_at = none;
      })
unfolding record_consent get_consent
record-get_consent c db user client scopes now h words =
    let o = find (user, client) db.consents in
    let (_, e1, h1) = ensure-done (not (all_whitespace user)) _ db _ tt h in
    let (_, e2, h2) = ensure-done (not (all_whitespace client)) _ db _ tt h1 in
    ap (λ r. Option.map (consent_of user client) (find (user, client) r.1.consents)) (e1 ∙ e2)
    ∙ rw
        (
          granted-find c (user, client) (encode_scopes scopes) now db o refl h2,
          decode-encode scopes words,
        )
        refl

session_between :
    (s0 session : Session) (time : ℕ)
    → done s0 ≡ done session
    → (if leb s0.expires_at time then none else some s0)
      ≡ (if ltb time s0.expires_at then some session else none)
session_between s0 session time h = ground (arith, h)

-- A session that was created is found until its lifetime has passed and not after, and no longer once
-- it is deleted.
pub create-get_session :
    (c : Crates) (db : AuthDb) (user : Text) (ttl : ℕ) (id : Text) (now : ℕ) (session : Session)
    → (create_session c db user ttl id now).0 ≡ done session
    → (time : ℕ)
    → (get_session (create_session c db user ttl id now).1 id time
        ≡ (if ltb time (now + ttl) then some session else none))
      × (get_session (delete_session (create_session c db user ttl id now).1 id) id time ≡ none)
unfolding create_session get_session delete_session
create-get_session c db user ttl id now session h time =
    let (_, e1, h1) = ensure-done (not (all_whitespace user)) _ db _ session h in
    let (_, e2, h2) = ensure-done (ltb 0 ttl) _ db _ session h1 in
    let (_, e3, h3) = ensure-done _ _ db _ session h2 in
    let row : SessionRow = record { user_id = user; created_at = now; expires_at = now + ttl } in
    (
      ap (λ r. session_from id time (find id r.1.sessions)) (e1 ∙ e2 ∙ e3)
          ∙ rw (find-insert id id row db.sessions, ==_refl id) (session_between _ session time h3),
      rw (find-remove id id (create_session c db user ttl id now).1.sessions, ==_refl id) refl,
    )
