-- ===== src/Auth/Lifetimes.antt =====
-- How long a token of auth.rs is accepted.
use aver.Prelude.{
  ℕ, Bool, true, false, Option, none, some, List, [], ◌∷◌, Table, find, update_where, ◌+◌, ◌<◌, ◌≡◌,
  refl, arith, list_eq, nat_eq, rows-replace, rows-update_where, rows-modify_with, if◌then◌else◌,
}
use aver.Auth.{
  Text, Crates, TokenRow, AccessTokenGrant, AuthDb, is_live, revoke, access_token_ttl_secs,
  refresh_token_ttl_secs,
}
use aver.Auth.Calls.{Call, perform, run}
use aver.Auth.Tokens.{revoke_live, access_token_grant, grant_from}
use aver.Auth.Effects.{Effect, quiet, stored, coded, exchanged, rotated, withdrawn, perform-Effect}

abbrev pub TimedRow : ℕ → TokenRow → Type 0
TimedRow ttl row = row.expires_at ≡ row.created_at + ttl

abbrev pub TimedIn : ℕ → Table Text TokenRow → Type 0
TimedIn ttl t = (hash : Text) (row : TokenRow) → find hash t ≡ some row → TimedRow ttl row

-- Every token expires one lifetime of its kind after it was issued.
abbrev pub Timed : AuthDb → Type 0
Timed db =
    TimedIn access_token_ttl_secs db.access_tokens
    × TimedIn refresh_token_ttl_secs db.refresh_tokens

revoked-TimedRow :
    (ttl : ℕ) (b : Bool) (now : ℕ) (row : TokenRow)
    → TimedRow ttl row
    → TimedRow ttl (if b then revoke now row else row)
revoked-TimedRow ttl true now row p = p
revoked-TimedRow ttl false now row p = p

revoked-TimedIn :
    (ttl : ℕ) (p : TokenRow → Bool) (now : ℕ) (t : Table Text TokenRow)
    → TimedIn ttl t
    → TimedIn ttl (update_where p (revoke now) t)
revoked-TimedIn ttl p now t d hash =
    rows-update_where (TimedRow ttl) p (revoke now) t hash
      (λ w h. revoked-TimedRow ttl (p w) now w (d hash w h))

Effect-Timed :
    (c : Crates) (db db' : AuthDb) (call : Call) → Effect c db db' call → Timed db → Timed db'
Effect-Timed c db db' call (quiet (a, r, e)) b = rw (a, r) b
Effect-Timed c db db' call (stored a r e) b =
    rw (a, r) (rows-replace (TimedRow access_token_ttl_secs) _ _ _ b.0 refl, b.1)
Effect-Timed c db db' call (coded new row free unused a r e) b = rw (a, r) b
Effect-Timed c db db' call (exchanged row h unused same a r e) b =
    rw (a, r)
      (
        rows-replace (TimedRow access_token_ttl_secs) _ _ _ b.0 refl,
        rows-replace (TimedRow refresh_token_ttl_secs) _ _ _ b.1 refl,
      )
Effect-Timed c db db' call (rotated {now = now} row h live a r e) b =
    rw (a, r)
      (
        rows-replace (TimedRow access_token_ttl_secs) _ _ _ b.0 refl,
        rows-replace (TimedRow refresh_token_ttl_secs) _ _ _
            (λ hash.
              rows-modify_with (TimedRow refresh_token_ttl_secs) _ (revoke_live now)
                db.refresh_tokens hash (b.1 hash)
                (λ w q. revoked-TimedRow refresh_token_ttl_secs (is_live w) now w (b.1 _ w q)))
            refl,
      )
Effect-Timed c db db' call (withdrawn p now a r e) b =
    rw (a, r)
      (
        revoked-TimedIn access_token_ttl_secs p now db.access_tokens b.0,
        revoked-TimedIn refresh_token_ttl_secs p now db.refresh_tokens b.1,
      )

run-Timed : (c : Crates) (db : AuthDb) (calls : List Call) → Timed db → Timed (run c db calls)
unfolding run
run-Timed c db [] b = b
run-Timed c db (call ∷ calls) b =
    run-Timed c (perform c db call) calls
      (Effect-Timed c db (perform c db call) call (perform-Effect c db call) b)

grant_from-some :
    (now : ℕ) (o : Option TokenRow) (grant : AccessTokenGrant)
    → grant_from now o ≡ some grant
    → (row : TokenRow) × (o ≡ some row) × (is_live row ≡ true) × (now < row.expires_at)
grant_from-some now none grant h = cc h
grant_from-some now (some row) grant h = (row, refl, ground (arith, h), ground (arith, h))

-- After any history, a token that is accepted has a row that is not revoked and that was written
-- less than 3600 seconds before, where every row starts with an expiry one lifetime after its issue.
pub run-accepted :
    (c : Crates) (db : AuthDb) (calls : List Call)
    → Timed db
    → (hash : Text) (now : ℕ) (grant : AccessTokenGrant)
    → access_token_grant (run c db calls) hash now ≡ some grant
    → (row : TokenRow) × (find hash (run c db calls).access_tokens ≡ some row)
      × (is_live row ≡ true)
      × (now < row.created_at + 3600)
unfolding access_token_grant
run-accepted c db calls timed hash now grant h =
    let (row, f, live, t) =
      grant_from-some now (find hash (run c db calls).access_tokens) grant h in
    (row, f, live, ground (arith, (run-Timed c db calls timed).0 hash row f))
