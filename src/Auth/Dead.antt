-- ===== src/Auth/Dead.antt =====
-- Tokens of auth.rs that are all revoked stay so: for any class of rows that is told by the user, the
-- client and the family, over every history that issues no first token of the class.
use aver.Auth.Calls.{stores_token, exchanges, Call, perform, run}
use aver.Prelude.{
  ℕ, Bool, true, false, Option, none, some, List, [], ◌∷◌, Table, find, update_where, ◌≡◌, refl,
  list_eq, nat_eq, rows-replace, rows-update_where, rows-modify_with, if◌then◌else◌,
}
use aver.Auth.{Text, Crates, TokenRow, AuthDb, is_live, revoke}
use aver.Auth.Tokens.{revoke_live}
use aver.Auth.Effects.{Effect, quiet, stored, coded, exchanged, rotated, withdrawn, perform-Effect}

module _ (InClass : (user : Text) → (client : Option Text) → (family : Text) → Type 0) where
  abbrev pub DeadRow : TokenRow → Type 0
  DeadRow row = InClass row.user_id row.client_id row.family_id → is_live row ≡ false

  abbrev pub DeadIn : Table Text TokenRow → Type 0
  DeadIn t = (hash : Text) (row : TokenRow) → find hash t ≡ some row → DeadRow row

  -- No access or refresh token of the class is live.
  abbrev pub AllDead : AuthDb → Type 0
  AllDead db = DeadIn db.access_tokens × DeadIn db.refresh_tokens

  -- The call does not issue a first token of the class.
  abbrev pub Spares : Call → Type 0
  Spares (stores_token hash user scopes family now) = ¬ InClass user none family
  Spares (exchanges code client verifier uri now later family pair) =
      (user : Text) → ¬ InClass user (some client) family
  Spares _ = Unit

  abbrev pub AllSpare : List Call → Type 0
  AllSpare [] = Unit
  AllSpare (call ∷ calls) = Spares call × AllSpare calls

  revoked-DeadRow :
      (b : Bool) (now : ℕ) (row : TokenRow)
      → DeadRow row
      → DeadRow (if b then revoke now row else row)
  revoked-DeadRow true now row d q = refl
  revoked-DeadRow false now row d q = d q

  revoked-DeadIn :
      (p : TokenRow → Bool) (now : ℕ) (t : Table Text TokenRow)
      → DeadIn t
      → DeadIn (update_where p (revoke now) t)
  revoked-DeadIn p now t d hash =
      rows-update_where DeadRow p (revoke now) t hash
        (λ w h. revoked-DeadRow (p w) now w (d hash w h))

  Effect-AllDead :
      (c : Crates) (db db' : AuthDb) (call : Call)
      → Effect c db db' call
      → Spares call
      → AllDead db
      → AllDead db'
  Effect-AllDead c db db' call (quiet (a, r, e)) spares d = rw (a, r) d
  Effect-AllDead c db db' call (stored a r e) spares d =
      rw (a, r) (rows-replace DeadRow _ _ _ d.0 (λ q. absurd (spares q)), d.1)
  Effect-AllDead c db db' call (coded new row free unused a r e) spares d = rw (a, r) d
  Effect-AllDead c db db' call (exchanged row h unused same a r e) spares d =
      rw (a, r)
        (
          rows-replace DeadRow _ _ _ d.0 (λ q. absurd (spares row.user_id q)),
          rows-replace DeadRow _ _ _ d.1 (λ q. absurd (spares row.user_id q)),
        )
  Effect-AllDead c db db' call (rotated {token = token} {now = now} row h live a r e) spares d =
      rw (a, r)
        (
          rows-replace DeadRow _ _ _ d.0 (λ q. absurd (cc (d.1 _ row h q, live))),
          rows-replace DeadRow _ _ _
              (λ hash.
                rows-modify_with DeadRow _ (revoke_live now) db.refresh_tokens hash (d.1 hash)
                  (λ w q. revoked-DeadRow (is_live w) now w (d.1 _ w q)))
              (λ q. absurd (cc (d.1 _ row h q, live))),
        )
  Effect-AllDead c db db' call (withdrawn p now a r e) spares d =
      rw (a, r)
        (revoked-DeadIn p now db.access_tokens d.0, revoked-DeadIn p now db.refresh_tokens d.1)

  pub run-AllDead :
      (c : Crates) (db : AuthDb) (calls : List Call)
      → AllSpare calls
      → AllDead db
      → AllDead (run c db calls)
  unfolding run
  run-AllDead c db [] s d = d
  run-AllDead c db (call ∷ calls) s d =
      run-AllDead c (perform c db call) calls s.1
        (Effect-AllDead c db (perform c db call) call (perform-Effect c db call) s.0 d)
