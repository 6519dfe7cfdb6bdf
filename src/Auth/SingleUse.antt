-- ===== src/Auth/SingleUse.antt =====
-- An authorization code of auth.rs that has been exchanged is spent for good.
use aver.Auth.Scopes.{decode_scopes}
use mathlib.Core.Option
use aver.Auth.Pkce.{verify_pkce_s256}
use aver.Auth.Tokens.{issue_token_pair, issue_token_pair_in}
use aver.Auth.{
  text_agrees, ensure, ensure-done, ensure_pass, client_id_mismatch, pkce_mismatch, code_expired,
  redirect_uri_mismatch, Text, Crates, TokenPair, CodeRow, AuthDb, done, failed, code_already_used,
  is_some,
}
use aver.Prelude.{
  not, ◌==◌, ltb, ◌<◌, ap, ◌∙◌, ◌↔◌, ℕ, true, false, Option, none, some, List, [], ◌∷◌, find,
  insert, modify, ◌≡◌, refl, arith, find-insert, find-modify, list_eq, nat_eq, inl, inr, Bool-cases,
  find-modify_hit,
}
use aver.Auth.Calls.{exchanges, Call, perform, run}
use aver.Auth.Codes.{exchange_from, exchange_authorization_code_for_tokens, spend}
use aver.Auth.Effects.{Effect, quiet, stored, coded, exchanged, rotated, withdrawn, perform-Effect}

abbrev pub IsSpent : Text → AuthDb → Type 0
IsSpent code db = (row : CodeRow) × (find code db.codes ≡ some row) × (is_some row.used_at ≡ true)

coded-IsSpent :
    (code new : Text) (row : CodeRow) (db : AuthDb)
    → find new db.codes ≡ none
    → IsSpent code db
    → (r : CodeRow) × (find code (insert new row db.codes) ≡ some r) × (is_some r.used_at ≡ true)
coded-IsSpent code new row db free (r, h, u) = elim (Bool-cases (new == code)) [
  | inl same ↦ absurd (ground (arith, (text_agrees new code).0 same, free, h))
  | inr other ↦ (r, ground (arith, find-insert new code row db.codes), u)
]

exchanged-IsSpent :
    (code other : Text) (now : ℕ) (db : AuthDb)
    → IsSpent code db
    → (r : CodeRow) × (find code (modify other (spend now) db.codes) ≡ some r)
      × (is_some r.used_at ≡ true)
exchanged-IsSpent code other now db (r, h, u) = elim (Bool-cases (other == code)) [
  | inl same ↦ (spend now r, ground (arith, find-modify other code (spend now) db.codes), refl)
  | inr differ ↦ (r, ground (arith, find-modify other code (spend now) db.codes), u)
]

Effect-IsSpent :
    (c : Crates) (db db' : AuthDb) (call : Call) (code : Text)
    → Effect c db db' call
    → IsSpent code db
    → IsSpent code db'
Effect-IsSpent c db db' call code (quiet (a, r, e)) s = rw e s
Effect-IsSpent c db db' call code (stored a r e) s = rw e s
Effect-IsSpent c db db' call code (coded new row free unused a r e) s =
    rw e (coded-IsSpent code new row db free s)
Effect-IsSpent c db db' call code (exchanged row h unused same a r e) s =
    rw e (exchanged-IsSpent code _ _ db s)
Effect-IsSpent c db db' call code (rotated row h live a r e) s = rw e s
Effect-IsSpent c db db' call code (withdrawn p now a r e) s = rw e s

run-IsSpent :
    (c : Crates) (db : AuthDb) (calls : List Call) (code : Text)
    → IsSpent code db
    → IsSpent code (run c db calls)
unfolding run
run-IsSpent c db [] code s = s
run-IsSpent c db (call ∷ calls) code s =
    run-IsSpent c (perform c db call) calls code
      (Effect-IsSpent c db (perform c db call) call code (perform-Effect c db call) s)

-- What the exchange asks of the stored row.
abbrev pub Exchangeable : Crates → (client verifier uri : Text) (now : ℕ) → CodeRow → Type 0
Exchangeable c client verifier uri now row =
    (is_some row.used_at ≡ false)
    × (row.client_id ≡ client)
    × (verify_pkce_s256 c verifier row.code_challenge ≡ true)
    × (now < row.expires_at)
    × (row.redirect_uri ≡ uri)

pub exchange_from-done :
    (c : Crates) (db : AuthDb) (code client verifier uri : Text) (now later : ℕ) (family : Text)
    (pair got : TokenPair) (o : Option CodeRow)
    → (exchange_from c db code client verifier uri now later family pair o).0 ≡ done got
    → (row : CodeRow) × (o ≡ some row)
      × Exchangeable c client verifier uri now row
      × ((exchange_from c db code client verifier uri now later family pair o).1.codes
          ≡ modify code (spend now) db.codes)
unfolding issue_token_pair issue_token_pair_in
exchange_from-done c db code client verifier uri now later family pair got none h = cc h
exchange_from-done c db code client verifier uri now later family pair got (some row) h =
    let (unused, e1, h1) = ensure-done (not (is_some row.used_at)) _ db _ got h in
    let (same, e2, h2) = ensure-done (row.client_id == client) _ db _ got h1 in
    let (pkce, e3, h3) =
      ensure-done (verify_pkce_s256 c verifier row.code_challenge) _ db _ got h2 in
    let (fresh, e4, h4) = ensure-done (ltb now row.expires_at) _ db _ got h3 in
    let (uris, e5, h5) = ensure-done (row.redirect_uri == uri) _ db _ got h4 in
    (
      row,
      refl,
      (
        ground (arith, unused),
        (text_agrees _ _).0 same,
        pkce,
        ground (arith, fresh),
        (text_agrees _ _).0 uris,
      ),
      ap (λ r. r.1.codes) (e1 ∙ e2 ∙ e3 ∙ e4 ∙ e5),
    )

pub exchange_from-pass :
    (c : Crates) (db : AuthDb) (code client verifier uri : Text) (now later : ℕ) (family : Text)
    (pair : TokenPair) (row : CodeRow)
    → Exchangeable c client verifier uri now row
    → exchange_from c db code client verifier uri now later family pair (some row)
      ≡ issue_token_pair c
          (record db { codes = modify code (spend now) db.codes })
          row.user_id
          (some client)
          (decode_scopes row.granted_scopes)
          family
          pair
          later
exchange_from-pass c db code client verifier uri now later family pair row
      (unused, same, pkce, fresh, uris) =
    rw
      (
        ensure_pass (not (is_some row.used_at)) code_already_used db _ (rw unused refl),
        ensure_pass (row.client_id == client) client_id_mismatch db _ ((text_agrees _ _).1 same),
        ensure_pass (verify_pkce_s256 c verifier row.code_challenge) pkce_mismatch db _ pkce,
        ensure_pass (ltb now row.expires_at) code_expired db _ (ground (arith, fresh)),
        ensure_pass (row.redirect_uri == uri) redirect_uri_mismatch db _ ((text_agrees _ _).1 uris),
      )
      refl

-- An exchange gives the tokens exactly when the code is stored and unused, belongs to the client and
-- the redirect URI, has not expired, and its challenge is that of the verifier.
pub exchange_iff :
    (c : Crates) (db : AuthDb) (code client verifier uri : Text) (now later : ℕ) (family : Text)
    (pair : TokenPair)
    → ((row : CodeRow) × (find code db.codes ≡ some row)
        × Exchangeable c client verifier uri now row)
      ↔ ((exchange_authorization_code_for_tokens c db code client verifier uri now later family
            pair).0
          ≡ done pair)
unfolding exchange_authorization_code_for_tokens issue_token_pair issue_token_pair_in
exchange_iff c db code client verifier uri now later family pair = (
  λ (row, h, e). rw h (
      ap (λ r. r.0) (exchange_from-pass c db code client verifier uri now later family pair row e)),
  λ h.
      let (row, f, e, _) =
        exchange_from-done c db code client verifier uri now later family pair pair
          (find code db.codes) h in
      (row, f, e),
)

spent_fails :
    (c : Crates) (db : AuthDb) (code client verifier uri : Text) (now later : ℕ) (family : Text)
    (pair : TokenPair)
    → IsSpent code db
    → (exchange_authorization_code_for_tokens c db code client verifier uri now later family pair).0
      ≡ failed code_already_used
unfolding exchange_authorization_code_for_tokens ensure
spent_fails c db code client verifier uri now later family pair (row, h, used) = rw (h, used) refl

-- After an exchange that gave tokens, whatever calls follow, every further exchange of the same code
-- fails as already used, with any client, verifier, redirect URI and time.
pub exchange_once :
    (c : Crates) (db : AuthDb) (code client verifier uri : Text) (now later : ℕ) (family : Text)
    (pair got : TokenPair)
    → (exchange_authorization_code_for_tokens c db code client verifier uri now later family pair).0
      ≡ done got
    → (calls : List Call) (client' verifier' uri' : Text) (now' later' : ℕ) (family' : Text)
      (pair' : TokenPair)
    → (exchange_authorization_code_for_tokens c
        (run c db (exchanges code client verifier uri now later family pair ∷ calls))
        code
        client'
        verifier'
        uri'
        now'
        later'
        family'
        pair').0
      ≡ failed code_already_used
unfolding exchange_authorization_code_for_tokens run perform
exchange_once c db code client verifier uri now later family pair got h calls client' verifier' uri'
      now' later' family' pair' =
    let (row, f, _, e) =
      exchange_from-done c db code client verifier uri now later family pair got
        (find code db.codes) h in
    spent_fails c _ code client' verifier' uri' now' later' family' pair' (
      run-IsSpent c _ calls code (
        spend now row,
        rw (e, find-modify_hit code (spend now) db.codes) (ap (Option.map (spend now)) f),
        refl,
      ))
