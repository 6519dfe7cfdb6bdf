-- ===== src/Auth/Revocation.antt =====
-- The two ways in which auth.rs withdraws tokens, and what they leave: the reuse of a refresh token,
-- and the revocation of a consent.
use aver.Prelude.{
  ap, ℕ, Bool, true, false, Option, none, some, List, ◌∷◌, Table, find, update_where, ◌≡◌, refl,
  arith, list_eq, nat_eq, rows-update_where, Bool-cases, inl, inr, option_eq, if◌then◌else◌,
}
use aver.Auth.{
  Text, Crates, TokenPair, TokenRow, AuthDb, failed, reuse_detected, is_some, is_live, revoke,
  hash_token, text_agrees,
}
use aver.Auth.Calls.{Call, perform, run, refreshes, revokes}
use aver.Auth.Tokens.{access_token_grant, refresh_access_token, in_family, revoke_token_family}
use aver.Auth.Consents.{given_to, revoke_consent}
use aver.Auth.Dead.{DeadRow, DeadIn, AllDead, AllSpare, run-AllDead}

-- Every token of the class is refused: the access tokens at any time, and the refresh tokens as
-- reused.
abbrev pub NoneHonoured : (InClass : Text → Option Text → Text → Type 0) → Crates → AuthDb → Type 0
NoneHonoured InClass c db =
    ((hash : Text) (row : TokenRow)
      → find hash db.access_tokens ≡ some row
      → InClass row.user_id row.client_id row.family_id
      → (now : ℕ) → access_token_grant db hash now ≡ none)
    × ((token : Text) (row : TokenRow)
        → find (hash_token c token) db.refresh_tokens ≡ some row
        → InClass row.user_id row.client_id row.family_id
        → (now later : ℕ) (pair : TokenPair)
        → (refresh_access_token c db token now later pair).0 ≡ failed reuse_detected)

module _ (InClass : (user : Text) → (client : Option Text) → (family : Text) → Type 0) where
  covered-DeadRow :
      (b : Bool) (now : ℕ) (row : TokenRow)
      → (InClass row.user_id row.client_id row.family_id → is_live row ≡ true → b ≡ true)
      → DeadRow InClass (if b then revoke now row else row)
  covered-DeadRow true now row cover q = refl
  covered-DeadRow false now row cover q = elim (Bool-cases (is_live row)) [
    | inl live ↦ cc (cover q live)
    | inr dead ↦ dead
  ]

  withdrawn-DeadIn :
      (p : TokenRow → Bool) (now : ℕ) (t : Table Text TokenRow)
      → ((row : TokenRow)
          → InClass row.user_id row.client_id row.family_id
          → is_live row ≡ true
          → p row ≡ true)
      → DeadIn InClass (update_where p (revoke now) t)
  withdrawn-DeadIn p now t cover hash =
      rows-update_where (DeadRow InClass) p (revoke now) t hash
        (λ w h. covered-DeadRow (p w) now w (cover w))

  AllDead-NoneHonoured : (c : Crates) (db : AuthDb) → AllDead InClass db → NoneHonoured InClass c db
  unfolding access_token_grant refresh_access_token
  AllDead-NoneHonoured c db d = (
    λ hash row h q now. rw (h, d.0 hash row h q) refl,
    λ token row h q now later pair.
        let dead : is_some row.revoked_at ≡ true = ground (arith, d.1 _ row h q) in
        rw (h, dead) refl,
  )

abbrev pub OfFamily : Text → Text → Option Text → Text → Type 0
OfFamily family user client f = f ≡ family

abbrev pub OfConsent : Text → Text → Text → Option Text → Text → Type 0
OfConsent user client u cl f = (u ≡ user) × (cl ≡ some client)

reused_db :
    (c : Crates) (db : AuthDb) (token : Text) (now later : ℕ) (pair : TokenPair) (row : TokenRow)
    → find (hash_token c token) db.refresh_tokens ≡ some row
    → is_some row.revoked_at ≡ true
    → refresh_access_token c db token now later pair
      ≡ (failed reuse_detected, revoke_token_family db row.family_id later)
unfolding refresh_access_token
reused_db c db token now later pair row h reused = rw (h, reused) refl

in_family_member :
    (family : Text) (row : TokenRow)
    → row.family_id ≡ family
    → is_live row ≡ true
    → in_family family row ≡ true
in_family_member family row q live = ground (arith, (text_agrees row.family_id family).1 q)

family-AllDead :
    (db : AuthDb) (family : Text) (now : ℕ)
    → AllDead (OfFamily family) (revoke_token_family db family now)
unfolding revoke_token_family
family-AllDead db family now = (
  withdrawn-DeadIn (OfFamily family) _ now db.access_tokens (in_family_member family),
  withdrawn-DeadIn (OfFamily family) _ now db.refresh_tokens (in_family_member family),
)

given_to_member :
    (user client : Text) (row : TokenRow)
    → OfConsent user client row.user_id row.client_id row.family_id
    → is_live row ≡ true
    → given_to user client row ≡ true
given_to_member user client row q live =
    ground (arith, q, (text_agrees row.user_id user).1 q.0, (text_agrees client client).1 refl)

-- When a refresh token that was rotated or revoked is presented again, its whole family is refused
-- from then on: over every later history that issues no first token with that family's id, each
-- access token of the family is refused at any time, and each refresh token of it as reused.
pub reuse-NoneHonoured :
    (c : Crates) (db : AuthDb) (token : Text) (now later : ℕ) (pair : TokenPair) (row : TokenRow)
    → find (hash_token c token) db.refresh_tokens ≡ some row
    → is_some row.revoked_at ≡ true
    → (calls : List Call) → AllSpare (OfFamily row.family_id) calls
    → NoneHonoured (OfFamily row.family_id) c (run c db (refreshes token now later pair ∷ calls))
unfolding run perform
reuse-NoneHonoured c db token now later pair row h reused calls spare =
    AllDead-NoneHonoured (OfFamily row.family_id) c _ (
      run-AllDead (OfFamily row.family_id) c _ calls spare (
        rw (ap (λ r. r.1) (reused_db c db token now later pair row h reused))
          (family-AllDead db row.family_id later)))

-- After a consent is revoked, every token of that user and client is refused, over every later
-- history in which no code is exchanged for the client.
pub revoke_consent-NoneHonoured :
    (c : Crates) (db : AuthDb) (user client : Text) (now : ℕ) (calls : List Call)
    → AllSpare (OfConsent user client) calls
    → NoneHonoured (OfConsent user client) c (run c db (revokes user client now ∷ calls))
unfolding run perform revoke_consent
revoke_consent-NoneHonoured c db user client now calls spare =
    AllDead-NoneHonoured (OfConsent user client) c _ (
      run-AllDead (OfConsent user client) c _ calls spare (
        withdrawn-DeadIn (OfConsent user client) _ now db.access_tokens
            (given_to_member user client),
        withdrawn-DeadIn (OfConsent user client) _ now db.refresh_tokens
            (given_to_member user client),
      ))
