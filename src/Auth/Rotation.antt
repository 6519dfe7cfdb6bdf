-- ===== src/Auth/Rotation.antt =====
-- The refresh tokens of one family in auth.rs: each rotation takes the place of the one before.
use aver.Prelude.{
  ◌==◌, ap, mapped-some, ℕ, Bool, true, false, some, Table, find, modify, replace, update_where,
  ◌≡◌, refl, sym, ◌∙◌, arith, list_eq, nat_eq, find-replace, find-modify, find-update_where,
  Bool-cases, inl, inr, ◌⊎◌, if◌then◌else◌,
}
use aver.Auth.{hash_token, Text, Crates, TokenRow, AuthDb, is_live, revoke, text_agrees}
use aver.Auth.Calls.{Call, perform, exchanges}
use aver.Auth.Tokens.{revoke_live}
use aver.Auth.Effects.{Effect, quiet, stored, coded, exchanged, rotated, withdrawn, perform-Effect}

-- The key holds a live token of the family.
abbrev pub LiveAt : Table Text TokenRow → (family hash : Text) → Type 0
LiveAt t family hash =
    (row : TokenRow) × (find hash t ≡ some row) × (row.family_id ≡ family) × (is_live row ≡ true)

abbrev pub OneLiveIn : Table Text TokenRow → Type 0
OneLiveIn t =
    (family hash other : Text) → LiveAt t family hash → LiveAt t family other → hash ≡ other

-- A family has at most one live refresh token.
abbrev pub OneLive : AuthDb → Type 0
OneLive db = OneLiveIn db.refresh_tokens

-- The family that an exchange draws has no live refresh token yet.
abbrev pub DrawsNew : AuthDb → Call → Type 0
DrawsNew db (exchanges code client verifier uri now later family pair) =
    (hash : Text) → ¬ LiveAt db.refresh_tokens family hash
DrawsNew db _ = Unit

LiveAt-replace :
    (key : Text) (new : TokenRow) (t : Table Text TokenRow) (family hash : Text)
    → LiveAt (replace key new t) family hash
    → ((key ≡ hash) × (new.family_id ≡ family)) ⊎ LiveAt t family hash
LiveAt-replace key new t family hash (row, h, f, l) = elim (Bool-cases (key == hash)) [
  | inl same ↦
      let p : new ≡ row = ground (arith, find-replace key hash new t) in
      inl ((text_agrees key hash).0 same, ap (λ r. r.family_id) p ∙ f)
  | inr other ↦ inr (row, ground (arith, find-replace key hash new t), f, l)
]

replace-OneLiveIn :
    (key : Text) (new : TokenRow) (t : Table Text TokenRow)
    → OneLiveIn t
    → ((hash : Text) → ¬ LiveAt t new.family_id hash)
    → OneLiveIn (replace key new t)
replace-OneLiveIn key new t one free family h k lh lk =
    elim (LiveAt-replace key new t family h lh) [
      | inl (p, f) ↦ elim (LiveAt-replace key new t family k lk) [
        | inl (q, g) ↦ sym p ∙ q
        | inr old ↦ absurd (free k (rw f old))
      ]
      | inr oldh ↦ elim (LiveAt-replace key new t family k lk) [
        | inl (q, g) ↦ absurd (free h (rw g oldh))
        | inr old ↦ one family h k oldh old
      ]
    ]

revoke_if-live :
    (b : Bool) (now : ℕ) (row : TokenRow)
    → is_live (if b then revoke now row else row) ≡ true
    → (if b then revoke now row else row) ≡ row
revoke_if-live true now row l = cc l
revoke_if-live false now row l = refl

revoke_live-dead : (now : ℕ) (row : TokenRow) → is_live (revoke_live now row) ≡ false
revoke_live-dead now row = elim (Bool-cases (is_live row)) [
  | inl live ↦ rw live refl
  | inr dead ↦ rw dead dead
]

LiveAt-modify :
    (key : Text) (now : ℕ) (t : Table Text TokenRow) (family hash : Text)
    → LiveAt (modify key (revoke_live now) t) family hash
    → ¬ (key ≡ hash) × LiveAt t family hash
LiveAt-modify key now t family hash (row, h, f, l) = elim (Bool-cases (key == hash)) [
  | inl hit ↦
      let (w, q, e) =
        mapped-some (revoke_live now) (find hash t) row
          (ground (arith, find-modify key hash (revoke_live now) t)) in
      absurd (ground (arith, sym (ap (λ r. is_live r) e) ∙ revoke_live-dead now w))
  | inr miss ↦ (
    λ same. absurd (ground (arith, (text_agrees key hash).1 same)),
    (row, ground (arith, find-modify key hash (revoke_live now) t), f, l),
  )
]

LiveAt-update_where :
    (p : TokenRow → Bool) (now : ℕ) (t : Table Text TokenRow) (family hash : Text)
    → LiveAt (update_where p (revoke now) t) family hash
    → LiveAt t family hash
LiveAt-update_where p now t family hash (row, h, f, l) =
    let (w, q, e) =
      mapped-some (λ r. if p r then revoke now r else r) (find hash t) row
        (sym (find-update_where p (revoke now) hash t) ∙ h) in
    let same = sym (revoke_if-live (p w) now w (ap (λ r. is_live r) e ∙ l)) ∙ e in
    (row, q ∙ ap some same, f, l)

Effect-OneLive :
    (c : Crates) (db db' : AuthDb) (call : Call)
    → Effect c db db' call
    → DrawsNew db call
    → OneLive db
    → OneLive db'
Effect-OneLive c db db' call (quiet (a, r, e)) new one = rw r one
Effect-OneLive c db db' call (stored a r e) new one = rw r one
Effect-OneLive c db db' call (coded code row free unused a r e) new one = rw r one
Effect-OneLive c db db' call (exchanged row h unused same a r e) new one =
    rw r (replace-OneLiveIn _ _ db.refresh_tokens one new)
Effect-OneLive c db db' call (rotated {token = token} {now = now} row h live a r e) new one = rw r (
    replace-OneLiveIn _ _ (modify (hash_token c token) (revoke_live now) db.refresh_tokens)
      (λ family i j li lj.
        one family i j (LiveAt-modify _ now db.refresh_tokens family i li).1
          (LiveAt-modify _ now db.refresh_tokens family j lj).1)
      (λ i li.
        let (other, old) = LiveAt-modify _ now db.refresh_tokens row.family_id i li in
        other (one row.family_id _ i (row, h, refl, live) old)))
Effect-OneLive c db db' call (withdrawn p now a r e) new one = rw r (λ family i j li lj.
    one family i j (LiveAt-update_where p now db.refresh_tokens family i li)
      (LiveAt-update_where p now db.refresh_tokens family j lj))

-- Every call keeps each family at one live refresh token at most, where an exchange draws the id of a
-- family that has none.
pub perform-OneLive :
    (c : Crates) (db : AuthDb) (call : Call)
    → DrawsNew db call
    → OneLive db
    → OneLive (perform c db call)
perform-OneLive c db call = Effect-OneLive c db (perform c db call) call (perform-Effect c db call)
