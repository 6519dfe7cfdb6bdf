-- ===== src/Auth/Provenance.antt =====
-- Where the tokens of auth.rs come from: the code that a token's client exchanged for it.
use aver.Prelude.{
  ◌==◌, ℕ, Bool, true, false, none, some, List, [], ◌∷◌, Table, find, insert, modify, update_where,
  ◌≡◌, refl, sym, ◌∙◌, arith, list_eq, nat_eq, rows-replace, rows-update_where, rows-modify_with,
  find-insert, find-modify, Bool-cases, inl, inr, if◌then◌else◌,
}
use aver.Auth.{Text, Crates, TokenRow, CodeRow, AuthDb, is_some, is_live, revoke, text_agrees}
use aver.Auth.Scopes.{encode_scopes, decode_scopes}
use aver.Auth.Calls.{Call, perform, run}
use aver.Auth.Codes.{spend}
use aver.Auth.Tokens.{revoke_live}
use aver.Auth.Words.{decode-encode-decode}
use aver.Auth.Effects.{Effect, quiet, stored, coded, exchanged, rotated, withdrawn, perform-Effect}

-- A spent code of the client and the user, with the scopes in `scopes`.
abbrev pub Source : Table Text CodeRow → (client user scopes : Text) → Type 0
Source codes client user scopes =
    (code : Text) × (row : CodeRow) × (find code codes ≡ some row)
    × (is_some row.used_at ≡ true)
    × (row.client_id ≡ client)
    × (row.user_id ≡ user)
    × (decode_scopes row.granted_scopes ≡ decode_scopes scopes)

abbrev pub BackedRow : Table Text CodeRow → TokenRow → Type 0
BackedRow codes row =
    (client : Text)
    → row.client_id ≡ some client
    → Source codes client row.user_id row.granted_scopes

abbrev pub BackedIn : Table Text CodeRow → Table Text TokenRow → Type 0
BackedIn codes t = (hash : Text) (row : TokenRow) → find hash t ≡ some row → BackedRow codes row

-- Each token that was issued to a client has a source.
abbrev pub Backed : AuthDb → Type 0
Backed db = BackedIn db.codes db.access_tokens × BackedIn db.codes db.refresh_tokens

abbrev Keeps : Table Text CodeRow → Table Text CodeRow → Type 0
Keeps old new =
    (client user scopes : Text) → Source old client user scopes → Source new client user scopes

insert-Keeps :
    (code : Text) (row : CodeRow) (t : Table Text CodeRow)
    → find code t ≡ none
    → Keeps t (insert code row t)
insert-Keeps code row t free client user scopes (k, r, h, u, cl, us, sc) =
    elim (Bool-cases (code == k)) [
      | inl same ↦ absurd (ground (arith, (text_agrees code k).0 same, free, h))
      | inr other ↦ (k, r, ground (arith, find-insert code k row t), u, cl, us, sc)
    ]

spend-Keeps : (code : Text) (now : ℕ) (t : Table Text CodeRow) → Keeps t (modify code (spend now) t)
spend-Keeps code now t client user scopes (k, r, h, u, cl, us, sc) = elim (Bool-cases (code == k)) [
  | inl same ↦ (k, spend now r, ground (arith, find-modify code k (spend now) t), refl, cl, us, sc)
  | inr other ↦ (k, r, ground (arith, find-modify code k (spend now) t), u, cl, us, sc)
]

Keeps-BackedIn :
    (old new : Table Text CodeRow) (t : Table Text TokenRow)
    → Keeps old new
    → BackedIn old t
    → BackedIn new t
Keeps-BackedIn old new t keeps b hash row h client q =
    keeps client row.user_id row.granted_scopes (b hash row h client q)

revoked-BackedRow :
    (codes : Table Text CodeRow) (b : Bool) (now : ℕ) (row : TokenRow)
    → BackedRow codes row
    → BackedRow codes (if b then revoke now row else row)
revoked-BackedRow codes true now row p = p
revoked-BackedRow codes false now row p = p

revoked-BackedIn :
    (codes : Table Text CodeRow) (p : TokenRow → Bool) (now : ℕ) (t : Table Text TokenRow)
    → BackedIn codes t
    → BackedIn codes (update_where p (revoke now) t)
revoked-BackedIn codes p now t d hash =
    rows-update_where (BackedRow codes) p (revoke now) t hash
      (λ w h. revoked-BackedRow codes (p w) now w (d hash w h))

spent-Source :
    (code client : Text) (now : ℕ) (row : CodeRow) (t : Table Text CodeRow)
    → find code t ≡ some row
    → row.client_id ≡ client
    → (cl : Text) → some client ≡ some cl
    → Source
        (modify code (spend now) t)
        cl
        row.user_id
        (encode_scopes (decode_scopes row.granted_scopes))
spent-Source code client now row t h same cl q = (
  code,
  spend now row,
  ground (arith, find-modify code code (spend now) t, (text_agrees code code).1 refl),
  refl,
  ground (arith, q),
  refl,
  sym (decode-encode-decode row.granted_scopes),
)

rotated-Source :
    (codes : Table Text CodeRow) (row : TokenRow)
    → BackedRow codes row
    → (cl : Text) → row.client_id ≡ some cl
    → Source codes cl row.user_id (encode_scopes (decode_scopes row.granted_scopes))
rotated-Source codes row b cl q =
    let (code, r, h, u, c, s, g) = b cl q in
    (code, r, h, u, c, s, g ∙ sym (decode-encode-decode row.granted_scopes))

Effect-Backed :
    (c : Crates) (db db' : AuthDb) (call : Call) → Effect c db db' call → Backed db → Backed db'
Effect-Backed c db db' call (quiet (a, r, e)) b = rw (a, r, e) b
Effect-Backed c db db' call (stored a r e) b =
    rw (a, r, e) (rows-replace (BackedRow db.codes) _ _ _ b.0 (λ cl q. cc q), b.1)
Effect-Backed c db db' call (coded new row free unused a r e) b =
    rw (a, r, e)
      (
        Keeps-BackedIn db.codes _ db.access_tokens (insert-Keeps new row db.codes free) b.0,
        Keeps-BackedIn db.codes _ db.refresh_tokens (insert-Keeps new row db.codes free) b.1,
      )
Effect-Backed c db db' call
      (exchanged {code = code} {client = client} {now = now} row h unused same a r e) b =
    let keeps = spend-Keeps code now db.codes in
    let new = spent-Source code client now row db.codes h same in
    rw (a, r, e)
      (
        rows-replace (BackedRow (modify code (spend now) db.codes)) _ _ _
            (Keeps-BackedIn db.codes _ db.access_tokens keeps b.0) new,
        rows-replace (BackedRow (modify code (spend now) db.codes)) _ _ _
            (Keeps-BackedIn db.codes _ db.refresh_tokens keeps b.1) new,
      )
Effect-Backed c db db' call (rotated {now = now} row h live a r e) b =
    let new = rotated-Source db.codes row (b.1 _ row h) in
    rw (a, r, e)
      (
        rows-replace (BackedRow db.codes) _ _ _ b.0 new,
        rows-replace (BackedRow db.codes) _ _ _
            (λ hash.
              rows-modify_with (BackedRow db.codes) _ (revoke_live now) db.refresh_tokens hash
                (b.1 hash) (λ w q. revoked-BackedRow db.codes (is_live w) now w (b.1 _ w q)))
            new,
      )
Effect-Backed c db db' call (withdrawn p now a r e) b =
    rw (a, r, e)
      (
        revoked-BackedIn db.codes p now db.access_tokens b.0,
        revoked-BackedIn db.codes p now db.refresh_tokens b.1,
      )

-- Over every history, each access and refresh token of a client stays backed by a code that was
-- exchanged for the same client and user, and carries exactly the scopes of that code.
pub run-Backed :
    (c : Crates) (db : AuthDb) (calls : List Call) → Backed db → Backed (run c db calls)
unfolding run
run-Backed c db [] b = b
run-Backed c db (call ∷ calls) b =
    run-Backed c (perform c db call) calls
      (Effect-Backed c db (perform c db call) call (perform-Effect c db call) b)
