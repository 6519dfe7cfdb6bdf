-- ===== src/Store/Decided.antt =====
-- What a promotion leaves: a promoted candidate, whose promotion gives the same claim and writes
-- nothing.
use aver.Lifecycle.Validity.{IsValid, IsLawful, Lawful}
use mathlib.Core.Path.{subst}
use aver.Prelude.{
  String, Table, ap, ℕ, false, Option, none, some, find, nat_eq, ◌≡◌, refl, Option-cases,
  Bool-cases, inl, inr, find-modify_self, option_eq, ◌==◌,
}
use aver.Exec
use aver.Types.{Provenance, CandidateStatus, pending, promoted, rejected}
use aver.Log.{LogRecord, Decision, promote_candidate_claim}
use aver.Db.{ClaimRow, candidate_row, Db, Host, Applied, CandidateRow}
use aver.Apply.{apply}
use aver.Apply.Candidates
use aver.Store.{
  Store, Env, Answer, Action, done, failed, continue, ◌>>=◌, return, settle, transaction, project,
  projected,
}
use aver.Store.Candidates.{
  promote, promote_fresh, promotion, get_candidate_claim, found_or, is_rejected,
}

-- The candidate is promoted, and its claim is `claim_id`.
abbrev pub IsPromoted : (candidate_id claim_id : ℕ) → Db → Type 0
IsPromoted candidate_id claim_id db =
    (c : CandidateRow) × (find candidate_id db.candidate_claims ≡ some c)
    × (c.status ≡ promoted)
    × (c.promoted_claim_id ≡ some claim_id)

-- What an action leaves where it returns.
record Leaves {A : Type 0} (Q : A → Db → Type 0) (m : Action A) : Type 0 where
  at : (s : Store) (a : A) → (m s).0 ≡ done a → Q a (m s).1.db

module _ {A B : Type 0} {Q : B → Db → Type 0} where
  continue-Leaves :
      (x : Answer A) (f : A → Action B) (s : Store) (b : B)
      → ((a : A) → Leaves Q (f a))
      → (continue x f s).0 ≡ done b
      → Q b (continue x f s).1.db
  continue-Leaves (done a) f s b k e = (k a).at s b e
  continue-Leaves (failed c) f s b k e = cc e

  Leaves-bind : (m : Action A) (f : A → Action B) → ((a : A) → Leaves Q (f a)) → Leaves Q (m >>= f)
  unfolding ◌>>=◌
  Leaves-bind m f k = record { at = λ s b e. continue-Leaves (m s).0 f (m s).1 b k e }

settle-done :
    {A : Type 0} (P : Db → Type 0) (x : Answer A) (before : Db) (s : Store) (b : A)
    → (x ≡ done b → P s.db)
    → (settle x before s).0 ≡ done b
    → P (settle x before s).1.db
settle-done P (done a) before s b h e = h e
settle-done P (failed c) before s b h e = cc e

module _ {A : Type 0} {Q : A → Db → Type 0} where
  Leaves-transaction : (m : Action A) → Leaves Q m → Leaves Q (transaction m)
  unfolding transaction
  Leaves-transaction m k = record {
    at = λ s b e. settle-done (Q b) (m s).0 s.db (m s).1 b (k.at s b) e;
  }

promote_from-IsPromoted :
    (h : Host) (candidate_id claim_id : ℕ) (c : CandidateRow) (status : CandidateStatus)
    (a : Applied) (db db' : Db)
    → find candidate_id db.candidate_claims ≡ some c
    → c.status ≡ status
    → Candidates.promote_from h candidate_id claim_id c status db ≡ (Exec.ok a, db')
    → IsPromoted candidate_id claim_id db'
unfolding Candidates.promote_from Candidates.update_candidate
promote_from-IsPromoted h candidate_id claim_id c promoted a db db' found st e =
    elim (Bool-cases (c.promoted_claim_id == some claim_id)) [
      | inl same ↦
          subst (IsPromoted candidate_id claim_id) (ap (λ x. x.1) e)
            (c, found, st, (option_eq.agrees c.promoted_claim_id (some claim_id)).0 same)
      | inr differs ↦ cc (rw differs at e)
    ]
promote_from-IsPromoted h candidate_id claim_id c rejected a db db' found st e = cc e
promote_from-IsPromoted h candidate_id claim_id c pending a db db' found st e =
    elim (Option-cases (find claim_id db.claims)) [
      | inl missing ↦ cc (rw (missing, Candidates.promote_from) at e)
      | inr (claim, there) ↦
          let row = record c { status = promoted; promoted_claim_id = some claim_id } in
          let e' = rw (there, Candidates.promote_from) at e in
          elim (Bool-cases (h.admits db (candidate_row candidate_id row))) [
            | inl admitted ↦
                subst (IsPromoted candidate_id claim_id) (ap (λ x. x.1) (rw admitted at e'))
                  (row, find-modify_self candidate_id row db.candidate_claims found, refl, refl)
            | inr refused ↦ cc (rw refused at e')
          ]
    ]

promote-IsPromoted :
    (h : Host) (candidate_id claim_id : ℕ) (a : Applied) (db db' : Db)
    → Candidates.promote_candidate_claim h candidate_id claim_id db ≡ (Exec.ok a, db')
    → IsPromoted candidate_id claim_id db'
unfolding Candidates.promote_candidate_claim
promote-IsPromoted h candidate_id claim_id a db db' e =
    elim (Option-cases (find candidate_id db.candidate_claims)) [
      | inl missing ↦ cc (rw (missing, Candidates.promote_candidate_claim) at e)
      | inr (c, found) ↦
          promote_from-IsPromoted h candidate_id claim_id c c.status a db db' found refl
            (rw (found, Candidates.promote_candidate_claim) at e)
    ]

apply-IsPromoted :
    (h : Host) (ts candidate_id claim_id : ℕ) (d : Option Decision) (a : Applied) (db : Db)
    → (apply h (promote_candidate_claim ts candidate_id claim_id d) db).0 ≡ Exec.ok a
    → IsPromoted candidate_id claim_id
        (apply h (promote_candidate_claim ts candidate_id claim_id d) db).1
unfolding apply
apply-IsPromoted h ts candidate_id claim_id d a db e =
    let (checked, c, run) =
      Exec.bind-ok (Exec.lift (Candidates.check_decision d "promote"))
        (λ _. Candidates.promote_candidate_claim h candidate_id claim_id) db _ a
        (ap (λ r. (r, (apply h (promote_candidate_claim ts candidate_id claim_id d) db).1)) e) in
    promote-IsPromoted h candidate_id claim_id a db _ run

project-Leaves :
    (env : Env) (now candidate_id claim_id : ℕ) (d : Option Decision) (s : Store)
    (x : Exec.Result Applied) (after : Db) (id : ℕ)
    → ((a : Applied) → x ≡ Exec.ok a → IsPromoted candidate_id claim_id after)
    → (continue
        (projected x (record s { db = after })).0
        (λ _. return claim_id)
        (projected x (record s { db = after })).1).0
      ≡ done id
    → IsPromoted candidate_id id
        (continue
          (projected x (record s { db = after })).0
          (λ _. return claim_id)
          (projected x (record s { db = after })).1).1.db
unfolding return
project-Leaves env now candidate_id claim_id d s (Exec.ok a) after id h e =
    let same : claim_id ≡ id = cc e in subst (λ i. IsPromoted candidate_id i after) same (h a refl)
project-Leaves env now candidate_id claim_id d s (Exec.err c) after id h e = cc e

marked-Leaves :
    (env : Env) (now candidate_id claim_id : ℕ) (d : Option Decision)
    → Leaves
        (IsPromoted candidate_id)
        (project env (promote_candidate_claim now candidate_id claim_id d) >>= λ _. return claim_id)
unfolding project ◌>>=◌
marked-Leaves env now candidate_id claim_id d = record {
  at = λ s id e.
      let marker = promote_candidate_claim now candidate_id claim_id d in
      project-Leaves env now candidate_id claim_id d s (apply env.host marker s.db).0
        (apply env.host marker s.db).1 id
        (λ a. apply-IsPromoted env.host now candidate_id claim_id d a s.db) e;
}

promotion-Leaves :
    (env : Env) (now candidate_id claim_id : ℕ) (d : Option Decision) (claim : LogRecord)
    → Leaves
        (IsPromoted candidate_id)
        (promotion env claim_id claim (promote_candidate_claim now candidate_id claim_id d))
unfolding promotion
promotion-Leaves env now candidate_id claim_id d claim =
    search (Leaves-transaction, Leaves-bind, marked-Leaves) depth 12

fresh-Leaves :
    (env : Env) (now claim_id candidate_id : ℕ) (attribution : Option (Provenance × ℕ))
    (d : Option Decision) (c : CandidateRow)
    → Leaves
        (IsPromoted candidate_id)
        (promote_fresh env now claim_id candidate_id attribution d c none)
unfolding promote_fresh
fresh-Leaves env now claim_id candidate_id attribution d c =
    search (Leaves-bind, promotion-Leaves) depth 12

promoted_of :
    (st : CandidateStatus) (claims : Table ℕ ClaimRow) (k : ℕ) (why : Option String)
    → is_rejected st ≡ false
    → Lawful claims st (some k) why
    → st ≡ promoted
promoted_of promoted claims k why nay l = refl
promoted_of rejected claims k why nay l = cc nay
promoted_of pending claims k none nay l = absurd l
promoted_of pending claims k (some r) nay l = absurd l

lawful-promoted :
    (db : Db) (c : CandidateRow) (k : ℕ)
    → is_rejected c.status ≡ false
    → c.promoted_claim_id ≡ some k
    → IsLawful db.claims c
    → c.status ≡ promoted
lawful-promoted db c k nay p l =
    promoted_of c.status db.claims k c.rejection_reason nay
      (subst (λ o. Lawful db.claims c.status o c.rejection_reason) p l)

module _ (env : Env) (now claim_id candidate_id : ℕ) (attribution : Option (Provenance × ℕ))
    (d : Option Decision) where
  known-IsPromoted :
      (c : CandidateRow) (o : Option ℕ) (s : Store) (id : ℕ)
      → ((i : ℕ) → o ≡ some i → IsPromoted candidate_id i s.db)
      → (promote_fresh env now claim_id candidate_id attribution d c o s).0 ≡ done id
      → IsPromoted candidate_id id
          (promote_fresh env now claim_id candidate_id attribution d c o s).1.db
  unfolding promote_fresh return
  known-IsPromoted c none s id h e =
      (fresh-Leaves env now claim_id candidate_id attribution d c).at s id e
  known-IsPromoted c (some i) s id h e = let same : i ≡ id = cc e in h id (ap some same)

  -- A promotion that returns, on a valid database, leaves the candidate promoted to the claim that it gives.
  pub promote-Promotes :
      (s : Store) (id : ℕ)
      → IsValid s.db
      → (promote env now claim_id candidate_id attribution d s).0 ≡ done id
      → IsPromoted candidate_id id (promote env now claim_id candidate_id attribution d s).1.db
  unfolding promote get_candidate_claim found_or ◌>>=◌
  promote-Promotes s id valid e = elim (Option-cases (find candidate_id s.db.candidate_claims)) [
    | inl missing ↦ cc (rw missing at e)
    | inr (c, found) ↦ elim (Bool-cases (is_rejected c.status)) [
      | inl yea ↦ cc (rw (found, yea) at e)
      | inr nay ↦
          rw (found, nay)
            (known-IsPromoted c c.promoted_claim_id s id
              (λ i p. (
                c,
                found,
                lawful-promoted s.db c i nay p (valid.candidates candidate_id c found),
                p,
              ))
              (rw (found, nay) at e))
    ]
  ]

  pub promoted-again :
      (s : Store) (id : ℕ)
      → IsPromoted candidate_id id s.db
      → promote env now claim_id candidate_id attribution d s ≡ (done id, s)
  unfolding promote get_candidate_claim found_or promote_fresh ◌>>=◌
  promoted-again s id (c, found, st, p) = rw (found, st, p) refl
