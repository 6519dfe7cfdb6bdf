-- ===== src/Lifecycle/ClaimHistory.antt =====
-- What every record leaves of the claims that are there.
use aver.Apply.Steps.{
  active_or, Same, Step, Steps, claim_added, claim_changed, ontology_changed, here, next,
}
use aver.Prelude.{
  ℕ, ◌≡◌, refl, none, some, arith, find, insert, modify, find-insert, find-modify, Bool-cases, inl,
  inr, Table, nat_eq, nat_beq, nat_beq_iff,
}
use mathlib.Core.Path.{subst}
use aver.Log.{LogRecord}
use aver.Db.{Db, Host, ClaimRow}
use aver.Apply.{apply}
use aver.Apply.Covers.{apply-Steps}

-- Every claim of `old` is in `new`, with the same content.
abbrev pub Kept : Table ℕ ClaimRow → Table ℕ ClaimRow → Type 0
Kept old new =
    (id : ℕ) (c : ClaimRow)
    → find id old ≡ some c
    → (c' : ClaimRow) × (find id new ≡ some c') × Same c c'

Same-refl : (c : ClaimRow) → Same c c
Same-refl c = record {
  subject = refl;
  predicate = refl;
  object = refl;
  agent_id = refl;
  agent_kind = refl;
  created_at = refl;
  write_ts = refl;
  scope = refl;
  closed = active_or c.status;
}

Same-trans : {a b c : ClaimRow} → Same a b → Same b c → Same a c
Same-trans p q = record {
  subject = cc;
  predicate = cc;
  object = cc;
  agent_id = cc;
  agent_kind = cc;
  created_at = cc;
  write_ts = cc;
  scope = cc;
  closed = ground (arith, p.closed, q.closed);
}

Kept-refl : (t : Table ℕ ClaimRow) → Kept t t
Kept-refl t id c e = (c, e, Same-refl c)

Kept-trans : (s t u : Table ℕ ClaimRow) → Kept s t → Kept t u → Kept s u
Kept-trans s t u p q id c e =
    let (d, there, same) = p id c e in
    let (d', there', same') = q id d there in (d', there', Same-trans same same')

Kept-insert :
    (t : Table ℕ ClaimRow) (k : ℕ) (row : ClaimRow) → find k t ≡ none → Kept t (insert k row t)
Kept-insert t k row free id c e = (c, ground (arith, find-insert k id row t), Same-refl c)

Kept-modify :
    (t : Table ℕ ClaimRow) (k : ℕ) (c row : ClaimRow)
    → find k t ≡ some c
    → Same c row
    → Kept t (modify k (λ _. row) t)
Kept-modify t k c row found same id d e = elim (Bool-cases (nat_beq k id)) [
  | inl hit ↦
      let p : c ≡ d = cc ((nat_beq_iff k id).0 hit) in
      (
        row,
        ground (arith, find-modify k id (λ (_ : ClaimRow). row) t),
        subst (λ x. Same x row) p same,
      )
  | inr miss ↦ (d, ground (arith, find-modify k id (λ (_ : ClaimRow). row) t), Same-refl d)
]

pub Step-Kept : {s t : Db} → Step s t → Kept s.claims t.claims
Step-Kept {s} (claim_added id row free) = Kept-insert s.claims id row free
Step-Kept {s} (claim_changed id c row found same) = Kept-modify s.claims id c row found same
Step-Kept {s} (ontology_changed o) = Kept-refl s.claims
Step-Kept {s} _ = Kept-refl s.claims

pub Steps-Kept : {s t : Db} → Steps s t → Kept s.claims t.claims
Steps-Kept {s} here = Kept-refl s.claims
Steps-Kept {s} {t} (next {s = m} p st) =
    Kept-trans s.claims m.claims t.claims (Steps-Kept p) (Step-Kept st)

-- Whatever the record and whether it is applied, refused or a duplicate, a claim that was stored
-- is still stored, with its subject, predicate, object, agent, times of writing and scope
-- unchanged, and if it was superseded or invalidated it is not active.
pub apply-Kept :
    (h : Host) (r : LogRecord) (db : Db) (id : ℕ) (c : ClaimRow)
    → find id db.claims ≡ some c
    → (c' : ClaimRow) × (find id (apply h r db).1.claims ≡ some c') × Same c c'
apply-Kept h r db = Steps-Kept (apply-Steps h r db)
