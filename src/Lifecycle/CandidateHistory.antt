-- ===== src/Lifecycle/CandidateHistory.antt =====
-- What every record leaves of the candidate claims that are there.
use aver.Prelude.{
  ℕ, ◌≡◌, ◌≢◌, none, some, arith, find, insert, modify, find-insert, find-modify, Table, nat_eq,
  nat_beq_iff,
}
use aver.Types.{pending}
use aver.Log.{LogRecord}
use aver.Db.{Db, Host, CandidateRow}
use aver.Apply.{apply}
use aver.Apply.Steps.{
  Step, Steps, candidate_proposed, candidate_promoted, candidate_rejected, ontology_changed, here,
  next,
}
use aver.Apply.Covers.{apply-Steps}

-- Every decided candidate of `old` is in `new` as it was.
abbrev pub Decided : Table ℕ CandidateRow → Table ℕ CandidateRow → Type 0
Decided old new =
    (id : ℕ) (c : CandidateRow) → find id old ≡ some c → c.status ≢ pending → find id new ≡ some c

Decided-insert :
    (t : Table ℕ CandidateRow) (k : ℕ) (row : CandidateRow)
    → find k t ≡ none
    → Decided t (insert k row t)
Decided-insert t k row free id c e n = ground (arith, find-insert k id row t)

Decided-modify :
    (t : Table ℕ CandidateRow) (k : ℕ) (c row : CandidateRow)
    → find k t ≡ some c
    → c.status ≡ pending
    → Decided t (modify k (λ _. row) t)
Decided-modify t k c row found p id d e n =
    ground (arith, find-modify k id (λ (_ : CandidateRow). row) t, nat_beq_iff k id)

Step-Decided : {s t : Db} → Step s t → Decided s.candidate_claims t.candidate_claims
Step-Decided {s} (candidate_proposed r free) =
    Decided-insert s.candidate_claims r.candidate_id _ free
Step-Decided {s} (candidate_promoted id claim_id c claim found p there) =
    Decided-modify s.candidate_claims id c _ found p
Step-Decided {s} (candidate_rejected id reason c found p) =
    Decided-modify s.candidate_claims id c _ found p
Step-Decided {s} (ontology_changed o) = λ id c e n. e
Step-Decided {s} _ = λ id c e n. e

pub Steps-Decided : {s t : Db} → Steps s t → Decided s.candidate_claims t.candidate_claims
Steps-Decided here id c e n = e
Steps-Decided (next p st) id c e n = Step-Decided st id c (Steps-Decided p id c e n) n

-- A candidate that was promoted or rejected keeps its whole row under every record, whether the
-- record is applied, refused or a duplicate.
pub apply-Decided :
    (h : Host) (r : LogRecord) (db : Db) (id : ℕ) (c : CandidateRow)
    → find id db.candidate_claims ≡ some c
    → c.status ≢ pending
    → find id (apply h r db).1.candidate_claims ≡ some c
apply-Decided h r db = Steps-Decided (apply-Steps h r db)
