-- ===== src/Apply/Candidates.antt =====
-- `propose_candidate_claim`, `check_decision`, `promote_candidate_claim`, `reject_candidate_claim`
-- and `add_contradiction` of apply.rs.
use aver.Prelude.{
  ℕ, String, Bool, not, Option, none, some, ◌&&◌, ◌==◌, nat_eq, string_eq, option_eq, if◌then◌else◌,
  find, insert, modify,
}
use aver.Text.{is_blank}
use aver.Exec.{Exec, Result, ok, err, statement, invalid_record}
use aver.Types.{CandidateStatus, pending, promoted, rejected, inferred}
use aver.Log.{Decision, ProposeCandidateClaim, AddContradiction}
use aver.Db.{
  Db, CandidateRow, ContradictionRow, Host, Applied, applied, candidate_row, contradiction_row,
}
use aver.Apply.Common.{settle}

unfoldable pub same_candidate : CandidateRow → ProposeCandidateClaim → Bool
same_candidate c r =
    c.event_id == r.event_id
    && c.subject == r.subject
    && c.predicate == r.predicate
    && c.object == r.object
    && c.scope == r.scope

-- The bits of the f64 0.45, the schema's default.
abbrev pub default_confidence : ℕ
default_confidence = 0x3FDCCCCCCCCCCCCD

abbrev pub new_candidate : ProposeCandidateClaim → CandidateRow
new_candidate r = record {
  event_id = r.event_id;
  subject = r.subject;
  predicate = r.predicate;
  object = r.object;
  provenance = inferred;
  confidence = default_confidence;
  status = pending;
  promoted_claim_id = none;
  rejection_reason = none;
  created_at = r.ts;
  scope = r.scope;
}

unfoldable pub propose_candidate_claim : Host → ProposeCandidateClaim → Exec Db Applied
unfolding find insert same_candidate
propose_candidate_claim h r db = elim (find r.candidate_id db.candidate_claims) [
  | some c ↦ (settle (same_candidate c r), db)
  | none ↦
      statement (h.admits db (candidate_row r.candidate_id (new_candidate r))) applied
        (record db {
          candidate_claims = insert r.candidate_id (new_candidate r) db.candidate_claims;
        })
        db
]

unfoldable pub check_decision : Option Decision → String → Result (Unit {0})
unfolding is_blank
check_decision none expected = ok tt
check_decision (some d) expected =
    if not (is_blank d.model) && d.choice == expected then ok tt else err invalid_record

-- UPDATE candidate_claims SET … WHERE id = ? AND status = 'PENDING', for a pending row.
unfoldable pub update_candidate : Host → ℕ → CandidateRow → Exec Db Applied
unfolding modify
update_candidate h id row db =
    statement (h.admits db (candidate_row id row)) applied
      (record db { candidate_claims = modify id (λ _. row) db.candidate_claims }) db

unfoldable pub promote_from :
    Host → (candidate_id claim_id : ℕ) → CandidateRow → CandidateStatus → Exec Db Applied
unfolding find update_candidate
promote_from h candidate_id claim_id c promoted db =
    (settle (c.promoted_claim_id == some claim_id), db)
promote_from h candidate_id claim_id c rejected db = (err invalid_record, db)
promote_from h candidate_id claim_id c pending db = elim (find claim_id db.claims) [
  | none ↦ (err invalid_record, db)
  | some _ ↦
      update_candidate h candidate_id
        (record c { status = promoted; promoted_claim_id = some claim_id }) db
]

unfoldable pub promote_candidate_claim : Host → (candidate_id claim_id : ℕ) → Exec Db Applied
unfolding find promote_from
promote_candidate_claim h candidate_id claim_id db = elim (find candidate_id db.candidate_claims) [
  | none ↦ (err invalid_record, db)
  | some c ↦ promote_from h candidate_id claim_id c c.status db
]

unfoldable pub reject_from : Host → ℕ → String → CandidateRow → CandidateStatus → Exec Db Applied
unfolding update_candidate
reject_from h candidate_id reason c rejected db = (settle (c.rejection_reason == some reason), db)
reject_from h candidate_id reason c promoted db = (err invalid_record, db)
reject_from h candidate_id reason c pending db =
    update_candidate h candidate_id (record c { status = rejected; rejection_reason = some reason })
      db

unfoldable pub reject_candidate_claim : Host → ℕ → String → Exec Db Applied
unfolding find reject_from
reject_candidate_claim h candidate_id reason db = elim (find candidate_id db.candidate_claims) [
  | none ↦ (err invalid_record, db)
  | some c ↦ reject_from h candidate_id reason c c.status db
]

unfoldable pub same_contradiction : ContradictionRow → AddContradiction → Bool
same_contradiction c r =
    c.claim_id == r.claim_id && c.reason == r.reason && c.new_claim_id == r.new_claim_id

abbrev pub new_contradiction : AddContradiction → ContradictionRow
new_contradiction r = record {
  claim_id = r.claim_id;
  reason = r.reason;
  new_claim_id = r.new_claim_id;
  created_at = r.ts;
}

unfoldable pub add_contradiction : Host → AddContradiction → Exec Db Applied
unfolding find insert same_contradiction
add_contradiction h r db = elim (find r.contradiction_id db.contradictions) [
  | some c ↦ (settle (same_contradiction c r), db)
  | none ↦
      statement (h.admits db (contradiction_row r.contradiction_id (new_contradiction r))) applied
        (record db {
          contradictions = insert r.contradiction_id (new_contradiction r) db.contradictions;
        })
        db
]
