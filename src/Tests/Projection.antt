-- ===== src/Tests/Projection.antt =====
-- The theorems on `apply` and on replay at the database of Fixtures.
use aver.Apply.Hyperedges.{participants_of}
use aver.Prelude.{nat_eq, ◌≡◌, refl, none, some, find, arith}
use aver.Log.{promote_candidate_claim}
use aver.Exec.{enum_parse, invalid_record, ok, err}
use aver.Types.{parse_agent_kind, superseded, rejected, pending}
use aver.Apply.Candidates
use aver.Db.{ClaimRow, Db, duplicate}
use aver.Apply.{apply}
use aver.Apply.Duplicates.{apply-duplicate}
use aver.Apply.Covers.{apply-Steps}
use aver.Apply.Steps.{Steps, Same}
use aver.Lifecycle.ClaimHistory.{apply-Kept}
use aver.Lifecycle.CandidateHistory.{apply-Decided}
use aver.Lifecycle.Validity.{IsValid, apply-IsValid}
use aver.Tests.Fixtures.{
  host, empty_db, small_db, old_claim, rejected_candidate, edge, claim_of, promote_nine,
  retire_seven,
}

abbrev after_edge : Db
after_edge = (apply host edge empty_db).1

edge_duplicate : apply host edge after_edge ≡ (ok duplicate, after_edge)
unfolding aver.Types.provenance_str apply aver.Types.parse_provenance
    aver.Apply.Hyperedges.add_hyperedge aver.Ontology.ensure_predicate_known
    aver.Ontology.ensure_entity
edge_duplicate = refl

apply-duplicate_example : after_edge ≡ after_edge
apply-duplicate_example = apply-duplicate host edge after_edge after_edge edge_duplicate

-- The second change of the ontology needs no predicate, and an unknown agent kind stops the record.
bad_kind : apply host (claim_of "ROBOT") small_db ≡ (err enum_parse, small_db)
unfolding apply parse_agent_kind
bad_kind = refl

-- A rejected candidate is not promoted.
promote_eight :
    apply host (promote_candidate_claim 12 8 7 none) small_db ≡ (err invalid_record, small_db)
unfolding apply Candidates.check_decision Candidates.promote_candidate_claim
promote_eight = refl

apply-Steps_example : Steps small_db (apply host promote_nine small_db).1
apply-Steps_example = apply-Steps host promote_nine small_db

superseded_stored : find 7 small_db.claims ≡ some old_claim
unfolding find
superseded_stored = refl

apply-Kept_example :
    (c' : ClaimRow) × (find 7 (apply host retire_seven small_db).1.claims ≡ some c')
    × Same old_claim c'
apply-Kept_example = apply-Kept host retire_seven small_db 7 old_claim superseded_stored

rejected_stored : find 8 small_db.candidate_claims ≡ some rejected_candidate
unfolding find
rejected_stored = refl

apply-Decided_example :
    find 8 (apply host (promote_candidate_claim 12 8 7 none) small_db).1.candidate_claims
    ≡ some rejected_candidate
apply-Decided_example =
    apply-Decided host (promote_candidate_claim 12 8 7 none) small_db 8 rejected_candidate
      rejected_stored (λ e. ground arith)

pub empty-IsValid : IsValid empty_db
unfolding find participants_of
empty-IsValid = record { candidates = λ id c e. ground arith; participants = λ id e. refl }

apply-IsValid_example : IsValid after_edge
apply-IsValid_example = apply-IsValid host edge empty_db empty-IsValid
