-- ===== src/Apply/Covers.antt =====
-- The writes that `apply` makes, for every kind of record.
mod OnClaims
mod OnHyperedges
mod OnRows
use OnClaims.{
  add_claim-Steps, retire_claim-Steps, supersede_claims-Steps, decay_confidence-Steps,
  merge_source_refs-Steps,
}
use OnHyperedges.{add_hyperedge-Steps}
use OnRows.{
  record_event-Steps, record_observation-Steps, prune_observations-Steps, add_contradiction-Steps,
  propose_candidate_claim-Steps, promote_candidate_claim-Steps, reject_candidate_claim-Steps,
  add_vector_chunk-Steps, embed_vector_chunk-Steps,
}
use aver.Exec.{Exec, Result, lift, ◌>>=◌}
use aver.Log.{
  LogRecord, add_claim, add_hyperedge, record_event, record_observation, prune_observations,
  retire_claim, add_contradiction, propose_candidate_claim, promote_candidate_claim,
  reject_candidate_claim, supersede_claims, decay_confidence, merge_source_refs, add_vector_chunk,
  embed_vector_chunk,
}
use aver.Types.{parse_agent_kind, parse_provenance}
use aver.Db.{Db, Host, Applied}
use aver.Apply.{apply, claim_provenance}
use aver.Apply.Claims
use aver.Apply.Hyperedges
use aver.Apply.Candidates
use aver.Apply.Steps.{Steps, here, continue-Steps}

lift-Steps :
    {A : Type 0} (x : Result A) (f : A → Exec Db Applied) (db : Db)
    → ((a : A) → Steps db (f a db).1)
    → Steps db ((lift x >>= f) db).1
lift-Steps x f db k = continue-Steps x f db db here (λ a _. k a)

-- Whatever the record and whether `apply` succeeds or stops with an error, what it has done to the
-- database is a sequence of the writes of `Step`, each made where its premises held.
pub apply-Steps : (h : Host) (r : LogRecord) (db : Db) → Steps db (apply h r db).1
unfolding apply
apply-Steps h (add_claim r) db = lift-Steps (parse_agent_kind r.agent_kind) _ db λ k.
    lift-Steps (claim_provenance r.provenance k) (Claims.add_claim h r k) db
      λ p. add_claim-Steps h r k p db
apply-Steps h (add_hyperedge r) db =
    lift-Steps (parse_provenance r.provenance) (Hyperedges.add_hyperedge h r) db
      λ p. add_hyperedge-Steps h r p db
apply-Steps h (record_event r) db = record_event-Steps h r db
apply-Steps h (record_observation r) db = record_observation-Steps h r db
apply-Steps h (prune_observations r) db = prune_observations-Steps h r db
apply-Steps h (retire_claim ts id reason) db = retire_claim-Steps h ts id reason db
apply-Steps h (add_contradiction r) db = add_contradiction-Steps h r db
apply-Steps h (propose_candidate_claim r) db = propose_candidate_claim-Steps h r db
apply-Steps h (promote_candidate_claim ts id claim_id d) db =
    lift-Steps (Candidates.check_decision d "promote")
      (λ _. Candidates.promote_candidate_claim h id claim_id) db
      λ _. promote_candidate_claim-Steps h id claim_id db
apply-Steps h (reject_candidate_claim ts id reason d) db =
    lift-Steps (Candidates.check_decision d "reject")
      (λ _. Candidates.reject_candidate_claim h id reason) db
      λ _. reject_candidate_claim-Steps h id reason db
apply-Steps h (supersede_claims ts ids) db = supersede_claims-Steps h ids db
apply-Steps h (decay_confidence ts cs) db = decay_confidence-Steps h cs db
apply-Steps h (merge_source_refs ts id refs promote) db =
    merge_source_refs-Steps h id refs promote db
apply-Steps h (add_vector_chunk r) db = add_vector_chunk-Steps h r db
apply-Steps h (embed_vector_chunk ts id v) db = embed_vector_chunk-Steps h id v db
