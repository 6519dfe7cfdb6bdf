-- ===== src/Apply.antt =====
-- The projection writer, `apply` of crates/aver-core/src/apply.rs. Each record kind has its
-- function in a child module.
mod Common
pub mod Claims
pub mod Hyperedges
pub mod Episodic
pub mod Candidates
pub mod Vectors
pub mod Duplicates
pub mod Again
pub mod Steps
pub mod Covers
use aver.Prelude.{String, Option, none, some}
use aver.Exec.{Exec, Result, ok, err, lift, ◌>>=◌, ◌>>◌, invalid_record}
use aver.Types.{AgentKind, Provenance, default_provenance, parse_agent_kind, parse_provenance}
use aver.Log.{
  LogRecord, add_claim, add_hyperedge, record_event, record_observation, prune_observations,
  retire_claim, add_contradiction, propose_candidate_claim, promote_candidate_claim,
  reject_candidate_claim, supersede_claims, decay_confidence, merge_source_refs, add_vector_chunk,
  embed_vector_chunk,
}
use aver.Db.{Db, Host, Applied}

abbrev pub or_invalid {ℓ} : {A : Type ℓ} → Result A → Result A
or_invalid (ok a) = ok a
or_invalid (err e) = err invalid_record

-- The provenance of an `AddClaim` record.
unfoldable pub claim_provenance : Option String → AgentKind → Result Provenance
unfolding parse_provenance default_provenance
claim_provenance none kind = ok (default_provenance kind)
claim_provenance (some raw) kind = or_invalid (parse_provenance raw)

unfoldable pub apply : Host → LogRecord → Exec Db Applied
apply h (add_claim r) = do
  kind ← lift (parse_agent_kind r.agent_kind)
  provenance ← lift (claim_provenance r.provenance kind)
  Claims.add_claim h r kind provenance
apply h (add_hyperedge r) = do
  provenance ← lift (parse_provenance r.provenance)
  Hyperedges.add_hyperedge h r provenance
apply h (record_event r) = Episodic.record_event h r
apply h (record_observation r) = Episodic.record_observation h r
apply h (prune_observations r) = Episodic.prune_observations h r
apply h (retire_claim ts claim_id reason) = Claims.retire_claim h ts claim_id reason
apply h (add_contradiction r) = Candidates.add_contradiction h r
apply h (propose_candidate_claim r) = Candidates.propose_candidate_claim h r
apply h (promote_candidate_claim ts candidate_id claim_id decision) = do
  lift (Candidates.check_decision decision "promote")
  Candidates.promote_candidate_claim h candidate_id claim_id
apply h (reject_candidate_claim ts candidate_id reason decision) = do
  lift (Candidates.check_decision decision "reject")
  Candidates.reject_candidate_claim h candidate_id reason
apply h (supersede_claims ts claim_ids) = Claims.supersede_claims h claim_ids
apply h (decay_confidence ts changes) = Claims.decay_confidence h changes
apply h (merge_source_refs ts claim_id refs promote) =
    Claims.merge_source_refs h claim_id refs promote
apply h (add_vector_chunk r) = Vectors.add_vector_chunk h r
apply h (embed_vector_chunk ts chunk_id embedding) = Vectors.embed_vector_chunk h chunk_id embedding
