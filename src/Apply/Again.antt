-- ===== src/Apply/Again.antt =====
-- Applying a record a second time.
use aver.Types.{promoted, rejected, AgentKind, Provenance}
use aver.Prelude.{
  Option-cases, find, find-modify_self, inl, inr, some, ◌++◌, [], ◌∷◌, ◌≡◌, arith, ==_refl, nat_eq,
  string_eq, true, ℕ, String, List,
}
use aver.Apply.Vectors
use aver.Apply.Candidates
use aver.Apply.Claims
use aver.Exec.{ok}
use aver.Log.{
  RecordEvent, RecordObservation, PruneObservations, AddContradiction, ProposeCandidateClaim,
  AddVectorChunk, AddClaim,
}
use aver.Db.{Db, Host, applied, duplicate}
use aver.Apply.Episodic

same_event_self : (r : RecordEvent) → Episodic.same_event (Episodic.new_event r) r ≡ true
unfolding Episodic.same_event
same_event_self r = simp ==_refl

same_observation_self :
    (r : RecordObservation) → Episodic.same_observation (Episodic.new_observation r) r ≡ true
unfolding Episodic.same_observation
same_observation_self r = simp ==_refl

same_marker_self : (r : PruneObservations) → Episodic.same_marker (Episodic.new_marker r) r ≡ true
unfolding Episodic.same_marker
same_marker_self r = simp ==_refl

same_claim_self :
    (r : AddClaim) (kind : AgentKind) (p : Provenance)
    → Claims.same_claim (Claims.new_claim r kind p) r kind ≡ true
unfolding Claims.same_claim
same_claim_self r kind p = simp ==_refl

same_candidate_self :
    (r : ProposeCandidateClaim) → Candidates.same_candidate (Candidates.new_candidate r) r ≡ true
unfolding Candidates.same_candidate
same_candidate_self r = simp ==_refl

same_contradiction_self :
    (r : AddContradiction) → Candidates.same_contradiction (Candidates.new_contradiction r) r ≡ true
unfolding Candidates.same_contradiction
same_contradiction_self r = simp ==_refl

same_chunk_self :
    (h : Host) (r : AddVectorChunk) → Vectors.same_chunk h (Vectors.new_chunk h r) r ≡ true
unfolding Vectors.same_chunk
same_chunk_self h r = simp ==_refl

str_mem-append : (s : String) (ts : List String) → Claims.str_mem s (ts ++ s ∷ []) ≡ true
unfolding Claims.str_mem
str_mem-append s [] = simp ==_refl
str_mem-append s (t ∷ ts) = ground (arith, str_mem-append s ts)

module _ (h : Host) (db db' : Db) where
  pub record_event-again :
      (r : RecordEvent)
      → Episodic.record_event h r db ≡ (ok applied, db')
      → Episodic.record_event h r db' ≡ (ok duplicate, db')
  unfolding Episodic.record_event
  record_event-again r e = ground (arith, same_event_self r)

  pub record_observation-again :
      (r : RecordObservation)
      → Episodic.record_observation h r db ≡ (ok applied, db')
      → Episodic.record_observation h r db' ≡ (ok duplicate, db')
  unfolding Episodic.record_observation
  record_observation-again r e = ground (arith, same_observation_self r, ==_refl r.observation_id)

  pub prune_observations-again :
      (r : PruneObservations)
      → Episodic.prune_observations h r db ≡ (ok applied, db')
      → Episodic.prune_observations h r db' ≡ (ok duplicate, db')
  unfolding Episodic.prune_observations
  prune_observations-again r e = ground (arith, same_marker_self r, ==_refl r.prune_marker_id)

  pub add_claim-again :
      (r : AddClaim) (kind : AgentKind) (p : Provenance)
      → Claims.add_claim h r kind p db ≡ (ok applied, db')
      → Claims.add_claim h r kind p db' ≡ (ok duplicate, db')
  unfolding Claims.add_claim
  add_claim-again r kind p e = ground (arith, same_claim_self r kind p)

  pub retire_claim-again :
      (ts id : ℕ) (reason : String)
      → Claims.retire_claim h ts id reason db ≡ (ok applied, db')
      → Claims.retire_claim h ts id reason db' ≡ (ok duplicate, db')
  unfolding Claims.retire_claim
  retire_claim-again ts id reason e = elim (Option-cases (find id db.claims)) [
    | inl missing ↦ ground arith
    | inr (c, found) ↦ ground (
      arith,
      str_mem-append (Claims.retired_marker reason) c.source_refs,
      find-modify_self id (Claims.retired_row ts reason c) db.claims found,
    )
  ]

  pub add_contradiction-again :
      (r : AddContradiction)
      → Candidates.add_contradiction h r db ≡ (ok applied, db')
      → Candidates.add_contradiction h r db' ≡ (ok duplicate, db')
  unfolding Candidates.add_contradiction
  add_contradiction-again r e = ground (arith, same_contradiction_self r)

  pub propose_candidate_claim-again :
      (r : ProposeCandidateClaim)
      → Candidates.propose_candidate_claim h r db ≡ (ok applied, db')
      → Candidates.propose_candidate_claim h r db' ≡ (ok duplicate, db')
  unfolding Candidates.propose_candidate_claim
  propose_candidate_claim-again r e = ground (arith, same_candidate_self r)

  pub add_vector_chunk-again :
      (r : AddVectorChunk)
      → Vectors.add_vector_chunk h r db ≡ (ok applied, db')
      → Vectors.add_vector_chunk h r db' ≡ (ok duplicate, db')
  unfolding Vectors.add_vector_chunk
  add_vector_chunk-again r e = ground (arith, same_chunk_self h r)

  pub promote_candidate_claim-again :
      (id claim_id : ℕ)
      → Candidates.promote_candidate_claim h id claim_id db ≡ (ok applied, db')
      → Candidates.promote_candidate_claim h id claim_id db' ≡ (ok duplicate, db')
  unfolding Candidates.promote_candidate_claim
  promote_candidate_claim-again id claim_id e = elim (Option-cases (find id db.candidate_claims)) [
    | inl missing ↦ ground arith
    | inr (c, found) ↦ ground (
      arith,
      find-modify_self id (record c { status = promoted; promoted_claim_id = some claim_id })
          db.candidate_claims found,
    )
  ]

  pub reject_candidate_claim-again :
      (id : ℕ) (reason : String)
      → Candidates.reject_candidate_claim h id reason db ≡ (ok applied, db')
      → Candidates.reject_candidate_claim h id reason db' ≡ (ok duplicate, db')
  unfolding Candidates.reject_candidate_claim
  reject_candidate_claim-again id reason e = elim (Option-cases (find id db.candidate_claims)) [
    | inl missing ↦ ground arith
    | inr (c, found) ↦ ground (
      arith,
      ==_refl reason,
      find-modify_self id (record c { status = rejected; rejection_reason = some reason })
          db.candidate_claims found,
    )
  ]

  pub embed_vector_chunk-again :
      (id : ℕ) (v : List ℕ)
      → Vectors.embed_vector_chunk h id v db ≡ (ok applied, db')
      → Vectors.embed_vector_chunk h id v db' ≡ (ok duplicate, db')
  unfolding Vectors.embed_vector_chunk
  embed_vector_chunk-again id v e = elim (Option-cases (find id db.vector_chunks)) [
    | inl missing ↦ ground arith
    | inr (c, found) ↦ ground (
      arith,
      ==_refl (h.embedding_json v),
      find-modify_self id (record c { embedding_json = some (h.embedding_json v) }) db.vector_chunks
          found,
    )
  ]
