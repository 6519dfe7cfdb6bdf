-- ===== src/Log.antt =====
-- The records of the append-only log (crates/aver-core/src/log.rs).
-- An i64, a u64 and the bit pattern of a float are natural numbers: the modelled code only
-- compares ids and times for equality, and computes with floats through `Host` (Db).
use aver.Prelude.{ℕ, String, Bool, Option, List}

pub record Participant : Type 0 where
  pub role : String
  pub entity : String

pub record ConfidenceChange : Type 0 where
  pub claim_id : ℕ
  pub confidence : ℕ

pub record Decision : Type 0 where
  pub model : String
  pub choice : String

pub record AddClaim : Type 0 where
  pub ts : ℕ
  pub claim_id : ℕ
  pub subject : String
  pub predicate : String
  pub object : String
  pub source : String
  pub agent_id : String
  pub agent_kind : String
  pub confidence : ℕ
  pub provenance : Option String
  pub scope : String

pub record AddHyperedge : Type 0 where
  pub ts : ℕ
  pub hyperedge_id : ℕ
  pub predicate : String
  pub provenance : String
  pub confidence : ℕ
  pub source_refs : List String
  pub participants : List Participant

pub record RecordEvent : Type 0 where
  pub ts : ℕ
  pub event_id : ℕ
  pub session_id : String
  pub event_kind : String
  pub payload : String
  pub source : String
  pub agent_id : String
  pub agent_kind : String
  pub scope : String

pub record RecordObservation : Type 0 where
  pub ts : ℕ
  pub observation_id : String
  pub session_id : String
  pub content : String
  pub relevance : String
  pub source_event_ids : List ℕ
  pub agent_id : String
  pub agent_kind : String
  pub derivation : String
  pub scope : String

pub record PruneObservations : Type 0 where
  pub ts : ℕ
  pub prune_marker_id : String
  pub session_id : String
  pub pruned_observation_ids : List String

pub record AddContradiction : Type 0 where
  pub ts : ℕ
  pub contradiction_id : ℕ
  pub claim_id : ℕ
  pub reason : String
  pub new_claim_id : Option ℕ

pub record ProposeCandidateClaim : Type 0 where
  pub ts : ℕ
  pub candidate_id : ℕ
  pub event_id : ℕ
  pub subject : String
  pub predicate : String
  pub object : String
  pub scope : String

pub record AddVectorChunk : Type 0 where
  pub ts : ℕ
  pub chunk_id : ℕ
  pub claim_id : ℕ
  pub text : String
  pub embedding_model : String
  pub embedding : Option (List ℕ)

pub data LogRecord : Type 0 where
  add_claim : AddClaim → LogRecord
  add_hyperedge : AddHyperedge → LogRecord
  record_event : RecordEvent → LogRecord
  record_observation : RecordObservation → LogRecord
  prune_observations : PruneObservations → LogRecord
  retire_claim : (ts claim_id : ℕ) (reason : String) → LogRecord
  add_contradiction : AddContradiction → LogRecord
  propose_candidate_claim : ProposeCandidateClaim → LogRecord
  promote_candidate_claim : (ts candidate_id claim_id : ℕ) → Option Decision → LogRecord
  reject_candidate_claim : (ts candidate_id : ℕ) (reason : String) → Option Decision → LogRecord
  supersede_claims : (ts : ℕ) (claim_ids : List ℕ) → LogRecord
  decay_confidence : (ts : ℕ) (changes : List ConfidenceChange) → LogRecord
  merge_source_refs : (ts claim_id : ℕ) (source_refs : List String) (promote : Bool) → LogRecord
  add_vector_chunk : AddVectorChunk → LogRecord
  embed_vector_chunk : (ts chunk_id : ℕ) (embedding : List ℕ) → LogRecord
