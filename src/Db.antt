-- ===== src/Db.antt =====
-- The SQLite tables that `apply` writes (migrations/0001 to 0010), and what the program leaves to
-- SQLite, serde_json and floating point.
-- JSON columns are the lists that they encode. The `status` and `provenance` columns are the
-- enumerations whose wire strings they hold.
use aver.Prelude.{ℕ, String, Bool, Option, List, Table}
use aver.Exec.{Exec}
use aver.Types.{Provenance, ClaimStatus, CandidateStatus}
use aver.Log.{Participant}
use aver.Ontology.{Ontology, Schema}

pub record ClaimRow : Type 0 where
  pub subject : String
  pub predicate : String
  pub object : String
  pub provenance : Provenance
  pub confidence : ℕ
  pub status : ClaimStatus
  pub source_refs : List String
  pub agent_id : String
  pub agent_kind : String
  pub write_ts : ℕ
  pub created_at : ℕ
  pub last_seen_at : ℕ
  pub last_verified_at : ℕ
  pub scope : String

pub record HyperedgeRow : Type 0 where
  pub predicate : String
  pub provenance : Provenance
  pub confidence : ℕ
  pub source_refs : List String
  pub status : ClaimStatus
  pub created_at : ℕ
  pub updated_at : ℕ

pub record EventRow : Type 0 where
  pub session_id : String
  pub kind : String
  pub payload : String
  pub source : String
  pub agent_id : String
  pub agent_kind : String
  pub ts : ℕ
  pub scope : String

pub record ObservationRow : Type 0 where
  pub session_id : String
  pub content : String
  pub relevance : String
  pub source_event_ids : List ℕ
  pub agent_id : String
  pub agent_kind : String
  pub derivation : String
  pub ts : ℕ
  pub scope : String

pub record PruneMarkerRow : Type 0 where
  pub session_id : String
  pub pruned_observation_ids : List String
  pub ts : ℕ

pub record CandidateRow : Type 0 where
  pub event_id : ℕ
  pub subject : String
  pub predicate : String
  pub object : String
  pub provenance : Provenance
  pub confidence : ℕ
  pub status : CandidateStatus
  pub promoted_claim_id : Option ℕ
  pub rejection_reason : Option String
  pub created_at : ℕ
  pub scope : String

pub record ContradictionRow : Type 0 where
  pub claim_id : ℕ
  pub reason : String
  pub new_claim_id : Option ℕ
  pub created_at : ℕ

pub record ChunkRow : Type 0 where
  pub claim_id : ℕ
  pub text : String
  pub embedding_model : String
  pub embedding_json : Option String
  pub created_at : ℕ

pub record Db : Type 0 where
  pub ontology : Ontology
  pub claims : Table ℕ ClaimRow
  pub hyperedges : Table ℕ HyperedgeRow
  -- in the order of their ids
  pub hyperedge_participants : List (ℕ × Participant)
  pub episodic_events : Table ℕ EventRow
  pub observations : Table String ObservationRow
  pub observation_prune_markers : Table String PruneMarkerRow
  pub candidate_claims : Table ℕ CandidateRow
  pub contradictions : Table ℕ ContradictionRow
  pub vector_chunks : Table ℕ ChunkRow
  -- `none` where the database has no `vector_index` table
  pub vector_index : Option (Table ℕ String)

-- A row that an INSERT or an UPDATE is about to store.
pub data Row : Type 0 where
  claim_row : ℕ → ClaimRow → Row
  hyperedge_row : ℕ → HyperedgeRow → Row
  participant_row : ℕ → Participant → Row
  event_row : ℕ → EventRow → Row
  observation_row : String → ObservationRow → Row
  prune_marker_row : String → PruneMarkerRow → Row
  candidate_row : ℕ → CandidateRow → Row
  contradiction_row : ℕ → ContradictionRow → Row
  chunk_row : ℕ → ChunkRow → Row
  index_row : ℕ → String → Row

-- What the Rust code takes from elsewhere: whether the schema's constraints and triggers admit a
-- row, `(a - b).abs() < 1e-9` and SQLite's MAX on f64, and `serde_json::to_string` of an embedding.
pub record Host : Type 0 where
  pub schema : Schema
  pub admits : Db → Row → Bool
  pub close : ℕ → ℕ → Bool
  pub max_f64 : ℕ → ℕ → ℕ
  pub embedding_json : List ℕ → String

-- `apply::Applied`
pub data Applied : Type 0 where
  applied duplicate : Applied

abbrev pub on_ontology : Exec Ontology Unit → Exec Db Unit
on_ontology m db = let (r, o) = m db.ontology in (r, record db { ontology = o })
