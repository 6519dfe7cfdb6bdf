-- ===== src/Tests/Fixtures.antt =====
-- A host, a seeded database with one claim and one candidate, and records.
use aver.Prelude.{String, true, none, some, [], ◌∷◌, suc, length, leb, nat_beq, if◌then◌else◌}
use aver.Types.{extracted, inferred, superseded, pending, rejected}
use aver.Log.{LogRecord, add_claim, retire_claim, promote_candidate_claim}
use aver.Ontology.{PredicateType, Ontology}
use aver.Db.{Db, Host, ClaimRow, CandidateRow}

abbrev pub host : Host
host = record {
  schema = record { admits = λ o r. true; next_id = λ t. suc (length t) };
  admits = λ db r. true;
  close = λ a b. nat_beq a b;
  max_f64 = λ a b. if leb a b then b else a;
  embedding_json = λ xs. "[]";
}

abbrev pub relates_to : PredicateType
relates_to = record {
  name = "relates_to";
  parent_id = none;
  created_via = "seed";
  created_at = none;
  cardinality = "multi";
}

abbrev pub ontology : Ontology
ontology = record {
  predicate_types = (1, relates_to) ∷ [];
  predicate_alias = [];
  predicate_closure = [];
  extension_log = [];
  entity_types = ("Thing", 1) ∷ [];
  entities = [];
}

abbrev pub old_claim : ClaimRow
old_claim = record {
  subject = "User";
  predicate = "relates_to";
  object = "aver";
  provenance = extracted;
  confidence = 5;
  status = superseded;
  source_refs = "notes" ∷ [];
  agent_id = "pi";
  agent_kind = "LLM";
  write_ts = 3;
  created_at = 3;
  last_seen_at = 3;
  last_verified_at = 3;
  scope = "global";
}

abbrev pub candidate : CandidateRow
candidate = record {
  event_id = 1;
  subject = "User";
  predicate = "relates_to";
  object = "rust";
  provenance = inferred;
  confidence = 4;
  status = pending;
  promoted_claim_id = none;
  rejection_reason = none;
  created_at = 3;
  scope = "global";
}

abbrev pub rejected_candidate : CandidateRow
rejected_candidate = record candidate { status = rejected; rejection_reason = some "wrong" }

abbrev pub empty_db : Db
empty_db = record {
  ontology = ontology;
  claims = [];
  hyperedges = [];
  hyperedge_participants = [];
  episodic_events = [];
  observations = [];
  observation_prune_markers = [];
  candidate_claims = [];
  contradictions = [];
  vector_chunks = [];
  vector_index = none;
}

abbrev pub small_db : Db
small_db = record empty_db {
  claims = (7, old_claim) ∷ [];
  candidate_claims = (8, rejected_candidate) ∷ (9, candidate) ∷ [];
}

-- An edge that extends the ontology by a predicate and an entity for each participant.
abbrev pub edge : LogRecord
edge = LogRecord.add_hyperedge (record {
  ts = 10;
  hyperedge_id = 4;
  predicate = "reviewed";
  provenance = "EXTRACTED";
  confidence = 6;
  source_refs = "meeting" ∷ [];
  participants =
      record { role = "author"; entity = "User" } ∷ record { role = "tool"; entity = "aver" } ∷ [];
})

abbrev pub claim_of : String → LogRecord
claim_of kind = add_claim (record {
  ts = 11;
  claim_id = 12;
  subject = "User";
  predicate = "prefers";
  object = "rust";
  source = "chat";
  agent_id = "pi";
  agent_kind = kind;
  confidence = 5;
  provenance = none;
  scope = "global";
})

abbrev pub promote_nine : LogRecord
promote_nine = promote_candidate_claim 12 9 7 none

abbrev pub retire_seven : LogRecord
retire_seven = retire_claim 13 7 "stale"
