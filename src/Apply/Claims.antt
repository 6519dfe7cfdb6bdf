-- ===== src/Apply/Claims.antt =====
-- `add_claim`, `retire_claim`, `supersede_claims`, the `DecayConfidence` arm and
-- `merge_source_refs` of apply.rs.
use Prim.Native.String
use aver.Prelude.{
  ℕ, String, Bool, true, false, none, some, List, [], ◌∷◌, ◌++◌, ◌&&◌, ◌||◌, ◌==◌, nat_eq,
  string_eq, if◌then◌else◌, find, insert, modify,
}
use aver.Exec.{Exec, ok, err, statement, ◌>>◌, invalid_record}
use aver.Types.{
  AgentKind, Provenance, ClaimStatus, active, superseded, invalidated, extracted, agent_kind_str,
}
use aver.Log.{AddClaim, ConfidenceChange}
use aver.Ontology.{ensure_predicate_known, ensure_entity}
use aver.Db.{Db, ClaimRow, Host, Applied, applied, claim_row, on_ontology}
use aver.Apply.Common.{settle}

-- The comparison with a stored claim, over the columns that no lifecycle record changes.
unfoldable pub same_claim : ClaimRow → AddClaim → AgentKind → Bool
same_claim c r kind =
    c.subject == r.subject
    && c.predicate == r.predicate
    && c.object == r.object
    && c.agent_id == r.agent_id
    && c.agent_kind == agent_kind_str kind
    && c.scope == r.scope

abbrev pub new_claim : AddClaim → AgentKind → Provenance → ClaimRow
new_claim r kind provenance = record {
  subject = r.subject;
  predicate = r.predicate;
  object = r.object;
  provenance = provenance;
  confidence = r.confidence;
  status = active;
  source_refs = r.source ∷ [];
  agent_id = r.agent_id;
  agent_kind = agent_kind_str kind;
  write_ts = r.ts;
  created_at = r.ts;
  last_seen_at = r.ts;
  last_verified_at = r.ts;
  scope = r.scope;
}

unfoldable pub insert_claim : Host → AddClaim → AgentKind → Provenance → Exec Db Applied
unfolding insert
insert_claim h r kind provenance db =
    let row = new_claim r kind provenance in
    statement (h.admits db (claim_row r.claim_id row)) applied
      (record db { claims = insert r.claim_id row db.claims }) db

-- The part of `add_claim` for an id that is free.
unfoldable pub fresh_claim : Host → AddClaim → AgentKind → Provenance → Exec Db Applied
unfolding insert_claim
fresh_claim h r kind provenance = do
  on_ontology (ensure_predicate_known h.schema r.predicate provenance r.agent_id r.ts)
  on_ontology (ensure_entity h.schema r.subject r.ts)
  on_ontology (ensure_entity h.schema r.object r.ts)
  insert_claim h r kind provenance

unfoldable pub add_claim : Host → AddClaim → AgentKind → Provenance → Exec Db Applied
unfolding find same_claim fresh_claim
add_claim h r kind provenance db = elim (find r.claim_id db.claims) [
  | some c ↦ (settle (same_claim c r kind), db)
  | none ↦ fresh_claim h r kind provenance db
]

-- UPDATE claims SET … WHERE id = ?, where `row` is the new row.
unfoldable pub update_claim : {A : Type 0} → Host → ℕ → ClaimRow → A → Exec Db A
unfolding modify
update_claim h id row a db =
    statement (h.admits db (claim_row id row)) a
      (record db { claims = modify id (λ _. row) db.claims }) db

unfoldable pub str_mem : String → List String → Bool
str_mem s [] = false
str_mem s (t ∷ ts) = t == s || str_mem s ts

abbrev pub is_invalidated : ClaimStatus → Bool
is_invalidated invalidated = true
is_invalidated _ = false

abbrev pub is_superseded : ClaimStatus → Bool
is_superseded superseded = true
is_superseded _ = false

-- `format!("retired:{reason}")`
abbrev pub retired_marker : String → String
retired_marker reason = String.◌++◌ "retired:" reason

abbrev pub retired_row : ℕ → String → ClaimRow → ClaimRow
retired_row ts reason c = record c {
  status = invalidated;
  source_refs = c.source_refs ++ retired_marker reason ∷ [];
  last_seen_at = ts;
}

unfoldable pub retire_claim : Host → (ts claim_id : ℕ) → String → Exec Db Applied
unfolding find str_mem update_claim
retire_claim h ts claim_id reason db = elim (find claim_id db.claims) [
  | none ↦ (err invalid_record, db)
  | some c ↦
      if is_invalidated c.status
      then (settle (str_mem (retired_marker reason) c.source_refs), db)
      else update_claim h claim_id (retired_row ts reason c) applied db
]

-- One round of the loop in `supersede_claims`.
unfoldable pub supersede_claim : Host → ℕ → Exec Db Unit
unfolding find update_claim
supersede_claim h claim_id db = elim (find claim_id db.claims) [
  | none ↦ (err invalid_record, db)
  | some c ↦
      if is_superseded c.status
      then (ok tt, db)
      else update_claim h claim_id (record c { status = superseded }) tt db
]

unfoldable pub supersede_claims : Host → List ℕ → Exec Db Applied
unfolding supersede_claim
supersede_claims h [] db = (ok applied, db)
supersede_claims h (id ∷ ids) db = (do supersede_claim h id; supersede_claims h ids) db

-- One round of the loop in the `DecayConfidence` arm: the update touches one row or none.
unfoldable pub change_confidence : Host → ConfidenceChange → Exec Db Unit
unfolding find update_claim
change_confidence h change db = elim (find change.claim_id db.claims) [
  | none ↦ (err invalid_record, db)
  | some c ↦ update_claim h change.claim_id (record c { confidence = change.confidence }) tt db
]

unfoldable pub decay_confidence : Host → List ConfidenceChange → Exec Db Applied
unfolding change_confidence
decay_confidence h [] db = (ok applied, db)
decay_confidence h (c ∷ cs) db = (do change_confidence h c; decay_confidence h cs) db

-- the bits of the f64 0.75
abbrev pub extracted_floor : ℕ
extracted_floor = 0x3FE8000000000000

abbrev pub merged_row : Host → List String → Bool → ClaimRow → ClaimRow
merged_row h refs true c = record c {
  source_refs = refs;
  provenance = extracted;
  confidence = h.max_f64 c.confidence extracted_floor;
}
merged_row h refs false c = record c { source_refs = refs }

unfoldable pub merge_source_refs : Host → ℕ → List String → Bool → Exec Db Applied
unfolding find update_claim
merge_source_refs h claim_id refs promote db = elim (find claim_id db.claims) [
  | none ↦ (err invalid_record, db)
  | some c ↦ update_claim h claim_id (merged_row h refs promote c) applied db
]
