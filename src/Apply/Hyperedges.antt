-- ===== src/Apply/Hyperedges.antt =====
-- `add_hyperedge` and `hyperedge_participants` of apply.rs.
use aver.Prelude.{
  ℕ, Bool, true, false, none, some, List, [], ◌∷◌, ◌++◌, ◌&&◌, ◌==◌, nat_eq, string_eq, list_eq,
  nat_beq, if◌then◌else◌, find, insert,
}
use aver.Exec.{Exec, ok, statement, ◌>>◌}
use aver.Types.{Provenance, active, provenance_str}
use aver.Log.{AddHyperedge, Participant}
use aver.Ontology.{ensure_predicate_known, ensure_entity}
use aver.Db.{Db, HyperedgeRow, Host, Applied, applied, hyperedge_row, participant_row, on_ontology}
use aver.Apply.Common.{settle}

-- SELECT role, entity … WHERE hyperedge_id = ? ORDER BY id
unfoldable pub participants_of : ℕ → List (ℕ × Participant) → List Participant
participants_of id [] = []
participants_of id ((j, p) ∷ ps) =
    let rest = participants_of id ps in if nat_beq j id then p ∷ rest else rest

unfoldable pub same_participants : List Participant → List Participant → Bool
same_participants [] [] = true
same_participants (p ∷ ps) (q ∷ qs) =
    (p.role == q.role && p.entity == q.entity) && same_participants ps qs
same_participants _ _ = false

unfoldable pub same_hyperedge :
    Host → HyperedgeRow → List Participant → AddHyperedge → Provenance → Bool
unfolding same_participants
same_hyperedge h e ps r provenance =
    e.predicate == r.predicate
    && provenance_str e.provenance == provenance_str provenance
    && h.close e.confidence r.confidence
    && e.source_refs == r.source_refs
    && same_participants ps r.participants

abbrev pub new_hyperedge : AddHyperedge → Provenance → HyperedgeRow
new_hyperedge r provenance = record {
  predicate = r.predicate;
  provenance = provenance;
  confidence = r.confidence;
  source_refs = r.source_refs;
  status = active;
  created_at = r.ts;
  updated_at = r.ts;
}

unfoldable pub insert_hyperedge : Host → AddHyperedge → Provenance → Exec Db Unit
unfolding insert
insert_hyperedge h r provenance db =
    let row = new_hyperedge r provenance in
    statement (h.admits db (hyperedge_row r.hyperedge_id row)) tt
      (record db { hyperedges = insert r.hyperedge_id row db.hyperedges }) db

unfoldable pub insert_participant : Host → ℕ → Participant → Exec Db Unit
insert_participant h id p db =
    statement (h.admits db (participant_row id p)) tt
      (record db { hyperedge_participants = db.hyperedge_participants ++ (id, p) ∷ [] }) db

-- The loop over the participants of a new hyperedge.
unfoldable pub insert_participants : Host → ℕ → ℕ → List Participant → Exec Db Applied
unfolding insert_participant
insert_participants h id ts [] db = (ok applied, db)
insert_participants h id ts (p ∷ ps) db =
    (do
      on_ontology (ensure_entity h.schema p.entity ts)
      insert_participant h id p
      insert_participants h id ts ps)
      db

-- The part of `add_hyperedge` for an id that is free.
unfoldable pub fresh_hyperedge : Host → AddHyperedge → Provenance → Exec Db Applied
unfolding insert_hyperedge insert_participants
fresh_hyperedge h r provenance = do
  on_ontology (ensure_predicate_known h.schema r.predicate provenance "local" r.ts)
  insert_hyperedge h r provenance
  insert_participants h r.hyperedge_id r.ts r.participants

unfoldable pub add_hyperedge : Host → AddHyperedge → Provenance → Exec Db Applied
unfolding find participants_of same_hyperedge fresh_hyperedge
add_hyperedge h r provenance db = elim (find r.hyperedge_id db.hyperedges) [
  | some e ↦ (
    settle (
        same_hyperedge h e (participants_of r.hyperedge_id db.hyperedge_participants) r provenance),
    db,
  )
  | none ↦ fresh_hyperedge h r provenance db
]
