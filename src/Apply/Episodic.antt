-- ===== src/Apply/Episodic.antt =====
-- `record_event`, `record_observation` and `prune_observations` of apply.rs.
use aver.Prelude.{Bool, none, some, ◌&&◌, ◌==◌, nat_eq, string_eq, list_eq, find, insert}
use aver.Exec.{Exec, statement}
use aver.Log.{RecordEvent, RecordObservation, PruneObservations}
use aver.Db.{
  Db, EventRow, ObservationRow, PruneMarkerRow, Host, Applied, applied, event_row, observation_row,
  prune_marker_row,
}
use aver.Apply.Common.{settle}

unfoldable pub same_event : EventRow → RecordEvent → Bool
same_event e r =
    e.session_id == r.session_id
    && e.kind == r.event_kind
    && e.payload == r.payload
    && e.source == r.source
    && e.agent_id == r.agent_id
    && e.agent_kind == r.agent_kind

abbrev pub new_event : RecordEvent → EventRow
new_event r = record {
  session_id = r.session_id;
  kind = r.event_kind;
  payload = r.payload;
  source = r.source;
  agent_id = r.agent_id;
  agent_kind = r.agent_kind;
  ts = r.ts;
  scope = r.scope;
}

unfoldable pub record_event : Host → RecordEvent → Exec Db Applied
unfolding find insert same_event
record_event h r db = elim (find r.event_id db.episodic_events) [
  | some e ↦ (settle (same_event e r), db)
  | none ↦
      statement (h.admits db (event_row r.event_id (new_event r))) applied
        (record db { episodic_events = insert r.event_id (new_event r) db.episodic_events }) db
]

unfoldable pub same_observation : ObservationRow → RecordObservation → Bool
same_observation o r =
    o.session_id == r.session_id
    && o.content == r.content
    && o.relevance == r.relevance
    && o.source_event_ids == r.source_event_ids
    && o.agent_id == r.agent_id
    && o.agent_kind == r.agent_kind
    && o.derivation == r.derivation

abbrev pub new_observation : RecordObservation → ObservationRow
new_observation r = record {
  session_id = r.session_id;
  content = r.content;
  relevance = r.relevance;
  source_event_ids = r.source_event_ids;
  agent_id = r.agent_id;
  agent_kind = r.agent_kind;
  derivation = r.derivation;
  ts = r.ts;
  scope = r.scope;
}

unfoldable pub record_observation : Host → RecordObservation → Exec Db Applied
unfolding find insert same_observation
record_observation h r db = elim (find r.observation_id db.observations) [
  | some o ↦ (settle (same_observation o r), db)
  | none ↦
      statement (h.admits db (observation_row r.observation_id (new_observation r))) applied
        (record db { observations = insert r.observation_id (new_observation r) db.observations })
        db
]

unfoldable pub same_marker : PruneMarkerRow → PruneObservations → Bool
same_marker m r =
    m.session_id == r.session_id
    && m.pruned_observation_ids == r.pruned_observation_ids
    && m.ts == r.ts

abbrev pub new_marker : PruneObservations → PruneMarkerRow
new_marker r = record {
  session_id = r.session_id;
  pruned_observation_ids = r.pruned_observation_ids;
  ts = r.ts;
}

unfoldable pub prune_observations : Host → PruneObservations → Exec Db Applied
unfolding find insert same_marker
prune_observations h r db = elim (find r.prune_marker_id db.observation_prune_markers) [
  | some m ↦ (settle (same_marker m r), db)
  | none ↦
      statement (h.admits db (prune_marker_row r.prune_marker_id (new_marker r))) applied
        (record db {
          observation_prune_markers =
              insert r.prune_marker_id (new_marker r) db.observation_prune_markers;
        })
        db
]
