-- ===== src/Store/Candidates.antt =====
-- The writes of candidate claims, crates/aver-core/src/candidates.rs: proposal, promotion and
-- rejection. Their records go to events.jsonl, but the claim of a promotion goes to log.jsonl.
use aver.Prelude.{
  ℕ, String, Bool, true, false, ◌∷◌, ◌++◌, ◌==◌, not, Option, none, some, find, nat_eq, string_eq,
  option_eq,
}
use aver.Text.{codes}
use aver.Exec
use aver.Types.{
  AgentKind, Provenance, CandidateStatus, pending, promoted, rejected, parse_agent_kind,
  agent_kind_str, provenance_str,
}
use aver.Log.{
  LogRecord, Decision, add_claim, propose_candidate_claim, promote_candidate_claim,
  reject_candidate_claim,
}
use aver.Db.{CandidateRow, EventRow}
use aver.Validation.{validate_claim_field, validate_scope, validate_rejection_reason}
use aver.Store.{
  StoreError, Env, Action, ◌>>=◌, ◌>>◌, return, fail, reading, transaction, ensure, checked,
  append_jsonl, appending, put, project, privacy_filter_recording, privacy_filter_path_recording,
  validate_ontology, projection, missing_candidate, missing_event, missing_event_provenance,
  invalid_candidate_status,
}

pub record CandidateWrite : Type 0 where
  pub event_id : ℕ
  pub subject : String
  pub predicate : String
  pub object : String
  pub scope : String

-- `append_jsonl` to events.jsonl
unfoldable pub append_event : Env → LogRecord → Action Unit
unfolding put
append_event env r s =
    let (answer, event_log) = appending s.event_log r (env.appends s.event_log r) in
    (answer, record s { event_log = event_log })

abbrev pub is_there : {V : Type 0} → Option V → Bool
is_there none = false
is_there (some v) = true

abbrev pub candidate_record : (now candidate_id : ℕ) → CandidateWrite → LogRecord
candidate_record now candidate_id w = propose_candidate_claim (record {
  ts = now;
  candidate_id = candidate_id;
  event_id = w.event_id;
  subject = w.subject;
  predicate = w.predicate;
  object = w.object;
  scope = w.scope;
})

-- `Store::propose_candidate_claim`
unfoldable pub propose : Env → (now candidate_id : ℕ) → CandidateWrite → Action ℕ
unfolding find checked validate_claim_field validate_scope privacy_filter_recording
    privacy_filter_path_recording append_event project ◌>>=◌
propose env now candidate_id w = do
  reading (λ db. ensure (is_there (find w.event_id db.episodic_events)) missing_event_provenance)
  checked (validate_claim_field (codes w.subject))
  checked (validate_claim_field (codes w.predicate))
  checked (validate_claim_field (codes w.object))
  checked (validate_scope (codes w.scope))
  privacy_filter_recording env
      (codes w.subject ++ (b' ' ∷ (codes w.predicate ++ (b' ' ∷ codes w.object))))
  privacy_filter_path_recording w.subject
  privacy_filter_path_recording w.object
  transaction do
    append_event env (candidate_record now candidate_id w)
    project env (candidate_record now candidate_id w)
    return candidate_id

unfoldable pub found_or : {V : Type 0} → Option V → StoreError → Action V
unfolding return fail
found_or none e = fail e
found_or (some v) e = return v

unfoldable pub get_candidate_claim : ℕ → Action CandidateRow
unfolding find found_or ◌>>=◌
get_candidate_claim id = reading (λ db. found_or (find id db.candidate_claims) missing_candidate)

-- `get_event`, of episodic.rs
unfoldable pub get_event : ℕ → Action EventRow
unfolding find found_or ◌>>=◌
get_event id = reading (λ db. found_or (find id db.episodic_events) missing_event)

-- `agent_kind.parse()?`
unfoldable pub parsed : Exec.Result AgentKind → Action AgentKind
unfolding return fail
parsed (Exec.ok kind) = return kind
parsed (Exec.err e) = fail (projection e)

abbrev pub is_rejected : CandidateStatus → Bool
is_rejected pending = false
is_rejected promoted = false
is_rejected rejected = true

abbrev pub is_promoted : CandidateStatus → Bool
is_promoted pending = false
is_promoted promoted = true
is_promoted rejected = false

abbrev pub attributed : Option (Provenance × ℕ) → CandidateRow → Provenance × ℕ
attributed none c = (c.provenance, c.confidence)
attributed (some attribution) c = attribution

abbrev pub promoted_claim :
    Env → (now claim_id : ℕ) → CandidateRow → EventRow → AgentKind → Provenance × ℕ → LogRecord
promoted_claim env now claim_id c event kind attribution = add_claim (record {
  ts = now;
  claim_id = claim_id;
  subject = c.subject;
  predicate = c.predicate;
  object = c.object;
  source = env.event_source c.event_id;
  agent_id = event.agent_id;
  agent_kind = agent_kind_str kind;
  confidence = attribution.1;
  provenance = some (provenance_str attribution.0);
  scope = c.scope;
})

-- The transaction of a promotion: both lines are logged before the rows are written.
unfoldable pub promotion : Env → (claim_id : ℕ) → (claim marker : LogRecord) → Action ℕ
unfolding append_jsonl append_event project ◌>>=◌
promotion env claim_id claim marker = transaction do
  append_jsonl env claim
  append_event env marker
  project env claim
  project env marker
  return claim_id

unfoldable pub promote_fresh :
    Env
    → (now claim_id candidate_id : ℕ) → Option (Provenance × ℕ)
    → Option Decision
    → CandidateRow
    → Option ℕ
    → Action ℕ
unfolding get_event parsed parse_agent_kind agent_kind_str provenance_str validate_ontology
    promotion ◌>>=◌
promote_fresh env now claim_id candidate_id attribution decision c (some id) = return id
promote_fresh env now claim_id candidate_id attribution decision c none = do
  event ← get_event c.event_id
  kind ← parsed (parse_agent_kind event.agent_kind)
  validate_ontology c.predicate (attributed attribution c).0
  promotion env claim_id (promoted_claim env now claim_id c event kind (attributed attribution c))
      (promote_candidate_claim now candidate_id claim_id decision)

-- `Store::promote_candidate_claim_inner`
unfoldable pub promote :
    Env → (now claim_id candidate_id : ℕ) → Option (Provenance × ℕ) → Option Decision → Action ℕ
unfolding get_candidate_claim promote_fresh ◌>>=◌
promote env now claim_id candidate_id attribution decision = do
  c ← get_candidate_claim candidate_id
  ensure (not (is_rejected c.status)) invalid_candidate_status
  promote_fresh env now claim_id candidate_id attribution decision c c.promoted_claim_id

-- The closure of a rejection, on the status that it reads again.
unfoldable pub reject_row :
    Env
    → (now candidate_id : ℕ) → String
    → Option Decision
    → CandidateRow
    → CandidateStatus
    → Action Unit
unfolding append_event project ◌>>=◌
reject_row env now candidate_id reason decision c rejected =
    ensure (c.rejection_reason == some reason) invalid_candidate_status
reject_row env now candidate_id reason decision c promoted = fail invalid_candidate_status
reject_row env now candidate_id reason decision c pending = do
  append_event env (reject_candidate_claim now candidate_id reason decision)
  project env (reject_candidate_claim now candidate_id reason decision)
  return tt

-- `Store::reject_candidate_claim_inner`
unfoldable pub reject : Env → (now candidate_id : ℕ) → String → Option Decision → Action Unit
unfolding get_candidate_claim checked validate_rejection_reason privacy_filter_recording reject_row
    ◌>>=◌
reject env now candidate_id reason decision = do
  c ← get_candidate_claim candidate_id
  ensure (not (is_promoted c.status)) invalid_candidate_status
  checked (validate_rejection_reason (codes reason))
  privacy_filter_recording env (codes reason)
  transaction do
    current ← get_candidate_claim candidate_id
    reject_row env now candidate_id reason decision current current.status
