-- ===== src/Store/Claims.antt =====
-- The writes of single claims, contradictions and retirements, crates/aver-core/src/claims.rs, and
-- `ClaimWrite` of types.rs.
use aver.Prelude.{ℕ, String, Bool, List, ◌∷◌, ◌++◌, Option, none, some, find, nat_eq, if◌then◌else◌}
use aver.Text.{codes}
use aver.Types.{
  AgentKind, Provenance, user_asserted, extracted, inferred, ambiguous, default_provenance,
  agent_kind_str, provenance_str,
}
use aver.Log.{LogRecord, add_claim, add_contradiction, retire_claim}
use aver.Db.{ClaimRow, ContradictionRow}
use aver.Apply.Claims.{is_invalidated}
use aver.Validation.{
  validate_claim_field, validate_scope, validate_agent_id, validate_contradiction_reason,
}
use aver.Store.{
  Env, Action, ◌>>=◌, ◌>>◌, return, fail, reading, transaction, ensure, checked, write,
  privacy_filter_recording, privacy_filter_path_recording, validate_ontology, invalid_confidence,
  missing_claim, already_retired, no_rows,
}

pub record ClaimWrite : Type 0 where
  pub subject : String
  pub predicate : String
  pub object : String
  pub source : String
  pub agent_id : String
  pub agent_kind : AgentKind
  pub provenance : Provenance
  pub confidence : ℕ
  pub scope : String

-- `Provenance::policy_confidence`: the bits of the f64 0.95, 0.90, 0.45 and 0.20.
abbrev pub policy_confidence : Provenance → ℕ
policy_confidence user_asserted = 0x3FEE666666666666
policy_confidence extracted = 0x3FECCCCCCCCCCCCD
policy_confidence inferred = 0x3FDCCCCCCCCCCCCD
policy_confidence ambiguous = 0x3FC999999999999A

-- `ClaimWrite::from_agent`
unfoldable pub from_agent :
    (agent_id : String) → AgentKind → (subject predicate object source : String) → ClaimWrite
unfolding default_provenance
from_agent agent_id agent_kind subject predicate object source =
    let provenance = default_provenance agent_kind in
    record {
      subject = subject;
      predicate = predicate;
      object = object;
      source = source;
      agent_id = agent_id;
      agent_kind = agent_kind;
      provenance = provenance;
      confidence = policy_confidence provenance;
      scope = "global";
    }

-- `ClaimWrite::provenance`
abbrev pub with_provenance : Provenance → ClaimWrite → ClaimWrite
with_provenance p w = record w { provenance = p; confidence = policy_confidence p }

-- The text that the gate sees: the fields, with a space between.
abbrev pub gated_text : ClaimWrite → List ℕ
gated_text w =
    codes w.agent_id
    ++ (b' '
        ∷ (codes (agent_kind_str w.agent_kind)
            ++ (b' '
                ∷ (codes w.subject
                    ++ (b' '
                        ∷ (codes w.predicate
                            ++ (b' ' ∷ (codes w.object ++ (b' ' ∷ codes w.source)))))))))

unfoldable pub validate_claim_write : Env → ClaimWrite → Action Unit
unfolding checked validate_claim_field validate_scope validate_agent_id privacy_filter_recording
    privacy_filter_path_recording validate_ontology agent_kind_str ◌>>=◌
validate_claim_write env w = do
  checked (validate_claim_field (codes w.subject))
  checked (validate_claim_field (codes w.predicate))
  checked (validate_claim_field (codes w.object))
  checked (validate_claim_field (codes w.source))
  checked (validate_scope (codes w.scope))
  ensure (env.in_unit w.confidence) invalid_confidence
  checked (validate_agent_id (codes w.agent_id))
  privacy_filter_recording env (gated_text w)
  privacy_filter_path_recording w.subject
  privacy_filter_path_recording w.object
  privacy_filter_path_recording w.source
  validate_ontology w.predicate w.provenance

abbrev pub claim_record : (now claim_id : ℕ) → ClaimWrite → LogRecord
claim_record now claim_id w = add_claim (record {
  ts = now;
  claim_id = claim_id;
  subject = w.subject;
  predicate = w.predicate;
  object = w.object;
  source = w.source;
  agent_id = w.agent_id;
  agent_kind = agent_kind_str w.agent_kind;
  confidence = w.confidence;
  provenance = some (provenance_str w.provenance);
  scope = w.scope;
})

-- A record in a transaction of its own; the id that its writer minted is the answer.
abbrev pub write_one : {A : Type 0} → Env → LogRecord → A → Action A
write_one env r a = transaction (do write env r; return a)

-- `Store::insert_claim`
unfoldable pub insert_claim : Env → (now claim_id : ℕ) → ClaimWrite → Action ℕ
unfolding validate_claim_write write agent_kind_str provenance_str ◌>>=◌
insert_claim env now claim_id w = do
  validate_claim_write env w
  write_one env (claim_record now claim_id w) claim_id

unfoldable pub row_or : {V : Type 0} → Option V → Action V
unfolding return fail
row_or none = fail missing_claim
row_or (some v) = return v

-- `Store::get_claim`
unfoldable pub get_claim : ℕ → Action ClaimRow
unfolding find row_or ◌>>=◌
get_claim id = reading (λ db. row_or (find id db.claims))

-- `ensure_claim_exists` of vectors.rs
unfoldable pub ensure_claim_exists : ℕ → Action Unit
unfolding get_claim ◌>>=◌
ensure_claim_exists id = do get_claim id; return tt

abbrev pub contradiction_record :
    (now contradiction_id claim_id : ℕ) → String → Option ℕ → LogRecord
contradiction_record now contradiction_id claim_id reason new_claim_id = add_contradiction (record {
  ts = now;
  contradiction_id = contradiction_id;
  claim_id = claim_id;
  reason = reason;
  new_claim_id = new_claim_id;
})

-- `Store::add_contradiction`
unfoldable pub add_contradiction_to : Env → (now contradiction_id claim_id : ℕ) → String → Action ℕ
unfolding checked validate_claim_field privacy_filter_recording ensure_claim_exists write ◌>>=◌
add_contradiction_to env now contradiction_id claim_id reason = do
  checked (validate_claim_field (codes reason))
  privacy_filter_recording env (codes reason)
  ensure_claim_exists claim_id
  write_one env (contradiction_record now contradiction_id claim_id reason none) contradiction_id

unfoldable pub row_of : {V : Type 0} → Option V → Action V
unfolding return fail
row_of none = fail no_rows
row_of (some v) = return v

unfoldable pub get_contradiction : ℕ → Action ContradictionRow
unfolding find row_of ◌>>=◌
get_contradiction id = reading (λ db. row_of (find id db.contradictions))

-- The claim that a contradiction brings along, with the time and the id of its own write.
abbrev pub added : Env → Option (ℕ × ℕ × ClaimWrite) → Action (Option ℕ)
added env none = return none
added env (some (now, claim_id, w)) = do id ← insert_claim env now claim_id w; return (some id)

-- `Store::contradict`
unfoldable pub contradict :
    Env
    → (now contradiction_id claim_id : ℕ) → String
    → Option (ℕ × ℕ × ClaimWrite)
    → Action ContradictionRow
unfolding checked ensure_claim_exists validate_contradiction_reason privacy_filter_recording
    insert_claim write get_contradiction ◌>>=◌
contradict env now contradiction_id claim_id reason new_claim = do
  ensure_claim_exists claim_id
  checked (validate_contradiction_reason (codes reason))
  privacy_filter_recording env (codes reason)
  new_claim_id ← added env new_claim
  id ←
      write_one env (contradiction_record now contradiction_id claim_id reason new_claim_id)
        contradiction_id
  get_contradiction id

abbrev pub unless_retired : Bool → Action Unit
unless_retired b = if b then fail already_retired else return tt

-- `Store::retire_claim`
unfoldable pub retire : Env → (now claim_id : ℕ) → String → Action Unit
unfolding checked validate_contradiction_reason privacy_filter_recording get_claim write ◌>>=◌
retire env now claim_id reason = do
  checked (validate_contradiction_reason (codes reason))
  privacy_filter_recording env (codes reason)
  transaction do
    c ← get_claim claim_id
    unless_retired (is_invalidated c.status)
    write env (retire_claim now claim_id reason)
    return tt
