-- ===== src/Store/Hyperedges.antt =====
-- The write of a hyperedge, crates/aver-core/src/hyperedges.rs.
use aver.Prelude.{ℕ, String, List, [], ◌∷◌, ◌++◌, Bool, true, false, not}
use aver.Text.{codes, is_blank}
use aver.Types.{Provenance, provenance_str}
use aver.Log.{LogRecord, Participant, add_hyperedge}
use aver.Store.{
  Env, Action, ◌>>=◌, ◌>>◌, ensure, each, write, privacy_filter_recording,
  privacy_filter_path_recording, validate_ontology, invalid_confidence, invalid_hyperedge_field,
  invalid_hyperedge_participant,
}
use aver.Store.Claims.{write_one}

pub record HyperedgeInput : Type 0 where
  pub predicate : String
  pub provenance : Provenance
  pub confidence : ℕ
  pub source_refs : List String
  pub participants : List Participant

abbrev pub is_empty : {A : Type 0} → List A → Bool
is_empty [] = true
is_empty (x ∷ xs) = false

abbrev pub validate_hyperedge_field : String → Action Unit
validate_hyperedge_field value = ensure (not (is_blank value)) invalid_hyperedge_field

abbrev pub validate_hyperedge_participant_field : String → Action Unit
validate_hyperedge_participant_field value =
    ensure (not (is_blank value)) invalid_hyperedge_participant

abbrev pub validate_participant : Participant → Action Unit
validate_participant p = do
  validate_hyperedge_participant_field p.role
  validate_hyperedge_participant_field p.entity

unfoldable pub source_texts : List String → List ℕ
source_texts [] = []
source_texts (source_ref ∷ refs) = b' ' ∷ (codes source_ref ++ source_texts refs)

unfoldable pub participant_texts : List Participant → List ℕ
participant_texts [] = []
participant_texts (p ∷ ps) =
    b' ' ∷ (codes p.role ++ (b' ' ∷ (codes p.entity ++ participant_texts ps)))

-- The text that the gate sees, `privacy_content`.
abbrev pub privacy_content : Env → HyperedgeInput → List ℕ
privacy_content env input =
    codes input.predicate
    ++ (b' '
        ∷ (codes (provenance_str input.provenance)
            ++ (b' '
                ∷ (env.display input.confidence
                    ++ (source_texts input.source_refs ++ participant_texts input.participants)))))

abbrev pub hyperedge_record : (now hyperedge_id : ℕ) → HyperedgeInput → LogRecord
hyperedge_record now hyperedge_id input = add_hyperedge (record {
  ts = now;
  hyperedge_id = hyperedge_id;
  predicate = input.predicate;
  provenance = provenance_str input.provenance;
  confidence = input.confidence;
  source_refs = input.source_refs;
  participants = input.participants;
})

-- `Store::add_hyperedge`
unfoldable pub write_hyperedge : Env → (now hyperedge_id : ℕ) → HyperedgeInput → Action ℕ
unfolding is_blank each provenance_str source_texts participant_texts privacy_filter_recording
    privacy_filter_path_recording validate_ontology write ◌>>=◌
write_hyperedge env now hyperedge_id input = do
  validate_hyperedge_field input.predicate
  ensure (not (is_empty input.source_refs)) invalid_hyperedge_field
  each validate_hyperedge_field input.source_refs
  ensure (not (is_empty input.participants)) invalid_hyperedge_participant
  each validate_participant input.participants
  ensure (env.in_unit input.confidence) invalid_confidence
  privacy_filter_recording env (privacy_content env input)
  each privacy_filter_path_recording input.source_refs
  each (λ p. privacy_filter_path_recording p.entity) input.participants
  validate_ontology input.predicate input.provenance
  write_one env (hyperedge_record now hyperedge_id input) hyperedge_id
