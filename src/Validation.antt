-- ===== src/Validation.antt =====
-- The checks of arguments, crates/aver-core/src/validation.rs, on texts as lists of code points.
-- A UTF-8 byte is an ASCII letter or digit exactly when its whole character is one, so the tests
-- on bytes are tests on characters. Whether a float is finite is an argument.
use aver.Prelude.{ℕ, Bool, true, false, List, [], ◌∷◌, ◌||◌, not, nat_beq, if◌then◌else◌}
use aver.Text.{codes, all_whitespace, all_chars, text_beq, is_ascii_alphanumeric, any}

pub data ArgumentError : Type 0 where
  invalid_vector_chunk_text invalid_embedding_model invalid_embedding_vector : ArgumentError
  invalid_top_k invalid_claim_field invalid_contradiction_reason : ArgumentError
  invalid_candidate_status_filter invalid_rejection_reason invalid_event_field : ArgumentError
  invalid_observation_field invalid_agent_id invalid_scope : ArgumentError

-- `Result<(), Error>`
pub data Check : Type 0 where
  accepted : Check
  rejected : ArgumentError → Check

-- The test of the validators that ask for a text: `value.trim().is_empty()`.
abbrev not_blank : ArgumentError → List ℕ → Check
not_blank e value = if all_whitespace value then rejected e else accepted

unfoldable pub validate_vector_chunk_text : List ℕ → Check
unfolding all_whitespace
validate_vector_chunk_text value = not_blank invalid_vector_chunk_text value

unfoldable pub validate_embedding_model : List ℕ → Check
unfolding all_whitespace
validate_embedding_model value = not_blank invalid_embedding_model value

abbrev is_empty : List ℕ → Bool
is_empty [] = true
is_empty (x ∷ xs) = false

unfoldable pub validate_embedding_vector : (ℕ → Bool) → List ℕ → Check
unfolding any
validate_embedding_vector is_finite value =
    if is_empty value || any (λ c. not (is_finite c)) value
    then rejected invalid_embedding_vector
    else accepted

unfoldable pub validate_top_k : ℕ → Check
validate_top_k top_k = if nat_beq top_k 0 then rejected invalid_top_k else accepted

unfoldable pub validate_claim_field : List ℕ → Check
unfolding all_whitespace
validate_claim_field value = not_blank invalid_claim_field value

unfoldable pub validate_contradiction_reason : List ℕ → Check
unfolding all_whitespace
validate_contradiction_reason value = not_blank invalid_contradiction_reason value

unfoldable pub validate_candidate_status_filter : List ℕ → Check
unfolding text_beq
validate_candidate_status_filter value =
    if text_beq value (codes "PENDING")
      || text_beq value (codes "PROMOTED")
      || text_beq value (codes "REJECTED")
    then accepted
    else rejected invalid_candidate_status_filter

unfoldable pub validate_rejection_reason : List ℕ → Check
unfolding all_whitespace
validate_rejection_reason value = not_blank invalid_rejection_reason value

unfoldable pub validate_event_field : List ℕ → Check
unfolding all_whitespace
validate_event_field value = not_blank invalid_event_field value

unfoldable pub validate_observation_field : List ℕ → Check
unfolding all_whitespace
validate_observation_field value = not_blank invalid_observation_field value

abbrev pub is_agent_char : ℕ → Bool
is_agent_char c = is_ascii_alphanumeric c || nat_beq c b'_' || nat_beq c b'-'

unfoldable pub validate_agent_id : List ℕ → Check
unfolding all_chars
validate_agent_id agent_id =
    if is_empty agent_id || not (all_chars is_agent_char agent_id)
    then rejected invalid_agent_id
    else accepted

abbrev pub is_scope_char : ℕ → Bool
is_scope_char c = is_ascii_alphanumeric c || nat_beq c b'_' || nat_beq c b'-' || nat_beq c b'/'

unfoldable pub validate_scope : List ℕ → Check
unfolding all_whitespace all_chars
validate_scope scope =
    if all_whitespace scope
    then rejected invalid_scope
    else if not (all_chars is_scope_char scope)
    then rejected invalid_scope
    else accepted
