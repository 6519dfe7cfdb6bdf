-- ===== src/Types.antt =====
-- Enumerations of crates/aver-core/src/types.rs with their wire strings.
pub mod RoundTrip
use aver.Prelude.{String, Option, none, some, ◌==◌, string_eq, if◌then◌else◌}
use aver.Exec.{Result, ok, err, enum_parse}

pub data AgentKind : Type 0 where
  human llm deterministic_parser external_tool : AgentKind

pub data Provenance : Type 0 where
  user_asserted extracted inferred ambiguous : Provenance

pub data ClaimStatus : Type 0 where
  active superseded invalidated : ClaimStatus

-- The `status` column of candidate_claims.
pub data CandidateStatus : Type 0 where
  pending promoted rejected : CandidateStatus

-- `AgentKind::default_provenance`
unfoldable pub default_provenance : AgentKind → Provenance
default_provenance human = user_asserted
default_provenance deterministic_parser = extracted
default_provenance external_tool = extracted
default_provenance llm = inferred

-- `AgentKind::as_str`
unfoldable pub agent_kind_str : AgentKind → String
agent_kind_str human = "HUMAN"
agent_kind_str llm = "LLM"
agent_kind_str deterministic_parser = "DETERMINISTIC_PARSER"
agent_kind_str external_tool = "EXTERNAL_TOOL"

-- `AgentKind::from_str`
unfoldable pub parse_agent_kind : String → Result AgentKind
parse_agent_kind s =
    if s == "HUMAN"
    then ok human
    else if s == "LLM"
    then ok llm
    else if s == "DETERMINISTIC_PARSER"
    then ok deterministic_parser
    else if s == "EXTERNAL_TOOL"
    then ok external_tool
    else err enum_parse

-- `Provenance::as_str`
unfoldable pub provenance_str : Provenance → String
provenance_str user_asserted = "USER_ASSERTED"
provenance_str extracted = "EXTRACTED"
provenance_str inferred = "INFERRED"
provenance_str ambiguous = "AMBIGUOUS"

-- `Provenance::from_str`
unfoldable pub parse_provenance : String → Result Provenance
parse_provenance s =
    if s == "USER_ASSERTED"
    then ok user_asserted
    else if s == "EXTRACTED"
    then ok extracted
    else if s == "INFERRED"
    then ok inferred
    else if s == "AMBIGUOUS"
    then ok ambiguous
    else err enum_parse

-- `ClaimStatus::as_str`
unfoldable pub claim_status_str : ClaimStatus → String
claim_status_str active = "ACTIVE"
claim_status_str superseded = "SUPERSEDED"
claim_status_str invalidated = "INVALIDATED"

-- `ClaimStatus::from_str`
unfoldable pub parse_claim_status : String → Result ClaimStatus
parse_claim_status s =
    if s == "ACTIVE"
    then ok active
    else if s == "SUPERSEDED"
    then ok superseded
    else if s == "INVALIDATED"
    then ok invalidated
    else err enum_parse
