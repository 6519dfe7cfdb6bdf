-- ===== src/Types/RoundTrip.antt =====
-- Reading and writing the wire strings of types.rs.
use aver.Prelude.{String, ◌≡◌, refl, ◌↔◌, arith}
use text.Mathlib.TextEquality.{eq_iff}
use aver.Exec.{ok}
use aver.Types.{
  AgentKind, human, Provenance, user_asserted, ClaimStatus, active, agent_kind_str,
  parse_agent_kind, provenance_str, parse_provenance, claim_status_str, parse_claim_status,
}

parse_agent_kind-str : (k : AgentKind) → parse_agent_kind (agent_kind_str k) ≡ ok k
unfolding parse_agent_kind agent_kind_str
parse_agent_kind-str human = refl
parse_agent_kind-str _ = refl

parse_provenance-str : (p : Provenance) → parse_provenance (provenance_str p) ≡ ok p
unfolding parse_provenance provenance_str
parse_provenance-str user_asserted = refl
parse_provenance-str _ = refl

parse_claim_status-str : (c : ClaimStatus) → parse_claim_status (claim_status_str c) ≡ ok c
unfolding parse_claim_status claim_status_str
parse_claim_status-str active = refl
parse_claim_status-str _ = refl

str_of_agent_kind : (s : String) (k : AgentKind) → parse_agent_kind s ≡ ok k → s ≡ agent_kind_str k
unfolding parse_agent_kind agent_kind_str
str_of_agent_kind s k h = ground (
  arith,
  eq_iff s "HUMAN",
  eq_iff s "LLM",
  eq_iff s "DETERMINISTIC_PARSER",
  eq_iff s "EXTERNAL_TOOL",
)

str_of_provenance : (s : String) (p : Provenance) → parse_provenance s ≡ ok p → s ≡ provenance_str p
unfolding parse_provenance provenance_str
str_of_provenance s p h = ground (
  arith,
  eq_iff s "USER_ASSERTED",
  eq_iff s "EXTRACTED",
  eq_iff s "INFERRED",
  eq_iff s "AMBIGUOUS",
)

str_of_claim_status :
    (s : String) (c : ClaimStatus) → parse_claim_status s ≡ ok c → s ≡ claim_status_str c
unfolding parse_claim_status claim_status_str
str_of_claim_status s c h =
    ground (arith, eq_iff s "ACTIVE", eq_iff s "SUPERSEDED", eq_iff s "INVALIDATED")

-- A text is read as an agent kind, as a provenance and as a claim status exactly when it is the
-- wire string of that value.
wire_strings :
    (s : String) (k : AgentKind) (p : Provenance) (c : ClaimStatus)
    → ((parse_agent_kind s ≡ ok k) ↔ (s ≡ agent_kind_str k))
      × ((parse_provenance s ≡ ok p) ↔ (s ≡ provenance_str p))
      × ((parse_claim_status s ≡ ok c) ↔ (s ≡ claim_status_str c))
wire_strings s k p c = (
  (str_of_agent_kind s k, λ e. rw e (parse_agent_kind-str k)),
  (str_of_provenance s p, λ e. rw e (parse_provenance-str p)),
  (str_of_claim_status s c, λ e. rw e (parse_claim_status-str c)),
)
