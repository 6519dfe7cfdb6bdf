-- ===== src/Tests/Server.antt =====
-- The scopes of the server and replay at concrete inputs.
use aver.Prelude.{
  none, some, List, [], ◌∷◌, ◌≡◌, refl, ◌↔◌, if◌then◌else◌, ◌==◌, string_eq, true, false, ◌⊎◌,
}
use aver.Scope.{
  ResolvedScope, ancestors, any_scope, resolved, resolve_scope, validate, empty_segment,
}
use aver.Scope.Resolved.{IsScope, resolve_scope-IsScope}
use aver.Validation.{validate_scope, accepted}
use aver.OauthScopes.{
  claims_read, events_write, parse_scope_list, serialize_scope_list, parsed, supported,
}
use aver.OauthScopes.RoundTrip.{parse-serialize, held}
use aver.Replay.{LogFile, empty_report, Codec, Run, strict, lenient, replay_with_mode}
use aver.Replay.Modes.{all_readable, replay-strict_iff}
use aver.Replay.Outcome.{replay-IsValid}
use aver.Lifecycle.Validity.{IsValid}
use aver.Apply.Steps.{Steps}
use aver.Exec.{Result, ok, err, io, endless}
use aver.Apply.{apply}
use aver.Text.{codes, is_blank}
use aver.Tests.Fixtures.{host, empty_db, edge, claim_of}
use aver.Tests.Projection.{empty-IsValid}

abbrev repo : ResolvedScope
repo = record { scope = codes "repo/aver"; default_walk = ancestors }

header_wins : resolve_scope (some (codes " ")) (some (codes "repo/aver")) none none ≡ resolved repo
unfolding resolve_scope
header_wins = refl

resolve_scope-IsScope_example :
    IsScope (codes "repo/aver")
    × (validate_scope (codes "repo/aver") ≡ accepted)
    × ((ancestors ≡ any_scope) ↔ (codes "repo/aver" ≡ codes "global"))
resolve_scope-IsScope_example =
    resolve_scope-IsScope (some (codes " ")) (some (codes "repo/aver")) none none repo header_wins

-- An invalid header is not passed over for the environment's default.
bad_header : validate (codes "a//b") ≡ some empty_segment
unfolding validate
bad_header = refl

parse-serialize_example :
    parse_scope_list (serialize_scope_list (events_write ∷ claims_read ∷ events_write ∷ []))
    ≡ parsed (held (events_write ∷ claims_read ∷ events_write ∷ []) supported)
parse-serialize_example = parse-serialize (events_write ∷ claims_read ∷ events_write ∷ [])

two_scopes :
    parse_scope_list (codes " events:write  claims:read") ≡ parsed (events_write ∷ claims_read ∷ [])
unfolding parse_scope_list
two_scopes = refl

-- A decoder of two lines.
abbrev codec : Codec
codec = record {
  decode =
      λ s. if s == "edge" then some edge else if s == "claim" then some (claim_of "LLM") else none;
  value_kind = λ s. if s == "later" then some (some "rename_claim") else none;
}

abbrev log_files : List LogFile
log_files =
    record {
      path = "log.jsonl";
      opens = true;
      lines = some "edge" ∷ some "  " ∷ some "broken" ∷ some "edge" ∷ [];
    }
    ∷ record { path = "events.jsonl"; opens = true; lines = some "claim" ∷ [] }
    ∷ []

replay-strict_iff_example :
    (((end : Run) × (replay_with_mode host codec lenient empty_db log_files ≡ ok end))
      ⊎ ((replay_with_mode host codec lenient empty_db log_files ≡ err io)
          × (all_readable log_files ≡ false))
      ⊎ (replay_with_mode host codec lenient empty_db log_files ≡ err endless))
    × ((end : Run)
        → (replay_with_mode host codec strict empty_db log_files ≡ ok end) ↔ (
            (replay_with_mode host codec lenient empty_db log_files ≡ ok end)
            × (end.report.quarantined ≡ [])))
replay-strict_iff_example = replay-strict_iff host codec empty_db log_files

abbrev run_of : Result Run → Run
run_of (ok end) = end
run_of (err e) = record { db = empty_db; report = empty_report }

-- The line that is no record is put in quarantine.
abbrev claim_log : List LogFile
claim_log =
    record { path = "log.jsonl"; opens = true; lines = some "claim" ∷ some "broken" ∷ [] } ∷ []

abbrev end_run : Run
end_run = run_of (replay_with_mode host codec lenient empty_db claim_log)

replayed : replay_with_mode host codec lenient empty_db claim_log ≡ ok end_run
unfolding replay_with_mode is_blank apply aver.Types.parse_agent_kind aver.Types.parse_provenance
    aver.Apply.claim_provenance aver.Apply.Claims.add_claim aver.Ontology.ensure_predicate_known
    aver.Ontology.ensure_entity
replayed = refl

replay-IsValid_example : Steps empty_db end_run.db × IsValid end_run.db
replay-IsValid_example =
    replay-IsValid host codec lenient empty_db claim_log end_run empty-IsValid replayed
