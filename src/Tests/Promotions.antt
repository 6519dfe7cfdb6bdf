-- ===== src/Tests/Promotions.antt =====
-- A candidate of an event, promoted twice.
use aver.Prelude.{List, find, arith, none, some, [], ◌∷◌, ◌≡◌, refl}
use aver.Types.{user_asserted}
use aver.Log.{Decision}
use aver.Db.{EventRow}
use aver.Apply.{apply}
use aver.Apply.Hyperedges.{participants_of}
use aver.Store.{Store, done}
use aver.Store.Candidates.{promote}
use aver.Store.Final.{promote_again}
use aver.Store.Calls.{retires}
use aver.Store.Operations.{Operation, calls, promotes, rejects, proceed}
use aver.Lifecycle.Validity.{IsValid}
use aver.Store.Replayed.{opened}
use aver.Tests.Fixtures.{empty_db, candidate}
use aver.Tests.Writers.{env}

abbrev event : EventRow
event = record {
  session_id = "s";
  kind = "note";
  payload = "User relates to rust";
  source = "chat";
  agent_id = "pi";
  agent_kind = "LLM";
  ts = 2;
  scope = "global";
}

abbrev begun : Store
begun =
    opened (record empty_db {
      episodic_events = (1, event) ∷ [];
      candidate_claims = (9, candidate) ∷ [];
    })

abbrev merge : Decision
merge = record { model = "m"; choice = "promote" }

-- The candidate 9 becomes the claim 12.
promote_done : (promote env 30 12 9 none (some merge) begun).0 ≡ done 12
unfolding promote apply aver.Types.parse_agent_kind aver.Apply.claim_provenance
    aver.Apply.Claims.add_claim aver.Ontology.ensure_predicate_known aver.Ontology.ensure_entity
    aver.Apply.Candidates.check_decision aver.Apply.Candidates.promote_candidate_claim
promote_done = refl

-- What other writers do in between: they reject the candidate, retire the claim and promote the candidate.
abbrev operations : List Operation
operations =
    rejects 40 9 "wrong" none ∷ calls (retires 41 12 "old") ∷ promotes 42 14 9 none none ∷ []

-- The rows of one pending candidate are valid.
begun-IsValid : IsValid begun.db
unfolding find participants_of
begun-IsValid = record { candidates = λ id c e. ground arith; participants = λ id e. refl }

promote_again_example :
    promote env 31 13 9
      (some (user_asserted, 7))
      none
      (proceed env operations (promote env 30 12 9 none (some merge) begun).1)
    ≡ (done 12, proceed env operations (promote env 30 12 9 none (some merge) begun).1)
promote_again_example =
    promote_again env 9 30 12 none (some merge) begun 12 operations 31 13 (some (user_asserted, 7))
      none begun-IsValid promote_done
