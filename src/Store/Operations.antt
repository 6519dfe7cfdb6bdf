-- ===== src/Store/Operations.antt =====
-- Histories of calls of all the writers of the store: those of log.jsonl and those of candidates.
use aver.Prelude.{ℕ, String, List, [], ◌∷◌, Option}
use aver.Types.{Provenance}
use aver.Log.{Decision}
use aver.Store.{Store, Env, Action, ◌>>=◌}
use aver.Store.Calls.{Call, perform, quietly}
use aver.Store.Candidates.{CandidateWrite, propose, promote, reject}

pub data Operation : Type 0 where
  calls : Call → Operation
  proposes : (now candidate_id : ℕ) → CandidateWrite → Operation
  promotes : (now claim_id candidate_id : ℕ) → Option (Provenance × ℕ) → Option Decision → Operation
  rejects : (now candidate_id : ℕ) → String → Option Decision → Operation

unfoldable pub carry_out : Env → Operation → Action Unit
unfolding perform propose promote reject ◌>>=◌
carry_out env (calls c) = perform env c
carry_out env (proposes now id w) = quietly (propose env now id w)
carry_out env (promotes now claim_id id attribution decision) =
    quietly (promote env now claim_id id attribution decision)
carry_out env (rejects now id reason decision) = reject env now id reason decision

-- The state after a history; an operation that fails is followed by the next.
unfoldable pub proceed : Env → List Operation → Store → Store
unfolding carry_out
proceed env [] s = s
proceed env (o ∷ operations) s = proceed env operations (carry_out env o s).1
