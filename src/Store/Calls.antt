-- ===== src/Store/Calls.antt =====
-- Histories of calls of the writers of log.jsonl: claims.rs, hyperedges.rs and vectors.rs of
-- crates/aver-core/src.
use aver.Prelude.{ℕ, String, Bool, true, false, List, [], ◌∷◌, ◌≡◌, Option}
use aver.Types.{AgentKind}
use aver.Store.{Store, Env, Answer, Action, done, failed, ◌>>=◌, return}
use aver.Store.Claims.{ClaimWrite, insert_claim, add_contradiction_to, contradict, retire}
use aver.Store.Consolidation.{
  ExtractorFact, decay_contradicted_confidence, decay_inferred_confidence_at, consolidate_report,
  ingest_extractor_facts,
}
use aver.Store.Hyperedges.{HyperedgeInput, write_hyperedge}
use aver.Store.Vectors.{
  Client, write_vector_chunk, add_vector_chunk_with_embedding, add_vector_chunk_for_claim,
  add_embedded_vector_chunk_for_claim, backfill_vector_embeddings,
}

-- A call, with the ids that it mints and the clock.
pub data Call : Type 0 where
  adds : (now claim_id : ℕ) → ClaimWrite → Call
  notes : (now contradiction_id claim_id : ℕ) → String → Call
  contradicts : (now contradiction_id claim_id : ℕ) → String → Option (ℕ × ℕ × ClaimWrite) → Call
  retires : (now claim_id : ℕ) → String → Call
  decays : (now : ℕ) → Call
  ages : (now now_ts tau : ℕ) → Call
  consolidates : (now : ℕ) → Call
  links : (now hyperedge_id : ℕ) → HyperedgeInput → Call
  chunks : (now chunk_id claim_id : ℕ) → (text embedding_model : String) → Call
  embeds :
      (now chunk_id claim_id : ℕ) → (text embedding_model : String) → (embedding : List ℕ) → Call
  describes : (now chunk_id claim_id : ℕ) → (embedding_model : String) → Call
  describes_embedded : (now chunk_id claim_id : ℕ) → (embedding_model : String) → Client → Call
  backfills : (now : ℕ) → Client → Call
  ingests :
      (now : ℕ) → String → AgentKind → (source scope : String) → List (ℕ × ExtractorFact) → Call

abbrev pub quietly : {A : Type 0} → Action A → Action Unit
quietly m = do a ← m; return tt

unfoldable pub perform : Env → Call → Action Unit
unfolding insert_claim add_contradiction_to contradict retire decay_contradicted_confidence
    decay_inferred_confidence_at consolidate_report ingest_extractor_facts write_hyperedge
    write_vector_chunk add_vector_chunk_with_embedding add_vector_chunk_for_claim
    add_embedded_vector_chunk_for_claim backfill_vector_embeddings ◌>>=◌
perform env (adds now id w) = quietly (insert_claim env now id w)
perform env (notes now id claim_id reason) =
    quietly (add_contradiction_to env now id claim_id reason)
perform env (contradicts now id claim_id reason new_claim) =
    quietly (contradict env now id claim_id reason new_claim)
perform env (retires now claim_id reason) = retire env now claim_id reason
perform env (decays now) = quietly (decay_contradicted_confidence env now)
perform env (ages now now_ts tau) = quietly (decay_inferred_confidence_at env now now_ts tau)
perform env (links now id input) = quietly (write_hyperedge env now id input)
perform env (chunks now id claim_id text model) =
    quietly (write_vector_chunk env now id claim_id text model)
perform env (embeds now id claim_id text model embedding) =
    quietly (add_vector_chunk_with_embedding env now id claim_id text model embedding)
perform env (describes now id claim_id model) =
    quietly (add_vector_chunk_for_claim env now id claim_id model)
perform env (describes_embedded now id claim_id model client) =
    quietly (add_embedded_vector_chunk_for_claim env client now id claim_id model)
perform env (backfills now client) = quietly (backfill_vector_embeddings env client now)
perform env (consolidates now) = quietly (consolidate_report env now)
perform env (ingests now agent_id agent_kind source scope facts) =
    quietly (ingest_extractor_facts env now agent_id agent_kind source scope facts)

-- The state after a history; a call that fails is followed by the next.
unfoldable pub run : Env → List Call → Store → Store
unfolding perform
run env [] s = s
run env (c ∷ calls) s = run env calls (perform env c s).1

-- Whether each of the call's transactions writes one record at most.
abbrev pub is_single_record : Call → Bool
is_single_record (consolidates _) = false
is_single_record (ingests _ _ _ _ _ _) = false
is_single_record _ = true

abbrev pub is_done : {A : Type 0} → Answer A → Bool
is_done (done a) = true
is_done (failed e) = false

-- Every consolidation and every ingestion of a history returned.
unfoldable pub Completes : Env → List Call → Store → Type 0
unfolding perform
Completes env [] s = Unit
Completes env (c ∷ calls) s =
    (is_single_record c ≡ false → is_done (perform env c s).0 ≡ true)
    × Completes env calls (perform env c s).1
