-- ===== src/Tests/Writers.antt =====
-- The claim writers at the database of Fixtures: two claims, one of them written twice, and a
-- consolidation.
use aver.Prelude.{
  inl, String, true, false, none, some, List, [], ◌∷◌, ◌≡◌, ◌↔◌, refl, map, ◌==◌, string_eq, nat_eq,
  if◌then◌else◌,
}
use aver.Exec
use aver.Types.{human, user_asserted}
use aver.Log.{add_claim, merge_source_refs, supersede_claims}
use aver.Apply.{apply}
use aver.Replay.{Codec, Run, lenient, replay_with_mode}
use aver.Store.{Store, Env, done, LogLine, whole, took, put}
use aver.Store.Claims.{ClaimWrite, insert_claim, claim_record}
use aver.Store.Calls.{Call, adds, consolidates, run, Completes}
use aver.Store.Replayed.{ReadsBack, Ends, file_of, All, opened, run-replayed}
use aver.Store.Admitted.{IsAdmitted, Accepts, stored, insert_claim_iff}
use aver.Tests.Fixtures.{host, ontology, empty_db}

abbrev pub env : Env
env = record {
  host = host;
  appends = λ log r. took;
  entropic = λ token. false;
  in_unit = λ c. true;
  decayed = λ c. c;
  event_source = λ id. "event";
  display = λ c. [];
  is_finite = λ c. true;
  is_tau = λ tau. true;
  decayed_over = λ delta tau c. c;
  group_order = λ ids. ids;
}

abbrev first : ClaimWrite
first = record {
  subject = "User";
  predicate = "relates_to";
  object = "aver";
  source = "chat";
  agent_id = "pi";
  agent_kind = human;
  provenance = user_asserted;
  confidence = 5;
  scope = "global";
}

abbrev second : ClaimWrite
second = record first { predicate = "prefers"; object = "rust"; source = "notes" }

abbrev history : List Call
history = adds 20 1 first ∷ adds 21 2 second ∷ adds 22 3 first ∷ consolidates 23 ∷ []

abbrev live : Store
live = run env history (opened empty_db)

abbrev encode : LogLine → String
encode (whole (add_claim r)) = if r.claim_id == 1 then "1" else if r.claim_id == 2 then "2" else "3"
encode (whole (merge_source_refs ts claim_id refs promote)) = "merge"
encode _ = "supersede"

-- Reads the lines of the history.
abbrev codec : Codec
codec = record {
  decode = λ line.
      if line == "1"
      then some (claim_record 20 1 first)
      else if line == "2"
      then some (claim_record 21 2 second)
      else if line == "3"
      then some (claim_record 22 3 first)
      else if line == "merge"
      then some (merge_source_refs 23 1 ("chat" ∷ []) false)
      else if line == "supersede"
      then some (supersede_claims 23 (3 ∷ []))
      else none;
  value_kind = λ line. none;
}

-- The second writing of a claim is superseded.
consolidated :
    (run env history (opened empty_db)).log
    ≡ map whole (
        claim_record 20 1 first
        ∷ claim_record 21 2 second
        ∷ claim_record 22 3 first
        ∷ merge_source_refs 23 1 ("chat" ∷ []) false
        ∷ supersede_claims 23 (3 ∷ [])
        ∷ [])
unfolding run put apply aver.Types.parse_agent_kind aver.Apply.claim_provenance
    aver.Apply.Claims.add_claim aver.Ontology.ensure_predicate_known aver.Ontology.ensure_entity
    aver.Apply.Claims.merge_source_refs aver.Apply.Claims.supersede_claims
consolidated = refl

history-Completes : Completes env history (opened empty_db)
unfolding Completes run apply aver.Types.parse_agent_kind aver.Apply.claim_provenance
    aver.Apply.Claims.add_claim aver.Ontology.ensure_predicate_known aver.Ontology.ensure_entity
    aver.Apply.Claims.merge_source_refs aver.Apply.Claims.supersede_claims
history-Completes = (λ p. cc, (λ p. cc, (λ p. cc, (λ p. refl, tt))))

history_reads : All (ReadsBack codec encode) live.log
unfolding aver.Text.is_blank
history_reads =
    rw consolidated
      ((refl, refl), ((refl, refl), ((refl, refl), ((refl, refl), ((refl, refl), tt)))))

history-Ends : Ends host empty_db live.log
unfolding Ends apply aver.Types.parse_agent_kind aver.Apply.claim_provenance
    aver.Apply.Claims.add_claim aver.Ontology.ensure_predicate_known aver.Ontology.ensure_entity
    aver.Apply.Claims.merge_source_refs aver.Apply.Claims.supersede_claims aver.Types.agent_kind_str
    aver.Types.provenance_str
history-Ends = rw consolidated (refl, (refl, (refl, (refl, (refl, tt)))))

run-replayed_example :
    (end : Run) × (replay_with_mode host codec lenient empty_db
        (file_of "log.jsonl" encode live.log ∷ [])
      ≡ Exec.ok end)
    × (end.db ≡ live.db)
run-replayed_example =
    run-replayed env codec encode empty_db "log.jsonl" history (λ lines r. inl refl)
      history-Completes history_reads history-Ends

-- The claim is stored.
insert_claim_iff_example :
    ((insert_claim env 20 1 first (opened empty_db)).0 ≡ done 1
      ↔ (IsAdmitted env ontology first × Accepts env (claim_record 20 1 first) (opened empty_db)))
    × ((insert_claim env 20 1 first (opened empty_db)).0 ≡ done 1
        → (insert_claim env 20 1 first (opened empty_db)).1
          ≡ stored env (claim_record 20 1 first) (opened empty_db))
insert_claim_iff_example = insert_claim_iff env 20 1 first (opened empty_db)

first_done : (insert_claim env 20 1 first (opened empty_db)).0 ≡ done 1
unfolding insert_claim apply aver.Types.parse_agent_kind aver.Apply.claim_provenance
    aver.Apply.Claims.add_claim aver.Ontology.ensure_predicate_known aver.Ontology.ensure_entity
first_done = refl
