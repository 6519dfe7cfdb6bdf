-- ===== src/Store/History.antt =====
-- The store after any history of its writers is the one that its log rebuilds.
use aver.Prelude.{suc, ℕ, String, true, false, List, [], ◌∷◌, ◌≡◌, refl, Option, none, some}
use aver.Types.{AgentKind}
use aver.Db.{Db}
use aver.Store.{
  Store, Env, Answer, Action, done, failed, privacy_filter_recording, privacy_filter_path_recording,
  validate_ontology, return, ◌>>=◌, ◌>>◌,
}
use aver.Store.Claims.{
  ClaimWrite, validate_claim_write, insert_claim, get_claim, add_contradiction_to, contradict,
  added, get_contradiction, retire,
}
use aver.Store.Consolidation.{
  ExtractorFact, decay_contradicted_confidence, decay_inferred_confidence_at, supersede_claim_ids,
  supersede, merge_group, merge_groups, merge_duplicate_source_refs, consolidate_report,
  validate_writes, insert_claims, ingest_extractor_facts,
}
use aver.Store.Calls.{
  Call, adds, notes, contradicts, retires, decays, ages, consolidates, ingests, links, chunks,
  embeds, describes, describes_embedded, backfills, perform, run, is_single_record, is_done,
  Completes,
}
use aver.Store.Keeps.{
  Keeps, KeepsDone, keeps_rules, keeps_done_rules, Keeps-bind, Keeps-return, KeepsDone-Keeps,
  KeepsDone-bind, KeepsDone-return,
}
use aver.Store.Rebuilt.{
  Rebuilt, write-Rebuilt, change-Rebuilt, retire-Rebuilt, write-KeepsDone, gate-Rebuilt,
  ensure_claim_exists-Rebuilt, IsClean,
}
use aver.Store.Attached.{
  write_hyperedge-Rebuilt, write_vector_chunk-Rebuilt, with_embedding-Rebuilt, for_claim-Rebuilt,
  embedded_for_claim-Rebuilt, backfill-Rebuilt,
}

module _ (env : Env) (start : Db) (clean : IsClean env) where
  validate_claim_write-Rebuilt :
      (w : ClaimWrite) → Keeps (Rebuilt env start) (validate_claim_write env w)
  unfolding validate_claim_write privacy_filter_recording privacy_filter_path_recording
      validate_ontology
  validate_claim_write-Rebuilt w = search (keeps_rules, gate-Rebuilt env start) depth 40

  insert_claim-Rebuilt :
      (now claim_id : ℕ) (w : ClaimWrite)
      → Keeps (Rebuilt env start) (insert_claim env now claim_id w)
  unfolding insert_claim
  insert_claim-Rebuilt now claim_id w =
      search (keeps_rules, validate_claim_write-Rebuilt, write-Rebuilt env start clean)

  add_contradiction_to-Rebuilt :
      (now id claim_id : ℕ) (reason : String)
      → Keeps (Rebuilt env start) (add_contradiction_to env now id claim_id reason)
  unfolding add_contradiction_to privacy_filter_recording
  add_contradiction_to-Rebuilt now id claim_id reason = search (
    keeps_rules,
    gate-Rebuilt env start,
    ensure_claim_exists-Rebuilt env start,
    write-Rebuilt env start clean,
  )

  added-Rebuilt : (o : Option (ℕ × ℕ × ClaimWrite)) → Keeps (Rebuilt env start) (added env o)
  added-Rebuilt none = search keeps_rules
  added-Rebuilt (some (now, claim_id, w)) = search (keeps_rules, insert_claim-Rebuilt)

  contradict-Rebuilt :
      (now id claim_id : ℕ) (reason : String) (o : Option (ℕ × ℕ × ClaimWrite))
      → Keeps (Rebuilt env start) (contradict env now id claim_id reason o)
  unfolding contradict privacy_filter_recording get_contradiction
  contradict-Rebuilt now id claim_id reason o =
      search
        (
          keeps_rules,
          gate-Rebuilt env start,
          ensure_claim_exists-Rebuilt env start,
          added-Rebuilt,
          write-Rebuilt env start clean,
        )
        depth 20

  retires-Rebuilt :
      (now claim_id : ℕ) (reason : String)
      → Keeps (Rebuilt env start) (retire env now claim_id reason)
  unfolding retire privacy_filter_recording
  retires-Rebuilt now claim_id reason =
      search (keeps_rules, gate-Rebuilt env start, retire-Rebuilt env start clean)

  decays-Rebuilt : (now : ℕ) → Keeps (Rebuilt env start) (decay_contradicted_confidence env now)
  unfolding decay_contradicted_confidence
  decays-Rebuilt now = change-Rebuilt env start clean now _

  ages-Rebuilt :
      (now now_ts tau : ℕ)
      → Keeps (Rebuilt env start) (decay_inferred_confidence_at env now now_ts tau)
  unfolding decay_inferred_confidence_at
  ages-Rebuilt now now_ts tau = search (keeps_rules, change-Rebuilt env start clean)

  supersede_claim_ids-KeepsDone :
      (ids : List ℕ) (now : ℕ) → KeepsDone (Rebuilt env start) (supersede_claim_ids env ids now)
  unfolding supersede_claim_ids
  supersede_claim_ids-KeepsDone [] now = search keeps_done_rules
  supersede_claim_ids-KeepsDone (id ∷ ids) now =
      search (keeps_done_rules, write-KeepsDone env start clean)

  supersede-KeepsDone : (now : ℕ) → KeepsDone (Rebuilt env start) (supersede env now)
  unfolding supersede
  supersede-KeepsDone now = search (keeps_done_rules, supersede_claim_ids-KeepsDone) depth 10

  get_claim-KeepsDone : (id : ℕ) → KeepsDone (Rebuilt env start) (get_claim id)
  unfolding get_claim
  get_claim-KeepsDone id = KeepsDone-Keeps (search keeps_rules)

  merge_group-KeepsDone : (now id : ℕ) → KeepsDone (Rebuilt env start) (merge_group env now id)
  merge_group-KeepsDone now id =
      search (keeps_done_rules, get_claim-KeepsDone, write-KeepsDone env start clean) depth 12

  merged-KeepsDone :
      (now id : ℕ) (more : Action ℕ)
      → KeepsDone (Rebuilt env start) more
      → KeepsDone
          (Rebuilt env start)
          (do merge_group env now id; merged ← more; return (suc merged))
  merged-KeepsDone now id more k = search (keeps_done_rules, merge_group-KeepsDone) depth 8

  merge_groups-KeepsDone :
      (now : ℕ) (ids : List ℕ) → KeepsDone (Rebuilt env start) (merge_groups env now ids)
  unfolding merge_groups
  merge_groups-KeepsDone now [] = search keeps_done_rules
  merge_groups-KeepsDone now (id ∷ ids) =
      let rest =
        merged-KeepsDone now id (merge_groups env now ids) (merge_groups-KeepsDone now ids) in
      record { at = λ s a h e. rest.at s a h e }

  decays-KeepsDone :
      (now : ℕ) → KeepsDone (Rebuilt env start) (decay_contradicted_confidence env now)
  decays-KeepsDone now = KeepsDone-Keeps (decays-Rebuilt now)

  consolidate_report-KeepsDone :
      (now : ℕ) → KeepsDone (Rebuilt env start) (consolidate_report env now)
  unfolding consolidate_report merge_duplicate_source_refs
  consolidate_report-KeepsDone now =
      search (keeps_done_rules, merge_groups-KeepsDone, decays-KeepsDone, supersede-KeepsDone) depth
        12

  validate_writes-Rebuilt :
      (ws : List ClaimWrite) → Keeps (Rebuilt env start) (validate_writes env ws)
  unfolding validate_writes
  validate_writes-Rebuilt [] = search keeps_rules
  validate_writes-Rebuilt (w ∷ ws) =
      let rest =
        Keeps-bind (validate_claim_write env w) (λ _. validate_writes env ws)
          (validate_claim_write-Rebuilt w) (λ _. validate_writes-Rebuilt ws) in
      record { at = λ s h. rest.at s h }

  inserted-Rebuilt :
      (now claim_id : ℕ) (w : ClaimWrite) (more : Action (List ℕ))
      → Keeps (Rebuilt env start) more
      → Keeps
          (Rebuilt env start)
          (do id ← insert_claim env now claim_id w; ids ← more; return (id ∷ ids))
  inserted-Rebuilt now claim_id w more k = search (keeps_rules, insert_claim-Rebuilt) depth 8

  insert_claims-Rebuilt :
      (now : ℕ) (ws : List (ℕ × ClaimWrite)) → Keeps (Rebuilt env start) (insert_claims env now ws)
  unfolding insert_claims
  insert_claims-Rebuilt now [] = search keeps_rules
  insert_claims-Rebuilt now ((claim_id, w) ∷ ws) =
      let rest =
        inserted-Rebuilt now claim_id w (insert_claims env now ws) (insert_claims-Rebuilt now ws) in
      record { at = λ s h. rest.at s h }

  validate_writes-KeepsDone :
      (ws : List ClaimWrite) → KeepsDone (Rebuilt env start) (validate_writes env ws)
  validate_writes-KeepsDone ws = KeepsDone-Keeps (validate_writes-Rebuilt ws)

  insert_claims-KeepsDone :
      (now : ℕ) (ws : List (ℕ × ClaimWrite))
      → KeepsDone (Rebuilt env start) (insert_claims env now ws)
  insert_claims-KeepsDone now ws = KeepsDone-Keeps (insert_claims-Rebuilt now ws)

  ingest-KeepsDone :
      (now : ℕ) (agent_id : String) (kind : AgentKind) (source scope : String)
      (facts : List (ℕ × ExtractorFact))
      → KeepsDone
          (Rebuilt env start)
          (ingest_extractor_facts env now agent_id kind source scope facts)
  unfolding ingest_extractor_facts
  ingest-KeepsDone now agent_id kind source scope facts =
      search
        (
          keeps_done_rules, validate_writes-KeepsDone, insert_claims-KeepsDone,
          consolidate_report-KeepsDone,
        )
        depth 12

  done_of : {A : Type 0} (x : Answer A) → is_done x ≡ true → (a : A) × (x ≡ done a)
  done_of (done a) h = (a, refl)
  done_of (failed e) h = cc h

  -- A call that writes several records in one transaction has to return.
  perform-Rebuilt :
      (c : Call) (s : Store)
      → Rebuilt env start s
      → (is_single_record c ≡ false → is_done (perform env c s).0 ≡ true)
      → Rebuilt env start (perform env c s).1
  unfolding perform
  perform-Rebuilt (adds now id w) s h completes =
      (Keeps-bind _ _ (insert_claim-Rebuilt now id w) (λ _. Keeps-return tt)).at s h
  perform-Rebuilt (notes now id claim_id reason) s h completes =
      (Keeps-bind _ _ (add_contradiction_to-Rebuilt now id claim_id reason)
          (λ _. Keeps-return tt)).at
        s h
  perform-Rebuilt (contradicts now id claim_id reason new_claim) s h completes =
      (Keeps-bind _ _ (contradict-Rebuilt now id claim_id reason new_claim)
          (λ _. Keeps-return tt)).at
        s h
  perform-Rebuilt (retires now claim_id reason) s h completes =
      (retires-Rebuilt now claim_id reason).at s h
  perform-Rebuilt (decays now) s h completes =
      (Keeps-bind _ _ (decays-Rebuilt now) (λ _. Keeps-return tt)).at s h
  perform-Rebuilt (ages now now_ts tau) s h completes =
      (Keeps-bind _ _ (ages-Rebuilt now now_ts tau) (λ _. Keeps-return tt)).at s h
  perform-Rebuilt (links now id input) s h completes =
      (Keeps-bind _ _ (write_hyperedge-Rebuilt env start clean now id input)
          (λ _. Keeps-return tt)).at
        s h
  perform-Rebuilt (chunks now id claim_id text model) s h completes =
      (Keeps-bind _ _ (write_vector_chunk-Rebuilt env start clean now id claim_id text model)
          (λ _. Keeps-return tt)).at
        s h
  perform-Rebuilt (embeds now id claim_id text model embedding) s h completes =
      (Keeps-bind _ _ (with_embedding-Rebuilt env start clean now id claim_id text model embedding)
          (λ _. Keeps-return tt)).at
        s h
  perform-Rebuilt (describes now id claim_id model) s h completes =
      (Keeps-bind _ _ (for_claim-Rebuilt env start clean now id claim_id model)
          (λ _. Keeps-return tt)).at
        s h
  perform-Rebuilt (describes_embedded now id claim_id model client) s h completes =
      (Keeps-bind _ _ (embedded_for_claim-Rebuilt env start clean client now id claim_id model)
          (λ _. Keeps-return tt)).at
        s h
  perform-Rebuilt (backfills now client) s h completes =
      (Keeps-bind _ _ (backfill-Rebuilt env start clean client now) (λ _. Keeps-return tt)).at s h
  perform-Rebuilt (consolidates now) s h completes =
      let (a, e) = done_of _ (completes refl) in
      (KeepsDone-bind _ _ (consolidate_report-KeepsDone now) (λ _. KeepsDone-return tt)).at s a h e
  perform-Rebuilt (ingests now agent_id kind source scope facts) s h completes =
      let (a, e) = done_of _ (completes refl) in
      (KeepsDone-bind _ _ (ingest-KeepsDone now agent_id kind source scope facts)
          (λ _. KeepsDone-return tt)).at
        s a h e

  -- After any history of calls the rows are those that the log rebuilds: calls that fail included,
  -- but every consolidation and every ingestion has returned.
  pub run-Rebuilt :
      (calls : List Call) (s : Store)
      → Rebuilt env start s
      → Completes env calls s
      → Rebuilt env start (run env calls s)
  unfolding run Completes
  run-Rebuilt [] s h completes = h
  run-Rebuilt (c ∷ calls) s h completes =
      run-Rebuilt calls (perform env c s).1 (perform-Rebuilt c s h (completes.0)) (completes.1)
