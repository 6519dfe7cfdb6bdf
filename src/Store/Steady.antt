-- ===== src/Store/Steady.antt =====
-- What every record keeps of the rows, every writer of the store keeps, whether it returns or fails.
use aver.Prelude.{suc, ℕ, String, List, [], ◌∷◌, Option, none, some, Table}
use aver.Types.{AgentKind}
use aver.Store.{
  Verdict, record_privacy_rejection, settle, transaction, project, write, append_jsonl, gate, apply,
  LogRecord, Store, Env, Answer, Action, done, failed, privacy_filter_recording,
  privacy_filter_path_recording, validate_ontology, return, ◌>>=◌, ◌>>◌, projected,
}
use aver.Store.Claims.{
  ensure_claim_exists, ClaimWrite, validate_claim_write, insert_claim, get_claim,
  add_contradiction_to, contradict, added, get_contradiction, retire, write_one,
}
use aver.Store.Consolidation.{
  ExtractorFact, decay_contradicted_confidence, decay_inferred_confidence_at, supersede_claim_ids,
  supersede, merge_group, merge_groups, merge_duplicate_source_refs, consolidate_report,
  validate_writes, insert_claims, ingest_extractor_facts, counted_write,
}
use aver.Store.Calls.{
  Call, adds, notes, contradicts, retires, decays, ages, consolidates, ingests, links, chunks,
  embeds, describes, describes_embedded, backfills, perform,
}
use aver.Store.Keeps.{Keeps, keeps_rules, Keeps-bind, Keeps-return, Keeps-fail}
use aver.Exec
use aver.Log.{LogRecord, ConfidenceChange, embed_vector_chunk}
use aver.Db.{Db, Applied, ChunkRow}
use aver.Apply.{apply}
use aver.Store.Candidates.{append_event}
use aver.Store.Hyperedges.{HyperedgeInput, write_hyperedge}
use aver.Store.Vectors.{
  Client, embed, embedded, write_vector_chunk, add_vector_chunk_with_embedding,
  add_vector_chunk_for_claim, add_embedded_vector_chunk_for_claim, backfill_rows,
  backfill_vector_embeddings,
}
use aver.Privacy.Paths.{Verdict, pass, refuse}

module _ (env : Env) (Q : Db → Type 0)
    (kept : (r : LogRecord) (db : Db) → Q db → Q (apply env.host r db).1) where
  abbrev Steady : Store → Type 0
  Steady s = Q s.db

  pub append_jsonl-Steady : (r : LogRecord) → Keeps Steady (append_jsonl env r)
  unfolding append_jsonl
  append_jsonl-Steady r = record { at = λ s h. h }

  pub append_event-Steady : (r : LogRecord) → Keeps Steady (append_event env r)
  unfolding append_event
  append_event-Steady r = record { at = λ s h. h }

  projected-Steady : (x : Exec.Result Applied) (s : Store) → Q s.db → Q (projected x s).1.db
  projected-Steady (Exec.ok a) s h = h
  projected-Steady (Exec.err e) s h = h

  pub project-Steady : (r : LogRecord) → Keeps Steady (project env r)
  unfolding project
  project-Steady r = record {
    at = λ s h.
        projected-Steady (apply env.host r s.db).0 (record s { db = (apply env.host r s.db).1 })
          (kept r s.db h);
  }

  settle-Steady :
      {A : Type 0} (x : Answer A) (before : Db) (s : Store)
      → Q before
      → Q s.db
      → Q (settle x before s).1.db
  settle-Steady (done a) before s b h = h
  settle-Steady (failed e) before s b h = b

  pub transaction-Steady :
      {A : Type 0} (m : Action A) → Keeps Steady m → Keeps Steady (transaction m)
  unfolding transaction
  transaction-Steady m k = record { at = λ s h. settle-Steady (m s).0 s.db (m s).1 h (k.at s h) }

  pub gate-Steady : (v : Verdict) → Keeps Steady (gate v)
  unfolding gate record_privacy_rejection ◌>>=◌
  gate-Steady pass = Keeps-return tt
  gate-Steady (refuse r) = record { at = λ s h. h }

  write-Steady : (r : LogRecord) → Keeps Steady (write env r)
  unfolding write
  write-Steady r = search (keeps_rules, append_jsonl-Steady, project-Steady)

  validate_claim_write-Steady : (w : ClaimWrite) → Keeps Steady (validate_claim_write env w)
  unfolding validate_claim_write privacy_filter_recording privacy_filter_path_recording
      validate_ontology
  validate_claim_write-Steady w = search (keeps_rules, gate-Steady) depth 40

  insert_claim-Steady :
      (now claim_id : ℕ) (w : ClaimWrite) → Keeps Steady (insert_claim env now claim_id w)
  unfolding insert_claim
  insert_claim-Steady now claim_id w =
      search (keeps_rules, transaction-Steady, validate_claim_write-Steady, write-Steady)

  ensure_claim_exists-Steady : (id : ℕ) → Keeps Steady (ensure_claim_exists id)
  unfolding ensure_claim_exists get_claim
  ensure_claim_exists-Steady id = search keeps_rules

  add_contradiction_to-Steady :
      (now id claim_id : ℕ) (reason : String)
      → Keeps Steady (add_contradiction_to env now id claim_id reason)
  unfolding add_contradiction_to privacy_filter_recording
  add_contradiction_to-Steady now id claim_id reason =
      search
        (keeps_rules, transaction-Steady, gate-Steady, write-Steady, ensure_claim_exists-Steady)
        depth 20

  added-Steady : (o : Option (ℕ × ℕ × ClaimWrite)) → Keeps Steady (added env o)
  added-Steady none = search keeps_rules
  added-Steady (some (now, claim_id, w)) = search (keeps_rules, insert_claim-Steady)

  contradict-Steady :
      (now id claim_id : ℕ) (reason : String) (o : Option (ℕ × ℕ × ClaimWrite))
      → Keeps Steady (contradict env now id claim_id reason o)
  unfolding contradict privacy_filter_recording get_contradiction
  contradict-Steady now id claim_id reason o =
      search
        (
          keeps_rules, transaction-Steady, gate-Steady, write-Steady, ensure_claim_exists-Steady,
          added-Steady,
        )
        depth 24

  retire-Steady :
      (now claim_id : ℕ) (reason : String) → Keeps Steady (retire env now claim_id reason)
  unfolding retire privacy_filter_recording get_claim
  retire-Steady now claim_id reason =
      search (keeps_rules, transaction-Steady, gate-Steady, write-Steady) depth 24

  counted_write-Steady :
      (changes : List ConfidenceChange) (r : LogRecord) → Keeps Steady (counted_write env changes r)
  counted_write-Steady [] r = search keeps_rules
  counted_write-Steady (c ∷ changes) r = search (keeps_rules, write-Steady)

  decay-Steady : (now : ℕ) → Keeps Steady (decay_contradicted_confidence env now)
  unfolding decay_contradicted_confidence
  decay-Steady now = search (keeps_rules, transaction-Steady, counted_write-Steady)

  age-Steady : (now now_ts tau : ℕ) → Keeps Steady (decay_inferred_confidence_at env now now_ts tau)
  unfolding decay_inferred_confidence_at
  age-Steady now now_ts tau = search (keeps_rules, transaction-Steady, counted_write-Steady)

  supersede_claim_ids-Steady :
      (ids : List ℕ) (now : ℕ) → Keeps Steady (supersede_claim_ids env ids now)
  unfolding supersede_claim_ids
  supersede_claim_ids-Steady [] now = search keeps_rules
  supersede_claim_ids-Steady (id ∷ ids) now = search (keeps_rules, write-Steady)

  supersede-Steady : (now : ℕ) → Keeps Steady (supersede env now)
  unfolding supersede
  supersede-Steady now =
      search (keeps_rules, transaction-Steady, supersede_claim_ids-Steady) depth 12

  merge_group-Steady : (now id : ℕ) → Keeps Steady (merge_group env now id)
  unfolding get_claim
  merge_group-Steady now id = search (keeps_rules, write-Steady) depth 12

  merged-Steady :
      (now id : ℕ) (more : Action ℕ)
      → Keeps Steady more
      → Keeps Steady (do merge_group env now id; merged ← more; return (suc merged))
  merged-Steady now id more k = search (keeps_rules, merge_group-Steady) depth 8

  merge_groups-Steady : (now : ℕ) (ids : List ℕ) → Keeps Steady (merge_groups env now ids)
  unfolding merge_groups
  merge_groups-Steady now [] = search keeps_rules
  merge_groups-Steady now (id ∷ ids) =
      let rest = merged-Steady now id (merge_groups env now ids) (merge_groups-Steady now ids) in
      record { at = λ s h. rest.at s h }

  consolidate_report-Steady : (now : ℕ) → Keeps Steady (consolidate_report env now)
  unfolding consolidate_report merge_duplicate_source_refs
  consolidate_report-Steady now =
      search (keeps_rules, transaction-Steady, merge_groups-Steady, decay-Steady, supersede-Steady)
        depth 14

  validate_writes-Steady : (ws : List ClaimWrite) → Keeps Steady (validate_writes env ws)
  unfolding validate_writes
  validate_writes-Steady [] = search keeps_rules
  validate_writes-Steady (w ∷ ws) =
      let rest =
        Keeps-bind (validate_claim_write env w) (λ _. validate_writes env ws)
          (validate_claim_write-Steady w) (λ _. validate_writes-Steady ws) in
      record { at = λ s h. rest.at s h }

  inserted-Steady :
      (now claim_id : ℕ) (w : ClaimWrite) (more : Action (List ℕ))
      → Keeps Steady more
      → Keeps Steady (do id ← insert_claim env now claim_id w; ids ← more; return (id ∷ ids))
  inserted-Steady now claim_id w more k = search (keeps_rules, insert_claim-Steady) depth 8

  insert_claims-Steady :
      (now : ℕ) (ws : List (ℕ × ClaimWrite)) → Keeps Steady (insert_claims env now ws)
  unfolding insert_claims
  insert_claims-Steady now [] = search keeps_rules
  insert_claims-Steady now ((claim_id, w) ∷ ws) =
      let rest =
        inserted-Steady now claim_id w (insert_claims env now ws) (insert_claims-Steady now ws) in
      record { at = λ s h. rest.at s h }

  ingest-Steady :
      (now : ℕ) (agent_id : String) (kind : AgentKind) (source scope : String)
      (facts : List (ℕ × ExtractorFact))
      → Keeps Steady (ingest_extractor_facts env now agent_id kind source scope facts)
  unfolding ingest_extractor_facts
  ingest-Steady now agent_id kind source scope facts =
      search (keeps_rules, validate_writes-Steady, insert_claims-Steady, consolidate_report-Steady)
        depth 12

  write_hyperedge-Steady :
      (now id : ℕ) (input : HyperedgeInput) → Keeps Steady (write_hyperedge env now id input)
  unfolding write_hyperedge privacy_filter_recording privacy_filter_path_recording validate_ontology
  write_hyperedge-Steady now id input =
      search (keeps_rules, transaction-Steady, gate-Steady, write-Steady) depth 40

  write_vector_chunk-Steady :
      (now id claim_id : ℕ) (text model : String)
      → Keeps Steady (write_vector_chunk env now id claim_id text model)
  unfolding write_vector_chunk privacy_filter_recording privacy_filter_path_recording
  write_vector_chunk-Steady now id claim_id text model =
      search
        (keeps_rules, transaction-Steady, gate-Steady, write-Steady, ensure_claim_exists-Steady)
        depth 24

  with_embedding-Steady :
      (now id claim_id : ℕ) (text model : String) (vector : List ℕ)
      → Keeps Steady (add_vector_chunk_with_embedding env now id claim_id text model vector)
  unfolding add_vector_chunk_with_embedding privacy_filter_recording privacy_filter_path_recording
  with_embedding-Steady now id claim_id text model vector =
      search
        (keeps_rules, transaction-Steady, gate-Steady, write-Steady, ensure_claim_exists-Steady)
        depth 24

  embedded-Steady : (o : Option (List ℕ)) → Keeps Steady (embedded o)
  unfolding embedded
  embedded-Steady none = Keeps-fail _
  embedded-Steady (some vector) = Keeps-return vector

  for_claim-Steady :
      (now id claim_id : ℕ) (model : String)
      → Keeps Steady (add_vector_chunk_for_claim env now id claim_id model)
  unfolding add_vector_chunk_for_claim get_claim
  for_claim-Steady now id claim_id model =
      search (keeps_rules, ensure_claim_exists-Steady, write_vector_chunk-Steady) depth 12

  embedded_for_claim-Steady :
      (client : Client) (now id claim_id : ℕ) (model : String)
      → Keeps Steady (add_embedded_vector_chunk_for_claim env client now id claim_id model)
  unfolding add_embedded_vector_chunk_for_claim get_claim
  embedded_for_claim-Steady client now id claim_id model =
      search (keeps_rules, ensure_claim_exists-Steady, embedded-Steady, with_embedding-Steady) depth
        14

  backfilled-Steady :
      (client : Client) (now id : ℕ) (c : ChunkRow) (more : Action ℕ)
      → Keeps Steady more
      → Keeps Steady (do
        vector ← embed client c.text
        write_one env (embed_vector_chunk now id vector) tt
        count ← more
        return (suc count))
  backfilled-Steady client now id c more k =
      search (keeps_rules, embedded-Steady, transaction-Steady, write-Steady) depth 14

  backfill_rows-Steady :
      (client : Client) (now : ℕ) (rows : Table ℕ ChunkRow)
      → Keeps Steady (backfill_rows env client now rows)
  unfolding backfill_rows
  backfill_rows-Steady client now [] = search keeps_rules
  backfill_rows-Steady client now ((id, c) ∷ rows) =
      let rest =
        backfilled-Steady client now id c (backfill_rows env client now rows)
          (backfill_rows-Steady client now rows) in
      record { at = λ s h. rest.at s h }

  backfill-Steady :
      (client : Client) (now : ℕ) → Keeps Steady (backfill_vector_embeddings env client now)
  unfolding backfill_vector_embeddings
  backfill-Steady client now = search (keeps_rules, backfill_rows-Steady)

  pub perform-Steady : (c : Call) → Keeps Steady (perform env c)
  unfolding perform
  perform-Steady (adds now id w) = search (keeps_rules, insert_claim-Steady)
  perform-Steady (notes now id claim_id reason) = search (keeps_rules, add_contradiction_to-Steady)
  perform-Steady (contradicts now id claim_id reason o) = search (keeps_rules, contradict-Steady)
  perform-Steady (retires now claim_id reason) = retire-Steady now claim_id reason
  perform-Steady (decays now) = search (keeps_rules, decay-Steady)
  perform-Steady (ages now now_ts tau) = search (keeps_rules, age-Steady)
  perform-Steady (links now id input) = search (keeps_rules, write_hyperedge-Steady)
  perform-Steady (chunks now id claim_id text model) =
      search (keeps_rules, write_vector_chunk-Steady)
  perform-Steady (embeds now id claim_id text model vector) =
      search (keeps_rules, with_embedding-Steady)
  perform-Steady (describes now id claim_id model) = search (keeps_rules, for_claim-Steady)
  perform-Steady (describes_embedded now id claim_id model client) =
      search (keeps_rules, embedded_for_claim-Steady)
  perform-Steady (backfills now client) = search (keeps_rules, backfill-Steady)
  perform-Steady (consolidates now) = search (keeps_rules, consolidate_report-Steady)
  perform-Steady (ingests now agent_id kind source scope facts) =
      search (keeps_rules, ingest-Steady)
