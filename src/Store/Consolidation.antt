-- ===== src/Store/Consolidation.antt =====
-- Decay, merging and superseding, the ingestion of extracted facts, and the call of any writer,
-- crates/aver-core/src/claims.rs.
use aver.Prelude.{
  ℕ, suc, String, Bool, true, false, List, [], ◌∷◌, ◌++◌, ◌+◌, ◌-◌, ◌==◌, ◌&&◌, ◌||◌, not, Option,
  none, some, Table, find, length, leb, ltb, nat_eq, string_eq, if◌then◌else◌, map,
}
use aver.Types.{AgentKind, Provenance, inferred, active, ClaimStatus, default_provenance}
use aver.Log.{LogRecord, ConfidenceChange, decay_confidence, supersede_claims, merge_source_refs}
use aver.Db.{ClaimRow, Db}
use aver.Ontology.{Ontology, PredicateType}
use aver.Apply.Claims.{str_mem}
use aver.Store.{
  Env, Action, ◌>>=◌, ◌>>◌, return, reading, transaction, ensure, write, invalid_decay_tau,
}
use aver.Store.Claims.{
  ClaimWrite, from_agent, with_provenance, validate_claim_write, insert_claim, get_claim,
}

-- ORDER BY id
unfoldable pub insert_by_id : {V : Type 0} → ℕ × V → Table ℕ V → Table ℕ V
insert_by_id row [] = row ∷ []
insert_by_id row (other ∷ rows) =
    let later = other ∷ insert_by_id row rows in
    if leb row.0 other.0 then row ∷ other ∷ rows else later

unfoldable pub by_id : {V : Type 0} → Table ℕ V → Table ℕ V
unfolding insert_by_id
by_id [] = []
by_id (row ∷ rows) = insert_by_id row (by_id rows)

-- The rows WHERE a condition holds.
unfoldable pub rows_where : {V : Type 0} → (ℕ → V → Bool) → Table ℕ V → Table ℕ V
rows_where p [] = []
rows_where p ((id, v) ∷ rows) =
    let rest = rows_where p rows in if p id v then (id, v) ∷ rest else rest

-- EXISTS
unfoldable pub some_row : {V : Type 0} → (ℕ → V → Bool) → Table ℕ V → Bool
some_row p [] = false
some_row p ((id, v) ∷ rows) = p id v || some_row p rows

abbrev pub is_active : ClaimStatus → Bool
is_active active = true
is_active _ = false

abbrev pub is_inferred : Provenance → Bool
is_inferred inferred = true
is_inferred _ = false

abbrev pub ids_of : {V : Type 0} → Table ℕ V → List ℕ
ids_of rows = map (λ r. r.0) rows

-- The active claims with a recorded contradiction; no record gives a contradiction another status.
unfoldable pub contradicted : Db → Table ℕ ClaimRow
unfolding rows_where some_row by_id
contradicted db = by_id (
    rows_where (λ id c. is_active c.status && some_row (λ k x. x.claim_id == id) db.contradictions)
      db.claims)

abbrev pub decayed_rows : Env → Table ℕ ClaimRow → List ConfidenceChange
decayed_rows env rows =
    map (λ r. record { claim_id = r.0; confidence = env.decayed r.1.confidence }) rows

abbrev pub counted_write : Env → List ConfidenceChange → LogRecord → Action ℕ
counted_write env [] r = return 0
counted_write env (c ∷ changes) r = do write env r; return (length (c ∷ changes))

-- Logs and applies new confidences; nothing is logged where there are none.
abbrev pub change : Env → ℕ → List ConfidenceChange → Action ℕ
change env now changes = counted_write env changes (decay_confidence now changes)

-- `Store::decay_contradicted_confidence`
unfoldable pub decay_contradicted_confidence : Env → (now : ℕ) → Action ℕ
unfolding contradicted write ◌>>=◌
decay_contradicted_confidence env now =
    transaction (reading λ db. change env now (decayed_rows env (contradicted db)))

unfoldable pub inferred_rows : Db → Table ℕ ClaimRow
unfolding rows_where by_id
inferred_rows db =
    by_id (rows_where (λ id c. is_active c.status && is_inferred c.provenance) db.claims)

abbrev pub aged_rows : Env → (now_ts tau : ℕ) → Table ℕ ClaimRow → List ConfidenceChange
aged_rows env now_ts tau rows =
    map
      (λ r. record {
        claim_id = r.0;
        confidence = env.decayed_over (now_ts - r.1.last_seen_at) tau r.1.confidence;
      })
      rows

-- `Store::decay_inferred_confidence_at`; `-` stops at 0, as `.max(0)` does.
unfoldable pub decay_inferred_confidence_at : Env → (now now_ts tau : ℕ) → Action ℕ
unfolding inferred_rows write ◌>>=◌
decay_inferred_confidence_at env now now_ts tau = do
  ensure (env.is_tau tau) invalid_decay_tau
  transaction (reading λ db. change env now (aged_rows env now_ts tau (inferred_rows db)))

unfoldable pub same_triple : ClaimRow → ClaimRow → Bool
same_triple c d = c.subject == d.subject && c.predicate == d.predicate && c.object == d.object

-- The active claims whose triple an older claim has.
unfoldable pub duplicates : Db → Table ℕ ClaimRow
unfolding rows_where some_row by_id same_triple
duplicates db = by_id (
    rows_where
      (λ id c. is_active c.status && some_row (λ k d. same_triple c d && ltb k id) db.claims)
      db.claims)

abbrev pub is_single_type : Option PredicateType → Bool
is_single_type none = false
is_single_type (some t) = t.cardinality == "single"

abbrev pub is_single_alias : Table ℕ PredicateType → Option ℕ → Bool
is_single_alias types none = false
is_single_alias types (some id) = is_single_type (find id types)

-- Whether a predicate names a type of cardinality `single`, or is an alias of one.
unfoldable pub is_single : Ontology → String → Bool
unfolding some_row find
is_single o predicate =
    some_row (λ id t. t.name == predicate && t.cardinality == "single") o.predicate_types
    || is_single_alias o.predicate_types (find predicate o.predicate_alias)

-- The active claims of a single-valued predicate that a newer claim with another object replaces.
unfoldable pub conflicts : Db → Table ℕ ClaimRow
unfolding rows_where some_row by_id is_single
conflicts db = by_id (
    rows_where
      (λ id c.
        is_active c.status
        && is_single db.ontology c.predicate
        && some_row
            (λ k d.
              d.subject == c.subject
              && d.predicate == c.predicate
              && not (d.object == c.object)
              && ltb id k)
            db.claims)
      db.claims)

-- `Store::supersede_claim_ids`
unfoldable pub supersede_claim_ids : Env → List ℕ → (now : ℕ) → Action ℕ
unfolding write ◌>>=◌
supersede_claim_ids env [] now = return 0
supersede_claim_ids env (id ∷ ids) now = do
  write env (supersede_claims now (id ∷ ids))
  return (length (id ∷ ids))

-- The transaction of `consolidate_report`.
unfoldable pub supersede : Env → (now : ℕ) → Action ℕ
unfolding supersede_claim_ids duplicates conflicts ◌>>=◌
supersede env now = transaction do
  duplicate_changed ← reading λ db. supersede_claim_ids env (ids_of (duplicates db)) now
  conflict_changed ← reading λ db. supersede_claim_ids env (ids_of (conflicts db)) now
  return (duplicate_changed + conflict_changed)

-- The oldest claim of each triple that several claims have.
unfoldable pub survivors : Db → Table ℕ ClaimRow
unfolding rows_where some_row by_id same_triple
survivors db = by_id (
    rows_where
      (λ id c.
        some_row (λ k d. same_triple c d && ltb id k) db.claims
        && not (some_row (λ k d. same_triple c d && ltb k id) db.claims))
      db.claims)

-- Pushes each source that is not there yet.
unfoldable pub merge_refs : List String → List String → List String
unfolding str_mem
merge_refs refs [] = refs
merge_refs refs (r ∷ more) = merge_refs (if str_mem r refs then refs else refs ++ r ∷ []) more

unfoldable pub merge_rows : List String → Table ℕ ClaimRow → List String
unfolding merge_refs
merge_rows refs [] = refs
merge_rows refs (row ∷ rows) = merge_rows (merge_refs refs row.1.source_refs) rows

-- The sources of all claims of a triple, in the order of their ids.
unfoldable pub group_refs : Db → ClaimRow → List String
unfolding merge_rows rows_where by_id same_triple
group_refs db c = merge_rows [] (by_id (rows_where (λ id d. same_triple c d) db.claims))

abbrev pub promotes : ClaimRow → List String → Bool
promotes survivor refs = is_inferred survivor.provenance && leb 2 (length refs)

abbrev pub merge_record : (now id : ℕ) → ClaimRow → Db → LogRecord
merge_record now id c db = merge_source_refs now id (group_refs db c) (promotes c (group_refs db c))

-- One round of the loop of `merge_duplicate_source_refs`.
abbrev pub merge_group : Env → (now id : ℕ) → Action Unit
merge_group env now id = do
  c ← get_claim id
  reading λ db. write env (merge_record now id c db)
  return tt

unfoldable pub merge_groups : Env → (now : ℕ) → List ℕ → Action ℕ
unfolding get_claim group_refs write ◌>>=◌
merge_groups env now [] = return 0
merge_groups env now (id ∷ ids) = do
  merge_group env now id
  merged ← merge_groups env now ids
  return (suc merged)

-- `Store::merge_duplicate_source_refs`, whose groups are read before the transaction.
unfoldable pub merge_duplicate_source_refs : Env → (now : ℕ) → Action ℕ
unfolding survivors merge_groups ◌>>=◌
merge_duplicate_source_refs env now =
    reading λ db. transaction (merge_groups env now (env.group_order (ids_of (survivors db))))

pub record ConsolidationReport : Type 0 where
  pub merged : ℕ
  pub superseded : ℕ
  pub decayed : ℕ

-- `Store::consolidate_report`
unfoldable pub consolidate_report : Env → (now : ℕ) → Action ConsolidationReport
unfolding merge_duplicate_source_refs decay_contradicted_confidence supersede ◌>>=◌
consolidate_report env now = do
  merged ← merge_duplicate_source_refs env now
  decayed ← decay_contradicted_confidence env now
  superseded ← supersede env now
  return (record { merged = merged; superseded = superseded; decayed = decayed })

pub record ExtractorFact : Type 0 where
  pub subject : String
  pub predicate : String
  pub object : String
  pub provenance : Option Provenance

abbrev pub attributed : Option Provenance → ClaimWrite → ClaimWrite
attributed none w = w
attributed (some p) w = with_provenance p w

abbrev pub fact_write : String → AgentKind → (source scope : String) → ExtractorFact → ClaimWrite
fact_write agent_id agent_kind source scope f =
    attributed f.provenance
      (record (from_agent agent_id agent_kind f.subject f.predicate f.object source) {
        scope = scope;
      })

unfoldable pub validate_writes : Env → List ClaimWrite → Action Unit
unfolding validate_claim_write ◌>>=◌
validate_writes env [] = return tt
validate_writes env (w ∷ writes) = do validate_claim_write env w; validate_writes env writes

-- The loop over the writes, each with the id that it mints.
unfoldable pub insert_claims : Env → (now : ℕ) → List (ℕ × ClaimWrite) → Action (List ℕ)
unfolding insert_claim ◌>>=◌
insert_claims env now [] = return []
insert_claims env now ((claim_id, w) ∷ writes) = do
  id ← insert_claim env now claim_id w
  ids ← insert_claims env now writes
  return (id ∷ ids)

abbrev pub fact_writes :
    String → AgentKind → (source scope : String) → List (ℕ × ExtractorFact) → List (ℕ × ClaimWrite)
fact_writes agent_id agent_kind source scope facts =
    map (λ f. (f.0, fact_write agent_id agent_kind source scope f.1)) facts

-- `Store::ingest_extractor_facts`
unfoldable pub ingest_extractor_facts :
    Env
    → (now : ℕ) → String
    → AgentKind
    → (source scope : String) → List (ℕ × ExtractorFact)
    → Action (List ℕ)
unfolding validate_writes insert_claims consolidate_report from_agent default_provenance ◌>>=◌
ingest_extractor_facts env now agent_id agent_kind source scope facts = do
  let writes = fact_writes agent_id agent_kind source scope facts
  validate_writes env (map (λ w. w.1) writes)
  ids ← insert_claims env now writes
  consolidate_report env now
  return ids
