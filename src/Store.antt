-- ===== src/Store.antt =====
-- The live store, `Store` of crates/aver-core/src/store.rs, with what its writers share: the append to
-- a log (log.rs), the write transaction, and the privacy gate with its counters (claims.rs).
-- A log is the list of its lines, the oldest first. BEGIN and COMMIT are taken to succeed; ROLLBACK
-- gives the rows back and leaves the log, which is no part of the database. A writer holds the write
-- lock of SQLite, so one call is one step; the id that it mints and the clock are arguments.
pub mod Claims
pub mod Consolidation
pub mod Hyperedges
pub mod Vectors
pub mod Candidates
pub mod Decided
pub mod Calls
pub mod Keeps
pub mod Rebuilt
pub mod Attached
pub mod History
pub mod Steady
pub mod Operations
pub mod Final
pub mod Replayed
pub mod Admitted
use aver.Prelude.{
  ℕ, String, Bool, true, false, List, [], ◌∷◌, ◌++◌, ◌+◌, Option, none, some, Table, find, insert,
  modify, string_eq, if◌then◌else◌,
}
use aver.Text.{codes}
use aver.Exec
use aver.Types.{Provenance, user_asserted, extracted, inferred, ambiguous}
use aver.Log.{LogRecord}
use aver.Db.{Db, Host, Applied}
use aver.Apply.{apply}
use aver.Ontology.{Ontology, predicate_type_id}
use aver.Validation.{Check, ArgumentError, accepted, rejected}
use aver.Privacy.Paths.{
  PrivacyRejection, Verdict, pass, refuse, privacy_filter_path, telemetry_reason,
}
use aver.Privacy.Content.{privacy_filter}

pub data StoreError : Type 0 where
  argument : ArgumentError → StoreError
  privacy : PrivacyRejection → StoreError
  -- an error of `apply`
  projection : Exec.Error → StoreError
  io invalid_confidence unknown_predicate missing_claim already_retired : StoreError
  invalid_decay_tau no_rows : StoreError
  invalid_hyperedge_field invalid_hyperedge_participant no_embedding : StoreError
  missing_candidate missing_event missing_event_provenance invalid_candidate_status : StoreError

-- A line of a log file: a record; what a write that broke off has left at the end of the file; or a
-- line that is no record, as what is written after such a rest makes one line with it.
pub data LogLine : Type 0 where
  whole : LogRecord → LogLine
  fragment broken : LogLine

-- How an append ends: with the line in the file; before the write; with the line in the file though
-- `sync_data` fails; or with a part of the line in the file.
pub data Append : Type 0 where
  took not_begun unsynced torn : Append

pub record Store : Type 0 where
  pub db : Db
  -- log.jsonl
  pub log : List LogLine
  -- events.jsonl
  pub event_log : List LogLine
  -- the rows of `privacy_rejections`
  pub privacy_rejections : Table String ℕ

-- What the writers take from elsewhere: the host of `apply`, how an append to a file ends, the test
-- on Shannon entropy, f64 arithmetic on bit patterns, and the order in which SQLite gives groups.
pub record Env : Type 0 where
  pub host : Host
  pub appends : List LogLine → LogRecord → Append
  pub entropic : List ℕ → Bool
  -- `(0.0..=1.0).contains`
  pub in_unit : ℕ → Bool
  -- `((c - 0.10) * 100.0).round() / 100.0`, at least 0.0
  pub decayed : ℕ → ℕ
  -- `format!("event:{}")`
  pub event_source : ℕ → String
  -- `{}` of an f64
  pub display : ℕ → List ℕ
  -- `is_finite` of an f32
  pub is_finite : ℕ → Bool
  -- `tau > 0.0` and finite
  pub is_tau : ℕ → Bool
  -- `c * (-delta / tau).exp()`, for delta, tau and c
  pub decayed_over : ℕ → ℕ → ℕ → ℕ
  pub group_order : List ℕ → List ℕ

pub data Answer (A : Type 0) : Type 0 where
  done : A → Answer A
  failed : StoreError → Answer A

abbrev pub Action : Type 0 → Type 0
Action A = Store → Answer A × Store

abbrev pub continue : {A B : Type 0} → Answer A → (A → Action B) → Action B
continue (done a) f s = f a s
continue (failed e) f s = (failed e, s)

module _ {A : Type 0} where
  unfoldable pub return : A → Action A
  return a s = (done a, s)

  unfoldable pub fail : StoreError → Action A
  fail e s = (failed e, s)

  -- An action that depends on the rows.
  unfoldable pub reading : (Db → Action A) → Action A
  reading f s = f s.db s

  -- COMMIT, or ROLLBACK to the rows `before`.
  abbrev pub settle : Answer A → Db → Store → Answer A × Store
  settle (done a) before after = (done a, after)
  settle (failed e) before after = (failed e, record after { db = before })

  -- A closure between BEGIN IMMEDIATE and COMMIT or ROLLBACK.
  unfoldable pub transaction : Action A → Action A
  transaction body s = settle (body s).0 s.db (body s).1

module _ {A B : Type 0} where
  infixl 5 ◌>>=◌ ◌>>◌
  -- opening this opens the other parts of an action too
  unfoldable pub ◌>>=◌ : Action A → (A → Action B) → Action B
  unfolding return fail reading transaction
  ◌>>=◌ m f s = continue (m s).0 f (m s).1

  abbrev pub ◌>>◌ : Action A → Action B → Action B
  m >> k = m >>= λ _. k

-- A `for` loop whose body ends with `?`.
unfoldable pub each : {A : Type 0} → (A → Action Unit) → List A → Action Unit
unfolding ◌>>=◌
each f [] = return tt
each f (x ∷ xs) = do f x; each f xs

abbrev pub ensure : Bool → StoreError → Action Unit
ensure b e = if b then return tt else fail e

-- `?` on a check of validation.rs
unfoldable pub checked : Check → Action Unit
unfolding return fail
checked accepted = return tt
checked (rejected e) = fail (argument e)

abbrev pub merged : LogLine → LogLine
merged (whole r) = broken
merged fragment = fragment
merged broken = broken

-- What is written goes to the end of the file, into the line that a broken write has left there.
unfoldable pub put : List LogLine → LogLine → List LogLine
put [] line = line ∷ []
put (fragment ∷ []) line = merged line ∷ []
put (first ∷ lines) line = first ∷ put lines line

abbrev pub appending : List LogLine → LogRecord → Append → Answer Unit × List LogLine
appending lines r took = (done tt, put lines (whole r))
appending lines r not_begun = (failed io, lines)
appending lines r unsynced = (failed io, put lines (whole r))
appending lines r torn = (failed io, put lines fragment)

-- `append_jsonl`
unfoldable pub append_jsonl : Env → LogRecord → Action Unit
unfolding put
append_jsonl env r s =
    let (answer, log) = appending s.log r (env.appends s.log r) in (answer, record s { log = log })

abbrev pub projected : Exec.Result Applied → Store → Answer Applied × Store
projected (Exec.ok a) s = (done a, s)
projected (Exec.err e) s = (failed (projection e), s)

unfoldable pub project : Env → LogRecord → Action Applied
project env r s = projected (apply env.host r s.db).0 (record s { db = (apply env.host r s.db).1 })

-- `append_jsonl(&self.log_path, &record)?; apply(&self.conn, &record)?;`
unfoldable pub write : Env → LogRecord → Action Applied
unfolding append_jsonl project ◌>>=◌
write env r = do append_jsonl env r; project env r

abbrev pub counted : Table String ℕ → String → Option ℕ → Table String ℕ
counted t reason none = insert reason 1 t
counted t reason (some n) = modify reason (λ n. n + 1) t

unfoldable pub record_privacy_rejection : PrivacyRejection → Action Unit
unfolding insert modify find telemetry_reason
record_privacy_rejection r s =
    let reason = telemetry_reason r in
    (
      done tt,
      record s {
        privacy_rejections = counted s.privacy_rejections reason (find reason s.privacy_rejections);
      },
    )

unfoldable pub gate : Verdict → Action Unit
unfolding record_privacy_rejection ◌>>=◌
gate pass = return tt
gate (refuse r) = do record_privacy_rejection r; fail (privacy r)

unfoldable pub privacy_filter_recording : Env → List ℕ → Action Unit
unfolding privacy_filter gate
privacy_filter_recording env content = gate (privacy_filter env.entropic content)

unfoldable pub privacy_filter_path_recording : String → Action Unit
unfolding privacy_filter_path gate
privacy_filter_path_recording path = gate (privacy_filter_path (codes path))

abbrev pub may_extend : Provenance → Bool
may_extend user_asserted = true
may_extend extracted = false
may_extend inferred = false
may_extend ambiguous = false

abbrev pub accepts_unless : Option ℕ → Bool → Bool
accepts_unless none rest = rest
accepts_unless (some id) rest = true

-- Whether `validate_ontology` (ontology.rs) lets a predicate pass.
unfoldable pub is_allowed : Ontology → String → Provenance → Bool
unfolding predicate_type_id find
is_allowed o predicate provenance =
    accepts_unless (predicate_type_id predicate o.predicate_types)
      (accepts_unless (find predicate o.predicate_alias) (may_extend provenance))

unfoldable pub validate_ontology : String → Provenance → Action Unit
unfolding is_allowed ◌>>=◌
validate_ontology predicate provenance =
    reading (λ db. ensure (is_allowed db.ontology predicate provenance) unknown_predicate)
