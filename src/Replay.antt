-- ===== src/Replay.antt =====
-- Log replay, crates/aver-core/src/replay.rs: the lines of the log files, in the order of
-- `collect_replay_inputs`, are parsed, applied under a savepoint and counted. The files, the
-- fresh database with its migrations and seed, and serde_json are arguments.
pub mod Modes
pub mod Outcome
use aver.Prelude.{
  ℕ, suc, ◌+◌, String, Bool, true, false, Option, none, some, List, [], ◌∷◌, ◌++◌, ◌==◌, string_eq,
  if◌then◌else◌,
}
use aver.Text.{is_blank}
use aver.Exec.{
  Error, Result, ok, err, Exec, invalid_record, io, endless, replay_malformed, replay_unknown_kind,
}
use aver.Log.{
  LogRecord, add_claim, add_hyperedge, record_event, record_observation, prune_observations,
  add_vector_chunk, embed_vector_chunk,
}
use aver.Db.{Db, Host, Applied, applied, duplicate}
use aver.Apply.{apply}

-- What serde_json makes of a line: the record, if it is one, and the string under `kind` of the
-- JSON value (`none`: no JSON; `some none`: no such string).
pub record Codec : Type 0 where
  pub decode : String → Option LogRecord
  pub value_kind : String → Option (Option String)

pub record ReplayQuarantine : Type 0 where
  pub path : String
  pub line : ℕ
  pub error : Error

pub record ReplayReport : Type 0 where
  pub claims : ℕ
  pub hyperedges : ℕ
  pub events : ℕ
  pub observations : ℕ
  pub vector_chunks : ℕ
  pub files_walked : ℕ
  pub lifecycle : ℕ
  pub quarantined : List ReplayQuarantine

pub data ReplayMode : Type 0 where
  strict lenient : ReplayMode

-- The database under construction and the report.
pub record Run : Type 0 where
  pub db : Db
  pub report : ReplayReport

-- `LogRecord::KINDS`
abbrev pub kinds : List String
kinds =
    "add_claim" ∷ "add_hyperedge" ∷ "record_event" ∷ "record_observation" ∷ "prune_observations"
    ∷ "retire_claim" ∷ "add_contradiction" ∷ "propose_candidate_claim" ∷ "promote_candidate_claim"
    ∷ "reject_candidate_claim" ∷ "supersede_claims" ∷ "decay_confidence" ∷ "merge_source_refs"
    ∷ "add_vector_chunk" ∷ "embed_vector_chunk" ∷ []

unfoldable pub contains : List String → String → Bool
contains [] s = false
contains (k ∷ ks) s = if k == s then true else contains ks s

abbrev pub parse_error : Option (Option String) → Error
parse_error none = replay_malformed
parse_error (some none) = replay_malformed
parse_error (some (some kind)) =
    if contains kinds kind then replay_malformed else replay_unknown_kind

unfoldable pub parse_log_line : Codec → String → Result LogRecord
unfolding contains
parse_log_line codec line = elim (codec.decode line) [
  | some r ↦ ok r
  | none ↦ err (parse_error (codec.value_kind line))
]

-- The counters of a record that was applied.
abbrev pub counted : LogRecord → ReplayReport → ReplayReport
counted (add_claim _) r = record r { claims = r.claims + 1 }
counted (add_hyperedge _) r = record r { hyperedges = r.hyperedges + 1 }
counted (record_event _) r = record r { events = r.events + 1 }
counted (record_observation _) r = record r { observations = r.observations + 1 }
counted (add_vector_chunk _) r = record r { vector_chunks = r.vector_chunks + 1 }
counted (embed_vector_chunk _ _ _) r = record r { vector_chunks = r.vector_chunks + 1 }
counted (prune_observations _) r = r
counted _ r = record r { lifecycle = r.lifecycle + 1 }

-- `apply`'s errors, located to the line.
abbrev pub located : Error → Error
located invalid_record = replay_malformed
located e = e

abbrev pub counted_if : Applied → LogRecord → ReplayReport → ReplayReport
counted_if duplicate r report = report
counted_if applied r report = counted r report

abbrev pub settle_line : LogRecord → Result Applied → Db → ReplayReport → Result (Unit {0}) × Run
settle_line r (err e) db report = (err (located e), record { db = db; report = report })
settle_line r (ok a) db report = (ok tt, record { db = db; report = counted_if a r report })

abbrev pub apply_parsed : Host → Result LogRecord → Exec Run Unit
apply_parsed h (err e) run = (err e, run)
apply_parsed h (ok r) run = settle_line r (apply h r run.db).0 (apply h r run.db).1 run.report

unfoldable pub apply_log_line : Host → Codec → String → Exec Run Unit
unfolding parse_log_line
apply_log_line h codec line = apply_parsed h (parse_log_line codec line)

abbrev pub quarantine : String → ℕ → Error → Run → Run
quarantine path lineno e run =
    let q : ReplayQuarantine = record { path = path; line = lineno; error = e } in
    record run { report = record run.report { quarantined = run.report.quarantined ++ q ∷ [] } }

-- A line whose loop would not end gives replay no error that it could quarantine.
abbrev pub is_endless : Error → Bool
is_endless endless = true
is_endless _ = false

-- What follows the attempt at one line: RELEASE, or ROLLBACK TO the run `before` and the mode.
abbrev pub release : ReplayMode → String → ℕ → Run → Result (Unit {0}) → Run → Result Run
release mode path lineno before (ok _) after = ok after
release strict path lineno before (err e) after = err e
release lenient path lineno before (err e) after =
    if is_endless e then err endless else ok (quarantine path lineno e before)

unfoldable pub replay_line : Host → Codec → ReplayMode → String → ℕ → String → Run → Result Run
unfolding apply_log_line is_blank
replay_line h codec mode path lineno line run =
    if is_blank line
    then ok run
    else release mode path lineno run (apply_log_line h codec line run).0
        (apply_log_line h codec line run).1

infixl 5 ◌>>=◌
abbrev pub ◌>>=◌ : {A B : Type 0} → Result A → (A → Result B) → Result B
ok a >>= f = f a
err e >>= f = err e

-- A log file: whether `open_log_reader` opens it, and its lines, `none` for one that cannot be read.
pub record LogFile : Type 0 where
  pub path : String
  pub opens : Bool
  pub lines : List (Option String)

-- The lines of one file, from line `lineno` on.
unfoldable pub replay_lines :
    Host → Codec → ReplayMode → String → ℕ → List (Option String) → Run → Result Run
unfolding replay_line
replay_lines h codec mode path lineno [] run = ok run
replay_lines h codec mode path lineno (none ∷ lines) run = err io
replay_lines h codec mode path lineno (some line ∷ lines) run = do
  next ← replay_line h codec mode path lineno line run
  replay_lines h codec mode path (lineno + 1) lines next

abbrev pub walked : Run → Run
walked run = record run {
  report = record run.report { files_walked = run.report.files_walked + 1 };
}

-- The body of the loop over the files.
abbrev pub replay_file : Host → Codec → ReplayMode → LogFile → Run → Result Run
replay_file h codec mode file run =
    if file.opens then replay_lines h codec mode file.path 1 file.lines run else err io

unfoldable pub replay_files : Host → Codec → ReplayMode → List LogFile → Run → Result Run
unfolding replay_lines
replay_files h codec mode [] run = ok run
replay_files h codec mode (file ∷ files) run = do
  next ← replay_file h codec mode file (walked run)
  replay_files h codec mode files next

-- `ReplayReport::default()`
abbrev pub empty_report : ReplayReport
empty_report = record {
  claims = 0;
  hyperedges = 0;
  events = 0;
  observations = 0;
  vector_chunks = 0;
  files_walked = 0;
  lifecycle = 0;
  quarantined = [];
}

-- `replay_with_mode`, over the seeded database and the files in order.
unfoldable pub replay_with_mode : Host → Codec → ReplayMode → Db → List LogFile → Result Run
unfolding replay_files
replay_with_mode h codec mode seeded files =
    replay_files h codec mode files (record { db = seeded; report = empty_report })
