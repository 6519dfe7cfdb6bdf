-- ===== src/Store/Replayed.antt =====
-- Replay of the log of the live store (crates/aver-core/src/replay.rs) gives the rows of the live store.
use aver.Prelude.{
  Bool, true, sym, ℕ, String, false, List, [], ◌∷◌, ◌+◌, ◌≡◌, refl, ◌∙◌, ap, arith, map, some,
}
use aver.Exec
use aver.Text.{is_blank}
use aver.Log.{LogRecord}
use aver.Db.{Db, Host, Applied}
use aver.Apply.{apply}
use aver.Replay.{
  Codec, Run, LogFile, is_endless, located, quarantine, lenient, release, settle_line,
  parse_log_line, apply_log_line, replay_line, replay_lines, replay_files, replay_with_mode, walked,
  empty_report,
}
use aver.Store.{Store, Env, LogLine, whole, fragment, broken}
use aver.Exec.{Error, invalid_record}
use mathlib.Core.Path.{subst}
use aver.Store.Calls.{Call, run, Completes}
use aver.Store.History.{run-Rebuilt}
use aver.Store.Rebuilt.{IsClean, kept, settled, rebuild, Rebuilt}

-- The line of a record reads back, and is not blank.
abbrev pub ReadsBack : Codec → (LogLine → String) → LogLine → Type 0
ReadsBack codec encode (whole r) =
    (codec.decode (encode (whole r)) ≡ some r) × (is_blank (encode (whole r)) ≡ false)
ReadsBack codec encode fragment = Unit
ReadsBack codec encode broken = Unit

abbrev pub All : {A : Type 0} → (A → Type 0) → List A → Type 0
All P [] = Unit
All P (x ∷ xs) = P x × All P xs

abbrev pub loops : Exec.Result Applied → Bool
loops (Exec.ok a) = false
loops (Exec.err e) = is_endless e

-- `apply` returns on each record of the lines in turn.
unfoldable pub Ends : Host → Db → List LogLine → Type 0
unfolding settled
Ends h db [] = Unit
Ends h db (whole r ∷ lines) = (loops (apply h r db).0 ≡ false) × Ends h (settled h db r) lines
Ends h db (fragment ∷ lines) = Ends h db lines
Ends h db (broken ∷ lines) = Ends h db lines

is_endless-located : (e : Error) → is_endless (located e) ≡ is_endless e
is_endless-located invalid_record = refl
is_endless-located _ = refl

module _ (h : Host) (codec : Codec) (encode : LogLine → String) where
  release-kept :
      (path : String) (n : ℕ) (before : Run) (r : LogRecord) (x : Exec.Result Applied) (db : Db)
      → loops x ≡ false
      → (end : Run) × (release lenient path n before
            (settle_line r x db before.report).0
            (settle_line r x db before.report).1
          ≡ Exec.ok end)
        × (end.db ≡ kept x before.db db)
  release-kept path n before r (Exec.ok a) db ends = (_, refl, refl)
  release-kept path n before r (Exec.err e) db ends =
      (quarantine path n (located e) before, rw (is_endless-located e, ends) refl, refl)

  parse_log_line-some :
      (line : String) (r : LogRecord)
      → codec.decode line ≡ some r
      → parse_log_line codec line ≡ Exec.ok r
  unfolding parse_log_line
  parse_log_line-some line r e = ground (arith, e)

  replay_line-settled :
      (path : String) (n : ℕ) (before : Run) (r : LogRecord)
      → ReadsBack codec encode (whole r)
      → loops (apply h r before.db).0 ≡ false
      → (end : Run) × (replay_line h codec lenient path n (encode (whole r)) before ≡ Exec.ok end)
        × (end.db ≡ settled h before.db r)
  unfolding replay_line apply_log_line settled
  replay_line-settled path n before r (reads, text) ends =
      rw (text, parse_log_line-some (encode (whole r)) r reads)
        (release-kept path n before r (apply h r before.db).0 (apply h r before.db).1 ends)

  replay_lines-rebuild :
      (path : String) (n : ℕ) (records : List LogRecord) (before : Run)
      → All (ReadsBack codec encode) (map whole records)
      → Ends h before.db (map whole records)
      → (end : Run) × (replay_lines h codec lenient path n
            (map (λ line. some (encode line)) (map whole records))
            before
          ≡ Exec.ok end)
        × (end.db ≡ rebuild h before.db records)
  unfolding replay_lines rebuild Ends
  replay_lines-rebuild path n [] before reads ends = (before, refl, refl)
  replay_lines-rebuild path n (r ∷ records) before (first, later) (ends, others) =
      let (next, line, db) = replay_line-settled path n before r first ends in
      let (end, lines, db') =
        replay_lines-rebuild path (n + 1) records next later
          (subst (λ d. Ends h d (map whole records)) (sym db) others) in
      (end, rw line lines, db' ∙ ap (λ d. rebuild h d records) db)

-- A store that was opened on the rows `start`, with empty logs.
abbrev pub opened : Db → Store
opened start = record { db = start; log = []; event_log = []; privacy_rejections = [] }

opened-Rebuilt : (env : Env) (start : Db) → Rebuilt env start (opened start)
unfolding rebuild
opened-Rebuilt env start = ([], refl, refl)

-- A file that opens, with lines that can be read.
abbrev pub file_of : (path : String) → (LogLine → String) → List LogLine → LogFile
file_of path encode lines = record {
  path = path;
  opens = true;
  lines = map (λ line. some (encode line)) lines;
}

-- After any history of writes to the claim log, whose consolidations and ingestions returned and in
-- which no append failed once it had begun to write, lenient replay of the log, read in full, over
-- the rows that the store was opened on ends with the rows of the live store, for a codec that reads
-- the logged records back and records on which `apply` does not loop for ever.
pub run-replayed :
    (env : Env) (codec : Codec) (encode : LogLine → String) (start : Db) (path : String)
    (calls : List Call)
    → IsClean env
    → Completes env calls (opened start)
    → All (ReadsBack codec encode) (run env calls (opened start)).log
    → Ends env.host start (run env calls (opened start)).log
    → (end : Run) × (replay_with_mode env.host codec lenient start
          (file_of path encode (run env calls (opened start)).log ∷ [])
        ≡ Exec.ok end)
      × (end.db ≡ (run env calls (opened start)).db)
unfolding replay_with_mode replay_files
run-replayed env codec encode start path calls clean completes reads ends =
    let begun : Run = walked (record { db = start; report = empty_report }) in
    let (records, lines, db) =
      run-Rebuilt env start clean calls (opened start) (opened-Rebuilt env start) completes in
    let (end, replayed, db') =
      replay_lines-rebuild env.host codec encode path 1 records begun (rw lines at reads)
        (rw lines at ends) in
    (end, rw (lines, replayed) refl, db' ∙ db)
