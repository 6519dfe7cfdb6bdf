-- ===== src/Replay/Outcome.antt =====
-- What a replay that returns has built.
use aver.Replay.{
  quarantine, Codec, Run, ReplayReport, ReplayMode, strict, lenient, release, LogFile, replay_file,
  is_endless, parse_log_line, replay_line, replay_lines, replay_files, replay_with_mode,
  apply_log_line, apply_parsed, settle_line, ◌>>=◌, walked,
}
use mathlib.Core.Path.{subst}
use aver.Prelude.{
  Option, none, some, ℕ, ◌+◌, String, ◌≡◌, refl, Bool-cases, inl, inr, List, [], ◌∷◌, nat_eq,
}
use aver.Exec.{Result, ok, err}
use aver.Text.{is_blank}
use aver.Log.{LogRecord}
use aver.Db.{Db, Host, Applied}
use aver.Apply.{apply}
use aver.Apply.Steps.{Steps, here, Steps-trans}
use aver.Apply.Covers.{apply-Steps}
use aver.Lifecycle.Validity.{IsValid, Steps-IsValid}

Steps-to : (db : Db) (mid end : Run) → ok mid ≡ ok end → Steps db mid.db → Steps db end.db
Steps-to db mid end e st = let p : mid ≡ end = cc in subst (λ (r : Run). Steps db r.db) p st

module _ (h : Host) (codec : Codec) (mode : ReplayMode) where
  settle_line-db :
      (r : LogRecord) (x : Result Applied) (db : Db) (p : ReplayReport)
      → (settle_line r x db p).1.db ≡ db
  settle_line-db r (ok a) db p = refl
  settle_line-db r (err e) db p = refl

  apply_parsed-Steps : (x : Result LogRecord) (run : Run) → Steps run.db (apply_parsed h x run).1.db
  apply_parsed-Steps (err e) run = here
  apply_parsed-Steps (ok r) run =
      rw (settle_line-db r (apply h r run.db).0 (apply h r run.db).1 run.report)
        (apply-Steps h r run.db)

  apply_log_line-Steps :
      (line : String) (run : Run) → Steps run.db (apply_log_line h codec line run).1.db
  unfolding apply_log_line
  apply_log_line-Steps line run = apply_parsed-Steps (parse_log_line codec line) run

  release-Steps :
      (m : ReplayMode) (path : String) (n : ℕ) (before : Run) (x : Result Unit) (after end : Run)
      → Steps before.db after.db
      → release m path n before x after ≡ ok end
      → Steps before.db end.db
  release-Steps m path n before (ok u) after end st e = Steps-to before.db after end e st
  release-Steps strict path n before (err c) after end st e = cc
  release-Steps lenient path n before (err c) after end st e = elim (Bool-cases (is_endless c)) [
    | inl loops ↦ cc (rw loops at e)
    | inr ends ↦ Steps-to before.db (quarantine path n c before) end (rw ends at e) here
  ]

  replay_line-Steps :
      (path : String) (n : ℕ) (line : String) (run end : Run)
      → replay_line h codec mode path n line run ≡ ok end
      → Steps run.db end.db
  unfolding replay_line
  replay_line-Steps path n line run end e = elim (Bool-cases (is_blank line)) [
    | inl blank ↦ Steps-to run.db run end (rw blank at e) here
    | inr text ↦
        release-Steps mode path n run (apply_log_line h codec line run).0
          (apply_log_line h codec line run).1 end (apply_log_line-Steps line run) (rw text at e)
  ]

  bind-Steps :
      (run end : Run) (x : Result Run) (f : Run → Result Run)
      → ((next : Run) → x ≡ ok next → Steps run.db next.db)
      → ((next : Run) → f next ≡ ok end → Steps next.db end.db)
      → (x >>= f) ≡ ok end
      → Steps run.db end.db
  bind-Steps run end (ok next) f p q e = Steps-trans (p next refl) (q next e)
  bind-Steps run end (err c) f p q e = cc

  replay_lines-Steps :
      (path : String) (n : ℕ) (lines : List (Option String)) (run end : Run)
      → replay_lines h codec mode path n lines run ≡ ok end
      → Steps run.db end.db
  unfolding replay_lines
  replay_lines-Steps path n [] run end e = Steps-to run.db run end e here
  replay_lines-Steps path n (none ∷ lines) run end e = cc e
  replay_lines-Steps path n (some line ∷ lines) run end e =
      bind-Steps run end (replay_line h codec mode path n line run)
        (replay_lines h codec mode path (n + 1) lines) (replay_line-Steps path n line run)
        (λ next. replay_lines-Steps path (n + 1) lines next end) e

  replay_file-Steps :
      (file : LogFile) (run end : Run)
      → replay_file h codec mode file run ≡ ok end
      → Steps run.db end.db
  replay_file-Steps file run end e = elim (Bool-cases file.opens) [
    | inl opens ↦ replay_lines-Steps file.path 1 file.lines run end (rw opens at e)
    | inr closed ↦ cc (rw closed at e)
  ]

  replay_files-Steps :
      (files : List LogFile) (run end : Run)
      → replay_files h codec mode files run ≡ ok end
      → Steps run.db end.db
  unfolding replay_files
  replay_files-Steps [] run end e = Steps-to run.db run end e here
  replay_files-Steps (file ∷ files) run end e =
      bind-Steps run end (replay_file h codec mode file (walked run))
        (replay_files h codec mode files) (replay_file-Steps file (walked run))
        (λ next. replay_files-Steps files next end) e

-- In either mode a replay that returns has built its database from the seeded one by the writes of
-- `Step` alone, and the database is valid if the seeded one is.
pub replay-IsValid :
    (h : Host) (codec : Codec) (mode : ReplayMode) (seeded : Db) (files : List LogFile) (end : Run)
    → IsValid seeded
    → replay_with_mode h codec mode seeded files ≡ ok end
    → Steps seeded end.db × IsValid end.db
unfolding replay_with_mode
replay-IsValid h codec mode seeded files end v e =
    let st : Steps seeded end.db = replay_files-Steps h codec mode files _ end e in
    (st, Steps-IsValid st v)
