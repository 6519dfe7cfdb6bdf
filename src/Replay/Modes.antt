-- ===== src/Replay/Modes.antt =====
-- Strict and lenient replay.
use aver.Replay.{
  empty_report, Codec, Run, ReplayReport, strict, lenient, release, quarantine, LogFile,
  replay_file, is_endless, parse_log_line, replay_line, replay_lines, replay_files,
  replay_with_mode, apply_log_line, apply_parsed, settle_line, counted, ◌>>=◌, walked,
  ReplayQuarantine,
}
use aver.Prelude.{
  Bool, true, false, ◌&&◌, Option, none, some, ℕ, ◌+◌, ◌<◌, String, ◌≡◌, refl, ◌⊎◌, ◌↔◌, Bool-cases,
  inl, inr, List, [], ◌∷◌, ◌++◌, length, arith, nat_eq, ap, ◌∙◌,
}
use aver.Exec.{Error, Result, ok, err, io, endless}
use aver.Text.{is_blank}
use aver.Log.{LogRecord, add_claim}
use aver.Db.{Db, Host, Applied, applied, duplicate}
use aver.Apply.{apply}

length-snoc :
    (qs : List ReplayQuarantine) (q : ReplayQuarantine) → length (qs ++ q ∷ []) ≡ length qs + 1
length-snoc [] q = refl
length-snoc (p ∷ qs) q = omega (arith, length-snoc qs q)

quarantined-counted : (r : LogRecord) (p : ReplayReport) → (counted r p).quarantined ≡ p.quarantined
quarantined-counted (add_claim r) p = refl
quarantined-counted _ p = refl

settle_line-quarantined :
    (r : LogRecord) (x : Result Applied) (db : Db) (p : ReplayReport)
    → (settle_line r x db p).0 ≡ ok tt
    → (settle_line r x db p).1.report.quarantined ≡ p.quarantined
settle_line-quarantined r (ok applied) db p e = quarantined-counted r p
settle_line-quarantined r (ok duplicate) db p e = refl
settle_line-quarantined r (err c) db p e = cc

-- Where lenient replay stops without a run: a loop that would not end, or a file or line that cannot
-- be read.
abbrev Stops : Bool → Error → Type 0
Stops readable e = (e ≡ endless) ⊎ ((e ≡ io) × (readable ≡ false))

-- What the two modes do from one run: both end in the same run and quarantine nothing; or strict
-- replay stops with an error and lenient replay ends with more lines in quarantine; or both stop.
abbrev Outcomes : Bool → Run → Result Run → Result Run → Type 0
Outcomes readable run s l =
    ((end : Run) × (s ≡ ok end) × (l ≡ ok end) × (end.report.quarantined ≡ run.report.quarantined))
    ⊎ ((c : Error) × (end : Run) × (s ≡ err c)
        × (l ≡ ok end)
        × (length run.report.quarantined < length end.report.quarantined))
    ⊎ ((c : Error) × (d : Error) × (s ≡ err c) × (l ≡ err d) × Stops readable d)

Stops-both : (a b : Bool) (e : Error) → Stops a e ⊎ Stops b e → Stops (a && b) e
Stops-both a b e (inl (inl loops)) = inl loops
Stops-both a b e (inr (inl loops)) = inl loops
Stops-both a b e (inl (inr (i, unread))) = inr (i, rw unread refl)
Stops-both a b e (inr (inr (i, unread))) = inr (i, ground (arith, unread))

Outcomes-same :
    (a b : Bool) (run next : Run) (s l : Result Run)
    → next.report.quarantined ≡ run.report.quarantined
    → Outcomes b next s l
    → Outcomes (a && b) run s l
Outcomes-same a b run next s l q (inl (end, es, el, q')) = inl (end, es, el, q' ∙ q)
Outcomes-same a b run next s l q (inr (inl (c, end, es, el, lt))) =
    inr (inl (c, end, es, el, omega (arith, ap (length {A = ReplayQuarantine}) q)))
Outcomes-same a b run next s l q (inr (inr (c, d, es, el, stops))) =
    inr (inr (c, d, es, el, Stops-both a b d (inr stops)))

Outcomes-more :
    (a b : Bool) (run next : Run) (c : Error) (s l : Result Run)
    → length run.report.quarantined < length next.report.quarantined
    → Outcomes b next s l
    → Outcomes (a && b) run (err c) l
Outcomes-more a b run next c s l lt (inl (end, es, el, q)) =
    inr (inl (c, end, refl, el, omega (arith, ap (length {A = ReplayQuarantine}) q)))
Outcomes-more a b run next c s l lt (inr (inl (d, end, es, el, lt'))) =
    inr (inl (c, end, refl, el, omega arith))
Outcomes-more a b run next c s l lt (inr (inr (c', d, es, el, stops))) =
    inr (inr (c, d, refl, el, Stops-both a b d (inr stops)))

Outcomes-bind :
    (a b : Bool) (run : Run) (s l : Result Run) (f g : Run → Result Run)
    → Outcomes a run s l
    → ((next : Run) → Outcomes b next (f next) (g next))
    → Outcomes (a && b) run (s >>= f) (l >>= g)
Outcomes-bind a b run s l f g (inl (next, es, el, q)) rest =
    rw (es, el) (Outcomes-same a b run next (f next) (g next) q (rest next))
Outcomes-bind a b run s l f g (inr (inl (c, end, es, el, lt))) rest =
    rw (es, el) (Outcomes-more a b run end c (f end) (g end) lt (rest end))
Outcomes-bind a b run s l f g (inr (inr (c, d, es, el, stops))) rest =
    rw (es, el) (inr (inr (c, d, refl, refl, Stops-both a b d (inl stops))))

abbrev is_read : Option String → Bool
is_read none = false
is_read (some line) = true

unfoldable all_read : List (Option String) → Bool
all_read [] = true
all_read (line ∷ lines) = is_read line && all_read lines

-- Every file opens, and every line of it can be read.
unfoldable pub all_readable : List LogFile → Bool
unfolding all_read
all_readable [] = true
all_readable (file ∷ files) = (file.opens && all_read file.lines) && all_readable files

module _ (h : Host) (codec : Codec) where
  apply_parsed-quarantined :
      (x : Result LogRecord) (run : Run)
      → (apply_parsed h x run).0 ≡ ok tt
      → (apply_parsed h x run).1.report.quarantined ≡ run.report.quarantined
  apply_parsed-quarantined (err c) run e = cc
  apply_parsed-quarantined (ok r) run e =
      settle_line-quarantined r (apply h r run.db).0 (apply h r run.db).1 run.report e

  apply_log_line-quarantined :
      (line : String) (run : Run)
      → (apply_log_line h codec line run).0 ≡ ok tt
      → (apply_log_line h codec line run).1.report.quarantined ≡ run.report.quarantined
  unfolding apply_log_line
  apply_log_line-quarantined line run e = apply_parsed-quarantined (parse_log_line codec line) run e

  release-Outcomes :
      (path : String) (n : ℕ) (run : Run) (x : Result Unit) (after : Run)
      → (x ≡ ok tt → after.report.quarantined ≡ run.report.quarantined)
      → Outcomes true run (release strict path n run x after) (release lenient path n run x after)
  release-Outcomes path n run (ok tt) after same = inl (after, refl, refl, same refl)
  release-Outcomes path n run (err c) after same = elim (Bool-cases (is_endless c)) [
    | inl loops ↦ inr (inr (c, endless, refl, rw loops refl, inl refl))
    | inr ends ↦ inr (
        inl (
          c,
          quarantine path n c run,
          refl,
          rw ends refl,
          omega (
            arith,
            length-snoc run.report.quarantined (record { path = path; line = n; error = c }),
          ),
        ))
  ]

  replay_line-Outcomes :
      (path : String) (n : ℕ) (line : String) (run : Run)
      → Outcomes true run
          (replay_line h codec strict path n line run)
          (replay_line h codec lenient path n line run)
  unfolding replay_line
  replay_line-Outcomes path n line run = elim (Bool-cases (is_blank line)) [
    | inl blank ↦ inl (run, rw blank, rw blank, refl)
    | inr text ↦ rw text (
        release-Outcomes path n run (apply_log_line h codec line run).0
          (apply_log_line h codec line run).1 (apply_log_line-quarantined line run))
  ]

  replay_lines-Outcomes :
      (path : String) (n : ℕ) (lines : List (Option String)) (run : Run)
      → Outcomes
          (all_read lines)
          run
          (replay_lines h codec strict path n lines run)
          (replay_lines h codec lenient path n lines run)
  unfolding replay_lines all_read
  replay_lines-Outcomes path n [] run = inl (run, refl, refl, refl)
  replay_lines-Outcomes path n (none ∷ lines) run = inr (inr (io, io, refl, refl, inr (refl, refl)))
  replay_lines-Outcomes path n (some line ∷ lines) run =
      Outcomes-bind true (all_read lines) run (replay_line h codec strict path n line run)
        (replay_line h codec lenient path n line run)
        (replay_lines h codec strict path (n + 1) lines)
        (replay_lines h codec lenient path (n + 1) lines) (replay_line-Outcomes path n line run)
        (replay_lines-Outcomes path (n + 1) lines)

  replay_file-Outcomes :
      (file : LogFile) (run : Run)
      → Outcomes
          (file.opens && all_read file.lines)
          run
          (replay_file h codec strict file run)
          (replay_file h codec lenient file run)
  replay_file-Outcomes file run = elim (Bool-cases file.opens) [
    | inl opens ↦ rw opens (replay_lines-Outcomes file.path 1 file.lines run)
    | inr closed ↦ rw closed (inr (inr (io, io, refl, refl, inr (refl, refl))))
  ]

  replay_files-Outcomes :
      (files : List LogFile) (run : Run)
      → Outcomes
          (all_readable files)
          run
          (replay_files h codec strict files run)
          (replay_files h codec lenient files run)
  unfolding replay_files all_readable
  replay_files-Outcomes [] run = inl (run, refl, refl, refl)
  replay_files-Outcomes (file ∷ files) run =
      Outcomes-bind (file.opens && all_read file.lines) (all_readable files) run
        (replay_file h codec strict file (walked run))
        (replay_file h codec lenient file (walked run)) (replay_files h codec strict files)
        (replay_files h codec lenient files) (replay_file-Outcomes file (walked run))
        (replay_files-Outcomes files)

clean_of_Outcomes :
    (readable : Bool) (start : Run) (s l : Result Run)
    → start.report.quarantined ≡ []
    → Outcomes readable start s l
    → (((end : Run) × (l ≡ ok end)) ⊎ ((l ≡ err io) × (readable ≡ false)) ⊎ (l ≡ err endless))
      × ((end : Run) → (s ≡ ok end) ↔ ((l ≡ ok end) × (end.report.quarantined ≡ [])))
clean_of_Outcomes readable start s l none' (inl (end, es, el, q)) =
    (inl (end, el), λ e. (λ p. (cc, cc), λ p. cc (p.0)))
clean_of_Outcomes readable start s l none' (inr (inl (c, end, es, el, lt))) = (
  inl (end, el),
  λ e. (
    λ p. cc,
    λ p.
        let q : end.report.quarantined ≡ [] = cc (p.0, p.1) in
        absurd (omega (arith, ap (length {A = ReplayQuarantine}) q)),
  ),
)
clean_of_Outcomes readable start s l none' (inr (inr (c, d, es, el, inl loops))) =
    (inr (inr (el ∙ ap err loops)), λ e. (λ p. cc, λ p. cc (p.0)))
clean_of_Outcomes readable start s l none' (inr (inr (c, d, es, el, inr (i, unread)))) =
    (inr (inl (el ∙ ap err i, unread)), λ e. (λ p. cc, λ p. cc (p.0)))

-- Lenient replay returns a run whatever the lines hold, unless some file cannot be opened or some line
-- not read, or the record of a line makes `apply` loop for ever, which is `endless` here; and strict
-- replay returns a run exactly when lenient replay returns that run with nothing in quarantine.
pub replay-strict_iff :
    (h : Host) (codec : Codec) (seeded : Db) (files : List LogFile)
    → (((end : Run) × (replay_with_mode h codec lenient seeded files ≡ ok end))
        ⊎ ((replay_with_mode h codec lenient seeded files ≡ err io) × (all_readable files ≡ false))
        ⊎ (replay_with_mode h codec lenient seeded files ≡ err endless))
      × ((end : Run)
          → (replay_with_mode h codec strict seeded files ≡ ok end) ↔ (
              (replay_with_mode h codec lenient seeded files ≡ ok end)
              × (end.report.quarantined ≡ [])))
unfolding replay_with_mode
replay-strict_iff h codec seeded files =
    let start : Run = record { db = seeded; report = empty_report } in
    clean_of_Outcomes (all_readable files) start (replay_files h codec strict files start)
      (replay_files h codec lenient files start) refl (replay_files-Outcomes h codec files start)
