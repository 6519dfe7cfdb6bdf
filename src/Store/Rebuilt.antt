-- ===== src/Store/Rebuilt.antt =====
-- The projection of the claim store is what its log rebuilds.
use aver.Prelude.{
  map, ◌⊎◌, find, nat_eq, ℕ, List, [], ◌∷◌, ◌++◌, ◌≡◌, refl, ◌∙◌, ap, Bool-cases, inl, inr, arith,
  Option, none, some,
}
use aver.Exec
use aver.Log.{LogRecord, ConfidenceChange}
use aver.Db.{Db, Applied, Host, ClaimRow}
use aver.Apply.Claims.{is_invalidated}
use aver.Store.Claims.{row_or, get_claim, unless_retired, ensure_claim_exists}
use aver.Store.Consolidation.{change, counted_write}
use aver.Store.Keeps.{Keeps, KeepsDone, Keeps-return, keeps_rules}
use aver.Privacy.Paths.{Verdict, pass, refuse}
use aver.Apply.{apply}
use aver.Store.{
  gate, record_privacy_rejection, Store, Env, Answer, done, ◌>>=◌, ◌>>◌, continue, return, reading,
  settle, transaction, write, append_jsonl, project, projected, put, LogLine, whole, took,
  not_begun,
}

abbrev pub kept : Exec.Result Applied → (before after : Db) → Db
kept (Exec.ok a) before after = after
kept (Exec.err e) before after = before

-- A record on the rows: applied, or refused with nothing written.
unfoldable pub settled : Host → Db → LogRecord → Db
settled h db r = kept (apply h r db).0 db (apply h r db).1

unfoldable pub rebuild : Host → Db → List LogRecord → Db
unfolding settled
rebuild h db [] = db
rebuild h db (r ∷ records) = rebuild h (settled h db r) records

pub rebuild-snoc :
    (h : Host) (db : Db) (records : List LogRecord) (r : LogRecord)
    → rebuild h db (records ++ r ∷ []) ≡ settled h (rebuild h db records) r
unfolding rebuild
rebuild-snoc h db [] r = refl
rebuild-snoc h db (q ∷ records) r = rebuild-snoc h (settled h db q) records r

-- No append fails once it has begun to write.
abbrev pub IsClean : Env → Type 0
IsClean env =
    (lines : List LogLine) (r : LogRecord)
    → (env.appends lines r ≡ took) ⊎ (env.appends lines r ≡ not_begun)

put-whole :
    (records : List LogRecord) (r : LogRecord)
    → put (map whole records) (whole r) ≡ map whole (records ++ r ∷ [])
unfolding put
put-whole [] r = refl
put-whole (q ∷ []) r = refl
put-whole (q ∷ p ∷ records) r = ap (λ lines. whole q ∷ lines) (put-whole (p ∷ records) r)

-- The rows are those that the lines rebuild, and each line is a record.
abbrev pub Rebuilds : Env → (start : Db) → List LogLine → Db → Type 0
Rebuilds env start lines db =
    (records : List LogRecord) × (lines ≡ map whole records) × (rebuild env.host start records ≡ db)

module _ (env : Env) (start : Db) where
  -- The rows are those that the log rebuilds.
  abbrev pub Rebuilt : Store → Type 0
  Rebuilt s = Rebuilds env start s.log s.db

  -- What a transaction leaves is rebuilt.
  abbrev pub Recovers : {A : Type 0} → Store → Answer A × Store → Type 0
  Recovers s x = Rebuilt (settle x.0 s.db x.1).1

  write-log :
      (r : LogRecord) (s : Store)
      → Rebuilt s
      → Rebuilds env start (put s.log (whole r)) (settled env.host s.db r)
  write-log r s (records, lines, h) = (
    records ++ r ∷ [],
    rw lines (put-whole records r),
    rebuild-snoc env.host start records r ∙ ap (λ db. settled env.host db r) h,
  )

  projected-Recovers :
      {A : Type 0} (a : A) (x : Exec.Result Applied) (before after : Db) (s : Store)
      → Rebuilds env start s.log (kept x before after)
      → before ≡ s.db
      → Rebuilt
          (settle
            (continue
              (projected x (record s { db = after })).0
              (λ _. return a)
              (projected x (record s { db = after })).1).0
            before
            (continue
              (projected x (record s { db = after })).0
              (λ _. return a)
              (projected x (record s { db = after })).1).1).1
  unfolding return
  projected-Recovers a (Exec.ok done') before after s h b = h
  projected-Recovers a (Exec.err e) before after s h b = h

  projected-Rebuilt :
      (a : Applied) (x : Exec.Result Applied) (before after : Db) (s : Store)
      → Rebuilds env start s.log (kept x before after)
      → (projected x (record s { db = after })).0 ≡ done a
      → Rebuilt (projected x (record s { db = after })).1
  projected-Rebuilt a (Exec.ok b) before after s h e = h
  projected-Rebuilt a (Exec.err c) before after s h e = cc e

  pub gate-Rebuilt : (v : Verdict) → Keeps Rebuilt (gate v)
  unfolding gate record_privacy_rejection ◌>>=◌
  gate-Rebuilt pass = Keeps-return tt
  gate-Rebuilt (refuse r) = record { at = λ s h. h }

  pub ensure_claim_exists-Rebuilt : (id : ℕ) → Keeps Rebuilt (ensure_claim_exists id)
  unfolding ensure_claim_exists get_claim
  ensure_claim_exists-Rebuilt id = search keeps_rules

module _ (env : Env) (start : Db) (clean : IsClean env) where
  -- One record, and what is answered then.
  write-Recovers :
      {A : Type 0} (r : LogRecord) (a : A) (s : Store)
      → Rebuilt env start s
      → Recovers env start s ((write env r >> return a) s)
  unfolding write append_jsonl project settled ◌>>=◌
  write-Recovers r a s h = elim (clean s.log r) [
    | inr refused ↦ rw refused h
    | inl stored ↦ rw stored (
        projected-Recovers env start a (apply env.host r s.db).0 s.db (apply env.host r s.db).1
          (record s { log = put s.log (whole r) }) (write-log env start r s h) refl)
  ]

  -- A transaction that writes one record keeps the store rebuilt, also where it fails.
  pub write-Rebuilt :
      {A : Type 0} (r : LogRecord) (a : A)
      → Keeps (Rebuilt env start) (transaction (write env r >> return a))
  unfolding transaction
  write-Rebuilt r a = record { at = λ s h. write-Recovers r a s h }

  counted_write-Recovers :
      (changes : List ConfidenceChange) (r : LogRecord) (s : Store)
      → Rebuilt env start s
      → Recovers env start s (counted_write env changes r s)
  unfolding return
  counted_write-Recovers [] r s h = h
  counted_write-Recovers (c ∷ changes) r s h = write-Recovers r _ s h

  pub change-Rebuilt :
      (now : ℕ) (f : Db → List ConfidenceChange)
      → Keeps (Rebuilt env start) (transaction (reading λ db. change env now (f db)))
  unfolding transaction reading
  change-Rebuilt now f = record { at = λ s h. counted_write-Recovers (f s.db) _ s h }

  retire_row-Recovers :
      (o : Option ClaimRow) (r : LogRecord) (s : Store)
      → Rebuilt env start s
      → Recovers env start s
          ((do c ← row_or o; unless_retired (is_invalidated c.status); write env r; return tt) s)
  unfolding row_or ◌>>=◌
  retire_row-Recovers none r s h = h
  retire_row-Recovers (some c) r s h = elim (Bool-cases (is_invalidated c.status)) [
    | inl gone ↦ rw gone h
    | inr live ↦ rw live (write-Recovers r tt s h)
  ]

  -- The transaction of `retire`.
  pub retire-Rebuilt :
      (claim_id : ℕ) (r : LogRecord)
      → Keeps (Rebuilt env start) (
          transaction (do
            c ← get_claim claim_id
            unless_retired (is_invalidated c.status)
            write env r
            return tt))
  unfolding transaction get_claim ◌>>=◌
  retire-Rebuilt claim_id r = record {
    at = λ s h. retire_row-Recovers (find claim_id s.db.claims) r s h;
  }

  -- A record that was written, inside a transaction.
  pub write-KeepsDone : (r : LogRecord) → KeepsDone (Rebuilt env start) (write env r)
  unfolding write append_jsonl project settled ◌>>=◌
  write-KeepsDone r = record {
    at = λ s a h e. elim (clean s.log r) [
      | inr refused ↦ absurd (ground (arith, refused, e))
      | inl stored ↦
          let e' = rw stored at e in
          rw stored (
            projected-Rebuilt env start a (apply env.host r s.db).0 s.db (apply env.host r s.db).1
              (record s { log = put s.log (whole r) }) (write-log env start r s h) e')
    ];
  }
