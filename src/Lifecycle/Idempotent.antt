-- ===== src/Lifecycle/Idempotent.antt =====
-- Applying a record a second time, for every kind.
use aver.Prelude.{ℕ, ◌≡◌, true, List, [], ◌∷◌, nat_eq, string_eq, list_eq}
use aver.Exec.{Exec}
use aver.Log.{
  LogRecord, Participant, add_hyperedge, supersede_claims, decay_confidence, merge_source_refs,
}
use aver.Db.{Db, Host}
use aver.Apply.Hyperedges
use aver.Apply.Claims
use aver.Apply.Candidates

-- The rows that the participants of a new hyperedge make.
abbrev tagged : ℕ → List Participant → List (ℕ × Participant)
tagged id [] = []
tagged id (p ∷ ps) = (id, p) ∷ tagged id ps

-- The records that a second run reports as duplicates: all but the three that restate rows.
abbrev pub IsOnce : LogRecord → Type 0
IsOnce (supersede_claims ts ids) = ⊥
IsOnce (decay_confidence ts cs) = ⊥
IsOnce (merge_source_refs ts id refs promote) = ⊥
IsOnce _ = Unit

-- The `(a - b).abs() < 1e-9` of a hyperedge's confidence with itself.
abbrev pub IsFinite : Host → LogRecord → Type 0
IsFinite h (add_hyperedge r) = h.close r.confidence r.confidence ≡ true
IsFinite h _ = Unit
