-- ===== src/Store/Keeps.antt =====
-- What actions on the store keep, one rule for each way to build an action.
use aver.Prelude.{◌≡◌, refl, Bool, true, false, if◌then◌else◌, Option, none, some, List, [], ◌∷◌}
use aver.Db.{Db}
use aver.Validation.{Check, accepted, rejected}
use aver.Store.{
  each, Store, Answer, Action, StoreError, done, failed, continue, return, fail, reading, ◌>>=◌,
  checked, transaction, settle,
}
use aver.Store.Claims.{row_or, row_of}

-- `m` keeps `P`, whether it returns or fails.
pub record Keeps {A : Type 0} (P : Store → Type 0) (m : Action A) : Type 0 where
  pub at : (s : Store) → P s → P (m s).1

-- `m` keeps `P` where it returns.
pub record KeepsDone {A : Type 0} (P : Store → Type 0) (m : Action A) : Type 0 where
  pub at : (s : Store) (a : A) → P s → (m s).0 ≡ done a → P (m s).1

settle-done :
    {A : Type 0} (P : Store → Type 0) (x : Answer A) (before : Db) (s : Store) (a : A)
    → (x ≡ done a → P s)
    → (settle x before s).0 ≡ done a
    → P (settle x before s).1
settle-done P (done b) before s a h e = h e
settle-done P (failed c) before s a h e = cc e

module _ {A : Type 0} {P : Store → Type 0} where
  pub Keeps-return : (a : A) → Keeps P (return a)
  unfolding return
  Keeps-return a = record { at = λ s h. h }

  pub Keeps-fail : (e : StoreError) → Keeps P (fail {A = A} e)
  unfolding fail
  Keeps-fail e = record { at = λ s h. h }

  pub Keeps-reading : (f : Db → Action A) → ((db : Db) → Keeps P (f db)) → Keeps P (reading f)
  unfolding reading
  Keeps-reading f k = record { at = λ s h. (k s.db).at s h }

  pub Keeps-if : (b : Bool) (m n : Action A) → Keeps P m → Keeps P n → Keeps P (if b then m else n)
  Keeps-if true m n km kn = km
  Keeps-if false m n km kn = kn

  pub Keeps-row_or : (o : Option A) → Keeps P (row_or o)
  unfolding row_or
  Keeps-row_or none = Keeps-fail _
  Keeps-row_or (some v) = Keeps-return v

  pub Keeps-row_of : (o : Option A) → Keeps P (row_of o)
  unfolding row_of
  Keeps-row_of none = Keeps-fail _
  Keeps-row_of (some v) = Keeps-return v

  pub KeepsDone-Keeps : {m : Action A} → Keeps P m → KeepsDone P m
  KeepsDone-Keeps k = record { at = λ s a h e. k.at s h }

  pub KeepsDone-return : (a : A) → KeepsDone P (return a)
  KeepsDone-return a = KeepsDone-Keeps (Keeps-return a)

  pub KeepsDone-reading :
      (f : Db → Action A) → ((db : Db) → KeepsDone P (f db)) → KeepsDone P (reading f)
  unfolding reading
  KeepsDone-reading f k = record { at = λ s a h e. (k s.db).at s a h e }

  -- A transaction that returns commits what its body wrote.
  pub KeepsDone-transaction : (m : Action A) → KeepsDone P m → KeepsDone P (transaction m)
  unfolding transaction
  KeepsDone-transaction m k = record {
    at = λ s a h e. settle-done P (m s).0 s.db (m s).1 a (k.at s a h) e;
  }

pub Keeps-checked : {P : Store → Type 0} (c : Check) → Keeps P (checked c)
unfolding checked
Keeps-checked accepted = Keeps-return tt
Keeps-checked (rejected e) = Keeps-fail _

module _ {A B : Type 0} {P : Store → Type 0} where
  continue-Keeps :
      (x : Answer A) (f : A → Action B) (s : Store)
      → P s
      → ((a : A) → Keeps P (f a))
      → P (continue x f s).1
  continue-Keeps (done a) f s h k = (k a).at s h
  continue-Keeps (failed e) f s h k = h

  pub Keeps-bind :
      (m : Action A) (f : A → Action B) → Keeps P m → ((a : A) → Keeps P (f a)) → Keeps P (m >>= f)
  unfolding ◌>>=◌
  Keeps-bind m f km kf = record { at = λ s h. continue-Keeps (m s).0 f (m s).1 (km.at s h) kf }

  continue-KeepsDone :
      (x : Answer A) (f : A → Action B) (s : Store) (b : B)
      → ((a : A) → x ≡ done a → P s)
      → ((a : A) → KeepsDone P (f a))
      → (continue x f s).0 ≡ done b
      → P (continue x f s).1
  continue-KeepsDone (done a) f s b h k e = (k a).at s b (h a refl) e
  continue-KeepsDone (failed c) f s b h k e = cc e

  pub KeepsDone-bind :
      (m : Action A) (f : A → Action B)
      → KeepsDone P m
      → ((a : A) → KeepsDone P (f a))
      → KeepsDone P (m >>= f)
  unfolding ◌>>=◌
  KeepsDone-bind m f km kf = record {
    at = λ s b h e. continue-KeepsDone (m s).0 f (m s).1 b (λ a. km.at s a h) kf e;
  }

pub Keeps-each :
    {A : Type 0} {P : Store → Type 0} (f : A → Action Unit) (xs : List A)
    → ((x : A) → Keeps P (f x))
    → Keeps P (each f xs)
unfolding each
Keeps-each f [] k = Keeps-return tt
Keeps-each f (x ∷ xs) k =
    let rest = Keeps-bind (f x) (λ _. each f xs) (k x) (λ _. Keeps-each f xs k) in
    record { at = λ s h. rest.at s h }

pub ruleset keeps_rules = (
  Keeps-return, Keeps-fail, Keeps-reading, Keeps-if, Keeps-row_or, Keeps-row_of, Keeps-checked,
  Keeps-bind, Keeps-each,
)

pub ruleset keeps_done_rules =
    (KeepsDone-return, KeepsDone-reading, KeepsDone-transaction, KeepsDone-bind)
