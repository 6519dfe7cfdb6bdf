-- ===== src/Exec.antt =====
-- Fallible code of crates/aver-core, with and without a state.
-- The error codes are the variants of error.rs that the modelled code returns, without their
-- messages. `Exec S A` is code that reads and writes an `S` and may stop with an error; what was
-- written before the error stays written, so the state comes back beside the error too.
use aver.Prelude.{◌≡◌, refl, Bool, true, false}

pub data Error : Type 0 where
  sqlite enum_parse invalid_record replay_duplicate_id missing_entity_type : Error
  replay_malformed replay_unknown_kind : Error
  -- a file that cannot be opened or read
  io : Error
  -- a loop of the source that would not end
  endless : Error

pub data Result {ℓ} (A : Type ℓ) : Type ℓ where
  ok : A → Result A
  err : Error → Result A

abbrev pub Exec {ℓ} : Type ℓ → Type ℓ → Type ℓ
Exec S A = S → Result A × S

module _ {ℓ} {S A : Type ℓ} where
  abbrev pub pure : A → Exec S A
  pure a s = (ok a, s)

  abbrev pub raise : Error → Exec S A
  raise e s = (err e, s)

  abbrev pub lift : Result A → Exec S A
  lift r s = (r, s)

module _ {ℓ} {S A B : Type ℓ} where
  abbrev pub continue : Result A → (A → Exec S B) → Exec S B
  continue (ok a) f s = f a s
  continue (err e) f s = (err e, s)

  infixl 5 ◌>>=◌ ◌>>◌
  abbrev pub ◌>>=◌ : Exec S A → (A → Exec S B) → Exec S B
  ◌>>=◌ m f s = continue (m s).0 f (m s).1

  abbrev pub ◌>>◌ : Exec S A → Exec S B → Exec S B
  m >> k = m >>= λ _. k

-- Inversion of a block that returns.
module _ {S A B : Type 0} where
  continue-ok :
      (x : Result A) (f : A → Exec S B) (s s' : S) (b : B)
      → continue x f s ≡ (ok b, s')
      → (a : A) × (x ≡ ok a) × (f a s ≡ (ok b, s'))
  continue-ok (ok a) f s s' b h = (a, refl, h)
  continue-ok (err e) f s s' b h = cc

  pub bind-ok :
      (m : Exec S A) (f : A → Exec S B) (s s' : S) (b : B)
      → (m >>= f) s ≡ (ok b, s')
      → (a : A) × ((m s).0 ≡ ok a) × (f a (m s).1 ≡ (ok b, s'))
  bind-ok m f s s' b h = continue-ok (m s).0 f (m s).1 s' b h

-- A statement that the database admits or refuses as a whole.
abbrev pub statement {ℓ} : {S A : Type ℓ} → Bool → A → S → Exec S A
statement true a s' s = (ok a, s')
statement false a s' s = (err sqlite, s)
