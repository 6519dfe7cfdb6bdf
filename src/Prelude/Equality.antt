-- ===== src/Prelude/Equality.antt =====
-- Decidable equality as an interface (`PartialEq`), with the instances that the program compares by.
use Prim.Native.Nat.{ℕ}
use Prim.Native.String.{String}
use mathlib.Core.Path.{◌≡◌, refl}
use mathlib.Core.Logic.{◌↔◌}
use mathlib.Core.Bool.{Bool, true, false, ◌&&◌}
use mathlib.Core.Option.{Option, none, some}
use mathlib.Core.List.{List, [], ◌∷◌}
use native.Mathlib.Omega.{arith}
use text.Mathlib.Text.{◌==◌ as str_eq}
use text.Mathlib.TextEquality.{eq_iff}
use aver.Prelude.Tests.{nat_beq, nat_beq_iff}

-- A Boolean test that holds of equal values and of no others.
pub record PartialEq {ℓ} (A : Type ℓ) : Type ℓ where
  pub test : A → A → Bool
  pub agrees : (left right : A) → (test left right ≡ true) ↔ (left ≡ right)

module _ {ℓ} {A : Type ℓ} ⦃e : PartialEq A⦄ where
  infix 50 ◌==◌
  abbrev pub ◌==◌ : A → A → Bool
  ◌==◌ = e.test

  pub ==_refl : (a : A) → (a == a) ≡ true
  ==_refl a = (e.agrees a a).1 refl

instance abbrev pub nat_eq : PartialEq ℕ
nat_eq = record { test = nat_beq; agrees = nat_beq_iff }

instance abbrev pub string_eq : PartialEq String
string_eq = record { test = str_eq; agrees = eq_iff }

module _ {ℓ} {A : Type ℓ} ⦃e : PartialEq A⦄ where
  abbrev pub option_beq : Option A → Option A → Bool
  option_beq none none = true
  option_beq (some a) (some b) = a == b
  option_beq _ _ = false

  pub option_beq_iff : (a b : Option A) → (option_beq a b ≡ true) ↔ (a ≡ b)
  option_beq_iff none none = ground arith
  option_beq_iff none (some b) = ground arith
  option_beq_iff (some a) none = ground arith
  option_beq_iff (some a) (some b) = ground (arith, e.agrees a b)

  abbrev pub list_beq : List A → List A → Bool
  list_beq [] [] = true
  list_beq (a ∷ as') (b ∷ bs) = (a == b) && list_beq as' bs
  list_beq _ _ = false

  pub list_beq_iff : (a b : List A) → (list_beq a b ≡ true) ↔ (a ≡ b)
  list_beq_iff [] [] = ground arith
  list_beq_iff [] (b ∷ bs) = ground arith
  list_beq_iff (a ∷ as') [] = ground arith
  list_beq_iff (a ∷ as') (b ∷ bs) = ground (arith, e.agrees a b, list_beq_iff as' bs)

  instance abbrev pub option_eq : PartialEq (Option A)
  option_eq = record { test = option_beq; agrees = option_beq_iff }

  instance abbrev pub list_eq : PartialEq (List A)
  list_eq = record { test = list_beq; agrees = list_beq_iff }

module _ {ℓ κ} {A : Type ℓ} {B : Type κ} ⦃a : PartialEq A⦄ ⦃b : PartialEq B⦄ where
  abbrev pub pair_beq : A × B → A × B → Bool
  pair_beq (x, y) (u, v) = (x == u) && (y == v)

  pub pair_beq_iff : (p q : A × B) → (pair_beq p q ≡ true) ↔ (p ≡ q)
  pair_beq_iff (x, y) (u, v) = ground (arith, a.agrees x u, b.agrees y v)

  instance abbrev pub pair_eq : PartialEq (A × B)
  pair_eq = record { test = pair_beq; agrees = pair_beq_iff }
