-- ===== src/Decision/Predicates.antt =====
-- The option for "no match" of the predicate normalization, crates/aver-core/src/predicate_decision.rs.
use aver.Prelude.{
  ℕ, zero, suc, Bool, true, false, Option, none, some, List, [], ◌∷◌, ◌++◌, ◌+◌, ◌<◌, ◌≤◌, ◌≡◌,
  refl, sym, ap, ◌∙◌, ◌==◌, ◌||◌, list_eq, nat_eq, length, arith, if◌then◌else◌, Bool-cases, inl,
  inr,
}
use aver.Text.{codes}
use aver.Decision.{Text}

pub record PredicateCandidate : Type 0 where
  pub accepted : Text
  pub canonical : Option Text

unfoldable pub taken : List PredicateCandidate → Text → Bool
taken [] name = false
taken (c ∷ candidates) name = c.accepted == name || taken candidates name

-- The `while` loop; none is returned where the fuel runs out.
unfoldable pub extended : ℕ → List PredicateCandidate → Text → Option Text
unfolding taken
extended zero candidates name = none
extended (suc fuel) candidates name =
    let rest = extended fuel candidates (name ++ codes "_") in
    if taken candidates name then rest else some name

-- The length of all the names: a name that is longer is not taken.
abbrev pub total_length : List PredicateCandidate → ℕ
total_length [] = 0
total_length (c ∷ candidates) = length c.accepted + total_length candidates

unfoldable pub none_option : List PredicateCandidate → Option Text
unfolding taken extended
none_option candidates =
    if taken candidates (codes "none")
    then extended (suc (total_length candidates)) candidates (codes "none_of_the_above")
    else some (codes "none")

taken-length :
    (candidates : List PredicateCandidate) (name : Text)
    → taken candidates name ≡ true
    → length name ≤ total_length candidates
unfolding taken
taken-length [] name h = cc h
taken-length (c ∷ candidates) name h = elim (Bool-cases (c.accepted == name)) [
  | inl same ↦
      let equal : length c.accepted ≡ length name =
        ap length ((list_eq.agrees c.accepted name).0 same) in
      omega (arith, equal)
  | inr differs ↦ omega (arith, taken-length candidates name (sym (rw differs refl) ∙ h))
]

length-pushed : (name : Text) (c : ℕ) → length (name ++ (c ∷ [])) ≡ suc (length name)
length-pushed [] c = refl
length-pushed (d ∷ name) c = ap suc (length-pushed name c)

extended_fresh :
    (fuel : ℕ) (candidates : List PredicateCandidate) (name : Text)
    → total_length candidates < length name + fuel
    → (fresh : Text) × (extended (suc fuel) candidates name ≡ some fresh)
      × (taken candidates fresh ≡ false)
unfolding extended
extended_fresh zero candidates name h = elim (Bool-cases (taken candidates name)) [
  | inr free ↦ (name, rw free refl, free)
  | inl used ↦ absurd (omega (arith, taken-length candidates name used, h))
]
extended_fresh (suc fuel) candidates name h = elim (Bool-cases (taken candidates name)) [
  | inr free ↦ (name, rw free refl, free)
  | inl used ↦ rw used (
      extended_fresh fuel candidates (name ++ codes "_")
        (omega (arith, length-pushed name 0x5F, h)))
]

-- The name of the option for "no match" is always found, and no candidate has it.
pub none_option_fresh :
    (candidates : List PredicateCandidate)
    → (name : Text) × (none_option candidates ≡ some name) × (taken candidates name ≡ false)
unfolding none_option
none_option_fresh candidates = elim (Bool-cases (taken candidates (codes "none"))) [
  | inr free ↦ (codes "none", rw free refl, free)
  | inl used ↦ rw used (
      extended_fresh (total_length candidates) candidates (codes "none_of_the_above") (omega arith))
]
