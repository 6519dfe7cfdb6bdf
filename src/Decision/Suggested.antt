-- ===== src/Decision/Suggested.antt =====
-- What a decision model can choose, and what a suggested scope is.
use mathlib.Core.List.{Memᴰ}
use aver.Prelude.{
  ℕ, zero, suc, Bool, Option, none, some, List, [], ◌∷◌, ◌≤◌, ◌<◌, ◌≡◌, refl, sym, ◌∙◌, arith,
  length, list_eq, nat_eq, ◌==◌, ltb, Bool-cases, Option-cases, inl, inr, ◌⊎◌, if_true, if_false,
}
use aver.Validation.{Check, ArgumentError, accepted, rejected, validate_scope}
use aver.Decision.{
  Text, Decision, DecisionError, validate, Decided, decided, undecided, Choice, meets, Raw, key,
  number, other, position, next_of, index_of, parse_response, decide, decide_valid, found_at,
  answered, chosen,
}
use aver.Decision.Scopes.{
  validate_all, nth, Suggestion, invalid, suggested, panics, picked, suggest_from, scope_decision,
  suggest_scope,
}

next_of-some : (o : Option ℕ) (i : ℕ) → next_of o ≡ some i → (j : ℕ) × (o ≡ some j) × (suc j ≡ i)
next_of-some none i h = cc h
next_of-some (some j) i h = (j, refl, ground (arith, h))

position-below :
    (k : Text) (options : List Text) (i : ℕ) → position k options ≡ some i → i < length options
unfolding position
position-below k [] i h = cc h
position-below k (o ∷ options) i h = elim (Bool-cases (o == k)) [
  | inl here ↦ let first : some 0 ≡ some i = sym (if_true _ _ _ here) ∙ h in ground (arith, first)
  | inr there ↦
      let (j, e, s) = next_of-some (position k options) i (sym (if_false _ (some 0) _ there) ∙ h) in
      omega (arith, position-below k options j e, s)
]

index_of-below :
    (options : List Text) (raw : Option Raw) (i : ℕ)
    → index_of options raw ≡ some i
    → i < length options
index_of-below options none i h = cc h
index_of-below options (some (key k)) i h = position-below k options i h
index_of-below options (some (number none)) i h = cc h
index_of-below options (some (number (some n))) i h = ground (arith, h)
index_of-below options (some other) i h = cc h

-- A client whose choices are always among the options that were given.
abbrev pub InRange : {F : Type 0} → (Decision → Decided (Choice F)) → Type 0
InRange {F} client =
    (d : Decision) (c : Choice F) → client d ≡ decided c → c.index < length d.options

nth-Mem : (l : List Text) (i : ℕ) → i < length l → (s : Text) × (nth l i ≡ some s) × Memᴰ s l
unfolding nth
nth-Mem [] i h = absurd (omega (arith, h))
nth-Mem (s ∷ l) zero h = (s, refl, Memᴰ.head refl)
nth-Mem (s ∷ l) (suc i) h = let (t, e, m) = nth-Mem l i (omega (arith, h)) in (t, e, Memᴰ.tail m)

abbrev pub AllValid : List Text → Type 0
AllValid [] = Unit
AllValid (s ∷ scopes) = (validate_scope s ≡ accepted) × AllValid scopes

-- A suggestion is one of the scopes that were allowed, and then all of these are valid and there are
-- between 2 and 24; an error is that of an invalid scope; and the index never runs out of range.
abbrev pub IsSuggestion : List Text → Suggestion → Type 0
IsSuggestion allowed (invalid e) = (s : Text) × Memᴰ s allowed × (validate_scope s ≡ rejected e)
IsSuggestion allowed (suggested none) = Unit
IsSuggestion allowed (suggested (some s)) =
    Memᴰ s allowed × AllValid allowed × (2 ≤ length allowed) × (length allowed ≤ 24)
IsSuggestion allowed panics = ⊥

Check-cases : (c : Check) → (c ≡ accepted) ⊎ ((e : ArgumentError) × (c ≡ rejected e))
Check-cases accepted = inl refl
Check-cases (rejected e) = inr (e, refl)

-- What the loop over the allowed scopes ends with.
validate_all-cases :
    (l : List Text)
    → ((validate_all l ≡ accepted) × AllValid l)
      ⊎ ((e : ArgumentError) × (validate_all l ≡ rejected e)
          × ((s : Text) × Memᴰ s l × (validate_scope s ≡ rejected e)))
unfolding validate_all
validate_all-cases [] = inl (refl, tt)
validate_all-cases (s ∷ l) = elim (Check-cases (validate_scope s)) [
  | inr (e, h) ↦ inr (e, rw h refl, (s, Memᴰ.head refl, h))
  | inl h ↦ elim (validate_all-cases l) [
    | inl (a, v) ↦ inl (rw h a, (h, v))
    | inr (e, a, (t, m, r)) ↦ inr (e, rw h a, (t, Memᴰ.tail m, r))
  ]
]

validate-bounds :
    (d : Decision) → validate d ≡ none → (2 ≤ length d.options) × (length d.options ≤ 24)
unfolding validate
validate-bounds d h = elim (Bool-cases (ltb (length d.options) 2)) [
  | inl few ↦ absurd (ground (arith, sym (if_true _ _ _ few) ∙ h))
  | inr enough ↦ elim (Bool-cases (ltb 24 (length d.options))) [
    | inl many ↦ absurd (ground (arith, sym (if_false _ _ _ enough ∙ if_true _ _ _ many) ∙ h))
    | inr fits ↦ (ground (arith, enough), ground (arith, fits))
  ]
]

picked-IsSuggestion :
    (allowed : List Text) (i : ℕ)
    → i < length allowed
    → AllValid allowed
    → (2 ≤ length allowed) × (length allowed ≤ 24)
    → IsSuggestion allowed (picked (nth allowed i))
picked-IsSuggestion allowed i below valid bounds =
    let (s, e, m) = nth-Mem allowed i below in rw e (m, valid, bounds.0, bounds.1)

suggest_from-IsSuggestion :
    {F : Type 0} (at_least : F → F → Bool) (min : F) (allowed : List Text)
    (answer : Decided (Choice F))
    → ((c : Choice F) → answer ≡ decided c → c.index < length allowed)
    → AllValid allowed
    → (2 ≤ length allowed) × (length allowed ≤ 24)
    → IsSuggestion allowed (suggest_from at_least min allowed answer)
suggest_from-IsSuggestion at_least min allowed (undecided e) below valid bounds = tt
suggest_from-IsSuggestion at_least min allowed (decided c) below valid bounds =
    elim (Bool-cases (meets at_least c min)) [
      | inl met ↦ rw met (picked-IsSuggestion allowed c.index (below c refl) valid bounds)
      | inr unmet ↦ rw unmet tt
    ]

-- With a client that chooses among the options it is given, a suggested scope is one of the allowed
-- scopes, all of them are valid and there are between 2 and 24; an error is the fault of an allowed
-- scope; and the choice never indexes out of range.
pub suggest_scope-IsSuggestion :
    {F : Type 0} (at_least : F → F → Bool) (client : Decision → Decided (Choice F))
    (subject predicate object context : Text) (allowed : List Text) (min : F)
    → InRange client
    → IsSuggestion allowed
        (suggest_scope at_least client subject predicate object context allowed min)
unfolding suggest_scope
suggest_scope-IsSuggestion at_least client subject predicate object context allowed min below =
    let d = scope_decision subject predicate object context allowed in
    elim (validate_all-cases allowed) [
      | inr (e, refuses, fault) ↦ rw refuses fault
      | inl (accepts, valid) ↦ elim (Option-cases (validate d)) [
        | inl passes ↦
            rw (accepts, passes)
              (suggest_from-IsSuggestion at_least min allowed (client d) (below d) valid
                (validate-bounds d passes))
        | inr (e, stops) ↦ rw (accepts, stops) tt
      ]
    ]

found_at-decided :
    {F : Type 0} (model : Text) (confidence : Option F) (o : Option ℕ) (c : Choice F)
    → chosen model (found_at confidence o) ≡ decided c
    → o ≡ some c.index
found_at-decided model confidence none c h = cc h
found_at-decided model confidence (some i) c h = ground (arith, h)

answered-below :
    {F : Type 0} (model : Text) (options : List Text) (answer : Option (Option Raw × Option F))
    (c : Choice F)
    → answered model options answer ≡ decided c
    → c.index < length options
unfolding parse_response
answered-below model options none c h = cc h
answered-below model options (some (raw, confidence)) c h =
    index_of-below options raw c.index
      (found_at-decided model confidence (index_of options raw) c h)

decide_valid-decided :
    {F : Type 0} (o : Option DecisionError) (next : Decided (Choice F)) (c : Choice F)
    → decide_valid o next ≡ decided c
    → (o ≡ none) × (next ≡ decided c)
decide_valid-decided none next c h = (refl, h)
decide_valid-decided (some e) next c h = cc h

-- The client that asks the model over HTTP chooses, whatever is answered, an option of the decision,
-- and only for a decision that is valid.
pub decide-InRange :
    {F : Type 0} (post : Decision → Option (Option Raw × Option F)) (model : Text) (d : Decision)
    (c : Choice F)
    → decide post model d ≡ decided c
    → (validate d ≡ none) × (c.index < length d.options)
unfolding decide
decide-InRange post model d c h =
    let (valid, answer) =
      decide_valid-decided (validate d) (answered model d.options (post d)) c h in
    (valid, answered-below model d.options (post d) c answer)
