-- ===== src/Decision/Scopes.antt =====
-- The suggestion of a scope by a decision model, crates/aver-core/src/scope_decision.rs.
use aver.Prelude.{
  ℕ, suc, zero, Bool, Option, none, some, List, [], ◌∷◌, ◌++◌, ◌==◌, list_eq, nat_eq, if◌then◌else◌,
}
use aver.Text.{codes}
use aver.Validation.{Check, ArgumentError, accepted, rejected, validate_scope}
use aver.Decision.{
  Text, Decision, DecisionError, validate, Decided, decided, undecided, Choice, meets,
  truncate_bytes, is_empty,
}

-- `str::strip_prefix`
abbrev pub strip_prefix : Text → Text → Option Text
strip_prefix [] s = some s
strip_prefix (p ∷ ps) [] = none
strip_prefix (p ∷ ps) (c ∷ s) = let rest = strip_prefix ps s in if p == c then rest else none

abbrev pushed : ℕ → Option (Text × Text) → Option (Text × Text)
pushed c none = none
pushed c (some (left, right)) = some (c ∷ left, right)

abbrev split_here : ℕ → Option Text → Option (Text × Text) → Option (Text × Text)
split_here c none later = pushed c later
split_here c (some right) later = some ([], right)

abbrev at_end : Option Text → Option (Text × Text)
at_end none = none
at_end (some right) = some ([], right)

-- `str::split_once`
unfoldable pub split_once : Text → Text → Option (Text × Text)
split_once pattern [] = at_end (strip_prefix pattern [])
split_once pattern (c ∷ s) =
    let later = split_once pattern s in split_here c (strip_prefix pattern (c ∷ s)) later

-- `filter(|rest| !rest.is_empty())`
abbrev not_empty : Option Text → Option Text
not_empty none = none
not_empty (some s) = if is_empty s then none else some s

abbrev describe_project : Text → Option (Text × Text) → Text
describe_project project none = codes "specific to project " ++ project
describe_project project (some (slug, branch)) =
    codes "specific to branch " ++ (branch ++ (codes " of project " ++ slug))

abbrev describe_session : Text → Option Text → Text
describe_session scope none = scope
describe_session scope (some session) = codes "only meaningful within session " ++ session

abbrev describe_path : Text → Option Text → Text
describe_path scope (some project) =
    describe_project project (split_once (codes "/branch/") project)
describe_path scope none =
    describe_session scope (not_empty (strip_prefix (codes "session/") scope))

unfoldable pub describe_scope : Text → Text
unfolding split_once
describe_scope scope =
    if scope == codes "global"
    then codes "applies regardless of project or session"
    else describe_path scope (not_empty (strip_prefix (codes "proj/") scope))

unfoldable pub described : List Text → List Text
unfolding describe_scope
described [] = []
described (s ∷ scopes) = describe_scope s ∷ described scopes

-- `?` on a check.
abbrev pub and_then : Check → Check → Check
and_then accepted next = next
and_then (rejected e) next = rejected e

-- The loop of `validate_scope(scope)?`.
unfoldable pub validate_all : List Text → Check
unfolding validate_scope
validate_all [] = accepted
validate_all (s ∷ scopes) = and_then (validate_scope s) (validate_all scopes)

-- `allowed[index]`, which panics out of range.
unfoldable pub nth : List Text → ℕ → Option Text
nth [] i = none
nth (s ∷ scopes) zero = some s
nth (s ∷ scopes) (suc i) = nth scopes i

pub data Suggestion : Type 0 where
  invalid : ArgumentError → Suggestion
  suggested : Option Text → Suggestion
  panics : Suggestion

abbrev pub picked : Option Text → Suggestion
picked none = panics
picked (some s) = suggested (some s)

abbrev pub suggest_from :
    {F : Type 0} → (F → F → Bool) → F → List Text → Decided (Choice F) → Suggestion
suggest_from at_least min allowed (undecided e) = suggested none
suggest_from at_least min allowed (decided choice) =
    if meets at_least choice min then picked (nth allowed choice.index) else suggested none

abbrev pub unless_invalid : Option DecisionError → Suggestion → Suggestion
unless_invalid none next = next
unless_invalid (some e) next = suggested none

abbrev pub when_accepted : Check → Suggestion → Suggestion
when_accepted accepted next = next
when_accepted (rejected e) next = invalid e

abbrev pub scope_decision : (subject predicate object context : Text) → List Text → Decision
scope_decision subject predicate object context allowed = record {
  state =
      codes "Subject: "
      ++ (subject
          ++ (codes ". Predicate: "
              ++ (predicate
                  ++ (codes ". Object: "
                      ++ (object ++ (codes ". Context: " ++ truncate_bytes 1024 context))))));
  question = codes "Which scope does this memory belong to?";
  options = allowed;
  descriptions = some (described allowed);
}

unfoldable pub suggest_scope :
    {F : Type 0}
    → (at_least : F → F → Bool) → (client : Decision → Decided (Choice F))
    → (subject predicate object context : Text) → (allowed : List Text) → (min_confidence : F)
    → Suggestion
unfolding validate_all validate described truncate_bytes meets nth
suggest_scope at_least client subject predicate object context allowed min =
    let d = scope_decision subject predicate object context allowed in
    when_accepted (validate_all allowed)
      (unless_invalid (validate d) (suggest_from at_least min allowed (client d)))
