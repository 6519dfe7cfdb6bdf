-- ===== src/Tests/Choices.antt =====
-- A scope and a predicate that a model chooses, at concrete inputs.
use aver.Prelude.{ℕ, Option, none, false, some, List, [], ◌∷◌, ◌≡◌, refl, leb}
use aver.Text.{codes}
use aver.Decision.{Text, Decision, Raw, key, decide}
use aver.Decision.Predicates.{PredicateCandidate, taken, none_option, none_option_fresh}
use aver.Decision.Scopes.{suggest_scope, suggested}
use aver.Decision.Suggested.{IsSuggestion, suggest_scope-IsSuggestion, decide-InRange}

-- A model that answers by a name of the list, at 80 percent.
abbrev post : Decision → Option (Option Raw × Option ℕ)
post d = some (some (key (codes "proj/aver")), some 80)

abbrev scopes : List Text
scopes = codes "global" ∷ codes "proj/aver" ∷ []

suggests :
    suggest_scope
      (λ a b. leb b a)
      (decide post (codes "m"))
      (codes "s")
      (codes "uses")
      (codes "o")
      (codes "src/lib.rs")
      scopes
      60
    ≡ suggested (some (codes "proj/aver"))
unfolding suggest_scope decide
suggests = refl

suggest_scope-IsSuggestion_example : IsSuggestion scopes (
    suggest_scope
      (λ a b. leb b a)
      (decide post (codes "m"))
      (codes "s")
      (codes "uses")
      (codes "o")
      (codes "src/lib.rs")
      scopes
      60)
suggest_scope-IsSuggestion_example =
    suggest_scope-IsSuggestion (λ a b. leb b a) (decide post (codes "m")) (codes "s") (codes "uses")
      (codes "o") (codes "src/lib.rs") scopes 60
      (λ d c h. (decide-InRange post (codes "m") d c h).1)

abbrev candidates : List PredicateCandidate
candidates =
    record { accepted = codes "none"; canonical = none }
    ∷ record { accepted = codes "none_of_the_above"; canonical = some (codes "none") }
    ∷ []

no_match : none_option candidates ≡ some (codes "none_of_the_above_")
unfolding none_option
no_match = refl

none_option_fresh_example :
    (name : Text) × (none_option candidates ≡ some name) × (taken candidates name ≡ false)
none_option_fresh_example = none_option_fresh candidates
