-- ===== src/Graph.antt =====
-- The search for a path between two entities, `Store::graph_path` of crates/aver-core/src/graph.rs, from
-- the edges on. A confidence is an f64: its multiplication, `total_cmp`, `==`, and the test `>=` are
-- parameters.
pub mod Sound
pub mod Shortest
pub mod Ahead
pub mod Complete
pub mod Scopes
pub mod Predicates
pub mod Candidates
pub mod Admissible
pub mod Paths
pub mod Bounds
use Prim.Native.Nat.{◌*◌}
use aver.Prelude.{
  ℕ, zero, suc, String, Bool, true, false, Option, none, some, List, [], ◌∷◌, ◌++◌, ◌+◌, ◌==◌, ◌&&◌,
  ◌||◌, string_eq, nat_eq, list_eq, length, leb, ltb, if◌then◌else◌,
}
use aver.Text.{codes}
use aver.Types.{Provenance}

pub data RelationshipKind : Type 0 where
  claim hyperedge : RelationshipKind

pub record GraphPathStep : Type 0 where
  pub source : String
  pub target : String
  pub predicate : String
  pub confidence : ℕ
  pub provenance : Provenance
  pub relationship_kind : RelationshipKind
  pub source_refs : List String
  pub claim_id : Option ℕ
  pub scope : String

pub record EdgeCandidate : Type 0 where
  pub traverse_from : String
  pub traverse_to : String
  pub source_id : ℕ
  pub kind_order : ℕ
  pub step : GraphPathStep

-- f64 arithmetic on bit patterns.
pub record Floats : Type 0 where
  pub times : ℕ → ℕ → ℕ
  pub is_gt : ℕ → ℕ → Bool
  pub is_eq : ℕ → ℕ → Bool
  pub is_ge : ℕ → ℕ → Bool

-- The bits of 1.0.
abbrev pub one : ℕ
one = 0x3FF0000000000000

-- A path that is under way, or the best so far.
pub record Trail : Type 0 where
  pub entity : String
  pub entity_path : List String
  pub steps : List GraphPathStep
  pub confidence : ℕ

pub record Search : Type 0 where
  pub queue : List Trail
  pub best : Option Trail
  pub shortest_depth : Option ℕ

unfoldable pub contains : List String → String → Bool
contains [] s = false
contains (t ∷ ts) s = t == s || contains ts s

-- `<` on lists, for `<` on the elements.
unfoldable pub list_lt : {A : Type 0} → (A → A → Bool) → (A → A → Bool) → List A → List A → Bool
list_lt lt eq as' [] = false
list_lt lt eq [] (b ∷ bs) = true
list_lt lt eq (a ∷ as') (b ∷ bs) = lt a b || eq a b && list_lt lt eq as' bs

-- `<` on strings: by bytes, which is by code points.
unfoldable pub string_lt : String → String → Bool
unfolding list_lt
string_lt s t = list_lt ltb (λ a b. a == b) (codes s) (codes t)

-- `(entities, steps.len()) < (best_entities, best_steps.len())`
unfoldable pub comes_before : Trail → Trail → Bool
unfolding list_lt string_lt
comes_before t best =
    list_lt string_lt (λ a b. a == b) t.entity_path best.entity_path
    || t.entity_path == best.entity_path && ltb (length t.steps) (length best.steps)

-- `replace`
abbrev pub replaces : Floats → Trail → Option Trail → Bool
replaces f t none = true
replaces f t (some best) =
    f.is_gt t.confidence best.confidence
    || f.is_eq t.confidence best.confidence && comes_before t best

abbrev pub extend : Floats → Trail → EdgeCandidate → Trail
extend f t c = record {
  entity = c.traverse_to;
  entity_path = t.entity_path ++ c.traverse_to ∷ [];
  steps = t.steps ++ c.step ∷ [];
  confidence = f.times t.confidence c.step.confidence;
}

-- A path that reaches the target.
unfoldable pub arrive : Floats → Trail → Search → Search
unfolding comes_before
arrive f t s = record s {
  best = if replaces f t s.best then some t else s.best;
  shortest_depth = some (length t.steps);
}

abbrev pub push : Trail → Search → Search
push t s = record s { queue = s.queue ++ t ∷ [] }

-- The body of the loop over the candidates.
unfoldable pub offer : Floats → (target : String) → Trail → EdgeCandidate → Search → Search
unfolding contains arrive
offer f target t c s =
    if c.traverse_from == t.entity
    then if contains t.entity_path c.traverse_to
      then s
      else if c.traverse_to == target
      then arrive f (extend f t c) s
      else push (extend f t c) s
    else s

unfoldable pub offer_all : Floats → (target : String) → Trail → List EdgeCandidate → Search → Search
unfolding offer
offer_all f target t [] s = s
offer_all f target t (c ∷ cs) s = offer_all f target t cs (offer f target t c s)

abbrev pub is_behind : Option ℕ → ℕ → Bool
is_behind none len = false
is_behind (some depth) len = leb depth len

-- One round of the `while let`, for the trail `t` that left the queue.
unfoldable pub round :
    Floats → List EdgeCandidate → (target : String) → (max_hops : ℕ) → Trail → Search → Search
unfolding offer_all
round f cs target max_hops t s =
    if is_behind s.shortest_depth (length t.steps)
    then s
    else if length t.steps == max_hops
    then s
    else offer_all f target t cs s

-- The `while let` with fuel; none is returned where it runs out.
unfoldable pub walk :
    ℕ
    → Floats
    → List EdgeCandidate
    → (target : String) → (max_hops : ℕ) → (queue : List Trail) → Search
    → Option (Option Trail)
unfolding round
walk fuel f cs target max_hops [] s = some s.best
walk zero f cs target max_hops (t ∷ queue) s = none
walk (suc fuel) f cs target max_hops (t ∷ queue) s =
    let next = round f cs target max_hops t (record s { queue = queue }) in
    walk fuel f cs target max_hops next.queue next

-- How many rounds a trail with `hops` steps left can lead to.
unfoldable pub rounds : (width hops : ℕ) → ℕ
rounds width zero = 1
rounds width (suc hops) = 1 + width * rounds width hops

abbrev pub begin : (source : String) → Trail
begin source = record { entity = source; entity_path = source ∷ []; steps = []; confidence = one }

-- The search of `graph_path`, with enough fuel.
unfoldable pub best_trail :
    Floats → List EdgeCandidate → (source target : String) → (max_hops : ℕ) → Option (Option Trail)
unfolding walk rounds
best_trail f cs source target max_hops =
    walk (rounds (length cs) max_hops) f cs target max_hops (begin source ∷ [])
      (record { queue = begin source ∷ []; best = none; shortest_depth = none })
