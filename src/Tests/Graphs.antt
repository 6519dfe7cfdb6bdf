-- ===== src/Tests/Graphs.antt =====
-- Paths over a small graph, and scopes.
use mathlib.Core.List.{Memᴰ}
use Prim.Native.Nat.{◌*◌}
use aver.Prelude.{
  String, true, false, Option, none, some, List, [], ◌∷◌, ◌≡◌, ◌≢◌, ◌≤◌, refl, leb, ltb, ◌==◌,
  nat_eq, string_eq, length, ◌↔◌, arith,
}
use aver.Text.{codes}
use aver.Types.{active}
use aver.Db.{Db, ClaimRow}
use aver.Graph.{Floats, Trail, EdgeCandidate, begin, extend, best_trail}
use aver.Graph.Sound.{start, further, IsAnswer}
use aver.Graph.Complete.{best_trail-shortest}
use aver.Graph.Scopes.{any_scope, descendants, admits_scope, IsVisible, admits_scope_iff}
use aver.Graph.Candidates.{
  GraphPathQuery, directed, claim_edge, GraphPath, found, endless, graph_path,
}
use aver.Graph.Paths.{IsPath, graph_path-IsPath}
use aver.Tests.Fixtures.{empty_db, old_claim}

-- Confidences in percent of one.
abbrev floats : Floats
floats = record {
  times = λ a b. a * b;
  is_gt = λ a b. ltb b a;
  is_eq = λ a b. a == b;
  is_ge = λ a b. leb b a;
}

abbrev joins : String → String → ClaimRow
joins subject object = record old_claim { subject = subject; object = object; status = active }

-- Two ways from `a` to `d`, of three and of two steps, and a superseded claim that would be shorter.
abbrev graph : Db
graph = record empty_db {
  claims =
      (5, joins "c" "d")
      ∷ (4, joins "a" "c")
      ∷ (3, joins "b" "c")
      ∷ (2, joins "a" "b")
      ∷ (1, record old_claim { subject = "a"; object = "d" })
      ∷ [];
}

abbrev query : GraphPathQuery
query = record {
  source = "a";
  target = "d";
  min_confidence = 1;
  allowed_provenance = none;
  max_hops = 8;
  predicates = none;
  mode = directed;
  scope = "global";
  scope_walk = any_scope;
}

abbrev entities : Option GraphPath → List String
entities none = []
entities (some p) = p.entity_path

graph_path-IsPath_example :
    (graph_path floats (λ c. true) graph query ≢ endless)
    × ((p : GraphPath)
        → graph_path floats (λ c. true) graph query ≡ found (some p)
        → IsPath floats graph query p)
graph_path-IsPath_example = graph_path-IsPath floats graph query (λ c. true)

shorter_way :
    (p : GraphPath) × (graph_path floats (λ c. true) graph query ≡ found (some p))
    × (p.entity_path ≡ "a" ∷ "c" ∷ "d" ∷ [])
unfolding graph_path
shorter_way = (_, refl, refl)

abbrev first : EdgeCandidate
first = claim_edge 2 (joins "a" "b") "a" "b"

abbrev second : EdgeCandidate
second = claim_edge 3 (joins "b" "d") "b" "d"

abbrev two : List EdgeCandidate
two = first ∷ second ∷ []

abbrev way : Trail
way = extend floats (extend floats (begin "a") first) second

way-IsAnswer : IsAnswer floats two "a" "d" 2 way
unfolding aver.Graph.contains
way-IsAnswer = (
  further second (further first start (Memᴰ.head refl) refl refl) (Memᴰ.tail (Memᴰ.head refl)) refl
      refl,
  refl,
  omega arith,
)

a_is_not_d : ◌≢◌ {A = String} "a" "d"
a_is_not_d h = let e : false ≡ true = (string_eq.agrees "a" "d").1 h in cc e

best_trail-shortest_example :
    (t : Trail) × (best_trail floats two "a" "d" 2 ≡ some (some t))
    × IsAnswer floats two "a" "d" 2 t
    × (length t.steps ≤ length way.steps)
best_trail-shortest_example = best_trail-shortest floats two "a" "d" 2 way a_is_not_d way-IsAnswer

-- An underscore of a scope is no wildcard.
admits_scope_iff_example :
    (admits_scope descendants (codes "proj_a") (codes "proj/a/x") ≡ true)
    ↔ IsVisible descendants (codes "proj_a") (codes "proj/a/x")
admits_scope_iff_example = admits_scope_iff descendants (codes "proj_a") (codes "proj/a/x")

underscore : admits_scope descendants (codes "proj_a") (codes "proj/a/x") ≡ false
unfolding admits_scope
underscore = refl

-- What is below a scope is found whatever the case of its letters, but the scope itself is not.
other_case : admits_scope descendants (codes "proj/a") (codes "PROJ/A/x") ≡ true
unfolding admits_scope
other_case = refl

other_case_itself : admits_scope descendants (codes "proj/a") (codes "PROJ/A") ≡ false
unfolding admits_scope
other_case_itself = refl
