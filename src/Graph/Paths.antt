-- ===== src/Graph/Paths.antt =====
-- What `graph_path` answers.
use aver.Prelude.{
  ℕ, String, Bool, true, false, Option, none, some, List, [], ◌≡◌, ◌≢◌, refl, ◌==◌, ◌||◌, nat_eq,
  string_eq, inl, inr, ◌⊎◌, if◌then◌else◌, not, arith,
}
use mathlib.Core.Path.{subst}
use aver.Text.{codes, is_blank}
use aver.Validation.{Check, accepted, rejected, validate_scope}
use aver.Db.{Db}
use aver.Graph.{Floats}
use aver.Graph.Candidates.{
  GraphPathQuery, GraphPath, PathResult, found, endless, argument, invalid_graph_entity,
  invalid_confidence, invalid_predicate_filter, is_bad_filter, filtered, unless_rejected,
  graph_path,
}
use aver.Graph.Predicates.{expand_predicate_filter}
use aver.Graph.Admissible.{IsFoundPath, searched-found, searched_total}

-- An answer that ends, and whose path has a property.
abbrev Gives : (GraphPath → Type 0) → PathResult → Type 0
Gives P r = (r ≢ endless) × ((p : GraphPath) → r ≡ found (some p) → P p)

abbrev answers : PathResult → Bool
answers (found (some p)) = true
answers endless = true
answers _ = false

-- An error, or no path.
Gives-other : (P : GraphPath → Type 0) (r : PathResult) → answers r ≡ false → Gives P r
Gives-other P r h = (λ x. cc (h, x), λ p x. cc (h, x))

Gives-found : (P : GraphPath → Type 0) (p : GraphPath) → P p → Gives P (found (some p))
Gives-found P p h = (
  λ x. absurd (ground (arith, x)),
  λ p' x. let same : p ≡ p' = ground (arith, x) in subst P same h,
)

Gives-if :
    (P : GraphPath → Type 0) (b : Bool) (x y : PathResult)
    → (b ≡ true → Gives P x)
    → (b ≡ false → Gives P y)
    → Gives P (if b then x else y)
Gives-if P true x y hx hy = hx refl
Gives-if P false x y hx hy = hy refl

Gives-unless :
    (P : GraphPath → Type 0) (c : Check) (next : PathResult)
    → Gives P next
    → Gives P (unless_rejected c next)
Gives-unless P accepted next h = h
Gives-unless P (rejected e) next h = Gives-other P (argument e) refl

-- The predicates that a query allows.
abbrev pub allowed_of : Db → Option (List String) → Option (List String)
allowed_of db none = none
allowed_of db (some predicates) = some (expand_predicate_filter db.ontology predicates)

-- A path with no step, for a target that is the source, or a path that the search found.
abbrev pub IsPath : Floats → Db → GraphPathQuery → GraphPath → Type 0
IsPath f db q p =
    ((q.source ≡ q.target) × (p.source ≡ q.source) × (p.target ≡ q.target) × (p.steps ≡ []))
    ⊎ IsFoundPath f db q (allowed_of db q.predicates) p

module _ (f : Floats) (db : Db) (q : GraphPathQuery) where
  filtered-Gives :
      (predicates : Option (List String))
      → Gives (IsFoundPath f db q (allowed_of db predicates)) (filtered f db q predicates)
  filtered-Gives none = (searched_total f db q none, searched-found f db q none)
  filtered-Gives (some predicates) =
      let allowed = some (expand_predicate_filter db.ontology predicates) in
      Gives-if _ (is_bad_filter predicates) _ _ (λ _. Gives-other _ invalid_predicate_filter refl)
        (λ _. (searched_total f db q allowed, searched-found f db q allowed))

  -- The search always ends, and a path that it answers runs from the source to the target: with no step
  -- where these are one entity, or else over edges, with no entity twice and within the limit of hops, each
  -- step by an active claim or hyperedge that meets the query's confidence, scope, provenance and
  -- predicates.
  pub graph_path-IsPath :
      (in_unit : ℕ → Bool)
      → (graph_path f in_unit db q ≢ endless)
        × ((p : GraphPath) → graph_path f in_unit db q ≡ found (some p) → IsPath f db q p)
  unfolding graph_path
  graph_path-IsPath in_unit =
      let path = IsPath f db q in
      Gives-if path (is_blank q.source || is_blank q.target) _ _
        (λ _. Gives-other path invalid_graph_entity refl)
        (λ _. Gives-unless path (validate_scope (codes q.scope)) _ (
          Gives-if path (not (in_unit q.min_confidence)) _ _
            (λ _. Gives-other path invalid_confidence refl)
            (λ _.
              Gives-if path (q.source == q.target) _ _
                (λ same.
                  Gives-found path _
                    (inl ((string_eq.agrees q.source q.target).0 same, refl, refl, refl)))
                (λ _.
                  Gives-if path (q.max_hops == 0) _ _ (λ _. Gives-other path (found none) refl)
                    (λ _. let g = filtered-Gives q.predicates in (g.0, λ p x. inr (g.1 p x)))))))
