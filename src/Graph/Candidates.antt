-- ===== src/Graph/Candidates.antt =====
-- The edges of the search and its whole, `graph_path_candidates` and `graph_path` of
-- crates/aver-core/src/graph.rs.
use aver.Prelude.{
  ℕ, String, Bool, true, false, not, Option, none, some, List, [], ◌∷◌, ◌++◌, ◌+◌, ◌==◌, ◌&&◌, ◌||◌,
  string_eq, nat_eq, list_eq, ltb, if◌then◌else◌, Table,
}
use aver.Text.{codes, is_blank}
use aver.Types.{Provenance, provenance_str}
use aver.Log.{Participant}
use aver.Db.{Db, ClaimRow, HyperedgeRow}
use aver.Validation.{Check, ArgumentError, accepted, rejected, validate_scope}
use aver.Apply.Hyperedges.{participants_of}
use aver.Store.Consolidation.{by_id, rows_where, is_active}
use aver.Graph.{
  claim, hyperedge, GraphPathStep, EdgeCandidate, Floats, Trail, contains, one, string_lt,
  best_trail,
}
use aver.Graph.Predicates.{expand_predicate_filter}
use aver.Graph.Scopes.{ScopeWalk, admits_scope, hyperedges_in_scope}

pub data GraphPathMode : Type 0 where
  directed bidirectional : GraphPathMode

pub record GraphPathQuery : Type 0 where
  pub source : String
  pub target : String
  pub min_confidence : ℕ
  pub allowed_provenance : Option (List Provenance)
  pub max_hops : ℕ
  pub predicates : Option (List String)
  pub mode : GraphPathMode
  pub scope : String
  pub scope_walk : ScopeWalk

unfoldable pub provenance_mem : List Provenance → Provenance → Bool
unfolding provenance_str
provenance_mem [] p = false
provenance_mem (q ∷ qs) p = provenance_str q == provenance_str p || provenance_mem qs p

unfoldable pub provenance_allowed : GraphPathQuery → Provenance → Bool
unfolding provenance_mem
provenance_allowed q p = elim q.allowed_provenance [
  | none ↦ true
  | some allowed ↦ provenance_mem allowed p
]

abbrev pub predicate_allowed : Option (List String) → String → Bool
predicate_allowed none predicate = true
predicate_allowed (some allowed) predicate = contains allowed predicate

-- The conditions on a claim: those of the statement, and those of the loop.
unfoldable pub takes_claim : Floats → GraphPathQuery → Option (List String) → ClaimRow → Bool
unfolding admits_scope provenance_allowed contains
takes_claim f q allowed c =
    is_active c.status
    && f.is_ge c.confidence q.min_confidence
    && admits_scope q.scope_walk (codes q.scope) (codes c.scope)
    && provenance_allowed q c.provenance
    && predicate_allowed allowed c.predicate

abbrev pub claim_step : ℕ → ClaimRow → GraphPathStep
claim_step id c = record {
  source = c.subject;
  target = c.object;
  predicate = c.predicate;
  confidence = c.confidence;
  provenance = c.provenance;
  relationship_kind = claim;
  source_refs = c.source_refs;
  claim_id = some id;
  scope = c.scope;
}

abbrev pub claim_edge : ℕ → ClaimRow → (traverse_from traverse_to : String) → EdgeCandidate
claim_edge id c traverse_from traverse_to = record {
  traverse_from = traverse_from;
  traverse_to = traverse_to;
  source_id = id;
  kind_order = 0;
  step = claim_step id c;
}

abbrev pub claim_edges : GraphPathMode → ℕ → ClaimRow → List EdgeCandidate
claim_edges directed id c = claim_edge id c c.subject c.object ∷ []
claim_edges bidirectional id c =
    claim_edge id c c.subject c.object ∷ claim_edge id c c.object c.subject ∷ []

unfoldable pub claim_candidates : GraphPathMode → Table ℕ ClaimRow → List EdgeCandidate
claim_candidates mode [] = []
claim_candidates mode ((id, c) ∷ rows) = claim_edges mode id c ++ claim_candidates mode rows

unfoldable pub takes_hyperedge :
    Floats → GraphPathQuery → Option (List String) → HyperedgeRow → Bool
unfolding provenance_allowed contains
takes_hyperedge f q allowed h =
    is_active h.status
    && f.is_ge h.confidence q.min_confidence
    && provenance_allowed q h.provenance
    && predicate_allowed allowed h.predicate

abbrev pub hyperedge_edge : ℕ → HyperedgeRow → (left right : String) → EdgeCandidate
hyperedge_edge id h left right = record {
  traverse_from = left;
  traverse_to = right;
  source_id = id;
  kind_order = 1;
  step = record {
    source = left;
    target = right;
    predicate = h.predicate;
    confidence = h.confidence;
    provenance = h.provenance;
    relationship_kind = hyperedge;
    source_refs = h.source_refs;
    claim_id = none;
    scope = "global";
  };
}

-- `iter().enumerate()`
unfoldable pub enumerate : {A : Type 0} → ℕ → List A → List (ℕ × A)
enumerate n [] = []
enumerate n (x ∷ xs) = (n, x) ∷ enumerate (n + 1) xs

-- The edges from one participant to the others.
unfoldable pub edges_from :
    ℕ
    → HyperedgeRow
    → (left_index : ℕ) → (left : String) → List (ℕ × Participant)
    → List EdgeCandidate
edges_from id h left_index left [] = []
edges_from id h left_index left ((right_index, right) ∷ rights) =
    let rest = edges_from id h left_index left rights in
    if left_index == right_index || left == right.entity
    then rest
    else hyperedge_edge id h left right.entity ∷ rest

unfoldable pub edges_between :
    ℕ → HyperedgeRow → List (ℕ × Participant) → List (ℕ × Participant) → List EdgeCandidate
unfolding edges_from
edges_between id h rights [] = []
edges_between id h rights ((left_index, left) ∷ lefts) =
    edges_from id h left_index left.entity rights ++ edges_between id h rights lefts

unfoldable pub hyperedge_candidates : Db → Table ℕ HyperedgeRow → List EdgeCandidate
unfolding enumerate edges_between participants_of
hyperedge_candidates db [] = []
hyperedge_candidates db ((id, h) ∷ rows) =
    let participants = enumerate 0 (participants_of id db.hyperedge_participants) in
    edges_between id h participants participants ++ hyperedge_candidates db rows

-- `graph_path_candidates`
unfoldable pub graph_path_candidates :
    Floats → Db → GraphPathQuery → Option (List String) → List EdgeCandidate
unfolding by_id rows_where takes_claim claim_candidates hyperedges_in_scope takes_hyperedge
    hyperedge_candidates
graph_path_candidates f db q allowed =
    let claims =
      claim_candidates q.mode (by_id (rows_where (λ id c. takes_claim f q allowed c) db.claims)) in
    if hyperedges_in_scope (codes q.scope) q.scope_walk
    then claims
      ++ hyperedge_candidates db
          (by_id (rows_where (λ id h. takes_hyperedge f q allowed h) db.hyperedges))
    else claims

-- `<=` by the key of `sort_by`
unfoldable pub sorts_before : EdgeCandidate → EdgeCandidate → Bool
unfolding string_lt
sorts_before a b =
    if ltb a.source_id b.source_id
    then true
    else if ltb b.source_id a.source_id
    then false
    else if ltb a.kind_order b.kind_order
    then true
    else if ltb b.kind_order a.kind_order
    then false
    else if string_lt a.traverse_from b.traverse_from
    then true
    else if string_lt b.traverse_from a.traverse_from
    then false
    else not (string_lt b.traverse_to a.traverse_to)

unfoldable pub insert_sorted : EdgeCandidate → List EdgeCandidate → List EdgeCandidate
unfolding sorts_before
insert_sorted c [] = c ∷ []
insert_sorted c (d ∷ ds) =
    let later = d ∷ insert_sorted c ds in if sorts_before c d then c ∷ d ∷ ds else later

-- The stable `candidates.sort_by`
unfoldable pub sort : List EdgeCandidate → List EdgeCandidate
unfolding insert_sorted
sort [] = []
sort (c ∷ cs) = insert_sorted c (sort cs)

pub record GraphPath : Type 0 where
  pub source : String
  pub target : String
  pub steps : List GraphPathStep
  pub confidence : ℕ
  pub entity_path : List String

-- `endless` would be a search that does not end.
pub data PathResult : Type 0 where
  invalid_graph_entity invalid_confidence invalid_predicate_filter : PathResult
  argument : ArgumentError → PathResult
  found : Option GraphPath → PathResult
  endless : PathResult

abbrev pub path_of : GraphPathQuery → Trail → GraphPath
path_of q t = record {
  source = q.source;
  target = q.target;
  steps = t.steps;
  confidence = t.confidence;
  entity_path = t.entity_path;
}

abbrev pub ended : GraphPathQuery → Option (Option Trail) → PathResult
ended q none = endless
ended q (some none) = found none
ended q (some (some t)) = found (some (path_of q t))

-- The search, for the predicates that are allowed.
abbrev pub searched : Floats → Db → GraphPathQuery → Option (List String) → PathResult
searched f db q allowed =
    ended q
      (best_trail f (sort (graph_path_candidates f db q allowed)) q.source q.target q.max_hops)

unfoldable pub any_blank : List String → Bool
unfolding is_blank
any_blank [] = false
any_blank (s ∷ ss) = is_blank s || any_blank ss

abbrev pub is_bad_filter : List String → Bool
is_bad_filter [] = true
is_bad_filter (s ∷ ss) = any_blank (s ∷ ss)

abbrev pub filtered : Floats → Db → GraphPathQuery → Option (List String) → PathResult
filtered f db q none = searched f db q none
filtered f db q (some predicates) =
    if is_bad_filter predicates
    then invalid_predicate_filter
    else searched f db q (some (expand_predicate_filter db.ontology predicates))

abbrev pub unless_rejected : Check → PathResult → PathResult
unless_rejected accepted next = next
unless_rejected (rejected e) next = argument e

-- `Store::graph_path`
unfoldable pub graph_path : Floats → (in_unit : ℕ → Bool) → Db → GraphPathQuery → PathResult
unfolding is_blank validate_scope any_blank expand_predicate_filter graph_path_candidates sort
    best_trail
graph_path f in_unit db q =
    if is_blank q.source || is_blank q.target
    then invalid_graph_entity
    else unless_rejected (validate_scope (codes q.scope)) (
        if not (in_unit q.min_confidence)
        then invalid_confidence
        else if q.source == q.target
        then found (
            some (record {
              source = q.source;
              target = q.target;
              steps = [];
              confidence = one;
              entity_path = q.source ∷ [];
            }))
        else if q.max_hops == 0
        then found none
        else filtered f db q q.predicates)
