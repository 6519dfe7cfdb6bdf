-- ===== src/Graph/Predicates.antt =====
-- The predicate filter of `graph_path`, crates/aver-core/src/ontology.rs.
use aver.Prelude.{
  ℕ, String, Bool, false, Option, none, some, List, [], ◌∷◌, ◌++◌, ◌==◌, ◌&&◌, ◌||◌, string_eq,
  nat_eq, list_eq, if◌then◌else◌, map, Table, find,
}
use aver.Ontology.{Ontology, PredicateType, predicate_type_id}
use aver.Store.Consolidation.{by_id, rows_where}

abbrev name_of : Option PredicateType → Option String
name_of none = none
name_of (some t) = some t.name

abbrev aliased : Table ℕ PredicateType → Option ℕ → Option String
aliased types none = none
aliased types (some id) = name_of (find id types)

abbrev or_aliased : String → Option ℕ → Option String → Option String
or_aliased predicate none other = other
or_aliased predicate (some id) other = some predicate

-- `canonical_predicate_name`
unfoldable pub canonical_predicate_name : Ontology → String → Option String
unfolding find predicate_type_id
canonical_predicate_name o predicate =
    or_aliased predicate (predicate_type_id predicate o.predicate_types)
      (aliased o.predicate_types (find predicate o.predicate_alias))

abbrev is_named : Option PredicateType → String → Bool
is_named none name = false
is_named (some t) name = t.name == name

-- Whether the closure joins a child to a type with the name.
unfoldable pub has_ancestor : Table ℕ PredicateType → String → ℕ → List (ℕ × ℕ) → Bool
unfolding find
has_ancestor types name child [] = false
has_ancestor types name child ((c, a) ∷ pairs) =
    c == child && is_named (find a types) name || has_ancestor types name child pairs

-- The names of the types below a canonical predicate, itself included.
unfoldable pub descendant_names : Ontology → String → List String
unfolding rows_where by_id has_ancestor
descendant_names o ancestor =
    map (λ r. r.1.name)
      (by_id (
        rows_where (λ child t. has_ancestor o.predicate_types ancestor child o.predicate_closure)
          o.predicate_types))

unfoldable pub aliases_of : Table ℕ PredicateType → String → List (String × ℕ) → List String
unfolding find
aliases_of types name [] = []
aliases_of types name ((a, id) ∷ rows) =
    let rest = aliases_of types name rows in
    if is_named (find id types) name then a ∷ rest else rest

unfoldable pub with_aliases : Ontology → List String → List String
unfolding aliases_of
with_aliases o [] = []
with_aliases o (name ∷ names) =
    name ∷ aliases_of o.predicate_types name o.predicate_alias ++ with_aliases o names

abbrev expanded : Ontology → Option String → List String
unfolding descendant_names with_aliases
expanded o none = []
expanded o (some canonical) = canonical ∷ with_aliases o (descendant_names o canonical)

-- `expand_predicate_filter`, whose set is a list here.
unfoldable pub expand_predicate_filter : Ontology → List String → List String
unfolding canonical_predicate_name descendant_names with_aliases
expand_predicate_filter o [] = []
expand_predicate_filter o (predicate ∷ predicates) =
    (predicate ∷ expanded o (canonical_predicate_name o predicate))
    ++ expand_predicate_filter o predicates
