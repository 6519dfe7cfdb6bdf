-- ===== src/Tests/Closures.antt =====
-- The closure of two predicate types, one the parent of the other.
use aver.Prelude.{
  List, ◌≢◌, string_eq, find, ℕ, true, some, [], ◌∷◌, ◌≡◌, refl, ◌↔◌, map, nat_beq, if◌then◌else◌,
  arith,
}
use aver.Ontology.Entities.{ensure_entity-Upserted, Upserted}
use aver.Ontology.Known.{Naming, ensure_each, ensure_predicate_known-again}
use aver.Ontology.{
  ensure_predicate_known, ensure_entity, Entity, Ontology, PredicateType, rebuild_closure, pair_mem,
  parent_of,
}
use aver.Types.{inferred, user_asserted}
use aver.Exec.{ok}
use aver.Ontology.Closure.{Reaches, is_in, rebuild_closure_iff}
use aver.Ontology.Total.{IsRanked, IsStored, rebuild_closure-total}
use aver.Tests.Fixtures.{host, relates_to, ontology}

abbrev reviewed : PredicateType
reviewed = record relates_to { name = "reviewed"; parent_id = some 1 }

abbrev two_types : Ontology
two_types = record ontology {
  predicate_types = (2, reviewed) ∷ (1, relates_to) ∷ [];
  predicate_closure = (1, 2) ∷ [];
}

abbrev closed : Ontology
closed = record two_types { predicate_closure = (1, 1) ∷ (2, 1) ∷ (2, 2) ∷ [] }

rebuilt : rebuild_closure host.schema two_types ≡ (ok tt, closed)
unfolding rebuild_closure
rebuilt = refl

rebuild_closure_iff_example : (pair_mem 2 1 closed.predicate_closure ≡ true) ↔ (
    (is_in 2 (map (λ r. r.0) two_types.predicate_types) ≡ true)
    × Reaches two_types.predicate_types 2 1)
rebuild_closure_iff_example = rebuild_closure_iff host.schema two_types closed 2 1 rebuilt

abbrev depth : ℕ → ℕ
depth id = if nat_beq id 2 then 1 else 0

two_types-IsRanked : IsRanked two_types.predicate_types depth
unfolding parent_of find
two_types-IsRanked = record { falls = λ id p e. ground arith; bounded = λ id. ground arith }

two_types-IsStored : IsStored two_types.predicate_types
unfolding parent_of find
two_types-IsStored = record {
  positive = λ id (t, e). ground (arith, e);
  parents = λ id p e. (relates_to, ground (arith, e));
}

rebuild_closure-total_example :
    (o' : Ontology) × (rebuild_closure host.schema two_types ≡ (ok tt, o'))
rebuild_closure-total_example =
    rebuild_closure-total host.schema depth two_types two_types-IsRanked two_types-IsStored
      (λ o child a k l p q miss. refl)

abbrev extended : Ontology
extended = (ensure_predicate_known host.schema "tested" inferred "pi" 5 two_types).1

extension :
    ensure_predicate_known host.schema "tested" inferred "pi" 5 two_types ≡ (ok tt, extended)
unfolding ensure_predicate_known aver.Prelude.insert
extension = refl

abbrev named : List Naming
named =
    record { predicate = "reviewed"; provenance = inferred; agent_id = "pi"; ts = 6 }
    ∷ record { predicate = "relates_to"; provenance = inferred; agent_id = "pi"; ts = 7 }
    ∷ []

ensure_predicate_known-again_example :
    ensure_predicate_known host.schema "tested" user_asserted "human" 9
      (ensure_each host.schema named extended)
    ≡ (ok tt, ensure_each host.schema named extended)
ensure_predicate_known-again_example =
    ensure_predicate_known-again host.schema "tested" inferred user_asserted "pi" "human" 5 9
      two_types extended named extension

abbrev with_tool : Ontology
with_tool = record ontology {
  entity_types = ("Thing", 1) ∷ ("Bot", 2) ∷ [];
  entities =
      ("Bot:x", record { type_id = 1; requires_review = true; created_at = 3; last_seen_at = 4 })
      ∷ [];
}

abbrev seen : Ontology
seen = (ensure_entity host.schema "Bot:x" 8 with_tool).1

thing_stored : find "Thing" with_tool.entity_types ≡ some 1
unfolding find
thing_stored = refl

promoted_entity : ensure_entity host.schema "Bot:x" 8 with_tool ≡ (ok tt, seen)
unfolding ensure_entity
promoted_entity = refl

ensure_entity-Upserted_example :
    (row : Entity) × (find "Bot:x" seen.entities ≡ some row)
    × Upserted 8 1 (find "Bot:x" with_tool.entities) row
ensure_entity-Upserted_example =
    ensure_entity-Upserted host.schema "Bot:x" 8 1 with_tool seen thing_stored promoted_entity
