-- ===== src/Ontology.antt =====
-- The ontology tables and the code that extends them on a logged write: `ensure_predicate_known`
-- (apply.rs), `rebuild_closure` (seed.rs), `ensure_entity_on` and its helpers (ontology.rs).
pub mod Closure
pub mod Total
pub mod Extended
pub mod Known
pub mod Entities
use Prim.Native.Char.{code}
use aver.Prelude.{
  ℕ, zero, suc, String, Bool, true, false, Option, none, some, List, [], ◌∷◌, ◌&&◌, ◌||◌, not,
  length, map, ◌==◌, nat_beq, nat_eq, string_eq, if◌then◌else◌, Table, find, insert, modify,
}
use aver.Exec.{Exec, ok, err, raise, statement, ◌>>◌, sqlite, missing_entity_type, endless}
use aver.Types.{Provenance, user_asserted}

pub record PredicateType : Type 0 where
  pub name : String
  pub parent_id : Option ℕ
  pub created_via : String
  pub created_at : Option ℕ
  pub cardinality : String

pub record Entity : Type 0 where
  pub type_id : ℕ
  pub requires_review : Bool
  pub created_at : ℕ
  pub last_seen_at : ℕ

pub record Extension : Type 0 where
  pub predicate : String
  pub parent : String
  pub agent_id : String
  pub created_at : ℕ

pub record Ontology : Type 0 where
  pub predicate_types : Table ℕ PredicateType
  pub predicate_alias : Table String ℕ
  pub predicate_closure : List (ℕ × ℕ)
  pub extension_log : List Extension
  pub entity_types : Table String ℕ
  pub entities : Table String Entity

-- A row that a statement is about to store.
pub data OntologyRow : Type 0 where
  predicate_type_row : ℕ → PredicateType → OntologyRow
  closure_row : ℕ → ℕ → OntologyRow
  extension_row : Extension → OntologyRow
  entity_row : String → Entity → OntologyRow

-- What SQLite and the schema of migrations/ decide about these tables: whether a row passes the
-- constraints and triggers, and the row id of a new row.
pub record Schema : Type 0 where
  pub admits : Ontology → OntologyRow → Bool
  pub next_id : Table ℕ PredicateType → ℕ

-- SELECT id FROM predicate_types WHERE name = ?
unfoldable pub predicate_type_id : String → Table ℕ PredicateType → Option ℕ
predicate_type_id name [] = none
predicate_type_id name ((id, t) ∷ ts) =
    if t.name == name then some id else predicate_type_id name ts

-- `parents.get(&id).copied().flatten()`
unfoldable pub parent_of : Table ℕ PredicateType → ℕ → Option ℕ
unfolding find
parent_of types id = elim (find id types) [ none ↦ none | some t ↦ t.parent_id ]

-- The `while let` of `rebuild_closure`: the chain of ancestors of one type, itself first. Each
-- round takes one unit of fuel, and `none` says that the fuel ran out.
unfoldable pub chain : ℕ → Table ℕ PredicateType → Option ℕ → Option (List ℕ)
unfolding parent_of
chain fuel types none = some []
chain zero types (some id) = none
chain (suc fuel) types (some id) =
    let rest = chain fuel types (parent_of types id) in
    elim rest [ none ↦ none | some ids ↦ some (id ∷ ids) ]

unfoldable pub pair_mem : ℕ → ℕ → List (ℕ × ℕ) → Bool
pair_mem a b [] = false
pair_mem a b ((c, d) ∷ ps) = if nat_beq a c && nat_beq b d then true else pair_mem a b ps

-- INSERT OR IGNORE INTO predicate_closure, for each ancestor of one child.
unfoldable pub close_child : Schema → ℕ → List ℕ → Exec Ontology Unit
unfolding pair_mem
close_child schema child [] o = (ok tt, o)
close_child schema child (a ∷ as') o =
    let rest = close_child schema child as' in
    let skip = rest o in
    let store =
      (do
        statement (schema.admits o (closure_row child a)) tt
            (record o { predicate_closure = (child, a) ∷ o.predicate_closure })
        rest)
        o in
    if pair_mem child a o.predicate_closure then skip else store

unfoldable pub close_children : Schema → ℕ → Table ℕ PredicateType → List ℕ → Exec Ontology Unit
unfolding chain close_child
close_children schema fuel types [] o = (ok tt, o)
close_children schema fuel types (child ∷ children) o = elim (chain fuel types (some child)) [
  | none ↦ (err endless, o)
  | some as' ↦ (do close_child schema child as'; close_children schema fuel types children) o
]

-- `rebuild_closure(conn, "predicate_types", "predicate_closure")`. A chain that visits no type
-- twice has at most one round for each type.
unfoldable pub rebuild_closure : Schema → Exec Ontology Unit
unfolding close_children
rebuild_closure schema o =
    let types = o.predicate_types in
    close_children schema (suc (length types)) types (map (λ r. r.0) types)
      (record o { predicate_closure = [] })

abbrev pub created_via : Provenance → String
created_via user_asserted = "user_assertion"
created_via _ = "replay"

unfoldable pub store_type : Schema → String → Provenance → ℕ → ℕ → Exec Ontology Unit
store_type schema predicate provenance ts parent_id o =
    let row : PredicateType = record {
      name = predicate;
      parent_id = some parent_id;
      created_via = created_via provenance;
      created_at = some ts;
      cardinality = "multi";
    } in
    let id = schema.next_id o.predicate_types in
    statement (schema.admits o (predicate_type_row id row)) tt
      (record o { predicate_types = insert id row o.predicate_types }) o

unfoldable pub store_extension : Schema → String → String → ℕ → Exec Ontology Unit
store_extension schema predicate agent_id ts o =
    let row : Extension = record {
      predicate = predicate;
      parent = "relates_to";
      agent_id = agent_id;
      created_at = ts;
    } in
    statement (schema.admits o (extension_row row)) tt
      (record o { extension_log = row ∷ o.extension_log }) o

-- The part of `ensure_predicate_known` past its two lookups, given the id of `relates_to`.
unfoldable pub extend_predicates :
    Schema → String → Provenance → String → ℕ → Option ℕ → Exec Ontology Unit
unfolding store_type store_extension rebuild_closure
extend_predicates schema predicate provenance agent_id ts none = raise sqlite
extend_predicates schema predicate provenance agent_id ts (some parent_id) = do
  store_type schema predicate provenance ts parent_id
  rebuild_closure schema
  store_extension schema predicate agent_id ts

unfoldable pub ensure_predicate_known :
    Schema → String → Provenance → String → ℕ → Exec Ontology Unit
unfolding predicate_type_id extend_predicates find
ensure_predicate_known schema predicate provenance agent_id ts o =
    elim (predicate_type_id predicate o.predicate_types) [
      | some id ↦ (ok tt, o)
      | none ↦ elim (find predicate o.predicate_alias) [
        | some id ↦ (ok tt, o)
        | none ↦
            extend_predicates schema predicate provenance agent_id ts
              (predicate_type_id "relates_to" o.predicate_types) o
      ]
    ]

-- `entity.split_once(':')`, the part before the colon.
unfoldable pub before_colon : String → Option String
before_colon String.[] = none
before_colon (String.◌∷◌ c s) =
    let rest = before_colon s in
    if nat_beq (code c) b':'
    then some ""
    else elim rest [ none ↦ none | some p ↦ some (String.◌∷◌ c p) ]

abbrev pub default_type : String → String
default_type entity =
    if entity == "User"
    then "Human"
    else if entity == "Claude" || entity == "Pi"
    then "Bot"
    else "Thing"

-- `infer_entity_type_name_on`
unfoldable pub infer_entity_type_name : Ontology → String → String
unfolding before_colon find
infer_entity_type_name o entity = elim (before_colon entity) [
  | none ↦ default_type entity
  | some p ↦ elim (find p o.entity_types) [ none ↦ default_type entity | some id ↦ p ]
]

abbrev pub id_or : ℕ → Option ℕ → ℕ
id_or d none = d
id_or d (some id) = id

-- The upsert of `ensure_entity_on`, given the row that stands, the inferred type and `Thing`.
unfoldable pub upsert_entity :
    Schema → String → ℕ → (thing_id type_id : ℕ) → Option Entity → Exec Ontology Unit
unfolding insert modify
upsert_entity schema entity now thing_id type_id none o =
    let row : Entity = record {
      type_id = type_id;
      requires_review = nat_beq type_id thing_id;
      created_at = now;
      last_seen_at = now;
    } in
    statement (schema.admits o (entity_row entity row)) tt
      (record o { entities = insert entity row o.entities }) o
upsert_entity schema entity now thing_id type_id (some current) o =
    let promoted = record current {
      type_id = type_id;
      requires_review = false;
      last_seen_at = now;
    } in
    let seen = record current { last_seen_at = now } in
    let promote = nat_beq current.type_id thing_id && not (nat_beq type_id thing_id) in
    let row = if promote then promoted else seen in
    statement (schema.admits o (entity_row entity row)) tt
      (record o { entities = modify entity (λ _. row) o.entities }) o

-- `ensure_entity_on`
unfoldable pub ensure_entity : Schema → String → ℕ → Exec Ontology Unit
unfolding infer_entity_type_name upsert_entity find
ensure_entity schema entity now o = elim (find "Thing" o.entity_types) [
  | none ↦ (err missing_entity_type, o)
  | some thing_id ↦
      upsert_entity schema entity now thing_id
        (id_or thing_id (find (infer_entity_type_name o entity) o.entity_types))
        (find entity o.entities) o
]
