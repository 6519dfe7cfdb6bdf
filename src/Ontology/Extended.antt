-- ===== src/Ontology/Extended.antt =====
-- What `rebuild_closure` leaves as it is, and that an extended ontology has the predicate
-- (crates/aver-core/src/apply.rs, seed.rs).
use aver.Ontology.{
  created_via, predicate_type_row, Ontology, Schema, PredicateType, chain, pair_mem, close_child,
  close_children, rebuild_closure, predicate_type_id, store_type, store_extension,
  extend_predicates,
}
use aver.Prelude.{
  nat_eq, ℕ, suc, String, Option, none, some, List, [], ◌∷◌, ◌≡◌, refl, ◌∙◌, inl, inr, arith, map,
  Table, insert, Bool-cases, Option-cases, length, string_eq, ==_refl,
}
use aver.Types.{Provenance}
use aver.Exec.{Exec, Result, ok, err, bind-ok, ◌>>◌, continue}

-- Every part `f` of the tables that does not read the closure is left by its rebuilding.
module _ {X : Type 0} (f : Ontology → X)
    (apart : (o : Ontology) (ps : List (ℕ × ℕ))
      → f (record o { predicate_closure = ps }) ≡ f o) where
  close_child-apart :
      (schema : Schema) (child : ℕ) (ids : List ℕ) (o : Ontology)
      → f (close_child schema child ids o).1 ≡ f o
  unfolding close_child
  close_child-apart schema child [] o = refl
  close_child-apart schema child (a ∷ ids) o =
      let stored = apart o ((child, a) ∷ o.predicate_closure) in
      elim (Bool-cases (pair_mem child a o.predicate_closure)) [
        | inl hit ↦ ground (arith, hit, close_child-apart schema child ids o)
        | inr miss ↦ ground (
          arith,
          miss,
          stored,
          close_child-apart schema child ids
              (record o { predicate_closure = (child, a) ∷ o.predicate_closure }),
        )
      ]

  pub then-apart :
      (x : Result Unit) (m : Exec Ontology Unit) (o : Ontology)
      → ((o : Ontology) → f (m o).1 ≡ f o)
      → f (continue x (λ _. m) o).1 ≡ f o
  then-apart (ok a) m o h = h o
  then-apart (err e) m o h = refl

  close_children-apart :
      (schema : Schema) (fuel : ℕ) (types : Table ℕ PredicateType) (children : List ℕ)
      (o : Ontology)
      → f (close_children schema fuel types children o).1 ≡ f o
  unfolding close_children
  close_children-apart schema fuel types [] o = refl
  close_children-apart schema fuel types (child ∷ children) o =
      elim (Option-cases (chain fuel types (some child))) [
        | inl none' ↦ ground (arith, none')
        | inr (ids, e) ↦
            let first = close_child-apart schema child ids o in
            let later =
              then-apart (close_child schema child ids o).0
                (close_children schema fuel types children) (close_child schema child ids o).1
                (close_children-apart schema fuel types children) in
            ground (arith, e, first, later)
      ]

  pub rebuild_closure-apart :
      (schema : Schema) (o : Ontology) → f (rebuild_closure schema o).1 ≡ f o
  unfolding rebuild_closure
  rebuild_closure-apart schema o =
      close_children-apart schema (suc (length o.predicate_types)) o.predicate_types
        (map (λ r. r.0) o.predicate_types) (record o { predicate_closure = [] })
      ∙ apart o []

rebuild_closure-types :
    (schema : Schema) (o : Ontology)
    → (rebuild_closure schema o).1.predicate_types ≡ o.predicate_types
rebuild_closure-types = rebuild_closure-apart (λ o. o.predicate_types) (λ o ps. refl)

abbrev pub IsKnown : String → Ontology → Type 0
IsKnown p o = (id : ℕ) × (predicate_type_id p o.predicate_types ≡ some id)

pub predicate_type_id-insert :
    (p : String) (id : ℕ) (t : PredicateType) (ts : Table ℕ PredicateType)
    → t.name ≡ p
    → predicate_type_id p (insert id t ts) ≡ some id
unfolding predicate_type_id insert
predicate_type_id-insert p id t ts e = rw (e, ==_refl p) refl

store_type-known :
    (schema : Schema) (p : String) (v : Provenance) (ts parent : ℕ) (o : Ontology)
    → (store_type schema p v ts parent o).0 ≡ ok tt
    → predicate_type_id p (store_type schema p v ts parent o).1.predicate_types
      ≡ some (schema.next_id o.predicate_types)
unfolding store_type
store_type-known schema p v ts parent o h =
    let row : PredicateType = record {
      name = p;
      parent_id = some parent;
      created_via = created_via v;
      created_at = some ts;
      cardinality = "multi";
    } in
    let found =
      predicate_type_id-insert p (schema.next_id o.predicate_types) row o.predicate_types refl in
    elim (Bool-cases
      (schema.admits o (predicate_type_row (schema.next_id o.predicate_types) row))) [
        | inl admitted ↦ ground (arith, admitted, found)
        | inr refused ↦ ground (arith, refused, h)
      ]

store_extension-types :
    (schema : Schema) (p agent_id : String) (ts : ℕ) (o : Ontology)
    → (store_extension schema p agent_id ts o).1.predicate_types ≡ o.predicate_types
unfolding store_extension
store_extension-types schema p agent_id ts o = ground arith

pub extend_predicates-IsKnown :
    (schema : Schema) (p : String) (v : Provenance) (agent_id : String) (ts : ℕ) (parent : Option ℕ)
    (o o' : Ontology)
    → extend_predicates schema p v agent_id ts parent o ≡ (ok tt, o')
    → IsKnown p o'
unfolding extend_predicates
extend_predicates-IsKnown schema p v agent_id ts none o o' h = ground arith
extend_predicates-IsKnown schema p v agent_id ts (some parent) o o' h =
    let (u, stored, h₁) =
      bind-ok (store_type schema p v ts parent)
        (λ _. rebuild_closure schema >> store_extension schema p agent_id ts) o o' tt h in
    let (w, rebuilt, h₂) =
      bind-ok (rebuild_closure schema) (λ _. store_extension schema p agent_id ts)
        (store_type schema p v ts parent o).1 o' tt h₁ in
    let mid = (rebuild_closure schema (store_type schema p v ts parent o).1).1 in
    let known = store_type-known schema p v ts parent o stored in
    let kept = rebuild_closure-types schema (store_type schema p v ts parent o).1 in
    let last = store_extension-types schema p agent_id ts mid in
    let same : o'.predicate_types ≡ (store_type schema p v ts parent o).1.predicate_types = cc in
    (schema.next_id o.predicate_types, rw same known)
