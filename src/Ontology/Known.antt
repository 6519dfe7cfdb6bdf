-- ===== src/Ontology/Known.antt =====
-- What `ensure_predicate_known` (crates/aver-core/src/apply.rs) leaves in the ontology.
use aver.Ontology.{
  created_via, predicate_type_row, extension_row, Extension, Ontology, Schema, PredicateType,
  rebuild_closure, predicate_type_id, store_type, store_extension, extend_predicates,
  ensure_predicate_known,
}
use mathlib.Core.Path.{subst}
use aver.Prelude.{
  nat_eq, ℕ, String, Option, none, some, List, [], ◌∷◌, ◌≡◌, refl, ◌∙◌, ap, ◌⊎◌, inl, inr, arith,
  find, insert, Bool-cases, Option-cases, string_eq, ◌==◌,
}
use aver.Types.{Provenance}
use aver.Exec.{ok, ◌>>◌}
use aver.Ontology.Extended.{IsKnown, then-apart, rebuild_closure-apart, extend_predicates-IsKnown}

-- A predicate that is a type or an alias.
abbrev IsRecognised : String → Ontology → Type 0
IsRecognised p o = IsKnown p o ⊎ ((id : ℕ) × (find p o.predicate_alias ≡ some id))

ensure_predicate_known-IsRecognised :
    (schema : Schema) (p : String) (v : Provenance) (agent_id : String) (ts : ℕ) (o o' : Ontology)
    → ensure_predicate_known schema p v agent_id ts o ≡ (ok tt, o')
    → IsRecognised p o'
unfolding ensure_predicate_known
ensure_predicate_known-IsRecognised schema p v agent_id ts o o' h =
    elim (Option-cases (predicate_type_id p o.predicate_types)) [
      | inr (id, e) ↦
          let same : o ≡ o' = ground (arith, e, h) in subst (IsRecognised p) same (inl (id, e))
      | inl fresh ↦ elim (Option-cases (find p o.predicate_alias)) [
        | inr (id, e) ↦
            let same : o ≡ o' = ground (arith, fresh, e, h) in
            subst (IsRecognised p) same (inr (id, e))
        | inl no_alias ↦
            let run : extend_predicates schema p v agent_id ts
                  (predicate_type_id "relates_to" o.predicate_types) o
                ≡ (ok tt, o') =
              ground (arith, fresh, no_alias, h) in
            inl (extend_predicates-IsKnown schema p v agent_id ts _ o o' run)
      ]
    ]

IsRecognised-unchanged :
    (schema : Schema) (p : String) (v : Provenance) (agent_id : String) (ts : ℕ) (o : Ontology)
    → IsRecognised p o
    → ensure_predicate_known schema p v agent_id ts o ≡ (ok tt, o)
unfolding ensure_predicate_known
IsRecognised-unchanged schema p v agent_id ts o (inl (id, e)) = ground (arith, e)
IsRecognised-unchanged schema p v agent_id ts o (inr (id, e)) =
    elim (Option-cases (predicate_type_id p o.predicate_types)) [
      | inl fresh ↦ ground (arith, fresh, e)
      | inr (k, known) ↦ ground (arith, known)
    ]

store_extension-logged :
    {X : Type 0} (f : Ontology → X)
    → ((o : Ontology) (xs : List Extension) → f (record o { extension_log = xs }) ≡ f o)
    → (schema : Schema) (p agent_id : String) (ts : ℕ) (o : Ontology)
    → f (store_extension schema p agent_id ts o).1 ≡ f o
unfolding store_extension
store_extension-logged f logged schema p agent_id ts o =
    let row : Extension = record {
      predicate = p;
      parent = "relates_to";
      agent_id = agent_id;
      created_at = ts;
    } in
    let stored = logged o (row ∷ o.extension_log) in
    elim (Bool-cases (schema.admits o (extension_row row))) [
      | inl admitted ↦ ground (arith, admitted, stored)
      | inr refused ↦ ground (arith, refused)
    ]

-- What reads neither the closure nor the log of extensions is left as `store_type` leaves it.
extend_predicates-tables :
    {X : Type 0} (f : Ontology → X)
    → ((o : Ontology) (ps : List (ℕ × ℕ)) → f (record o { predicate_closure = ps }) ≡ f o)
    → ((o : Ontology) (xs : List Extension) → f (record o { extension_log = xs }) ≡ f o)
    → (schema : Schema) (p : String) (v : Provenance) (agent_id : String) (ts parent : ℕ)
      (o : Ontology)
    → f (extend_predicates schema p v agent_id ts (some parent) o).1
      ≡ f (store_type schema p v ts parent o).1
unfolding extend_predicates
extend_predicates-tables f apart logged schema p v agent_id ts parent o =
    then-apart f apart (store_type schema p v ts parent o).0
      (rebuild_closure schema >> store_extension schema p agent_id ts)
      (store_type schema p v ts parent o).1
      (λ mid.
        then-apart f apart (rebuild_closure schema mid).0 (store_extension schema p agent_id ts)
          (rebuild_closure schema mid).1 (store_extension-logged f logged schema p agent_id ts)
        ∙ rebuild_closure-apart f apart schema mid)

store_type-IsRecognised :
    (schema : Schema) (p q : String) (v : Provenance) (ts parent : ℕ) (o : Ontology)
    → IsRecognised p o
    → IsRecognised p (store_type schema q v ts parent o).1
unfolding store_type insert predicate_type_id
store_type-IsRecognised schema p q v ts parent o (inr (id, e)) = inr (id, ground (arith, e))
store_type-IsRecognised schema p q v ts parent o (inl (id, e)) =
    let row : PredicateType = record {
      name = q;
      parent_id = some parent;
      created_via = created_via v;
      created_at = some ts;
      cardinality = "multi";
    } in
    elim (Bool-cases
      (schema.admits o (predicate_type_row (schema.next_id o.predicate_types) row))) [
        | inr refused ↦ inl (id, ground (arith, refused, e))
        | inl admitted ↦ elim (Bool-cases (q == p)) [
          | inl same ↦ inl (schema.next_id o.predicate_types, ground (arith, admitted, same))
          | inr other ↦ inl (id, ground (arith, admitted, other, e))
        ]
      ]

extend_predicates-IsRecognised :
    (schema : Schema) (p q : String) (v : Provenance) (agent_id : String) (ts : ℕ)
    (parent : Option ℕ) (o : Ontology)
    → IsRecognised p o
    → IsRecognised p (extend_predicates schema q v agent_id ts parent o).1
unfolding extend_predicates
extend_predicates-IsRecognised schema p q v agent_id ts none o known = known
extend_predicates-IsRecognised schema p q v agent_id ts (some parent) o known =
    let types =
      extend_predicates-tables (λ o. o.predicate_types) (λ o ps. refl) (λ o xs. refl) schema q v
        agent_id ts parent o in
    let aliases =
      extend_predicates-tables (λ o. o.predicate_alias) (λ o ps. refl) (λ o xs. refl) schema q v
        agent_id ts parent o in
    elim (store_type-IsRecognised schema p q v ts parent o known) [
      | inl (id, e) ↦ inl (id, (ap (predicate_type_id p) types ∙ e))
      | inr (id, e) ↦ inr (id, (ap (find p) aliases ∙ e))
    ]

ensure-IsRecognised :
    (schema : Schema) (p q : String) (v : Provenance) (agent_id : String) (ts : ℕ) (o : Ontology)
    → IsRecognised p o
    → IsRecognised p (ensure_predicate_known schema q v agent_id ts o).1
unfolding ensure_predicate_known
ensure-IsRecognised schema p q v agent_id ts o known =
    elim (Option-cases (predicate_type_id q o.predicate_types)) [
      | inr (id, e) ↦
          let same : o ≡ (ensure_predicate_known schema q v agent_id ts o).1 = ground (arith, e) in
          subst (IsRecognised p) same known
      | inl fresh ↦ elim (Option-cases (find q o.predicate_alias)) [
        | inr (id, e) ↦
            let same : o ≡ (ensure_predicate_known schema q v agent_id ts o).1 =
              ground (arith, fresh, e) in
            subst (IsRecognised p) same known
        | inl no_alias ↦
            let parent = predicate_type_id "relates_to" o.predicate_types in
            let same : (extend_predicates schema q v agent_id ts parent o).1
                ≡ (ensure_predicate_known schema q v agent_id ts o).1 =
              ground (arith, fresh, no_alias) in
            subst (IsRecognised p) same
              (extend_predicates-IsRecognised schema p q v agent_id ts parent o known)
      ]
    ]

-- The predicates that later records name, each with its provenance, agent and time.
pub record Naming : Type 0 where
  pub predicate : String
  pub provenance : Provenance
  pub agent_id : String
  pub ts : ℕ

-- The tables after `ensure_predicate_known` for each of them, those that fail included.
unfoldable pub ensure_each : Schema → List Naming → Ontology → Ontology
ensure_each schema [] o = o
ensure_each schema (n ∷ ns) o =
    ensure_each schema ns
      (ensure_predicate_known schema n.predicate n.provenance n.agent_id n.ts o).1

ensure_each-IsRecognised :
    (schema : Schema) (p : String) (ns : List Naming) (o : Ontology)
    → IsRecognised p o
    → IsRecognised p (ensure_each schema ns o)
unfolding ensure_each
ensure_each-IsRecognised schema p [] o known = known
ensure_each-IsRecognised schema p (n ∷ ns) o known =
    ensure_each-IsRecognised schema p ns _
      (ensure-IsRecognised schema p n.predicate n.provenance n.agent_id n.ts o known)

-- Once `ensure_predicate_known` has returned for a predicate, then after it was called for any list of
-- predicates, whether those calls returned or failed, a call for the predicate returns and changes
-- nothing, whatever its provenance, agent and time.
pub ensure_predicate_known-again :
    (schema : Schema) (p : String) (v v' : Provenance) (agent_id agent_id' : String) (ts ts' : ℕ)
    (o o' : Ontology) (ns : List Naming)
    → ensure_predicate_known schema p v agent_id ts o ≡ (ok tt, o')
    → ensure_predicate_known schema p v' agent_id' ts' (ensure_each schema ns o')
      ≡ (ok tt, ensure_each schema ns o')
ensure_predicate_known-again schema p v v' agent_id agent_id' ts ts' o o' ns h =
    IsRecognised-unchanged schema p v' agent_id' ts' _ (
      ensure_each-IsRecognised schema p ns o'
        (ensure_predicate_known-IsRecognised schema p v agent_id ts o o' h))
