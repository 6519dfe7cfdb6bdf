-- ===== src/Ontology/Total.antt =====
-- When `rebuild_closure` (crates/aver-core/src/seed.rs) returns.
use aver.Prelude.{
  ℕ, zero, suc, true, some, List, [], ◌∷◌, ◌≡◌, refl, inl, inr, arith, map, ltb, leb, Table,
  Bool-cases, Option-cases, length, find, nat_eq, ◌==◌, false, sym, ◌∙◌,
}
use aver.Exec.{ok}
use mathlib.Core.Path.{subst}
use aver.Ontology.{
  Ontology, Schema, PredicateType, parent_of, chain, pair_mem, close_child, close_children,
  rebuild_closure, closure_row,
}

-- A rank that falls from a type to its parent and is at most the number of types.
pub record IsRanked (types : Table ℕ PredicateType) (rank : ℕ → ℕ) : Type 0 where
  pub falls : (id p : ℕ) → parent_of types id ≡ some p → ltb (rank p) (rank id) ≡ true
  pub bounded : (id : ℕ) → leb (rank id) (length types) ≡ true

abbrev pub IsType : Table ℕ PredicateType → ℕ → Type 0
IsType types id = (t : PredicateType) × (find id types ≡ some t)

-- The ids of types are positive, and a parent is a type, as the foreign key has it.
pub record IsStored (types : Table ℕ PredicateType) : Type 0 where
  pub positive : (id : ℕ) → IsType types id → ltb 0 id ≡ true
  pub parents : (id p : ℕ) → parent_of types id ≡ some p → IsType types p

-- The schema admits a pair of stored types that the closure does not have.
abbrev pub AdmitsPairs : Schema → Type 0
AdmitsPairs schema =
    (o : Ontology) (child a : ℕ)
    → IsType o.predicate_types child
    → IsType o.predicate_types a
    → ltb 0 child ≡ true
    → ltb 0 a ≡ true
    → pair_mem child a o.predicate_closure ≡ false
    → schema.admits o (closure_row child a) ≡ true

abbrev AllTypes : Table ℕ PredicateType → List ℕ → Type 0
AllTypes types [] = Unit
AllTypes types (id ∷ ids) = IsType types id × AllTypes types ids

IsType-later :
    (j : ℕ) (t : PredicateType) (rows : Table ℕ PredicateType) (id : ℕ)
    → IsType rows id
    → IsType ((j, t) ∷ rows) id
unfolding find
IsType-later j t rows id (u, e) = elim (Bool-cases (j == id)) [
  | inl here ↦ (t, rw here refl)
  | inr there ↦ (u, rw there e)
]

AllTypes-later :
    (j : ℕ) (t : PredicateType) (rows : Table ℕ PredicateType) (ids : List ℕ)
    → AllTypes rows ids
    → AllTypes ((j, t) ∷ rows) ids
AllTypes-later j t rows [] all = tt
AllTypes-later j t rows (id ∷ ids) (h, all) =
    (IsType-later j t rows id h, AllTypes-later j t rows ids all)

keys-AllTypes : (types : Table ℕ PredicateType) → AllTypes types (map (λ r. r.0) types)
unfolding find
keys-AllTypes [] = tt
keys-AllTypes ((j, t) ∷ rows) =
    ((t, rw ((nat_eq.agrees j j).1 refl) refl), AllTypes-later j t rows _ (keys-AllTypes rows))

chain-total :
    (fuel : ℕ) (types : Table ℕ PredicateType) (rank : ℕ → ℕ) (id : ℕ)
    → IsRanked types rank
    → IsStored types
    → IsType types id
    → ltb (rank id) fuel ≡ true
    → (ids : List ℕ) × (chain fuel types (some id) ≡ some ids) × AllTypes types ids
unfolding chain
chain-total zero types rank id r s k h = ground arith
chain-total (suc fuel) types rank id r s k h = elim (Option-cases (parent_of types id)) [
  | inl root ↦ (id ∷ [], rw (chain, root) refl, (k, tt))
  | inr (p, e) ↦
      let lower = r.falls id p e in
      let (ids, found, all) =
        chain-total fuel types rank p r s (s.parents id p e) (ground (arith, lower, h)) in
      (id ∷ ids, rw (chain, e, found) refl, (k, all))
]

close_child-total :
    (schema : Schema) (child : ℕ) (ids : List ℕ) (o : Ontology)
    → AdmitsPairs schema
    → IsStored o.predicate_types
    → IsType o.predicate_types child
    → AllTypes o.predicate_types ids
    → (o' : Ontology) × (close_child schema child ids o ≡ (ok tt, o'))
      × (o'.predicate_types ≡ o.predicate_types)
unfolding close_child
close_child-total schema child [] o a s k all = (o, refl, refl)
close_child-total schema child (b ∷ ids) o a s k (kb, all) =
    elim (Bool-cases (pair_mem child b o.predicate_closure)) [
      | inl hit ↦
          let (o', e, same) = close_child-total schema child ids o a s k all in (o', rw hit e, same)
      | inr miss ↦
          let (o', e, same) =
            close_child-total schema child ids
              (record o { predicate_closure = (child, b) ∷ o.predicate_closure }) a s k all in
          let admitted = a o child b k kb (s.positive child k) (s.positive b kb) miss in
          (o', rw (miss, admitted) e, same)
    ]

close_children-total :
    (schema : Schema) (types : Table ℕ PredicateType) (rank : ℕ → ℕ) (children : List ℕ)
    (o : Ontology)
    → IsRanked types rank
    → IsStored types
    → AdmitsPairs schema
    → o.predicate_types ≡ types
    → AllTypes types children
    → (o' : Ontology) × (close_children schema (suc (length types)) types children o ≡ (ok tt, o'))
unfolding close_children
close_children-total schema types rank [] o r s a same all = (o, refl)
close_children-total schema types rank (child ∷ children) o r s a same (k, all) =
    let (ids, e, types') =
      chain-total (suc (length types)) types rank child r s k
        (let b = r.bounded child in ground (arith, b)) in
    let (mid, first, same') =
      close_child-total schema child ids o a (subst IsStored (sym same) s)
        (subst (λ t. IsType t child) (sym same) k)
        (subst (λ t. AllTypes t ids) (sym same) types') in
    let (o', later) =
      close_children-total schema types rank children mid r s a (same' ∙ same) all in
    (o', rw (close_children, e, first) later)

-- Where some rank falls from each predicate type to its parent and is at most the number of types,
-- ids are positive, parents are stored, and the schema admits each new pair of stored types,
-- `rebuild_closure` returns without an error.
pub rebuild_closure-total :
    (schema : Schema) (rank : ℕ → ℕ) (o : Ontology)
    → IsRanked o.predicate_types rank
    → IsStored o.predicate_types
    → AdmitsPairs schema
    → (o' : Ontology) × (rebuild_closure schema o ≡ (ok tt, o'))
unfolding rebuild_closure
rebuild_closure-total schema rank o r s a =
    close_children-total schema o.predicate_types rank (map (λ r. r.0) o.predicate_types)
      (record o { predicate_closure = [] }) r s a refl (keys-AllTypes o.predicate_types)
