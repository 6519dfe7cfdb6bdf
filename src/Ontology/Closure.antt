-- ===== src/Ontology/Closure.antt =====
-- What `rebuild_closure` (crates/aver-core/src/seed.rs) stores, in terms of the parents.
use mathlib.Core.Path.{sym, ap, subst}
use aver.Exec.{◌>>◌, ok, bind-ok}
use aver.Prelude.{
  ℕ, zero, suc, Bool, true, false, Option, none, some, List, [], ◌∷◌, ◌&&◌, ◌||◌, ◌≡◌, refl, ◌↔◌,
  ◌⊎◌, inl, inr, arith, map, nat_beq, nat_beq_iff, Table, Bool-cases, Option-cases, length,
}
use aver.Ontology.{
  Ontology, Schema, PredicateType, parent_of, chain, pair_mem, close_child, close_children,
  rebuild_closure,
}

-- `b` is `a` or an ancestor of it.
pub data Reaches (types : Table ℕ PredicateType) : ℕ → ℕ → Type 0 where
  self : {a : ℕ} → Reaches types a a
  up : {a p b : ℕ} → parent_of types a ≡ some p → Reaches types p b → Reaches types a b

abbrev pub is_in : ℕ → List ℕ → Bool
is_in a [] = false
is_in a (b ∷ bs) = nat_beq b a || is_in a bs

abbrev ReachesFrom : Table ℕ PredicateType → Option ℕ → ℕ → Type 0
ReachesFrom types none b = ⊥
ReachesFrom types (some a) b = Reaches types a b

below :
    (types : Table ℕ PredicateType) (a b : ℕ) (parent : Option ℕ)
    → parent_of types a ≡ parent
    → ReachesFrom types parent b
    → Reaches types a b
below types a b none e r = absurd r
below types a b (some p) e r = up e r

above :
    (types : Table ℕ PredicateType) (a b : ℕ)
    → Reaches types a b
    → (a ≡ b) ⊎ ReachesFrom types (parent_of types a) b
above types a b self = inl refl
above types a b (up {p = p} e r) = inr (rw e r)

cons_iff :
    (types : Table ℕ PredicateType) (id b : ℕ) (rest : List ℕ)
    → (is_in b rest ≡ true) ↔ ReachesFrom types (parent_of types id) b
    → (is_in b (id ∷ rest) ≡ true) ↔ Reaches types id b
cons_iff types id b rest ih = (
  λ p. elim (Bool-cases (nat_beq id b)) [
    | inl hit ↦ subst (Reaches types id) ((nat_beq_iff id b).0 hit) self
    | inr miss ↦ below types id b (parent_of types id) refl (ih.0 (ground (arith, p, miss)))
  ],
  λ r. elim (above types id b r) [
    | inl e ↦ ground (arith, e)
    | inr r' ↦ let q = ih.1 r' in ground (arith, q)
  ],
)

chain_iff :
    (fuel : ℕ) (types : Table ℕ PredicateType) (start : Option ℕ) (ids : List ℕ) (b : ℕ)
    → chain fuel types start ≡ some ids
    → (is_in b ids ≡ true) ↔ ReachesFrom types start b
unfolding chain
chain_iff zero types none ids b h = (λ p. ground arith, λ r. absurd r)
chain_iff (suc fuel) types none ids b h = (λ p. ground arith, λ r. absurd r)
chain_iff zero types (some id) ids b h = (λ p. ground arith, λ r. ground arith)
chain_iff (suc fuel) types (some id) ids b h =
    elim (Option-cases (chain fuel types (parent_of types id))) [
      | inl none' ↦ (λ p. ground arith, λ r. ground arith)
      | inr (rest, e) ↦
          let p : id ∷ rest ≡ ids = ground arith in
          subst (λ ids. (is_in b ids ≡ true) ↔ Reaches types id b) p
            (cons_iff types id b rest (chain_iff fuel types (parent_of types id) rest b e))
    ]

close_child_iff :
    (schema : Schema) (child : ℕ) (ids : List ℕ) (o o' : Ontology) (c b : ℕ)
    → close_child schema child ids o ≡ (ok tt, o')
    → pair_mem c b o'.predicate_closure
      ≡ (pair_mem c b o.predicate_closure || (nat_beq child c && is_in b ids))
unfolding close_child pair_mem
close_child_iff schema child [] o o' c b h = ground arith
close_child_iff schema child (a ∷ ids) o o' c b h =
    elim (Bool-cases (pair_mem child a o.predicate_closure)) [
      | inl hit ↦
          let e : close_child schema child ids o ≡ (ok tt, o') = ground (arith, hit) in
          let ih = close_child_iff schema child ids o o' c b e in ground (arith, ih, hit)
      | inr miss ↦
          let e : close_child schema child ids
                (record o { predicate_closure = (child, a) ∷ o.predicate_closure })
              ≡ (ok tt, o') =
            ground (arith, miss) in
          let ih = close_child_iff schema child ids _ o' c b e in ground (arith, ih)
    ]

-- The pair is stored already, or its child is one of the children and its ancestor is reached.
abbrev Stored : Table ℕ PredicateType → List ℕ → Ontology → ℕ → ℕ → Type 0
Stored types children o c b =
    (pair_mem c b o.predicate_closure ≡ true) ⊎ ((is_in c children ≡ true) × Reaches types c b)

Stored-iff :
    (types : Table ℕ PredicateType) (child : ℕ) (children ids : List ℕ) (o mid : Ontology) (c b : ℕ)
    → pair_mem c b mid.predicate_closure
      ≡ (pair_mem c b o.predicate_closure || (nat_beq child c && is_in b ids))
    → (is_in b ids ≡ true) ↔ Reaches types child b
    → Stored types children mid c b ↔ Stored types (child ∷ children) o c b
Stored-iff types child children ids o mid c b one reach = (
  λ s. elim s [
    | inl p ↦ elim (Bool-cases (pair_mem c b o.predicate_closure)) [
      | inl old ↦ inl old
      | inr new ↦
          let hit : nat_beq child c ≡ true = ground (arith, one, p, new) in
          let found : is_in b ids ≡ true = ground (arith, one, p, new) in
          inr (
            ground (arith, hit),
            subst (λ c. Reaches types c b) ((nat_beq_iff child c).0 hit) (reach.0 found),
          )
    ]
    | inr q ↦ inr (ground (arith, q.0), q.1)
  ],
  λ s. elim s [
    | inl p ↦ inl (ground (arith, one, p))
    | inr q ↦ elim (Bool-cases (nat_beq child c)) [
      | inl hit ↦
          let found =
            reach.1 (subst (λ c. Reaches types c b) (sym ((nat_beq_iff child c).0 hit)) q.1) in
          inl (ground (arith, one, hit, found))
      | inr miss ↦ inr (ground (arith, q.0, miss), q.1)
    ]
  ],
)

compose : {A B C : Type 0} → A ↔ B → B ↔ C → A ↔ C
compose e f = (λ a. f.0 (e.0 a), λ c. e.1 (f.1 c))

close_children_iff :
    (schema : Schema) (fuel : ℕ) (types : Table ℕ PredicateType) (children : List ℕ)
    (o o' : Ontology) (c b : ℕ)
    → close_children schema fuel types children o ≡ (ok tt, o')
    → (pair_mem c b o'.predicate_closure ≡ true) ↔ Stored types children o c b
unfolding close_children
close_children_iff schema fuel types [] o o' c b h = (
  λ p. inl (ground (arith, p)),
  λ s. elim s [ inl p ↦ ground (arith, p) | inr q ↦ ground (arith, q.0) ],
)
close_children_iff schema fuel types (child ∷ children) o o' c b h =
    elim (Option-cases (chain fuel types (some child))) [
      | inl none' ↦ absurd (ground (arith, none'))
      | inr (ids, e) ↦
          let run : (do close_child schema child ids; close_children schema fuel types children) o
              ≡ (ok tt, o') =
            ground (arith, e) in
          let (u, first, later) =
            bind-ok (close_child schema child ids) (λ _. close_children schema fuel types children)
              o o' tt run in
          let mid = (close_child schema child ids o).1 in
          let one = close_child_iff schema child ids o mid c b (ap (λ r. (r, mid)) first) in
          let more = close_children_iff schema fuel types children mid o' c b later in
          let reach = chain_iff fuel types (some child) ids b e in
          compose more (Stored-iff types child children ids o mid c b one reach)
    ]

-- If `rebuild_closure` returns, the closure holds a pair exactly if its child is a predicate type
-- and its ancestor is that type or is reached from it by parents; what the closure held before is
-- forgotten.
pub rebuild_closure_iff :
    (schema : Schema) (o o' : Ontology) (c b : ℕ)
    → rebuild_closure schema o ≡ (ok tt, o')
    → (pair_mem c b o'.predicate_closure ≡ true)
      ↔ ((is_in c (map (λ r. r.0) o.predicate_types) ≡ true) × Reaches o.predicate_types c b)
unfolding rebuild_closure
rebuild_closure_iff schema o o' c b h =
    let s =
      close_children_iff schema (suc (length o.predicate_types)) o.predicate_types
        (map (λ r. r.0) o.predicate_types) (record o { predicate_closure = [] }) o' c b h in
    (λ p. elim (s.0 p) [ inl q ↦ absurd (ground (arith, q)) | inr q ↦ q ], λ q. s.1 (inr q))
