-- ===== src/Ontology/Entities.antt =====
-- What `ensure_entity_on` (crates/aver-core/src/ontology.rs) leaves of an entity.
use mathlib.Core.Path.{subst}
use aver.Prelude.{
  nat_eq, ℕ, String, Bool, true, false, Option, none, some, ◌≡◌, ◌≢◌, refl, inl, inr, arith, not,
  ◌&&◌, nat_beq, find, insert, modify, find-insert, find-modify_self, string_eq, ==_refl,
  Bool-cases, if◌then◌else◌,
}
use aver.Exec.{ok, statement}
use aver.Ontology.{
  Ontology, Schema, Entity, entity_row, upsert_entity, ensure_entity, infer_entity_type_name, id_or,
}

-- The row that an upsert of `now` leaves for the row that stood.
abbrev pub Upserted : ℕ → ℕ → Option Entity → Entity → Type 0
Upserted now thing before row =
    (row.last_seen_at ≡ now)
    × ((old : Entity)
        → before ≡ some old
        → (row.created_at ≡ old.created_at) × (old.type_id ≢ thing → row.type_id ≡ old.type_id))

admitted : (b : Bool) (s s' t : Ontology) → statement b tt s' s ≡ (ok tt, t) → s' ≡ t
admitted true s s' t h = ground arith
admitted false s s' t h = ground arith

-- The row that replaces `current`.
abbrev upserted : ℕ → ℕ → ℕ → Entity → Entity
upserted now thing type_id current =
    if nat_beq current.type_id thing && not (nat_beq type_id thing)
    then record current { type_id = type_id; requires_review = false; last_seen_at = now }
    else record current { last_seen_at = now }

-- What `after` has of the row before it.
abbrev Keeps : ℕ → Entity → Entity → Type 0
Keeps thing after old =
    (after.created_at ≡ old.created_at) × (old.type_id ≢ thing → after.type_id ≡ old.type_id)

upserted-Keeps :
    (now thing type_id : ℕ) (current : Entity)
    → Keeps thing (upserted now thing type_id current) current
upserted-Keeps now thing type_id current =
    elim (Bool-cases (nat_beq current.type_id thing && not (nat_beq type_id thing))) [
      | inl hit ↦
          let thing' : current.type_id ≡ thing = ground (arith, hit) in
          (rw hit refl, λ n. absurd (n thing'))
      | inr miss ↦ (rw miss refl, λ n. rw miss refl)
    ]

upserted-seen :
    (now thing type_id : ℕ) (current : Entity)
    → (upserted now thing type_id current).last_seen_at ≡ now
upserted-seen now thing type_id current = ground arith

upserted-Upserted :
    (now thing type_id : ℕ) (current : Entity)
    → Upserted now thing (some current) (upserted now thing type_id current)
upserted-Upserted now thing type_id current = (
  upserted-seen now thing type_id current,
  λ old b.
      let same : current ≡ old = cc in
      subst (λ x. Keeps thing (upserted now thing type_id current) x) same
        (upserted-Keeps now thing type_id current),
)

upsert_entity-Upserted :
    (schema : Schema) (e : String) (now thing type_id : ℕ) (before : Option Entity)
    (o o' : Ontology)
    → find e o.entities ≡ before
    → upsert_entity schema e now thing type_id before o ≡ (ok tt, o')
    → (row : Entity) × (find e o'.entities ≡ some row) × Upserted now thing before row
unfolding upsert_entity
upsert_entity-Upserted schema e now thing type_id none o o' f h =
    let row : Entity = record {
      type_id = type_id;
      requires_review = nat_beq type_id thing;
      created_at = now;
      last_seen_at = now;
    } in
    let stored =
      admitted (schema.admits o (entity_row e row)) o
        (record o { entities = insert e row o.entities }) o' h in
    let found : find e (insert e row o.entities) ≡ some row =
      rw (find-insert e e row o.entities, ==_refl e) refl in
    (
      row,
      subst (λ (x : Ontology). find e x.entities ≡ some row) stored found,
      (refl, λ old b. absurd (ground (arith, b))),
    )
upsert_entity-Upserted schema e now thing type_id (some current) o o' f h =
    let row = upserted now thing type_id current in
    let stored =
      admitted (schema.admits o (entity_row e row)) o
        (record o { entities = modify e (λ _. row) o.entities }) o' h in
    let found = find-modify_self e row o.entities f in
    (
      row,
      subst (λ (x : Ontology). find e x.entities ≡ some row) stored found,
      upserted-Upserted now thing type_id current,
    )

-- With `Thing` among the entity types, where `ensure_entity_on` returns, the entity is stored as seen now; an entity that was there keeps
-- its time of creation, and keeps its type unless that was `Thing`.
pub ensure_entity-Upserted :
    (schema : Schema) (e : String) (now thing : ℕ) (o o' : Ontology)
    → find "Thing" o.entity_types ≡ some thing
    → ensure_entity schema e now o ≡ (ok tt, o')
    → (row : Entity) × (find e o'.entities ≡ some row) × Upserted now thing (find e o.entities) row
unfolding ensure_entity
ensure_entity-Upserted schema e now thing o o' t h =
    let type_id = id_or thing (find (infer_entity_type_name o e) o.entity_types) in
    let run : upsert_entity schema e now thing type_id (find e o.entities) o ≡ (ok tt, o') =
      ground (arith, t, h) in
    upsert_entity-Upserted schema e now thing type_id (find e o.entities) o o' refl run
