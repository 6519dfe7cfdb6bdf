-- ===== src/Apply/Covers/OnClaims.antt =====
-- The writes of the claim records.
use aver.Apply.Steps.{
  active_or, Steps, here, Same, claim_added, claim_changed, statement-Steps, bind-Steps,
  on_ontology-Steps,
}
use aver.Prelude.{
  ℕ, String, Bool, ◌≡◌, List, [], ◌∷◌, true, false, none, some, arith, find, Option-cases,
  Bool-cases, inl, inr, nat_eq,
}
use aver.Exec.{Exec, ◌>>◌}
use aver.Types.{AgentKind, Provenance, superseded}
use aver.Log.{AddClaim, ConfidenceChange}
use aver.Ontology.{ensure_predicate_known, ensure_entity}
use aver.Db.{Db, Host, ClaimRow, Applied, applied, claim_row, on_ontology}
use aver.Apply.Claims

module _ (h : Host) where
  update_claim-Steps :
      {A : Type 0} (id : ℕ) (c row : ClaimRow) (a : A) (db : Db)
      → find id db.claims ≡ some c
      → Same c row
      → Steps db (Claims.update_claim h id row a db).1
  unfolding Claims.update_claim
  update_claim-Steps id c row a db found same =
      statement-Steps (h.admits db (claim_row id row)) a _ db (claim_changed id c row found same)

  insert_claim-Steps :
      (r : AddClaim) (k : AgentKind) (p : Provenance) (db : Db)
      → find r.claim_id db.claims ≡ none
      → Steps db (Claims.insert_claim h r k p db).1
  unfolding Claims.insert_claim
  insert_claim-Steps r k p db free =
      let row = Claims.new_claim r k p in
      statement-Steps (h.admits db (claim_row r.claim_id row)) applied _ db
        (claim_added r.claim_id row free)

  fresh_claim-Steps :
      (r : AddClaim) (k : AgentKind) (p : Provenance) (db : Db)
      → find r.claim_id db.claims ≡ none
      → Steps db (Claims.fresh_claim h r k p db).1
  unfolding Claims.fresh_claim
  fresh_claim-Steps r k p db free =
      let known = ensure_predicate_known h.schema r.predicate p r.agent_id r.ts in
      let subject = ensure_entity h.schema r.subject r.ts in
      let object = ensure_entity h.schema r.object r.ts in
      let last = Claims.insert_claim h r k p in
      let two : Exec Db Applied = on_ontology object >> last in
      let three : Exec Db Applied = on_ontology subject >> two in
      bind-Steps (on_ontology known) (λ _. three) db (on_ontology-Steps known db)
        λ _ _.
          let db₁ : Db = (on_ontology known db).1 in
          bind-Steps (on_ontology subject) (λ _. two) db₁ (on_ontology-Steps subject db₁)
            λ _ _.
              let db₂ : Db = (on_ontology subject db₁).1 in
              bind-Steps (on_ontology object) (λ _. last) db₂ (on_ontology-Steps object db₂)
                λ _ _. insert_claim-Steps r k p (on_ontology object db₂).1 free

  pub add_claim-Steps :
      (r : AddClaim) (k : AgentKind) (p : Provenance) (db : Db)
      → Steps db (Claims.add_claim h r k p db).1
  unfolding Claims.add_claim
  add_claim-Steps r k p db = elim (Option-cases (find r.claim_id db.claims)) [
    | inr (c, found) ↦ rw (found, Claims.add_claim) here
    | inl free ↦ rw (free, Claims.add_claim) (fresh_claim-Steps r k p db free)
  ]

  pub retire_claim-Steps :
      (ts id : ℕ) (reason : String) (db : Db) → Steps db (Claims.retire_claim h ts id reason db).1
  unfolding Claims.retire_claim
  retire_claim-Steps ts id reason db = elim (Option-cases (find id db.claims)) [
    | inl missing ↦ rw (missing, Claims.retire_claim) here
    | inr (c, found) ↦
        rw (found, Claims.retire_claim)
          (elim (Bool-cases (Claims.is_invalidated c.status)) [
            | inl t ↦ rw t here
            | inr f ↦ rw f (
                update_claim-Steps id c (Claims.retired_row ts reason c) applied db found
                  (ground (arith, active_or c.status)))
          ])
  ]

  supersede_claim-Steps : (id : ℕ) (db : Db) → Steps db (Claims.supersede_claim h id db).1
  unfolding Claims.supersede_claim
  supersede_claim-Steps id db = elim (Option-cases (find id db.claims)) [
    | inl missing ↦ rw (missing, Claims.supersede_claim) here
    | inr (c, found) ↦
        rw (found, Claims.supersede_claim)
          (elim (Bool-cases (Claims.is_superseded c.status)) [
            | inl t ↦ rw t here
            | inr f ↦ rw f (
                update_claim-Steps id c (record c { status = superseded }) tt db found
                  (ground (arith, active_or c.status)))
          ])
  ]

  pub supersede_claims-Steps :
      (ids : List ℕ) (db : Db) → Steps db (Claims.supersede_claims h ids db).1
  unfolding Claims.supersede_claims
  supersede_claims-Steps [] db = here
  supersede_claims-Steps (id ∷ ids) db =
      bind-Steps (Claims.supersede_claim h id) (λ _. Claims.supersede_claims h ids) db
        (supersede_claim-Steps id db)
        (λ _ _. supersede_claims-Steps ids (Claims.supersede_claim h id db).1)

  change_confidence-Steps :
      (c : ConfidenceChange) (db : Db) → Steps db (Claims.change_confidence h c db).1
  unfolding Claims.change_confidence
  change_confidence-Steps change db = elim (Option-cases (find change.claim_id db.claims)) [
    | inl missing ↦ rw (missing, Claims.change_confidence) here
    | inr (c, found) ↦
        rw (found, Claims.change_confidence)
          (update_claim-Steps change.claim_id c (record c { confidence = change.confidence }) tt db
            found (ground (arith, active_or c.status)))
  ]

  pub decay_confidence-Steps :
      (cs : List ConfidenceChange) (db : Db) → Steps db (Claims.decay_confidence h cs db).1
  unfolding Claims.decay_confidence
  decay_confidence-Steps [] db = here
  decay_confidence-Steps (c ∷ cs) db =
      bind-Steps (Claims.change_confidence h c) (λ _. Claims.decay_confidence h cs) db
        (change_confidence-Steps c db)
        (λ _ _. decay_confidence-Steps cs (Claims.change_confidence h c db).1)

  merged_row-Same :
      (refs : List String) (promote : Bool) (c : ClaimRow)
      → Same c (Claims.merged_row h refs promote c)
  merged_row-Same refs true c = ground (arith, active_or c.status)
  merged_row-Same refs false c = ground (arith, active_or c.status)

  pub merge_source_refs-Steps :
      (id : ℕ) (refs : List String) (promote : Bool) (db : Db)
      → Steps db (Claims.merge_source_refs h id refs promote db).1
  unfolding Claims.merge_source_refs
  merge_source_refs-Steps id refs promote db = elim (Option-cases (find id db.claims)) [
    | inl missing ↦ rw (missing, Claims.merge_source_refs) here
    | inr (c, found) ↦
        rw (found, Claims.merge_source_refs)
          (update_claim-Steps id c (Claims.merged_row h refs promote c) applied db found
            (merged_row-Same refs promote c))
  ]
