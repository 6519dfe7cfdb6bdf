-- ===== src/Apply/Covers/OnHyperedges.antt =====
-- The writes of the hyperedge records.
use aver.Prelude.{
  ℕ, ◌≡◌, List, [], ◌∷◌, none, some, find, Option-cases, inl, inr, nat_eq, arith, find-insert,
}
use aver.Exec.{Exec, ok, ◌>>◌}
use aver.Types.{Provenance}
use aver.Log.{AddHyperedge, Participant}
use aver.Ontology.{ensure_predicate_known, ensure_entity}
use aver.Db.{Db, Host, HyperedgeRow, Applied, hyperedge_row, participant_row, on_ontology}
use aver.Apply.Hyperedges
use aver.Apply.Steps.{
  Steps, here, hyperedge_added, participant_added, statement-Steps, bind-Steps, on_ontology-Steps,
}

module _ (h : Host) where
  insert_participant-Steps :
      (id : ℕ) (p : Participant) (e : HyperedgeRow) (db : Db)
      → find id db.hyperedges ≡ some e
      → Steps db (Hyperedges.insert_participant h id p db).1
  unfolding Hyperedges.insert_participant
  insert_participant-Steps id p e db found =
      statement-Steps (h.admits db (participant_row id p)) tt _ db (participant_added id p e found)

  -- Participants are no hyperedges.
  hyperedges-insert_participant :
      (id : ℕ) (p : Participant) (db : Db)
      → (Hyperedges.insert_participant h id p db).1.hyperedges ≡ db.hyperedges
  unfolding Hyperedges.insert_participant
  hyperedges-insert_participant id p db = ground arith

  insert_participants-Steps :
      (id ts : ℕ) (ps : List Participant) (e : HyperedgeRow) (db : Db)
      → find id db.hyperedges ≡ some e
      → Steps db (Hyperedges.insert_participants h id ts ps db).1
  unfolding Hyperedges.insert_participants
  insert_participants-Steps id ts [] e db found = here
  insert_participants-Steps id ts (p ∷ ps) e db found =
      let entity = ensure_entity h.schema p.entity ts in
      let rest = Hyperedges.insert_participants h id ts ps in
      let two : Exec Db Applied = Hyperedges.insert_participant h id p >> rest in
      bind-Steps (on_ontology entity) (λ _. two) db (on_ontology-Steps entity db)
        λ _ _.
          let db₁ : Db = (on_ontology entity db).1 in
          bind-Steps (Hyperedges.insert_participant h id p) (λ _. rest) db₁
            (insert_participant-Steps id p e db₁ found)
            λ _ _.
              insert_participants-Steps id ts ps e (Hyperedges.insert_participant h id p db₁).1
                (rw (hyperedges-insert_participant id p db₁) found)

  insert_hyperedge-Steps :
      (r : AddHyperedge) (p : Provenance) (db : Db)
      → find r.hyperedge_id db.hyperedges ≡ none
      → Steps db (Hyperedges.insert_hyperedge h r p db).1
  unfolding Hyperedges.insert_hyperedge
  insert_hyperedge-Steps r p db free =
      let row = Hyperedges.new_hyperedge r p in
      statement-Steps (h.admits db (hyperedge_row r.hyperedge_id row)) tt _ db
        (hyperedge_added r.hyperedge_id row free)

  insert_hyperedge-stored :
      (r : AddHyperedge) (p : Provenance) (db : Db)
      → (Hyperedges.insert_hyperedge h r p db).0 ≡ ok tt
      → find r.hyperedge_id (Hyperedges.insert_hyperedge h r p db).1.hyperedges
        ≡ some (Hyperedges.new_hyperedge r p)
  unfolding Hyperedges.insert_hyperedge
  insert_hyperedge-stored r p db e = ground (
    arith,
    find-insert r.hyperedge_id r.hyperedge_id (Hyperedges.new_hyperedge r p) db.hyperedges,
  )

  fresh_hyperedge-Steps :
      (r : AddHyperedge) (p : Provenance) (db : Db)
      → find r.hyperedge_id db.hyperedges ≡ none
      → Steps db (Hyperedges.fresh_hyperedge h r p db).1
  unfolding Hyperedges.fresh_hyperedge
  fresh_hyperedge-Steps r p db free =
      let known = ensure_predicate_known h.schema r.predicate p "local" r.ts in
      let last = Hyperedges.insert_participants h r.hyperedge_id r.ts r.participants in
      let store = Hyperedges.insert_hyperedge h r p in
      let two : Exec Db Applied = store >> last in
      bind-Steps (on_ontology known) (λ _. two) db (on_ontology-Steps known db)
        λ _ _.
          let db₁ : Db = (on_ontology known db).1 in
          bind-Steps store (λ _. last) db₁ (insert_hyperedge-Steps r p db₁ free)
            λ u done.
              insert_participants-Steps r.hyperedge_id r.ts r.participants
                (Hyperedges.new_hyperedge r p) (store db₁).1 (insert_hyperedge-stored r p db₁ done)

  pub add_hyperedge-Steps :
      (r : AddHyperedge) (p : Provenance) (db : Db) → Steps db (Hyperedges.add_hyperedge h r p db).1
  unfolding Hyperedges.add_hyperedge
  add_hyperedge-Steps r p db = elim (Option-cases (find r.hyperedge_id db.hyperedges)) [
    | inr (e, found) ↦ rw (found, Hyperedges.add_hyperedge) here
    | inl free ↦ rw (free, Hyperedges.add_hyperedge) (fresh_hyperedge-Steps r p db free)
  ]
