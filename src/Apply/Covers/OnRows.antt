-- ===== src/Apply/Covers/OnRows.antt =====
-- The writes of the event, observation, candidate, contradiction and vector records.
use aver.Prelude.{
  refl, ℕ, String, ◌≡◌, List, Option, none, some, find, Option-cases, Bool-cases, inl, inr, nat_eq,
  string_eq, Table, nat_beq, length,
}
use aver.Types.{CandidateStatus, pending, promoted, rejected}
use aver.Log.{
  RecordEvent, RecordObservation, PruneObservations, ProposeCandidateClaim, AddContradiction,
  AddVectorChunk,
}
use aver.Db.{
  Db, Host, CandidateRow, ChunkRow, applied, event_row, observation_row, prune_marker_row,
  candidate_row, contradiction_row, chunk_row, index_row,
}
use aver.Apply.Episodic
use aver.Apply.Candidates
use aver.Apply.Vectors
use aver.Apply.Steps.{
  Steps, here, event_added, observation_added, marker_added, candidate_proposed, candidate_promoted,
  candidate_rejected, contradiction_added, chunk_added, chunk_embedded, chunk_indexed,
  statement-Steps, bind-Steps,
}

module _ (h : Host) where
  pub record_event-Steps : (r : RecordEvent) (db : Db) → Steps db (Episodic.record_event h r db).1
  unfolding Episodic.record_event
  record_event-Steps r db = elim (Option-cases (find r.event_id db.episodic_events)) [
    | inr (e, found) ↦ rw (found, Episodic.record_event) here
    | inl free ↦
        rw (free, Episodic.record_event)
          (statement-Steps (h.admits db (event_row r.event_id (Episodic.new_event r))) applied _ db
            (event_added r.event_id (Episodic.new_event r) free))
  ]

  pub record_observation-Steps :
      (r : RecordObservation) (db : Db) → Steps db (Episodic.record_observation h r db).1
  unfolding Episodic.record_observation
  record_observation-Steps r db = elim (Option-cases (find r.observation_id db.observations)) [
    | inr (o, found) ↦ rw (found, Episodic.record_observation) here
    | inl free ↦
        rw (free, Episodic.record_observation)
          (statement-Steps
            (h.admits db (observation_row r.observation_id (Episodic.new_observation r))) applied _
            db (observation_added r.observation_id (Episodic.new_observation r) free))
  ]

  pub prune_observations-Steps :
      (r : PruneObservations) (db : Db) → Steps db (Episodic.prune_observations h r db).1
  unfolding Episodic.prune_observations
  prune_observations-Steps r db =
      elim (Option-cases (find r.prune_marker_id db.observation_prune_markers)) [
        | inr (m, found) ↦ rw (found, Episodic.prune_observations) here
        | inl free ↦
            rw (free, Episodic.prune_observations)
              (statement-Steps
                (h.admits db (prune_marker_row r.prune_marker_id (Episodic.new_marker r))) applied _
                db (marker_added r.prune_marker_id (Episodic.new_marker r) free))
      ]

  pub add_contradiction-Steps :
      (r : AddContradiction) (db : Db) → Steps db (Candidates.add_contradiction h r db).1
  unfolding Candidates.add_contradiction
  add_contradiction-Steps r db = elim (Option-cases (find r.contradiction_id db.contradictions)) [
    | inr (c, found) ↦ rw (found, Candidates.add_contradiction) here
    | inl free ↦
        rw (free, Candidates.add_contradiction)
          (statement-Steps
            (h.admits db (contradiction_row r.contradiction_id (Candidates.new_contradiction r)))
            applied _ db
            (contradiction_added r.contradiction_id (Candidates.new_contradiction r) free))
  ]

  pub propose_candidate_claim-Steps :
      (r : ProposeCandidateClaim) (db : Db) → Steps db (Candidates.propose_candidate_claim h r db).1
  unfolding Candidates.propose_candidate_claim
  propose_candidate_claim-Steps r db =
      elim (Option-cases (find r.candidate_id db.candidate_claims)) [
        | inr (c, found) ↦ rw (found, Candidates.propose_candidate_claim) here
        | inl free ↦
            rw (free, Candidates.propose_candidate_claim)
              (statement-Steps
                (h.admits db (candidate_row r.candidate_id (Candidates.new_candidate r))) applied _
                db (candidate_proposed r free))
      ]

  promote_from-Steps :
      (id claim_id : ℕ) (c : CandidateRow) (s : CandidateStatus) (db : Db)
      → find id db.candidate_claims ≡ some c
      → c.status ≡ s
      → Steps db (Candidates.promote_from h id claim_id c s db).1
  unfolding Candidates.promote_from
  promote_from-Steps id claim_id c promoted db found at_s = here
  promote_from-Steps id claim_id c rejected db found at_s = here
  promote_from-Steps id claim_id c pending db found at_s =
      elim (Option-cases (find claim_id db.claims)) [
        | inl missing ↦ rw (missing, Candidates.promote_from) here
        | inr (claim, there) ↦
            rw (there, Candidates.promote_from)
              (statement-Steps
                (h.admits db (
                  candidate_row id
                    (record c { status = promoted; promoted_claim_id = some claim_id })))
                applied _ db (candidate_promoted id claim_id c claim found at_s there))
      ]

  pub promote_candidate_claim-Steps :
      (id claim_id : ℕ) (db : Db) → Steps db (Candidates.promote_candidate_claim h id claim_id db).1
  unfolding Candidates.promote_candidate_claim
  promote_candidate_claim-Steps id claim_id db = elim (Option-cases (find id db.candidate_claims)) [
    | inl missing ↦ rw (missing, Candidates.promote_candidate_claim) here
    | inr (c, found) ↦
        rw (found, Candidates.promote_candidate_claim)
          (promote_from-Steps id claim_id c c.status db found refl)
  ]

  reject_from-Steps :
      (id : ℕ) (reason : String) (c : CandidateRow) (s : CandidateStatus) (db : Db)
      → find id db.candidate_claims ≡ some c
      → c.status ≡ s
      → Steps db (Candidates.reject_from h id reason c s db).1
  unfolding Candidates.reject_from
  reject_from-Steps id reason c rejected db found at_s = here
  reject_from-Steps id reason c promoted db found at_s = here
  reject_from-Steps id reason c pending db found at_s =
      statement-Steps
        (h.admits db
          (candidate_row id (record c { status = rejected; rejection_reason = some reason })))
        applied _ db (candidate_rejected id reason c found at_s)

  pub reject_candidate_claim-Steps :
      (id : ℕ) (reason : String) (db : Db)
      → Steps db (Candidates.reject_candidate_claim h id reason db).1
  unfolding Candidates.reject_candidate_claim
  reject_candidate_claim-Steps id reason db = elim (Option-cases (find id db.candidate_claims)) [
    | inl missing ↦ rw (missing, Candidates.reject_candidate_claim) here
    | inr (c, found) ↦
        rw (found, Candidates.reject_candidate_claim)
          (reject_from-Steps id reason c c.status db found refl)
  ]

  insert_index-Steps :
      (id : ℕ) (json : String) (o : Option (Table ℕ String)) (db : Db)
      → db.vector_index ≡ o
      → Steps db (Vectors.insert_index h id json o db).1
  unfolding Vectors.insert_index
  insert_index-Steps id json none db e = here
  insert_index-Steps id json (some t) db e = elim (Option-cases (find id t)) [
    | inr (j, found) ↦ rw (found, Vectors.insert_index) here
    | inl free ↦
        rw (free, Vectors.insert_index)
          (statement-Steps (h.admits db (index_row id json)) applied _ db
            (chunk_indexed id json t e free))
  ]

  index_embedding-Steps :
      (id : ℕ) (v : List ℕ) (db : Db) → Steps db (Vectors.index_embedding h id v db).1
  unfolding Vectors.index_embedding
  index_embedding-Steps id v db = elim (Bool-cases (nat_beq (length v) Vectors.vector_index_dim)) [
    | inl t ↦
        rw (t, Vectors.index_embedding)
          (insert_index-Steps id (h.embedding_json v) db.vector_index db refl)
    | inr f ↦ rw (f, Vectors.index_embedding) here
  ]

  index_some-Steps :
      (id : ℕ) (v : Option (List ℕ)) (db : Db) → Steps db (Vectors.index_some h id v db).1
  unfolding Vectors.index_some
  index_some-Steps id none db = here
  index_some-Steps id (some v) db = index_embedding-Steps id v db

  insert_chunk-Steps :
      (r : AddVectorChunk) (db : Db)
      → find r.chunk_id db.vector_chunks ≡ none
      → Steps db (Vectors.insert_chunk h r db).1
  unfolding Vectors.insert_chunk
  insert_chunk-Steps r db free =
      statement-Steps (h.admits db (chunk_row r.chunk_id (Vectors.new_chunk h r))) tt _ db
        (chunk_added r.chunk_id (Vectors.new_chunk h r) free)

  pub add_vector_chunk-Steps :
      (r : AddVectorChunk) (db : Db) → Steps db (Vectors.add_vector_chunk h r db).1
  unfolding Vectors.add_vector_chunk
  add_vector_chunk-Steps r db = elim (Option-cases (find r.chunk_id db.vector_chunks)) [
    | inr (c, found) ↦ rw (found, Vectors.add_vector_chunk) here
    | inl free ↦
        rw (free, Vectors.add_vector_chunk)
          (bind-Steps (Vectors.insert_chunk h r) (λ _. Vectors.index_some h r.chunk_id r.embedding)
            db (insert_chunk-Steps r db free)
            (λ _ _. index_some-Steps r.chunk_id r.embedding (Vectors.insert_chunk h r db).1))
  ]

  embed_over-Steps :
      (id : ℕ) (v : List ℕ) (c : ChunkRow) (o : Option String) (db : Db)
      → find id db.vector_chunks ≡ some c
      → c.embedding_json ≡ o
      → Steps db (Vectors.embed_over h id v c o db).1
  unfolding Vectors.embed_over
  embed_over-Steps id v c (some j) db found e = here
  embed_over-Steps id v c none db found e =
      let json = h.embedding_json v in
      bind-Steps (Vectors.set_embedding h id c json) (λ _. Vectors.index_embedding h id v) db
        (statement-Steps (h.admits db (chunk_row id (record c { embedding_json = some json }))) tt _
          db (chunk_embedded id c json found e))
        (λ _ _. index_embedding-Steps id v (Vectors.set_embedding h id c json db).1)

  pub embed_vector_chunk-Steps :
      (id : ℕ) (v : List ℕ) (db : Db) → Steps db (Vectors.embed_vector_chunk h id v db).1
  unfolding Vectors.embed_vector_chunk
  embed_vector_chunk-Steps id v db = elim (Option-cases (find id db.vector_chunks)) [
    | inl missing ↦ rw (missing, Vectors.embed_vector_chunk) here
    | inr (c, found) ↦
        rw (found, Vectors.embed_vector_chunk)
          (embed_over-Steps id v c c.embedding_json db found refl)
  ]
