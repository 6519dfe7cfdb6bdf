-- ===== src/Apply/Duplicates.antt =====
-- Records that `apply` reports as duplicates.
use aver.Prelude.{ℕ, ◌≡◌, ◌≢◌, List, [], ◌∷◌, Option, arith}
use aver.Exec.{Exec, ◌>>=◌, Result, err, continue, ok}
use aver.Log.{
  AddHyperedge, LogRecord, ConfidenceChange, add_claim, add_hyperedge, record_event,
  record_observation, prune_observations, retire_claim, add_contradiction, propose_candidate_claim,
  promote_candidate_claim, reject_candidate_claim, supersede_claims, decay_confidence,
  merge_source_refs, add_vector_chunk, embed_vector_chunk, Participant,
}
use aver.Db.{on_ontology, Db, Host, duplicate}
use aver.Apply.{apply, Applied}
use aver.Ontology.{ensure_predicate_known}
use aver.Types.{Provenance}
use aver.Apply.Claims
use aver.Apply.Hyperedges
use aver.Apply.Episodic
use aver.Apply.Candidates
use aver.Apply.Vectors

continue-ne-duplicate :
    {A : Type 0} (x : Result A) (f : A → Exec Db Applied) (db : Db)
    → ((a : A) → (f a db).0 ≢ ok duplicate)
    → (continue x f db).0 ≢ ok duplicate
continue-ne-duplicate (ok a) f db never = never a
continue-ne-duplicate (err e) f db never = cc

bind-ne-duplicate :
    {A : Type 0} (m : Exec Db A) (f : A → Exec Db Applied)
    → ((a : A) (db : Db) → (f a db).0 ≢ ok duplicate)
    → (db : Db) → ((m >>= f) db).0 ≢ ok duplicate
bind-ne-duplicate m f never db e =
    continue-ne-duplicate (m db).0 f (m db).1 (λ a. never a (m db).1) e

module _ (h : Host) where
  supersede_claims-ne-duplicate :
      (ids : List ℕ) (db : Db) → (Claims.supersede_claims h ids db).0 ≢ ok duplicate
  unfolding Claims.supersede_claims
  supersede_claims-ne-duplicate [] db = cc
  supersede_claims-ne-duplicate (id ∷ ids) db =
      ground (arith, supersede_claims-ne-duplicate ids (Claims.supersede_claim h id db).1)

  decay_confidence-ne-duplicate :
      (cs : List ConfidenceChange) (db : Db) → (Claims.decay_confidence h cs db).0 ≢ ok duplicate
  unfolding Claims.decay_confidence
  decay_confidence-ne-duplicate [] db = cc
  decay_confidence-ne-duplicate (c ∷ cs) db =
      ground (arith, decay_confidence-ne-duplicate cs (Claims.change_confidence h c db).1)

  insert_participants-ne-duplicate :
      (id ts : ℕ) (ps : List Participant) (db : Db)
      → (Hyperedges.insert_participants h id ts ps db).0 ≢ ok duplicate
  unfolding Hyperedges.insert_participants
  insert_participants-ne-duplicate id ts [] db = cc
  insert_participants-ne-duplicate id ts (p ∷ ps) db =
      grind (arith, insert_participants-ne-duplicate id ts ps)

  fresh_hyperedge-ne-duplicate :
      (r : AddHyperedge) (p : Provenance) (db : Db)
      → (Hyperedges.fresh_hyperedge h r p db).0 ≢ ok duplicate
  unfolding Hyperedges.fresh_hyperedge
  fresh_hyperedge-ne-duplicate r p db =
      bind-ne-duplicate (on_ontology (ensure_predicate_known h.schema r.predicate p "local" r.ts)) _
        (λ _ db₁.
          bind-ne-duplicate (Hyperedges.insert_hyperedge h r p) _
            (λ _ db₂. insert_participants-ne-duplicate r.hyperedge_id r.ts r.participants db₂) db₁)
        db

  index_some-ne-duplicate :
      (id : ℕ) (e : Option (List ℕ)) (db : Db) → (Vectors.index_some h id e db).0 ≢ ok duplicate
  unfolding Vectors.index_some
  index_some-ne-duplicate id e db = ground arith

-- What `apply` reports as a duplicate has left every table as it was.
pub apply-duplicate :
    (h : Host) (r : LogRecord) (db db' : Db) → apply h r db ≡ (ok duplicate, db') → db' ≡ db
unfolding apply
apply-duplicate h (add_claim r) db db' e =
    unfold Claims.add_claim Claims.insert_claim in ground arith
apply-duplicate h (add_hyperedge r) db db' e =
    unfold Hyperedges.add_hyperedge in grind (arith, fresh_hyperedge-ne-duplicate h r)
apply-duplicate h (record_event r) db db' e = unfold Episodic.record_event in ground arith
apply-duplicate h (record_observation r) db db' e =
    unfold Episodic.record_observation in ground arith
apply-duplicate h (prune_observations r) db db' e =
    unfold Episodic.prune_observations in ground arith
apply-duplicate h (retire_claim ts id reason) db db' e = unfold Claims.retire_claim in ground arith
apply-duplicate h (add_contradiction r) db db' e =
    unfold Candidates.add_contradiction in ground arith
apply-duplicate h (propose_candidate_claim r) db db' e =
    unfold Candidates.propose_candidate_claim in ground arith
apply-duplicate h (promote_candidate_claim ts candidate_id claim_id d) db db' e =
    unfold Candidates.promote_candidate_claim in ground arith
apply-duplicate h (reject_candidate_claim ts candidate_id reason d) db db' e =
    unfold Candidates.reject_candidate_claim in ground arith
apply-duplicate h (supersede_claims ts ids) db db' e =
    ground (arith, supersede_claims-ne-duplicate h ids db)
apply-duplicate h (decay_confidence ts cs) db db' e =
    ground (arith, decay_confidence-ne-duplicate h cs db)
apply-duplicate h (merge_source_refs ts id refs p) db db' e =
    unfold Claims.merge_source_refs in ground arith
apply-duplicate h (add_vector_chunk r) db db' e = unfold Vectors.add_vector_chunk in ground arith
apply-duplicate h (embed_vector_chunk ts id v) db db' e =
    unfold Vectors.embed_vector_chunk in ground arith
