-- ===== src/Apply/Steps.antt =====
-- The writes that `apply` is made of, as a step relation on the database. Each rule carries what
-- the code has established before the write.
use aver.Types.{superseded, invalidated, ClaimStatus, active, pending, promoted, rejected}
use aver.Prelude.{
  ◌⊎◌, inl, inr, ℕ, String, ◌≡◌, ◌≢◌, refl, ◌++◌, ◌∷◌, [], Bool, true, false, none, some, Table,
  nat_eq, string_eq, find, insert, modify,
}
use aver.Exec.{Exec, Result, ok, err, statement, continue, ◌>>=◌}
use aver.Log.{Participant, ProposeCandidateClaim}
use aver.Ontology.{Ontology}
use aver.Db.{
  Db, ClaimRow, HyperedgeRow, EventRow, ObservationRow, PruneMarkerRow, CandidateRow,
  ContradictionRow, ChunkRow, on_ontology,
}
use aver.Apply.Candidates.{new_candidate}

-- What an update of a claim leaves alone: its text, its writer, its times of writing and its scope,
-- and it does not make the claim active again.
pub record Same (c c' : ClaimRow) : Type 0 where
  pub subject : c'.subject ≡ c.subject
  pub predicate : c'.predicate ≡ c.predicate
  pub object : c'.object ≡ c.object
  pub agent_id : c'.agent_id ≡ c.agent_id
  pub agent_kind : c'.agent_kind ≡ c.agent_kind
  pub created_at : c'.created_at ≡ c.created_at
  pub write_ts : c'.write_ts ≡ c.write_ts
  pub scope : c'.scope ≡ c.scope
  pub closed : (c.status ≡ active) ⊎ (c'.status ≢ active)

pub active_or : (s : ClaimStatus) → (s ≡ active) ⊎ (s ≢ active)
active_or active = inl refl
active_or superseded = inr (cc)
active_or invalidated = inr (cc)

pub data Step (db : Db) : Db → Type 0 where
  ontology_changed : (o : Ontology) → Step db (record db { ontology = o })
  claim_added :
      (id : ℕ) (row : ClaimRow)
      → find id db.claims ≡ none
      → Step db (record db { claims = insert id row db.claims })
  claim_changed :
      (id : ℕ) (c row : ClaimRow)
      → find id db.claims ≡ some c
      → Same c row
      → Step db (record db { claims = modify id (λ _. row) db.claims })
  hyperedge_added :
      (id : ℕ) (row : HyperedgeRow)
      → find id db.hyperedges ≡ none
      → Step db (record db { hyperedges = insert id row db.hyperedges })
  participant_added :
      (id : ℕ) (p : Participant) (e : HyperedgeRow)
      → find id db.hyperedges ≡ some e
      → Step db (record db { hyperedge_participants = db.hyperedge_participants ++ (id, p) ∷ [] })
  event_added :
      (id : ℕ) (row : EventRow)
      → find id db.episodic_events ≡ none
      → Step db (record db { episodic_events = insert id row db.episodic_events })
  observation_added :
      (id : String) (row : ObservationRow)
      → find id db.observations ≡ none
      → Step db (record db { observations = insert id row db.observations })
  marker_added :
      (id : String) (row : PruneMarkerRow)
      → find id db.observation_prune_markers ≡ none
      → Step db
          (record db { observation_prune_markers = insert id row db.observation_prune_markers })
  candidate_proposed :
      (r : ProposeCandidateClaim)
      → find r.candidate_id db.candidate_claims ≡ none
      → Step db (record db {
        candidate_claims = insert r.candidate_id (new_candidate r) db.candidate_claims;
      })
  candidate_promoted :
      (id claim_id : ℕ) (c : CandidateRow) (claim : ClaimRow)
      → find id db.candidate_claims ≡ some c
      → c.status ≡ pending
      → find claim_id db.claims ≡ some claim
      → Step db (record db {
        candidate_claims =
            modify id
              (λ _. record c { status = promoted; promoted_claim_id = some claim_id })
              db.candidate_claims;
      })
  candidate_rejected :
      (id : ℕ) (reason : String) (c : CandidateRow)
      → find id db.candidate_claims ≡ some c
      → c.status ≡ pending
      → Step db (record db {
        candidate_claims =
            modify id
              (λ _. record c { status = rejected; rejection_reason = some reason })
              db.candidate_claims;
      })
  contradiction_added :
      (id : ℕ) (row : ContradictionRow)
      → find id db.contradictions ≡ none
      → Step db (record db { contradictions = insert id row db.contradictions })
  chunk_added :
      (id : ℕ) (row : ChunkRow)
      → find id db.vector_chunks ≡ none
      → Step db (record db { vector_chunks = insert id row db.vector_chunks })
  chunk_embedded :
      (id : ℕ) (c : ChunkRow) (json : String)
      → find id db.vector_chunks ≡ some c
      → c.embedding_json ≡ none
      → Step db (record db {
        vector_chunks = modify id (λ _. record c { embedding_json = some json }) db.vector_chunks;
      })
  chunk_indexed :
      (id : ℕ) (json : String) (t : Table ℕ String)
      → db.vector_index ≡ some t
      → find id t ≡ none
      → Step db (record db { vector_index = some (insert id json t) })

pub data Steps (db : Db) : Db → Type 0 where
  here : Steps db db
  next : {s t : Db} → Steps db s → Step s t → Steps db t

pub Steps-trans : {a b c : Db} → Steps a b → Steps b c → Steps a c
Steps-trans p here = p
Steps-trans p (next q st) = next (Steps-trans p q) st

-- A statement makes its one write, or none.
pub statement-Steps :
    {A : Type 0} (b : Bool) (a : A) (db' db : Db) → Step db db' → Steps db (statement b a db' db).1
statement-Steps true a db' db st = next here st
statement-Steps false a db' db st = here

-- What follows in a block may use that the first part has returned.
pub continue-Steps :
    {A B : Type 0} (x : Result A) (f : A → Exec Db B) (db db' : Db)
    → Steps db db'
    → ((a : A) → x ≡ ok a → Steps db (f a db').1)
    → Steps db (continue x f db').1
continue-Steps (ok a) f db db' p k = k a refl
continue-Steps (err e) f db db' p k = p

pub bind-Steps :
    {A B : Type 0} (m : Exec Db A) (f : A → Exec Db B) (db : Db)
    → Steps db (m db).1
    → ((a : A) → (m db).0 ≡ ok a → Steps (m db).1 (f a (m db).1).1)
    → Steps db ((m >>= f) db).1
bind-Steps m f db p k = continue-Steps (m db).0 f db (m db).1 p (λ a e. Steps-trans p (k a e))

pub on_ontology-Steps : (m : Exec Ontology Unit) (db : Db) → Steps db (on_ontology m db).1
on_ontology-Steps m db = next here (ontology_changed (m db.ontology).1)
