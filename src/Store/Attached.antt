-- ===== src/Store/Attached.antt =====
-- Hyperedge and vector chunk writes keep the rows equal to those that the log rebuilds.
use aver.Prelude.{ℕ, suc, String, List, [], ◌∷◌, Option, none, some, Table}
use aver.Log.{embed_vector_chunk}
use aver.Db.{Db, ChunkRow}
use aver.Store.{
  Env, Action, privacy_filter_recording, privacy_filter_path_recording, validate_ontology, return,
  ◌>>=◌, ◌>>◌,
}
use aver.Store.Claims.{get_claim, write_one}
use aver.Store.Hyperedges.{HyperedgeInput, write_hyperedge}
use aver.Store.Vectors.{
  Client, embed, embedded, write_vector_chunk, add_vector_chunk_with_embedding,
  add_vector_chunk_for_claim, add_embedded_vector_chunk_for_claim, backfill_rows,
  backfill_vector_embeddings,
}
use aver.Store.Keeps.{Keeps, keeps_rules, Keeps-fail, Keeps-return}
use aver.Store.Rebuilt.{IsClean, Rebuilt, write-Rebuilt, gate-Rebuilt, ensure_claim_exists-Rebuilt}

module _ (env : Env) (start : Db) (clean : IsClean env) where
  pub write_hyperedge-Rebuilt :
      (now hyperedge_id : ℕ) (input : HyperedgeInput)
      → Keeps (Rebuilt env start) (write_hyperedge env now hyperedge_id input)
  unfolding write_hyperedge privacy_filter_recording privacy_filter_path_recording validate_ontology
  write_hyperedge-Rebuilt now hyperedge_id input =
      search (keeps_rules, gate-Rebuilt env start, write-Rebuilt env start clean) depth 40

  pub write_vector_chunk-Rebuilt :
      (now chunk_id claim_id : ℕ) (text embedding_model : String)
      → Keeps
          (Rebuilt env start)
          (write_vector_chunk env now chunk_id claim_id text embedding_model)
  unfolding write_vector_chunk privacy_filter_recording privacy_filter_path_recording
  write_vector_chunk-Rebuilt now chunk_id claim_id text embedding_model =
      search
        (
          keeps_rules,
          gate-Rebuilt env start,
          ensure_claim_exists-Rebuilt env start,
          write-Rebuilt env start clean,
        )
        depth 20

  pub with_embedding-Rebuilt :
      (now chunk_id claim_id : ℕ) (text embedding_model : String) (vector : List ℕ)
      → Keeps
          (Rebuilt env start)
          (add_vector_chunk_with_embedding env now chunk_id claim_id text embedding_model vector)
  unfolding add_vector_chunk_with_embedding privacy_filter_recording privacy_filter_path_recording
  with_embedding-Rebuilt now chunk_id claim_id text embedding_model vector =
      search
        (
          keeps_rules,
          gate-Rebuilt env start,
          ensure_claim_exists-Rebuilt env start,
          write-Rebuilt env start clean,
        )
        depth 20

  pub for_claim-Rebuilt :
      (now chunk_id claim_id : ℕ) (embedding_model : String)
      → Keeps
          (Rebuilt env start)
          (add_vector_chunk_for_claim env now chunk_id claim_id embedding_model)
  unfolding add_vector_chunk_for_claim get_claim
  for_claim-Rebuilt now chunk_id claim_id embedding_model =
      search (keeps_rules, ensure_claim_exists-Rebuilt env start, write_vector_chunk-Rebuilt) depth
        12

  embedded-Rebuilt : (o : Option (List ℕ)) → Keeps (Rebuilt env start) (embedded o)
  unfolding embedded
  embedded-Rebuilt none = Keeps-fail _
  embedded-Rebuilt (some vector) = Keeps-return vector

  pub embedded_for_claim-Rebuilt :
      (client : Client) (now chunk_id claim_id : ℕ) (embedding_model : String)
      → Keeps
          (Rebuilt env start)
          (add_embedded_vector_chunk_for_claim env client now chunk_id claim_id embedding_model)
  unfolding add_embedded_vector_chunk_for_claim get_claim
  embedded_for_claim-Rebuilt client now chunk_id claim_id embedding_model =
      search
        (
          keeps_rules,
          ensure_claim_exists-Rebuilt env start,
          embedded-Rebuilt,
          with_embedding-Rebuilt,
        )
        depth 14

  backfilled-Rebuilt :
      (client : Client) (now chunk_id : ℕ) (c : ChunkRow) (more : Action ℕ)
      → Keeps (Rebuilt env start) more
      → Keeps (Rebuilt env start) (do
        vector ← embed client c.text
        write_one env (embed_vector_chunk now chunk_id vector) tt
        count ← more
        return (suc count))
  backfilled-Rebuilt client now chunk_id c more k =
      search (keeps_rules, embedded-Rebuilt, write-Rebuilt env start clean) depth 12

  backfill_rows-Rebuilt :
      (client : Client) (now : ℕ) (rows : Table ℕ ChunkRow)
      → Keeps (Rebuilt env start) (backfill_rows env client now rows)
  unfolding backfill_rows
  backfill_rows-Rebuilt client now [] = search keeps_rules
  backfill_rows-Rebuilt client now ((chunk_id, c) ∷ rows) =
      let rest =
        backfilled-Rebuilt client now chunk_id c (backfill_rows env client now rows)
          (backfill_rows-Rebuilt client now rows) in
      record { at = λ s h. rest.at s h }

  pub backfill-Rebuilt :
      (client : Client) (now : ℕ)
      → Keeps (Rebuilt env start) (backfill_vector_embeddings env client now)
  unfolding backfill_vector_embeddings
  backfill-Rebuilt client now = search (keeps_rules, backfill_rows-Rebuilt)
