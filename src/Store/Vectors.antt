-- ===== src/Store/Vectors.antt =====
-- The writes of vector chunks and the backfill of their embeddings, crates/aver-core/src/vectors.rs.
use Prim.Native.String
use aver.Prelude.{ℕ, suc, String, List, [], ◌∷◌, Bool, true, false, Option, none, some, Table}
use aver.Text.{codes}
use aver.Log.{LogRecord, add_vector_chunk, embed_vector_chunk}
use aver.Db.{ClaimRow, ChunkRow}
use aver.Validation.{
  validate_vector_chunk_text, validate_embedding_model, validate_embedding_vector,
}
use aver.Store.{
  Env, Action, ◌>>=◌, ◌>>◌, return, fail, reading, checked, write, privacy_filter_recording,
  privacy_filter_path_recording, no_embedding,
}
use aver.Store.Claims.{write_one, ensure_claim_exists, get_claim}
use aver.Store.Consolidation.{by_id, rows_where}

-- `EmbeddingClient::embed`; none is its error.
abbrev pub Client : Type 0
Client = String → Option (List ℕ)

abbrev pub chunk_record :
    (now chunk_id claim_id : ℕ) → (text embedding_model : String) → Option (List ℕ) → LogRecord
chunk_record now chunk_id claim_id text embedding_model embedding = add_vector_chunk (record {
  ts = now;
  chunk_id = chunk_id;
  claim_id = claim_id;
  text = text;
  embedding_model = embedding_model;
  embedding = embedding;
})

abbrev pub insert_vector_chunk :
    Env → (now chunk_id claim_id : ℕ) → (text embedding_model : String) → Option (List ℕ) → Action ℕ
insert_vector_chunk env now chunk_id claim_id text embedding_model embedding =
    write_one env (chunk_record now chunk_id claim_id text embedding_model embedding) chunk_id

-- `Store::add_vector_chunk`
unfoldable pub write_vector_chunk :
    Env → (now chunk_id claim_id : ℕ) → (text embedding_model : String) → Action ℕ
unfolding ensure_claim_exists checked validate_vector_chunk_text validate_embedding_model
    privacy_filter_recording privacy_filter_path_recording write ◌>>=◌
write_vector_chunk env now chunk_id claim_id text embedding_model = do
  ensure_claim_exists claim_id
  checked (validate_vector_chunk_text (codes text))
  checked (validate_embedding_model (codes embedding_model))
  privacy_filter_recording env (codes text)
  privacy_filter_path_recording embedding_model
  insert_vector_chunk env now chunk_id claim_id text embedding_model none

unfoldable pub add_vector_chunk_with_embedding :
    Env
    → (now chunk_id claim_id : ℕ) → (text embedding_model : String) → (embedding : List ℕ)
    → Action ℕ
unfolding ensure_claim_exists checked validate_vector_chunk_text validate_embedding_model
    validate_embedding_vector privacy_filter_recording privacy_filter_path_recording write ◌>>=◌
add_vector_chunk_with_embedding env now chunk_id claim_id text embedding_model embedding = do
  ensure_claim_exists claim_id
  checked (validate_vector_chunk_text (codes text))
  checked (validate_embedding_model (codes embedding_model))
  checked (validate_embedding_vector env.is_finite embedding)
  privacy_filter_recording env (codes text)
  privacy_filter_path_recording embedding_model
  insert_vector_chunk env now chunk_id claim_id text embedding_model (some embedding)

-- `Claim::text` of types.rs
abbrev pub claim_text : ClaimRow → String
claim_text c =
    String.◌++◌ c.subject (String.◌++◌ " " (String.◌++◌ c.predicate (String.◌++◌ " " c.object)))

unfoldable pub add_vector_chunk_for_claim :
    Env → (now chunk_id claim_id : ℕ) → (embedding_model : String) → Action ℕ
unfolding ensure_claim_exists get_claim write_vector_chunk ◌>>=◌
add_vector_chunk_for_claim env now chunk_id claim_id embedding_model = do
  ensure_claim_exists claim_id
  c ← get_claim claim_id
  write_vector_chunk env now chunk_id claim_id (claim_text c) embedding_model

unfoldable pub embedded : Option (List ℕ) → Action (List ℕ)
unfolding return fail
embedded none = fail no_embedding
embedded (some vector) = return vector

-- `client.embed(&text)?`
abbrev pub embed : Client → String → Action (List ℕ)
embed client text = embedded (client text)

unfoldable pub add_embedded_vector_chunk_for_claim :
    Env → Client → (now chunk_id claim_id : ℕ) → (embedding_model : String) → Action ℕ
unfolding ensure_claim_exists get_claim embedded add_vector_chunk_with_embedding ◌>>=◌
add_embedded_vector_chunk_for_claim env client now chunk_id claim_id embedding_model = do
  ensure_claim_exists claim_id
  c ← get_claim claim_id
  vector ← embed client (claim_text c)
  add_vector_chunk_with_embedding env now chunk_id claim_id (claim_text c) embedding_model vector

abbrev pub lacks_embedding : Option String → Bool
lacks_embedding none = true
lacks_embedding (some json) = false

-- The loop over the rows that were read.
unfoldable pub backfill_rows : Env → Client → (now : ℕ) → Table ℕ ChunkRow → Action ℕ
unfolding embedded write ◌>>=◌
backfill_rows env client now [] = return 0
backfill_rows env client now ((chunk_id, c) ∷ rows) = do
  vector ← embed client c.text
  write_one env (embed_vector_chunk now chunk_id vector) tt
  count ← backfill_rows env client now rows
  return (suc count)

unfoldable pub backfill_vector_embeddings : Env → Client → (now : ℕ) → Action ℕ
unfolding by_id rows_where backfill_rows
backfill_vector_embeddings env client now = reading λ db.
    backfill_rows env client now
      (by_id (rows_where (λ id c. lacks_embedding c.embedding_json) db.vector_chunks))
