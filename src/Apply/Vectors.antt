-- ===== src/Apply/Vectors.antt =====
-- `index_embedding`, `add_vector_chunk` and `embed_vector_chunk` of apply.rs.
use mathlib.Core.Option
use aver.Prelude.{
  ℕ, String, Bool, Option, none, some, List, ◌&&◌, ◌==◌, nat_eq, string_eq, option_eq, nat_beq,
  if◌then◌else◌, length, Table, find, insert, modify,
}
use aver.Exec.{Exec, ok, err, statement, ◌>>◌, invalid_record}
use aver.Log.{AddVectorChunk}
use aver.Db.{Db, ChunkRow, Host, Applied, applied, chunk_row, index_row}
use aver.Apply.Common.{settle}

-- `VECTOR_INDEX_DIM` of store.rs
abbrev pub vector_index_dim : ℕ
vector_index_dim = 768

-- INSERT OR IGNORE INTO vector_index, where the table is there.
unfoldable pub insert_index : Host → ℕ → String → Option (Table ℕ String) → Exec Db Applied
unfolding find insert
insert_index h chunk_id json none db = (ok applied, db)
insert_index h chunk_id json (some t) db = elim (find chunk_id t) [
  | some _ ↦ (ok applied, db)
  | none ↦
      statement (h.admits db (index_row chunk_id json)) applied
        (record db { vector_index = some (insert chunk_id json t) }) db
]

unfoldable pub index_embedding : Host → ℕ → List ℕ → Exec Db Applied
unfolding insert_index
index_embedding h chunk_id embedding db =
    if nat_beq (length embedding) vector_index_dim
    then insert_index h chunk_id (h.embedding_json embedding) db.vector_index db
    else (ok applied, db)

unfoldable pub index_some : Host → ℕ → Option (List ℕ) → Exec Db Applied
unfolding index_embedding
index_some h chunk_id none db = (ok applied, db)
index_some h chunk_id (some embedding) db = index_embedding h chunk_id embedding db

unfoldable pub same_chunk : Host → ChunkRow → AddVectorChunk → Bool
same_chunk h c r =
    c.claim_id == r.claim_id
    && c.text == r.text
    && c.embedding_model == r.embedding_model
    && c.embedding_json == Option.map h.embedding_json r.embedding

abbrev pub new_chunk : Host → AddVectorChunk → ChunkRow
new_chunk h r = record {
  claim_id = r.claim_id;
  text = r.text;
  embedding_model = r.embedding_model;
  embedding_json = Option.map h.embedding_json r.embedding;
  created_at = r.ts;
}

unfoldable pub insert_chunk : Host → AddVectorChunk → Exec Db Unit
unfolding insert
insert_chunk h r db =
    statement (h.admits db (chunk_row r.chunk_id (new_chunk h r))) tt
      (record db { vector_chunks = insert r.chunk_id (new_chunk h r) db.vector_chunks }) db

unfoldable pub add_vector_chunk : Host → AddVectorChunk → Exec Db Applied
unfolding find same_chunk insert_chunk index_some
add_vector_chunk h r db = elim (find r.chunk_id db.vector_chunks) [
  | some c ↦ (settle (same_chunk h c r), db)
  | none ↦ (do insert_chunk h r; index_some h r.chunk_id r.embedding) db
]

unfoldable pub set_embedding : Host → ℕ → ChunkRow → String → Exec Db Unit
unfolding modify
set_embedding h chunk_id c json db =
    let row = record c { embedding_json = some json } in
    statement (h.admits db (chunk_row chunk_id row)) tt
      (record db { vector_chunks = modify chunk_id (λ _. row) db.vector_chunks }) db

unfoldable pub embed_over : Host → ℕ → List ℕ → ChunkRow → Option String → Exec Db Applied
unfolding set_embedding index_embedding
embed_over h chunk_id embedding c (some current) db =
    (settle (current == h.embedding_json embedding), db)
embed_over h chunk_id embedding c none db =
    (do
      set_embedding h chunk_id c (h.embedding_json embedding)
      index_embedding h chunk_id embedding)
      db

unfoldable pub embed_vector_chunk : Host → ℕ → List ℕ → Exec Db Applied
unfolding find embed_over
embed_vector_chunk h chunk_id embedding db = elim (find chunk_id db.vector_chunks) [
  | none ↦ (err invalid_record, db)
  | some c ↦ embed_over h chunk_id embedding c c.embedding_json db
]
