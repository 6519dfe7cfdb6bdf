-- ===== src/Ids.antt =====
-- The id generator, crates/aver-core/src/ids.rs, and the seed that it takes from the log tails,
-- crates/aver-core/src/log.rs. `IdGen` is one atomic counter that several threads advance: a thread
-- in `mint` has read the clock and a value of the counter, and tries to exchange that value for the
-- next id. An id is the pattern of the 64 bits of an i64, compared with its sign, and the arithmetic wraps
-- around, as in a release build (a debug build stops at an overflow). The hash of the salt is a
-- parameter, and so is a time that the clock does not reach.
pub mod Minting
pub mod Tails
use Prim.Native.Nat.{◌*◌, ◌%◌, ◌^◌, max}
use aver.Prelude.{
  ℕ, Option, none, some, List, [], ◌∷◌, ◌++◌, ◌+◌, ◌-◌, ◌≡◌, ◌<◌, leb, if◌then◌else◌,
}
use aver.Log.{
  LogRecord, add_claim, add_hyperedge, record_event, record_observation, prune_observations,
  retire_claim, add_contradiction, propose_candidate_claim, promote_candidate_claim,
  reject_candidate_claim, supersede_claims, decay_confidence, merge_source_refs, add_vector_chunk,
  embed_vector_chunk,
}

abbrev pub epoch_ms : ℕ
epoch_ms = 1704067200000

-- `1 << RANDOM_BITS`
abbrev pub random_span : ℕ
random_span = 4096

-- `(now_ms - EPOCH_MS).max(0)`
unfoldable pub elapsed_at : ℕ → ℕ
elapsed_at now_ms = now_ms - epoch_ms

-- The values of an i64 in their order, from the patterns of their bits.
abbrev pub signed_order : ℕ → ℕ
signed_order a = (a + 2 ^ 63) % 2 ^ 64

-- `max` of i64
abbrev pub i64_max : ℕ → ℕ → ℕ
i64_max a b = if leb (signed_order a) (signed_order b) then b else a

-- The id that a thread tries, from the hash of the value that it saw.
unfoldable pub next_id : (hash_one : ℕ → ℕ) (elapsed current : ℕ) → ℕ
next_id hash_one elapsed current =
    i64_max (elapsed * random_span % 2 ^ 64 + hash_one current % random_span)
      ((current + 1) % 2 ^ 64)

-- A call of `mint` in its loop.
pub record Minter : Type 0 where
  pub elapsed : ℕ
  pub current : ℕ

-- The counter, the calls that are in their loop, and the ids given out, the newest first.
pub record IdGen : Type 0 where
  pub last : ℕ
  pub minters : List Minter
  pub minted : List ℕ

-- `IdGen::seeded`
unfoldable pub seeded : ℕ → IdGen
seeded seed = record { last = seed; minters = []; minted = [] }

-- `load` is relaxed and may see an old value, and `compare_exchange_weak` may fail without cause: both
-- are steps with any observed value. The clock stays below `until`. An exchange succeeds on the value that the counter has.
pub data Step (hash_one : ℕ → ℕ) (until : ℕ) (s t : IdGen) : Type 0 where
  loads :
      (now_ms observed : ℕ)
      → now_ms < until
      → t ≡ record s {
        minters = (record { elapsed = elapsed_at now_ms; current = observed }) ∷ s.minters;
      }
      → Step hash_one until s t
  misses :
      (before after : List Minter) (m : Minter) (observed : ℕ)
      → s.minters ≡ before ++ m ∷ after
      → t ≡ record s { minters = before ++ (record m { current = observed }) ∷ after }
      → Step hash_one until s t
  exchanges :
      (before after : List Minter) (m : Minter)
      → s.minters ≡ before ++ m ∷ after
      → m.current ≡ s.last
      → t ≡ record {
        last = next_id hash_one m.elapsed m.current;
        minters = before ++ after;
        minted = next_id hash_one m.elapsed m.current ∷ s.minted;
      }
      → Step hash_one until s t

pub data Steps (hash_one : ℕ → ℕ) (until : ℕ) (s : IdGen) : IdGen → Type 0 where
  start : Steps hash_one until s s
  more :
      {t u : IdGen} → Steps hash_one until s t → Step hash_one until t u → Steps hash_one until s u

-- `LogRecord::newest_minted_id`
unfoldable pub newest_minted_id : LogRecord → Option ℕ
newest_minted_id (add_claim r) = some r.claim_id
newest_minted_id (add_hyperedge r) = some r.hyperedge_id
newest_minted_id (record_event r) = some r.event_id
newest_minted_id (propose_candidate_claim r) = some r.candidate_id
newest_minted_id (promote_candidate_claim ts candidate_id claim_id decision) =
    some (max candidate_id claim_id)
newest_minted_id (add_contradiction r) = some r.contradiction_id
newest_minted_id (add_vector_chunk r) = some r.chunk_id
newest_minted_id (record_observation r) = none
newest_minted_id (prune_observations r) = none
newest_minted_id (retire_claim ts claim_id reason) = none
newest_minted_id (reject_candidate_claim ts candidate_id reason decision) = none
newest_minted_id (supersede_claims ts claim_ids) = none
newest_minted_id (decay_confidence ts changes) = none
newest_minted_id (merge_source_refs ts claim_id source_refs promote) = none
newest_minted_id (embed_vector_chunk ts chunk_id embedding) = none

abbrev pub raise_to : ℕ → Option ℕ → ℕ
raise_to m none = m
raise_to m (some id) = max m id

abbrev pub newest_of : Option LogRecord → Option ℕ
newest_of none = none
newest_of (some r) = newest_minted_id r

-- The loop of `max_id_in_log_tails` over the last lines of the series; a tail is `none` where the
-- file is missing or empty or its last line is no record.
unfoldable pub max_from : ℕ → List (Option LogRecord) → ℕ
unfolding newest_minted_id
max_from m [] = m
max_from m (line ∷ tails) = max_from (raise_to m (newest_of line)) tails

unfoldable pub max_id_in_log_tails : List (Option LogRecord) → ℕ
unfolding max_from
max_id_in_log_tails tails = max_from 0 tails
