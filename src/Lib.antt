-- ===== src/Lib.antt =====
-- Aver keeps the memory of software agents: an append-only log of records in JSON lines is the
-- source of truth, and a SQLite database is a projection of it. The crate crates/aver-core holds
-- the log, the projection writer, replay, the ontology and the privacy gate; crates/aver-server
-- serves it over MCP with OAuth. A live write appends a record and hands it to `apply` (apply.rs);
-- a replay reads every log file and hands each record to the same `apply`, in a fresh database.
-- This library models that core path with the claim writers, the search for paths over the claims,
-- the pure checks around them, the generator of ids, and the authorization of the server: its
-- database of clients, codes and tokens, the token endpoint and the consent flow.
--
-- Which file models which part:
--   Prelude: shared names, tests on numbers, equality as an interface, tables with a primary key.
--   Text: Rust strings as lists of code points, with the `str` methods that the code calls.
--   Exec: results and code with a state; what is written before an error stays written.
--   Types, Log: the enumerations of crates/aver-core/src/types.rs and the fifteen record kinds of
--     crates/aver-core/src/log.rs.
--   Ontology: `ensure_predicate_known` (apply.rs), `rebuild_closure` (seed.rs), `ensure_entity_on`
--     (ontology.rs), on the ontology tables. Closure and Total prove what the closure holds and
--     that it is built, Extended and Known what a new predicate leaves, Entities what an entity
--     keeps.
--   Db: the rows of the tables of migrations/ that `apply` writes, and `Host`.
--   Apply and the modules below it: crates/aver-core/src/apply.rs, one function per record kind.
--     Apply.Steps holds the abstract view, a relation of single guarded writes.
--   Lifecycle: what all records keep, the invariant of the projection, and repetition.
--   Replay: crates/aver-core/src/replay.rs, from a line to the loop over the files, in both modes.
--   Store: the writers of crates/aver-core/src/claims.rs over the rows, the log and the counters of
--     rejections, as actions that may fail; Claims has the writers of one record and Consolidation
--     the maintenance and the ingestion of facts. Hyperedges, Vectors and Candidates have the
--     writers of hyperedges.rs, vectors.rs and candidates.rs. Calls joins those of log.jsonl to
--     histories; Keeps, Rebuilt, Attached, History and Replayed relate the log to the rows,
--     Admitted says when a claim is taken, Decided what a promotion leaves. Operations has the
--     histories of all the writers, Steady shows what they keep, and Final that a promotion is
--     final.
--   Graph: `graph_path` of crates/aver-core/src/graph.rs. Graph itself has the breadth-first
--     search, Scopes the filter `scope_filter_sql` (store.rs) with SQLite's LIKE, Predicates
--     `expand_predicate_filter` (ontology.rs), and Candidates the enumeration and order of the
--     edges and the whole query. Bounds, Sound, Shortest, Ahead, Complete, Admissible and Paths
--     prove.
--   Ids: crates/aver-core/src/ids.rs, one counter that threads advance, as a step relation, and the
--     seed from the log tails, `max_id_in_log_tails` (log.rs).
--   Privacy: crates/aver-core/src/privacy.rs.
--   Validation: crates/aver-core/src/validation.rs.
--   Scope: crates/aver-server/src/scope_resolution.rs.
--   OauthScopes: crates/aver-server/src/scopes.rs.
--   Auth: crates/aver-server/src/auth.rs. `AuthDb` is the record of its tables, and Clients, Codes,
--     Tokens, Users, Consents and Sessions have its operations. Pkce is from oauth.rs, and Endpoint
--     has `oauth_token` and `validate_bearer_token` of http.rs. Calls joins the operations that
--     write to histories; Effects is the abstract view of a call on codes and tokens. The other
--     modules prove: SingleUse, Dead and Revocation, Provenance, Rotation, Lifetimes, Words,
--     Grants, Refreshing, Accounts, Registered, ConstantTime, Answers.
--   Consent: crates/aver-server/src/consent.rs and origin.rs, the three handlers with their guards,
--     on the operations of Auth. Guards, Approved and Covered prove.
--   Decision: crates/aver-core/src/decision.rs and scope_decision.rs, the choice of a scope by a
--     decision model; Predicates has the option for "no match" of predicate_decision.rs. Suggested
--     proves. The transport, the JSON of an answer and the comparison of two confidences are
--     parameters.
--   Tests: runs and the theorems at concrete inputs.
--
-- Correspondence. A SQL statement is a function on the rows; `Host.admits` says whether the
-- schema's constraints and triggers let the row in, and a refusal is the error `sqlite` with the
-- state as the earlier statements left it. Rollback is the savepoint of the replay loop, as in the
-- source. serde_json, f64 comparison and MAX, new row ids, and whether the Shannon entropy of a
-- token exceeds 4.5 are arguments. Ids and times of the projection are natural numbers: the code
-- only compares them. In Auth and Consent the clock and the random texts of an operation are its
-- arguments; SHA-256, HMAC, base64, URLs, JSON and header names are fields of `Crates` and `Web`,
-- and a request is one step, since the handlers hold the lock on the database.
--
-- In Replay a file may fail to open and a line to be read, which ends both modes with `io`. A
-- record on which the source would loop for ever makes replay stop with `endless`, in both modes.
--
-- In Store a log is the list of its lines, and an append may end before the write, with the line in
-- the file though it answers an error, or with a part of the line; what follows such a part makes
-- one broken line with it. There a call reads the clock once and is given the ids it mints, BEGIN
-- and COMMIT succeed, and ROLLBACK gives back the rows of the BEGIN but not the log. What the
-- writers take from elsewhere is the record `Env`: the host of `apply`, how an append to a file
-- ends, f64 arithmetic on bit patterns and how numbers are printed, and the order of the groups of
-- a GROUP BY. LIKE is as SQLite documents it: `%`, `_`, an escape character, and no case for ASCII
-- letters.
--
-- Bounds and fuel. The loops that are not structural are that of `none_option`, the walk over the
-- parents in `rebuild_closure` and the search of `graph_path`. A trail with h hops left leads to at
-- most `rounds width h` rounds of the search, for as many edges as `width`, which is its fuel. The
-- walk over the parents takes fuel one above the number of predicate types: a walk that visits no
-- type twice needs no more, and on a cycle of parents, where the source would not return, the model
-- stops with the error `endless`. Ids are the 64-bit patterns of i64 with wrap-around, as in a
-- release build; the theorems on them say below what bounds nothing wraps. The expiry times of Auth
-- are natural numbers, which is exact while they are below 2^63. The loop of `none_option` has fuel
-- one above the length of all the names, since a longer name is not taken. No limit on sizes is
-- built in; 256 bytes for a scope, 2 to 24 options and 1024 bytes of context are the source's own
-- limits.
--
-- Not modelled: the live writers of episodic.rs, the suggested merge of candidates, the rotation
-- and locking of log files, the order in which replay collects the files, recall and retrieval, the
-- expansion and the communities of the graph, vector similarity, the tools of the MCP server, the
-- migrations and the secret table of the authorization database, the HTML of the consent flow, the
-- request text and the configuration of the decision models, the scope shim, the extractor, the
-- evaluation and the command line.
pub mod Prelude
pub mod Text
pub mod Exec
pub mod Types
pub mod Log
pub mod Ontology
pub mod Db
pub mod Apply
pub mod Lifecycle
pub mod Replay
pub mod Ids
pub mod Privacy
pub mod Validation
pub mod Scope
pub mod Auth
pub mod Consent
pub mod Decision
pub mod Store
pub mod Graph
pub mod OauthScopes
pub mod Tests
