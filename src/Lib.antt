-- ===== src/Lib.antt =====
-- A model of the Firestore client of the Firebase Rust SDK (crates/firebase-firestore/src), of
-- the tree of its Realtime Database client (crates/firebase-database/src), of the uploads of its Storage
-- client (crates/firebase-storage/src) and of the token refresher of App Check
-- (crates/firebase-app-check/src), with the theorems about them. Paths below without a crate are those of
-- crates/firebase-firestore/src.
--
-- The parts and their files:
--   * Common: tests, lists, integers, ordered keys, `BTreeMap`, text, sorting.
--   * Firestore/Error: error.rs and the two tables of gRPC status codes (remote/listen/mod.rs,
--     remote/watch_change.rs). `FirestoreResult` keeps an error's code and drops its message.
--   * Firestore/Model: model/resource_path.rs, field_path.rs, document_key.rs, timestamp.rs. A path is
--     its segments, a segment its code points.
--   * Firestore/F64 and Firestore/Value: value/ and model/geo_point.rs. A double is its 64 bits; its
--     order, equality and the rounding of `as f64` are computed on them.
--   * Firestore/Operations: api/operations.rs. `sanitize_map` returns what the source pushes to its
--     three vectors; `Encode` composes sanitizing, the collection of paths and the mask.
--   * Firestore/Query: api/query.rs. One function for each builder method; `Definition` has
--     `normalized_order_by`, `definition` and the cursors from a snapshot.
--   * Firestore/Value/Order and Firestore/QueryEvaluator: query_evaluator.rs, from the comparison of two
--     values to `apply_query_to_documents`.
--   * Firestore/Datastore and Firestore/InMemory: remote/datastore/mod.rs and in_memory.rs. The state is
--     the two maps and the version counter; a commit returns the state also when it fails.
--   * Firestore/Reference and Firestore/Transaction: api/reference.rs and api/transaction.rs. The methods
--     of a transaction are functions on its fields; `Retry` has the attempts of `run_transaction`, whose
--     closure, with what other clients do in the meantime, is a parameter. `Staging` relates the states
--     that calls on a transaction lead to, reads that await their answer included, `Commit` the commit by the in-memory datastore.
--   * Firestore/WriteBatch: api/write_batch.rs.
--   * Firestore/Watch: remote/watch_change.rs and remote_event.rs; `TargetState` and `Aggregator` are
--     remote/watch_change_aggregator.rs, `Changes` the diffs of api/query.rs and api/listener.rs, `View`
--     the two views and `Listener` the two loops of api/listener.rs. The messages of a stream are a list,
--     and so are the streams of a listener.
--   * Firestore/Tests, Database/Tests, Storage/Tests and AppCheck/Tests: runs at concrete inputs.
--   * Database: crates/firebase-database/src. `Tree` has the functions on the tree of api.rs and backend.rs
--     and the relation of two paths, `Events` the reads of a listener and its child events, `PushId` is
--     push_id.rs, whose state is passed from call to call.
--   * Storage/Upload: crates/firebase-storage/src/upload.rs. The task and the state that it shares with its
--     handles are records, a method a function from the task to the task and its result; `answered`,
--     `upload_chunk`, `with_session` and `upload_in` are the parts of `upload_next_with_progress`. `States`
--     relates the tasks that calls lead to, `Complete` has the loop of `run_to_completion`.
--   * AppCheck/Refresher: crates/firebase-app-check/src/refresher.rs. The loops that `start` spawns are part
--     of the state, and `run_loop` is what one of them does between two awaits. `Bounds` relates the states
--     that calls and turns lead to, `Stops` those without a start.
--
-- How they interact: a user's data goes through `encode_set_data` to a write, which a datastore applies
-- with the path functions of `Operations/Paths`; a query is built, turned into a definition, and
-- evaluated over the documents of a collection. A transaction records the versions that it reads from a
-- datastore and turns them into preconditions of the writes that it commits to it. A listener feeds the
-- changes of its stream to the aggregator, and the event of each snapshot to its view.
--
-- Bounds: `i64` and `i32` values are integers with their range as a hypothesis or the wrap-around
-- written out. `log2` in F64 runs on fuel 64, enough for numbers below 2^64. The attempts of a
-- transaction run on as many units as there are attempts, which is proved enough. The rounds
-- of an upload's loop are a list, and one more than there are bytes is proved enough. No other function
-- needs fuel. A `HashSet` is a list. `slice::sort_by` is an insertion sort, which is the source's result where
-- the comparison is a total order.
--
-- Parameters: the current time and the addition of two doubles in a numeric increment, the scaling of
-- a duration in a transaction's backoff, which may panic, the user's closure, and what a stream brings; in the
-- database the random digits of a push id, the reading and printing of an index, and the equality of JSON
-- values; in the storage the server, whose answers bring the control calls made while a request is in
-- flight; in App Check the answers of the operation, the wait after a success and the retry policy.
--
-- Not modelled: the HTTP and gRPC transports, the wire formats, aggregations, converters, error messages, the
-- observers of an upload with the control calls that they make, and the other crates.
mod Common
pub mod Firestore
pub mod AppCheck
pub mod Storage
pub mod Database
