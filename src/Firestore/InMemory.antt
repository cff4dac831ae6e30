-- ===== src/Firestore/InMemory.antt =====
-- crates/firebase-firestore/src/remote/datastore/in_memory.rs: the datastore that keeps its documents
-- in two maps by canonical path. A mutex is held for one access to a
-- map: the functions are those of calls that do not overlap. The current
-- time and the addition of doubles are parameters.
pub mod Transforms
pub mod Laws
pub mod Commits
use firebase_rs_sdk.Common.{
  gt, Bool, true, false, Option, none, some, List, [], ◌∷◌, ◌++◌, if◌then◌else◌, is_some,
}
use firebase_rs_sdk.Common.Int.{ℤ, pos, ◌+ℤ◌, wrap_i64}
use firebase_rs_sdk.Common.Ord.{nat_ord, list_ord}
use firebase_rs_sdk.Common.BTreeMap
use firebase_rs_sdk.Common.BTreeMap.{BTreeMap}
use firebase_rs_sdk.Common.Text.{Text}
use firebase_rs_sdk.Firestore.Error.{
  FirestoreResult, ok, err, not_found, already_exists, failed_precondition, ◌>>=◌,
}
use firebase_rs_sdk.Firestore.Model.FieldPath.{FieldPath}
use firebase_rs_sdk.Firestore.Model.DocumentKey.{DocumentKey}
use firebase_rs_sdk.Firestore.Model.DocumentKey
use firebase_rs_sdk.Firestore.Model.ResourcePath.{canonical_string}
use firebase_rs_sdk.Firestore.Model.Timestamp.{Timestamp}
use firebase_rs_sdk.Firestore.Model.Timestamp
use firebase_rs_sdk.Firestore.F64.{F64}
use firebase_rs_sdk.Firestore.Value.{Value, Fields, end}
use firebase_rs_sdk.Firestore.Value.Equality.{eq_timestamp}
use firebase_rs_sdk.Firestore.Operations.{FieldTransform}
use firebase_rs_sdk.Firestore.Operations.Paths.{
  set_value_at_field_path, remove_value_at_field_path, value_for_field_path,
}
use firebase_rs_sdk.Firestore.Snapshot.{DocumentSnapshot, SnapshotMetadata}
use firebase_rs_sdk.Firestore.Snapshot
use firebase_rs_sdk.Firestore.Query.Definition.{QueryDefinition, matches_collection}
use firebase_rs_sdk.Firestore.QueryEvaluator.{apply_query_to_documents}
use firebase_rs_sdk.Firestore.Datastore.{
  WriteOperation, set, update, delete, write_key, WriteResultInfo, CommitResult, Precondition,
  ConditionalWrite, write, verify, conditional_key, precondition,
}
use Transforms.{apply_field_transforms}

-- `next` and `by_path` are the version table
pub record InMemoryDatastore : Type 0 where
  pub documents : BTreeMap Text Fields
  pub next : ℤ
  pub by_path : BTreeMap Text Timestamp

abbrev pub new : InMemoryDatastore
new = record { documents = []; next = pos 0; by_path = [] }

unfoldable pub bump_version : Text → InMemoryDatastore → InMemoryDatastore
bump_version canonical store =
    let next = wrap_i64 (store.next +ℤ pos 1) in
    record store {
      next = next;
      by_path = BTreeMap.insert canonical (Timestamp.new next (pos 0)) store.by_path;
    }

unfoldable pub forget_version : Text → InMemoryDatastore → InMemoryDatastore
forget_version canonical store = record store { by_path = BTreeMap.remove canonical store.by_path }

abbrev pub version_of : Text → InMemoryDatastore → Option Timestamp
version_of canonical store = BTreeMap.get canonical store.by_path

-- the `match` of `check_precondition` on the stored version
unfoldable pub check_version : Option Timestamp → Precondition → FirestoreResult (Unit {0})
check_version current Precondition.none = ok tt
check_version none (Precondition.exists true) = err not_found
check_version (some _) (Precondition.exists true) = ok tt
check_version none (Precondition.exists false) = ok tt
check_version (some _) (Precondition.exists false) = err already_exists
check_version none (Precondition.update_time _) = err failed_precondition
check_version (some actual) (Precondition.update_time expected) =
    if eq_timestamp actual expected then ok tt else err failed_precondition

abbrev pub check_precondition :
    DocumentKey → Precondition → InMemoryDatastore → FirestoreResult (Unit {0})
check_precondition key p store = check_version (version_of (canonical_string key.path) store) p

abbrev pub snapshot_for : DocumentKey → Option Fields → InMemoryDatastore → DocumentSnapshot
snapshot_for key data' store =
    let time = version_of (canonical_string key.path) store in
    Snapshot.with_times time time
      (Snapshot.new key data' (record { from_cache = false; has_pending_writes = false }))

-- the loop over a mask: a masked path without a value is removed
unfoldable pub apply_mask : List FieldPath → Fields → Fields → Fields
apply_mask [] data' fields = fields
apply_mask (p ∷ ps) data' fields =
    let set = apply_mask ps data' in
    elim (value_for_field_path data' p) [
      | some value ↦ set (set_value_at_field_path p value fields)
      | none ↦ set (remove_value_at_field_path p fields)
    ]

-- store.insert and bump_version
unfoldable pub put : Text → Fields → InMemoryDatastore → InMemoryDatastore
unfolding bump_version
put canonical fields store =
    bump_version canonical
      (record store { documents = BTreeMap.insert canonical fields store.documents })

abbrev or_empty : Option Fields → Fields
or_empty none = end
or_empty (some fields) = fields

-- ok_or_else
abbrev pub require : Option Fields → FirestoreResult Fields
require none = err not_found
require (some fields) = ok fields

-- what a set starts from: with a mask the document that is there, without one the data
unfoldable pub set_fields : Option (List FieldPath) → Fields → Option Fields → Fields
unfolding apply_mask
set_fields none data' existing = data'
set_fields (some paths) data' existing = apply_mask paths data' (or_empty existing)

-- by_path.values().max()
unfoldable pub latest : BTreeMap Text Timestamp → Option Timestamp
latest [] = none
latest ((_, t) ∷ rest) = later t (latest rest)
  where
    later : Timestamp → Option Timestamp → Option Timestamp
    later t none = some t
    later t (some u) = elim (Timestamp.cmp t u) [ gt ↦ some t | _ ↦ some u ]

-- what a commit returns: the results and the latest version in the table
abbrev pub finish :
    InMemoryDatastore × FirestoreResult (List WriteResultInfo)
    → InMemoryDatastore × FirestoreResult CommitResult
finish r = (
  r.0,
  r.1 >>= λ results. ok (record { write_results = results; commit_time = latest r.0.by_path }),
)

abbrev pub unconditional : List WriteOperation → List ConditionalWrite
unconditional [] = []
unconditional (w ∷ ws) = write w Precondition.none ∷ unconditional ws

module _ (now : Timestamp) (add : F64 → F64 → F64) where
  unfoldable pub apply_set :
      DocumentKey
      → Fields
      → Option (List FieldPath)
      → List FieldTransform
      → InMemoryDatastore
      → FirestoreResult InMemoryDatastore
  unfolding put set_fields
  apply_set key data' mask transforms store =
      let canonical = canonical_string key.path in
      apply_field_transforms now add transforms
        (set_fields mask data' (BTreeMap.get canonical store.documents))
      >>= λ fields. ok (put canonical fields store)

  unfoldable pub apply_update :
      DocumentKey
      → Fields
      → List FieldPath
      → List FieldTransform
      → InMemoryDatastore
      → FirestoreResult InMemoryDatastore
  unfolding put apply_mask
  apply_update key data' field_paths transforms store =
      let canonical = canonical_string key.path in
      require (BTreeMap.get canonical store.documents) >>= λ current.
      apply_field_transforms now add transforms (apply_mask field_paths data' current) >>= λ fields.
      ok (put canonical fields store)

  unfoldable pub apply_delete : DocumentKey → InMemoryDatastore → FirestoreResult InMemoryDatastore
  unfolding forget_version
  apply_delete key store =
      let canonical = canonical_string key.path in
      ok (
        forget_version canonical
          (record store { documents = BTreeMap.remove canonical store.documents }))

  -- A write that fails has changed nothing: it returns before its only insertion.
  unfoldable pub apply_write :
      WriteOperation → InMemoryDatastore → FirestoreResult InMemoryDatastore
  unfolding apply_set apply_update apply_delete
  apply_write (set key data' mask transforms) store = apply_set key data' mask transforms store
  apply_write (update key data' paths transforms) store =
      apply_update key data' paths transforms store
  apply_write (delete key) store = apply_delete key store

  -- The store afterwards and what the call returns: a failure keeps what was applied before it.
  unfoldable pub commit :
      List WriteOperation → InMemoryDatastore → InMemoryDatastore × FirestoreResult (Unit {0})
  unfolding apply_write
  commit [] store = (store, ok tt)
  commit (w ∷ ws) store =
      let rest = commit ws in
      elim (apply_write w store) [ ok next ↦ rest next | err e ↦ (store, err e) ]

  abbrev pub add_result :
      WriteResultInfo
      → InMemoryDatastore × FirestoreResult (List WriteResultInfo)
      → InMemoryDatastore × FirestoreResult (List WriteResultInfo)
  add_result r (store, m) = (store, m >>= λ rs. ok (r ∷ rs))

  -- the loop of `commit_conditional` that applies
  unfoldable pub apply_all :
      List ConditionalWrite
      → InMemoryDatastore
      → InMemoryDatastore × FirestoreResult (List WriteResultInfo)
  unfolding apply_write
  apply_all [] store = (store, ok [])
  apply_all (write w p ∷ ws) store =
      let rest = apply_all ws in
      elim (apply_write w store) [
        | ok next ↦
            add_result
              (record { update_time = version_of (canonical_string (write_key w).path) next })
              (rest next)
        | err e ↦ (store, err e)
      ]
  apply_all (verify _ _ ∷ ws) store =
      add_result (record { update_time = none }) (apply_all ws store)

  -- the loop over the preconditions
  unfoldable pub check_all : List ConditionalWrite → InMemoryDatastore → FirestoreResult (Unit {0})
  unfolding check_version
  check_all [] store = ok tt
  check_all (w ∷ ws) store =
      check_precondition (conditional_key w) (precondition w) store >>= λ _. check_all ws store

  unfoldable pub commit_conditional :
      List ConditionalWrite → InMemoryDatastore → InMemoryDatastore × FirestoreResult CommitResult
  unfolding apply_all check_all latest
  commit_conditional ws store = elim (check_all ws store) [
    | ok _ ↦ finish (apply_all ws store)
    | err e ↦ (store, err e)
  ]

  -- the loop of `commit_with_results` does what that of `commit_conditional` does with its writes
  unfoldable pub commit_with_results :
      List WriteOperation → InMemoryDatastore → InMemoryDatastore × FirestoreResult CommitResult
  unfolding apply_all latest
  commit_with_results ws store = finish (apply_all (unconditional ws) store)

abbrev local : SnapshotMetadata
local = record { from_cache = true; has_pending_writes = false }

unfoldable pub get_document : DocumentKey → InMemoryDatastore → DocumentSnapshot
get_document key store =
    Snapshot.new key (BTreeMap.get (canonical_string key.path) store.documents) local

-- the loop of `run_query` over the store
unfoldable pub candidates :
    QueryDefinition → BTreeMap Text Fields → FirestoreResult (List DocumentSnapshot)
unfolding matches_collection
candidates d [] = ok []
candidates d ((path, fields) ∷ rest) = do
  key ← DocumentKey.from_string path
  later ← candidates d rest
  ok (if matches_collection d key then Snapshot.new key (some fields) local ∷ later else later)

unfoldable pub run_query :
    QueryDefinition → InMemoryDatastore → FirestoreResult (List DocumentSnapshot)
unfolding candidates
run_query d store = candidates d store.documents >>= λ docs. ok (apply_query_to_documents d docs)

unfoldable pub batch_get_documents : List DocumentKey → InMemoryDatastore → List DocumentSnapshot
batch_get_documents [] store = []
batch_get_documents (key ∷ keys) store =
    snapshot_for key (BTreeMap.get (canonical_string key.path) store.documents) store
    ∷ batch_get_documents keys store
