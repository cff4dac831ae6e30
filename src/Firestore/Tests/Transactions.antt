-- ===== src/Firestore/Tests/Transactions.antt =====
-- Transactions and write batches at concrete inputs.
use firebase_rs_sdk.Common.Int.{cmp_ℤ}
use mathlib.Core.Path.{subst}
use firebase_rs_sdk.Common.{
  sym, ◌∙◌, ℕ, ◌≤◌, ◌≡◌, refl, false, Option, none, some, leb, List, if◌then◌else◌, [], ◌∷◌, length,
}
use firebase_rs_sdk.Common.Int.{pos}
use firebase_rs_sdk.Common.Ord.{cmp_list, list_ord, nat_ord}
use firebase_rs_sdk.Common.Text.{Text, codes, join, split_from, is_whitespace}
use firebase_rs_sdk.Common.BTreeMap
use firebase_rs_sdk.Firestore.Error.{FirestoreResult, ok, err, aborted, ok_inj}
use firebase_rs_sdk.Firestore.F64.{F64}
use firebase_rs_sdk.Firestore.Model.DocumentKey.{DocumentKey, from_string, from_path}
use firebase_rs_sdk.Firestore.Model.ResourcePath.{canonical_string}
use firebase_rs_sdk.Firestore.Model.ResourcePath
use firebase_rs_sdk.Firestore.Model.Timestamp.{Timestamp}
use firebase_rs_sdk.Firestore.Value.{integer, Fields, end, field}
use firebase_rs_sdk.Firestore.Snapshot.{DocumentSnapshot}
use firebase_rs_sdk.Firestore.Query.{DatabaseId}
use firebase_rs_sdk.Firestore.Datastore.{
  WriteOperation, ConditionalWrite, Precondition, CommitResult,
}
use firebase_rs_sdk.Firestore.InMemory
use firebase_rs_sdk.Firestore.InMemory.{InMemoryDatastore, version_of}
use firebase_rs_sdk.Firestore.Transaction.{
  Transaction, new, get_key, is_written, record_all, delete_key, finish,
}
use firebase_rs_sdk.Firestore.Transaction.Staging.{
  IsKept, Later, later_none, later_delete, Later-IsKept,
}
use firebase_rs_sdk.Firestore.Transaction.Commit.{in_memory, IsCanonical, finish-version_of}
use firebase_rs_sdk.Firestore.Transaction.Retry.{
  Run, IsRun, run_transaction, run_transaction-IsRun, default_options,
}
use firebase_rs_sdk.Firestore.WriteBatch
use firebase_rs_sdk.Firestore.WriteBatch.{
  WriteBatch, max_batch_writes, add_delete, Call, call_delete, Asked, Builds, built_new, built_call,
  Builds-bounded,
}

abbrev now : Timestamp
now = record { seconds = pos 1700000000; nanos = pos 0 }

-- stands for the addition of doubles
abbrev add : F64 → F64 → F64
add a b = a

abbrev db : DatabaseId
db = record { project_id = codes "p"; database = codes "d" }

abbrev sf_path : Text
sf_path = codes "cities/sf"

abbrev sf : DocumentKey
sf = record { path = record { segments = codes "cities" ∷ codes "sf" ∷ [] } }

abbrev population : Fields
population = field (codes "population") (integer (pos 1)) end

abbrev one : Timestamp
one = record { seconds = pos 1; nanos = pos 0 }

-- a store with one document
abbrev store : InMemoryDatastore
store = record {
  documents = (sf_path, population) ∷ [];
  by_path = (sf_path, one) ∷ [];
  next = pos 1;
}

abbrev read : Transaction
read = record (new db) { read_versions = (sf_path, some one) ∷ [] }

abbrev snapshot : DocumentSnapshot
snapshot = record {
  key = sf;
  fields = some population;
  metadata = record { from_cache = false; has_pending_writes = false };
  create_time = some one;
  update_time = some one;
}

reads : get_key (in_memory now add) sf (new db) (new db) store ≡ (read, ok snapshot)
unfolding get_key record_all canonical_string join BTreeMap.get BTreeMap.insert
    InMemory.batch_get_documents cmp_list
reads = refl

abbrev delete_sf : ConditionalWrite
delete_sf = ConditionalWrite.write (WriteOperation.delete sf) (Precondition.update_time one)

abbrev staged : Transaction
staged = record read { written = (sf_path, tt) ∷ []; writes = delete_sf ∷ [] }

stages : delete_key sf read ≡ ok staged
unfolding delete_key canonical_string join BTreeMap.get BTreeMap.insert cmp_list
stages = refl

staged-Later : Later (in_memory now add) read staged
staged-Later = later_delete sf later_none stages

first_read : BTreeMap.get sf_path read.read_versions ≡ some (some one)
unfolding BTreeMap.get cmp_list
first_read = refl

unwritten : is_written sf_path read ≡ false
unfolding BTreeMap.get
unwritten = refl

Later-IsKept_example : IsKept sf_path (some one) staged
Later-IsKept_example =
    Later-IsKept (in_memory now add) sf_path (some one) read staged first_read unwritten
      staged-Later

-- A write that is staged while a read of its document is under way has no precondition.
abbrev unguarded : ConditionalWrite
unguarded = ConditionalWrite.write (WriteOperation.delete sf) Precondition.none

abbrev written_early : Transaction
written_early = record (new db) { written = (sf_path, tt) ∷ []; writes = unguarded ∷ [] }

late_read :
    (delete_key sf (new db) ≡ ok written_early)
    × (get_key (in_memory now add) sf (new db) written_early store
        ≡ (record written_early { read_versions = (sf_path, some one) ∷ [] }, ok snapshot))
    × ((finish (record written_early { read_versions = (sf_path, some one) ∷ [] })).1
        ≡ ok (unguarded ∷ []))
unfolding delete_key finish get_key record_all canonical_string join BTreeMap.get BTreeMap.insert
    InMemory.batch_get_documents cmp_list
late_read = (refl, refl, refl)

finished : (finish staged).1 ≡ ok (delete_sf ∷ [])
unfolding finish BTreeMap.get cmp_list
finished = refl

abbrev results : CommitResult
results = record { write_results = record { update_time = none } ∷ []; commit_time = none }

committed : (InMemory.commit_conditional now add (delete_sf ∷ []) store).1 ≡ ok results
unfolding InMemory.commit_conditional BTreeMap.get BTreeMap.remove canonical_string join cmp_list
    cmp_ℤ
committed = refl

sf_path_ok : from_string sf_path ≡ ok sf
unfolding from_string from_path ResourcePath.from_string ResourcePath.has_double_slash split_from
    is_whitespace
sf_path_ok = refl

canonical : canonical_string sf.path ≡ sf_path
unfolding canonical_string join
canonical = refl

sf_path-IsCanonical : IsCanonical sf_path
sf_path-IsCanonical k e =
    subst (λ x. canonical_string x.path ≡ sf_path) (ok_inj (sym sf_path_ok ∙ e)) canonical

finish-version_of_example : version_of sf_path store ≡ some one
finish-version_of_example =
    finish-version_of (in_memory now add) read staged now add (delete_sf ∷ []) store results sf_path
      (some one) first_read unwritten sf_path-IsCanonical staged-Later finished committed

-- a closure that always asks for another attempt
abbrev restarts :
    ℕ → Transaction → InMemoryDatastore → Transaction × InMemoryDatastore × FirestoreResult ℕ
restarts n t s = (t, s, err aborted)

-- stands for the scaling of a duration
abbrev scale : ℕ → ℕ → Option ℕ
scale d i = if leb 3 i then none else some d

run_transaction-IsRun_example :
    (r : Run InMemoryDatastore ℕ) × (run_transaction
        (in_memory now add)
        scale
        default_options
        db
        restarts
        store
      ≡ some r)
    × IsRun (in_memory now add) scale default_options db restarts 0 r
run_transaction-IsRun_example =
    run_transaction-IsRun (in_memory now add) scale default_options db restarts store

-- the delay before the fifth attempt is one that overflows
overflows :
    run_transaction (in_memory now add) scale default_options db restarts store
    ≡ some (record {
      attempts = 4;
      sleeps = 100000000 ∷ 100000000 ∷ 100000000 ∷ [];
      store = store;
      result = none;
    })
unfolding run_transaction
overflows = refl

abbrev batch : WriteBatch
batch = record { database_id = db; writes = WriteOperation.delete sf ∷ [] }

adds : add_delete (record { database_id = db; key = sf }) (WriteBatch.new db) ≡ ok batch
unfolding add_delete from_path cmp_list
adds = refl

abbrev calls : List Call
calls = call_delete (record { database_id = db; key = sf }) ∷ []

batch-Builds : Builds db calls batch
batch-Builds = built_call (call_delete (record { database_id = db; key = sf })) built_new adds

Builds-bounded_example :
    (ws : List WriteOperation) × (length ws ≤ max_batch_writes)
    × Asked calls ws
    × (WriteBatch.commit now add batch InMemory.new ≡ InMemory.commit now add ws InMemory.new)
    × (WriteBatch.commit_with_results now add batch InMemory.new
        ≡ InMemory.commit_with_results now add ws InMemory.new)
Builds-bounded_example = Builds-bounded calls batch now add InMemory.new batch-Builds
