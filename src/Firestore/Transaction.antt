-- ===== src/Firestore/Transaction.antt =====
-- crates/firebase-firestore/src/api/transaction.rs. Each mutex guards one field. A method that
-- stages a write is one step. A read awaits its datastore: it takes the transaction as it is when the read
-- is asked for, and as it is when the answer comes, since other calls may come between. A datastore is any implementation of the trait; the user's closure is a parameter.
pub mod Staging
pub mod Commit
pub mod Retry
use firebase_rs_sdk.Common.{
  Bool, true, false, not, Option, none, some, List, [], ◌∷◌, ◌++◌, if◌then◌else◌,
}
use firebase_rs_sdk.Common.BTreeMap
use firebase_rs_sdk.Common.BTreeMap.{BTreeMap}
use firebase_rs_sdk.Common.Ord.{nat_ord, list_ord}
use firebase_rs_sdk.Common.Text.{Text}
use firebase_rs_sdk.Firestore.Error.{
  FirestoreResult, ok, err, invalid_argument, failed_precondition, aborted, ◌>>=◌, ◌>>◌, fail_if,
}
use firebase_rs_sdk.Firestore.Model.DocumentKey.{DocumentKey, from_path, from_string}
use firebase_rs_sdk.Firestore.Model.ResourcePath.{canonical_string}
use firebase_rs_sdk.Firestore.Model.Timestamp.{Timestamp}
use firebase_rs_sdk.Firestore.Value.{Fields}
use firebase_rs_sdk.Firestore.Value.Equality.{eq_version}
use firebase_rs_sdk.Firestore.Snapshot.{DocumentSnapshot, exists}
use firebase_rs_sdk.Firestore.Query.{DatabaseId}
use firebase_rs_sdk.Firestore.Operations.{SetOptions}
use firebase_rs_sdk.Firestore.Operations.Encode.{encode_set_data, encode_update_document_data}
use firebase_rs_sdk.Firestore.Datastore.{
  WriteOperation, set, update, delete, write_key, CommitResult, Precondition, ConditionalWrite,
  write, verify,
}
use firebase_rs_sdk.Firestore.Reference.{DocumentReference, ensure_same_firestore}

-- what a transaction calls of the `Datastore` trait, over the state of the datastore
pub record Datastore {ℓ} (S : Type ℓ) : Type ℓ where
  pub batch_get_documents : List DocumentKey → S → FirestoreResult (List DocumentSnapshot)
  pub commit_conditional : List ConditionalWrite → S → S × FirestoreResult CommitResult

-- `none`: the document did not exist
abbrev pub ReadVersion : Type 0
ReadVersion = Option Timestamp

-- `written` is a set: a key with no value
pub record Transaction : Type 0 where
  pub database_id : DatabaseId
  pub read_versions : BTreeMap Text ReadVersion
  pub written : BTreeMap Text (Unit {0})
  pub writes : List ConditionalWrite
  pub finished : Bool

abbrev pub new : DatabaseId → Transaction
new database_id = record {
  database_id = database_id;
  read_versions = [];
  written = [];
  writes = [];
  finished = false;
}

abbrev pub is_nil {ℓ} : {A : Type ℓ} → List A → Bool
is_nil [] = true
is_nil (_ ∷ _) = false

abbrev pub ensure_not_finished : Transaction → FirestoreResult (Unit {0})
ensure_not_finished t = fail_if t.finished failed_precondition

abbrev pub ensure_reads_allowed : Transaction → FirestoreResult (Unit {0})
ensure_reads_allowed t = ensure_not_finished t >> fail_if (not (is_nil t.writes)) invalid_argument

abbrev pub is_written : Text → Transaction → Bool
is_written canonical t = BTreeMap.contains_key canonical t.written

-- Reads.

-- a document that exists has an update time, or the read fails
abbrev pub version : DocumentSnapshot → FirestoreResult ReadVersion
version s =
    if exists s
    then (elim s.update_time [ none ↦ err failed_precondition | some time ↦ ok (some time) ])
    else ok none

-- the `match` on the version that was read before
unfoldable pub remember : Text → ReadVersion → Transaction → FirestoreResult Transaction
remember canonical v t = elim (BTreeMap.get canonical t.read_versions) [
  | none ↦ ok (record t { read_versions = BTreeMap.insert canonical v t.read_versions })
  | some existing ↦ if eq_version existing v then ok t else err aborted
]

unfoldable pub record_version : DocumentSnapshot → Transaction → FirestoreResult Transaction
unfolding remember
record_version s t = version s >>= λ v. remember (canonical_string s.key.path) v t

-- the loop of `get_all`: what was recorded before a failure stays
unfoldable pub record_all :
    List DocumentSnapshot → Transaction → Transaction × FirestoreResult (Unit {0})
unfolding record_version
record_all [] t = (t, ok tt)
record_all (s ∷ ss) t =
    let rest = record_all ss in
    elim (record_version s t) [ ok next ↦ rest next | err e ↦ (t, err e) ]

-- Vec::pop
abbrev pub last_snapshot : List DocumentSnapshot → FirestoreResult DocumentSnapshot
last_snapshot [] = err failed_precondition
last_snapshot (s ∷ []) = ok s
last_snapshot (s ∷ r ∷ rest) = last_snapshot (r ∷ rest)

abbrev reference_key : Transaction → DocumentReference → FirestoreResult DocumentKey
reference_key t r = ensure_same_firestore t.database_id r >> from_path r.key.path

unfoldable pub reference_keys :
    Transaction → List DocumentReference → FirestoreResult (List DocumentKey)
reference_keys t [] = ok []
reference_keys t (r ∷ rs) =
    reference_key t r >>= λ key. reference_keys t rs >>= λ keys. ok (key ∷ keys)

module _ {ℓ} {S : Type ℓ} (datastore : Datastore S) where
  -- what a read of one document makes of its answer; a failure leaves the transaction as it finds it
  unfoldable pub answered_key :
      FirestoreResult DocumentSnapshot
      → Transaction
      → Transaction × FirestoreResult DocumentSnapshot
  unfolding record_all
  answered_key (err e) u = (u, err e)
  answered_key (ok snapshot) u =
      let r = record_all (snapshot ∷ []) u in (r.0, r.1 >>= λ _. ok snapshot)

  -- `t` is the transaction when the read is asked for, `u` when its answer comes
  unfoldable pub get_key :
      DocumentKey → Transaction → Transaction → S → Transaction × FirestoreResult DocumentSnapshot
  unfolding answered_key
  get_key key t u s = elim (ensure_reads_allowed t) [
    | err e ↦ (t, err e)
    | ok _ ↦ answered_key (datastore.batch_get_documents (key ∷ []) s >>= last_snapshot) u
  ]

  unfoldable pub get :
      DocumentReference
      → Transaction
      → Transaction
      → S
      → Transaction × FirestoreResult DocumentSnapshot
  unfolding get_key
  get r t u s = elim (reference_key t r) [ err e ↦ (t, err e) | ok key ↦ get_key key t u s ]

  unfoldable pub get_path :
      Text → Transaction → Transaction → S → Transaction × FirestoreResult DocumentSnapshot
  unfolding get_key
  get_path path t u s = elim (from_string path) [ err e ↦ (t, err e) | ok key ↦ get_key key t u s ]

  unfoldable pub answered_all :
      FirestoreResult (List DocumentSnapshot)
      → Transaction
      → Transaction × FirestoreResult (List DocumentSnapshot)
  unfolding record_all
  answered_all (err e) u = (u, err e)
  answered_all (ok snapshots) u = let r = record_all snapshots u in (r.0, r.1 >>= λ _. ok snapshots)

  -- no reference asks for nothing
  unfoldable pub get_all :
      List DocumentReference
      → Transaction
      → Transaction
      → S
      → Transaction × FirestoreResult (List DocumentSnapshot)
  unfolding reference_keys answered_all
  get_all rs t u s = elim (ensure_reads_allowed t >> reference_keys t rs) [
    | err e ↦ (t, err e)
    | ok [] ↦ (t, ok [])
    | ok (key ∷ keys) ↦ answered_all (datastore.batch_get_documents (key ∷ keys) s) u
  ]

-- Writes. A staging method that fails has changed nothing.

-- the precondition that a read asks for
abbrev pub of_version : ReadVersion → Precondition
of_version (some time) = Precondition.update_time time
of_version none = Precondition.exists false

unfoldable pub precondition_for : Text → Transaction → Precondition
precondition_for canonical t =
    if is_written canonical t
    then Precondition.none
    else (elim (BTreeMap.get canonical t.read_versions) [
      | none ↦ Precondition.none
      | some v ↦ of_version v
    ])

unfoldable pub precondition_for_update : Text → Transaction → FirestoreResult Precondition
precondition_for_update canonical t =
    if is_written canonical t
    then ok (Precondition.exists true)
    else (elim (BTreeMap.get canonical t.read_versions) [
      | none ↦ ok (Precondition.exists true)
      | some none ↦ err invalid_argument
      | some (some time) ↦ ok (Precondition.update_time time)
    ])

unfoldable pub stage : WriteOperation → Precondition → Transaction → Transaction
stage operation p t = record t {
  writes = t.writes ++ write operation p ∷ [];
  written = BTreeMap.insert (canonical_string (write_key operation).path) tt t.written;
}

-- SetOptions::default
abbrev pub or_default : Option SetOptions → SetOptions
or_default none = record { merge = false; merge_fields = none }
or_default (some options) = options

unfoldable pub set_key :
    DocumentKey → Fields → Option SetOptions → Transaction → FirestoreResult Transaction
unfolding encode_set_data precondition_for stage
set_key key data' options t = do
  ensure_not_finished t
  encoded ← encode_set_data data' (or_default options)
  ok (
      stage (set key encoded.fields encoded.mask encoded.transforms)
        (precondition_for (canonical_string key.path) t) t)

unfoldable pub update_key : DocumentKey → Fields → Transaction → FirestoreResult Transaction
unfolding encode_update_document_data precondition_for_update stage
update_key key data' t = do
  ensure_not_finished t
  encoded ← encode_update_document_data data'
  p ← precondition_for_update (canonical_string key.path) t
  ok (stage (update key encoded.fields encoded.field_paths encoded.transforms) p t)

unfoldable pub delete_key : DocumentKey → Transaction → FirestoreResult Transaction
unfolding precondition_for stage
delete_key key t = do
  ensure_not_finished t
  ok (stage (delete key) (precondition_for (canonical_string key.path) t) t)

-- the methods that take a reference, and those that take a path
unfoldable pub set_reference :
    DocumentReference → Fields → Option SetOptions → Transaction → FirestoreResult Transaction
unfolding set_key
set_reference r data' options t = reference_key t r >>= λ key. set_key key data' options t

unfoldable pub set_path :
    Text → Fields → Option SetOptions → Transaction → FirestoreResult Transaction
unfolding set_key
set_path path data' options t = from_string path >>= λ key. set_key key data' options t

unfoldable pub update_reference :
    DocumentReference → Fields → Transaction → FirestoreResult Transaction
unfolding update_key
update_reference r data' t = reference_key t r >>= λ key. update_key key data' t

unfoldable pub update_path : Text → Fields → Transaction → FirestoreResult Transaction
unfolding update_key
update_path path data' t = from_string path >>= λ key. update_key key data' t

unfoldable pub delete_reference : DocumentReference → Transaction → FirestoreResult Transaction
unfolding delete_key
delete_reference r t = reference_key t r >>= λ key. delete_key key t

unfoldable pub delete_path : Text → Transaction → FirestoreResult Transaction
unfolding delete_key
delete_path path t = from_string path >>= λ key. delete_key key t

-- The loop of `finish` over the reads: one entry for each that was not written.
unfoldable pub verifications :
    BTreeMap Text ReadVersion → BTreeMap Text (Unit {0}) → FirestoreResult (List ConditionalWrite)
verifications [] written = ok []
verifications ((canonical, v) ∷ reads) written =
    let rest = verifications reads written in
    let checked =
      from_string canonical >>= λ key. rest >>= λ later. ok (verify key (of_version v) ∷ later) in
    if BTreeMap.contains_key canonical written then rest else checked

-- The sealed transaction, whose writes are taken, and the writes to commit.
unfoldable pub finish : Transaction → Transaction × FirestoreResult (List ConditionalWrite)
unfolding verifications
finish t = (
  record t { finished = true; writes = [] },
  verifications t.read_versions t.written >>= λ checks. ok (t.writes ++ checks),
)
