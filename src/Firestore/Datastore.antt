-- ===== src/Firestore/Datastore.antt =====
-- crates/firebase-firestore/src/remote/datastore/mod.rs: the writes that a datastore takes and the
-- results that it gives.
use firebase_rs_sdk.Common.{Bool, Option, List}
use firebase_rs_sdk.Firestore.Model.FieldPath.{FieldPath}
use firebase_rs_sdk.Firestore.Model.DocumentKey.{DocumentKey}
use firebase_rs_sdk.Firestore.Model.Timestamp.{Timestamp}
use firebase_rs_sdk.Firestore.Value.{Fields}
use firebase_rs_sdk.Firestore.Operations.{FieldTransform}

pub data WriteOperation : Type 0 where
  set : DocumentKey → Fields → Option (List FieldPath) → List FieldTransform → WriteOperation
  update : DocumentKey → Fields → List FieldPath → List FieldTransform → WriteOperation
  delete : DocumentKey → WriteOperation

abbrev pub write_key : WriteOperation → DocumentKey
write_key (set key _ _ _) = key
write_key (update key _ _ _) = key
write_key (delete key) = key

pub record WriteResultInfo : Type 0 where
  pub update_time : Option Timestamp

pub record CommitResult : Type 0 where
  pub write_results : List WriteResultInfo
  pub commit_time : Option Timestamp

pub data Precondition : Type 0 where
  none : Precondition
  exists : Bool → Precondition
  update_time : Timestamp → Precondition

pub data ConditionalWrite : Type 0 where
  write : WriteOperation → Precondition → ConditionalWrite
  verify : DocumentKey → Precondition → ConditionalWrite

abbrev pub conditional_key : ConditionalWrite → DocumentKey
conditional_key (write operation _) = write_key operation
conditional_key (verify key _) = key

abbrev pub precondition : ConditionalWrite → Precondition
precondition (write _ p) = p
precondition (verify _ p) = p
