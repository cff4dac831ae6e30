-- ===== src/Firestore/Reference.antt =====
-- crates/firebase-firestore/src/api/reference.rs: what the writes read of a document reference. Of
-- its `Firestore` handle only the database id is read.
use firebase_rs_sdk.Common.{Bool, not, ◌&&◌}
use firebase_rs_sdk.Common.Ord.{◌==◌, nat_ord, list_ord}
use firebase_rs_sdk.Firestore.Error.{FirestoreResult, invalid_argument, fail_if}
use firebase_rs_sdk.Firestore.Model.DocumentKey.{DocumentKey}
use firebase_rs_sdk.Firestore.Query.{DatabaseId}

pub record DocumentReference : Type 0 where
  pub database_id : DatabaseId
  pub key : DocumentKey

abbrev pub eq_database : DatabaseId → DatabaseId → Bool
eq_database a b = a.project_id == b.project_id && a.database == b.database

-- `ensure_same_firestore` of a transaction and of a batch
abbrev pub ensure_same_firestore : DatabaseId → DocumentReference → FirestoreResult (Unit {0})
ensure_same_firestore own r = fail_if (not (eq_database own r.database_id)) invalid_argument
