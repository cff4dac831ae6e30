-- ===== src/Firestore/Snapshot.antt =====
-- `SnapshotMetadata` and `DocumentSnapshot` of crates/firebase-firestore/src/api/snapshot.rs.
use firebase_rs_sdk.Common.{Bool, Option, none, is_some}
use firebase_rs_sdk.Firestore.Model.DocumentKey.{DocumentKey}
use firebase_rs_sdk.Firestore.Model.Timestamp.{Timestamp}
use firebase_rs_sdk.Firestore.Value.{Fields}

pub record SnapshotMetadata : Type 0 where
  pub from_cache : Bool
  pub has_pending_writes : Bool

pub record DocumentSnapshot : Type 0 where
  pub key : DocumentKey
  pub fields : Option Fields
  pub metadata : SnapshotMetadata
  pub create_time : Option Timestamp
  pub update_time : Option Timestamp

abbrev pub new : DocumentKey → Option Fields → SnapshotMetadata → DocumentSnapshot
new key fields metadata = record {
  key = key;
  fields = fields;
  metadata = metadata;
  create_time = none;
  update_time = none;
}

abbrev pub with_times : Option Timestamp → Option Timestamp → DocumentSnapshot → DocumentSnapshot
with_times create_time update_time s = record s {
  create_time = create_time;
  update_time = update_time;
}

abbrev pub exists : DocumentSnapshot → Bool
exists s = is_some s.fields
