-- ===== src/Firestore/Watch/View/Refinement.antt =====
-- The view of api/listener.rs against the target that its aggregator follows.
use firebase_rs_sdk.Common.BTreeMap
use firebase_rs_sdk.Common.BTreeMap.{BTreeMap, BTreeSet, get-insert, get-remove}
use firebase_rs_sdk.Common.Ord.{nat_ord}
use firebase_rs_sdk.Common.Int.{int_ord}
use firebase_rs_sdk.Firestore.Model.DocumentKey.{DocumentKey, key_ord}
use firebase_rs_sdk.Firestore.Model.Timestamp.{Timestamp}
use firebase_rs_sdk.Firestore.Watch.TargetState
use firebase_rs_sdk.Firestore.Watch.TargetState.{
  TargetState, update_resume_token, answered, mark_dirty, reset,
}
use firebase_rs_sdk.Firestore.Watch.View.Session.{Session, InStep}
