-- ===== src/Firestore/Watch.antt =====
-- The data of crates/firebase-firestore/src/remote/watch_change.rs and remote/remote_event.rs.
pub mod TargetState
pub mod Aggregator
pub mod Changes
pub mod View
pub mod Listener
use firebase_rs_sdk.Common.{ℕ, Bool, true, false, ◌&&◌, Option, List, [], ◌∷◌}
use firebase_rs_sdk.Common.BTreeMap.{BTreeMap, BTreeSet}
use firebase_rs_sdk.Common.Int.{ℤ}
use firebase_rs_sdk.Firestore.Error.{FirestoreErrorCode}
use firebase_rs_sdk.Firestore.Model.DocumentKey.{DocumentKey}
use firebase_rs_sdk.Firestore.Model.Timestamp.{Timestamp}
use firebase_rs_sdk.Firestore.Value.{Fields}

pub data TargetChangeState : Type 0 where
  no_change add remove current reset : TargetChangeState

-- the bytes of a token
abbrev pub Token : Type 0
Token = List ℕ

pub record WatchTargetChange : Type 0 where
  pub state : TargetChangeState
  pub target_ids : List ℤ
  pub resume_token : Option Token
  pub read_time : Option Timestamp
  pub cause : Option FirestoreErrorCode

pub record WatchDocument : Type 0 where
  pub key : DocumentKey
  pub fields : Fields
  pub update_time : Option Timestamp
  pub create_time : Option Timestamp

pub record DocumentChange : Type 0 where
  pub updated_target_ids : List ℤ
  pub removed_target_ids : List ℤ
  pub key : DocumentKey
  pub document : Option WatchDocument

-- `DocumentDelete` and `DocumentRemove` have the same fields.
pub record DocumentDelete : Type 0 where
  pub key : DocumentKey
  pub read_time : Option Timestamp
  pub removed_target_ids : List ℤ

pub record DocumentRemove : Type 0 where
  pub key : DocumentKey
  pub read_time : Option Timestamp
  pub removed_target_ids : List ℤ

pub record ExistenceFilterChange : Type 0 where
  pub target_id : ℤ
  pub count : ℤ

pub data WatchChange : Type 0 where
  target_change : WatchTargetChange → WatchChange
  document_change : DocumentChange → WatchChange
  document_delete : DocumentDelete → WatchChange
  document_remove : DocumentRemove → WatchChange
  existence_filter : ExistenceFilterChange → WatchChange

-- What remote_event.rs gathers.

pub record TargetChange : Type 0 where
  pub resume_token : Option Token
  pub current : Bool
  pub added_documents : BTreeSet DocumentKey
  pub modified_documents : BTreeSet DocumentKey
  pub removed_documents : BTreeSet DocumentKey

pub record RemoteEvent : Type 0 where
  pub snapshot_version : Option Timestamp
  pub target_changes : BTreeMap ℤ TargetChange
  pub target_resets : BTreeSet ℤ
  pub document_updates : BTreeMap DocumentKey (Option WatchDocument)
  pub resolved_limbo_documents : BTreeSet DocumentKey

abbrev pub is_nil {ℓ} : {A : Type ℓ} → List A → Bool
is_nil [] = true
is_nil (_ ∷ _) = false

abbrev pub is_empty : RemoteEvent → Bool
is_empty e =
    is_nil e.target_changes
    && is_nil e.document_updates
    && is_nil e.target_resets
    && is_nil e.resolved_limbo_documents
