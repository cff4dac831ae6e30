-- ===== src/Firestore/Watch/View.antt =====
-- The query view and the document view of crates/firebase-firestore/src/api/listener.rs. A view that
-- raises a snapshot returns it, for the callback; the comparison of documents is that of the query.
pub mod Laws
pub mod Session
pub mod InStep
pub mod Refinement
use firebase_rs_sdk.Common.{
  ◌≡◌, Bool, true, false, not, ◌||◌, ◌&&◌, unwrap_or, Option, none, some, List, [], ◌∷◌, is_some,
  Ordering, if◌then◌else◌,
}
use firebase_rs_sdk.Common.BTreeMap
use firebase_rs_sdk.Common.BTreeMap.{BTreeMap, BTreeSet}
use firebase_rs_sdk.Common.Int.{ℤ, int_ord, pos}
use firebase_rs_sdk.Common.Sort.{sort_by}
use firebase_rs_sdk.Firestore.Model.DocumentKey.{DocumentKey, key_ord}
use firebase_rs_sdk.Firestore.Model.Timestamp.{Timestamp}
use firebase_rs_sdk.Firestore.Snapshot
use firebase_rs_sdk.Firestore.Snapshot.{DocumentSnapshot, with_times}
use firebase_rs_sdk.Firestore.Value.Equality.{eq_version, eq_bool}
use firebase_rs_sdk.Firestore.Query.{OrderBy}
use firebase_rs_sdk.Firestore.Query.Definition.{QueryDefinition}
use firebase_rs_sdk.Firestore.QueryEvaluator.{compare_snapshots}
use firebase_rs_sdk.Firestore.Watch.{Token, WatchDocument, TargetChange, RemoteEvent, is_nil}
use firebase_rs_sdk.Firestore.Watch.Changes.{
  QueryDocumentChange, document_changes, compute_doc_changes,
}

-- LISTEN_TARGET_ID
abbrev pub listen_target_id : ℤ
listen_target_id = pos 1

-- `ViewDocument` has one field.
abbrev pub snapshot : Bool → WatchDocument → DocumentSnapshot
snapshot from_cache d = with_times d.create_time d.update_time (
    Snapshot.new d.key (some d.fields)
      (record { from_cache = from_cache; has_pending_writes = false }))

abbrev pub Documents : Type 0
Documents = BTreeMap DocumentKey WatchDocument

-- the parts of an event that concern the target of the listener
abbrev pub target_change_of : RemoteEvent → Option TargetChange
target_change_of event = BTreeMap.get listen_target_id event.target_changes

abbrev pub is_reset : RemoteEvent → Bool
is_reset event = BTreeMap.contains_key listen_target_id event.target_resets

abbrev pub removed_of : RemoteEvent → BTreeSet DocumentKey
removed_of event = elim (target_change_of event) [
  | none ↦ []
  | some change ↦ change.removed_documents
]

abbrev pub current_of : RemoteEvent → Bool
current_of event = elim (target_change_of event) [ none ↦ false | some change ↦ change.current ]

abbrev pub resume_token_of : RemoteEvent → Option Token
resume_token_of event = elim (target_change_of event) [
  | none ↦ none
  | some change ↦ change.resume_token
]

-- the loop over the document updates
unfoldable pub update_documents :
    BTreeMap DocumentKey (Option WatchDocument) → Documents → Documents
update_documents [] docs = docs
update_documents ((key, document) ∷ updates) docs =
    update_documents updates
      (elim document [ some d ↦ BTreeMap.insert key d docs | none ↦ BTreeMap.remove key docs ])

-- the loop over the removed documents
unfoldable pub remove_documents : BTreeSet DocumentKey → Documents → Documents
remove_documents [] docs = docs
remove_documents ((key, _) ∷ removed) docs = remove_documents removed (BTreeMap.remove key docs)

-- The documents of a view after an event.
unfoldable pub view_documents : RemoteEvent → Documents → Documents
unfolding update_documents remove_documents
view_documents event docs =
    remove_documents (removed_of event)
      (update_documents event.document_updates (if is_reset event then [] else docs))

-- whether a view is current after an event
abbrev pub view_current : RemoteEvent → Bool → Bool
view_current event current = current_of event || (not (is_reset event) && current)

pub record QuerySnapshotMetadata : Type 0 where
  pub from_cache : Bool
  pub has_pending_writes : Bool
  pub sync_state_changed : Bool
  pub resume_token : Option Token
  pub snapshot_version : Option Timestamp

pub record QuerySnapshot : Type 0 where
  pub documents : List DocumentSnapshot
  pub metadata : QuerySnapshotMetadata
  pub doc_changes : List QueryDocumentChange

pub record QueryViewSink : Type 0 where
  pub definition : QueryDefinition
  pub documents : Documents
  pub current : Bool
  pub raised_first_snapshot : Bool
  pub previous : Option (List DocumentSnapshot)

abbrev pub new : QueryDefinition → QueryViewSink
new definition = record {
  definition = definition;
  documents = [];
  current = false;
  raised_first_snapshot = false;
  previous = none;
}

unfoldable pub snapshots : Bool → Documents → List DocumentSnapshot
snapshots from_cache [] = []
snapshots from_cache ((_, d) ∷ docs) = snapshot from_cache d ∷ snapshots from_cache docs

unfoldable pub sorted_documents : Bool → List OrderBy → Documents → List DocumentSnapshot
unfolding snapshots sort_by compare_snapshots
sorted_documents from_cache order_by docs =
    sort_by (compare_snapshots order_by) (snapshots from_cache docs)

-- the versions that the diff compares with
unfoldable pub versions : Documents → BTreeMap DocumentKey (Option Timestamp)
versions [] = []
versions ((key, d) ∷ docs) = (key, d.update_time) ∷ versions docs

-- the changes that an event makes to a view, whose documents are sorted already
abbrev pub changes : QueryViewSink → List DocumentSnapshot → List QueryDocumentChange
changes v documents =
    if v.raised_first_snapshot
    then document_changes (versions v.documents) v.previous documents
    else compute_doc_changes none documents

-- the view before a snapshot is raised: what every event changes
abbrev pub folded : RemoteEvent → QueryViewSink → QueryViewSink
folded event v = record v {
  documents = view_documents event v.documents;
  current = view_current event v.current;
}

abbrev pub current_documents : QueryViewSink → List DocumentSnapshot
current_documents v = sorted_documents (not v.current) v.definition.result_order_by v.documents

abbrev pub sync_state_changed : RemoteEvent → Bool → Bool
sync_state_changed event current = not (eq_bool current (view_current event current))

abbrev pub should_raise : RemoteEvent → QueryViewSink → Bool
should_raise event v =
    if v.raised_first_snapshot
    then not (is_nil (changes v (current_documents (folded event v))))
      || sync_state_changed event v.current
    else view_current event v.current

abbrev pub query_snapshot : RemoteEvent → QueryViewSink → QuerySnapshot
query_snapshot event v = record {
  documents = current_documents (folded event v);
  metadata = record {
    from_cache = not (view_current event v.current);
    has_pending_writes = false;
    sync_state_changed = sync_state_changed event v.current;
    resume_token = resume_token_of event;
    snapshot_version = event.snapshot_version;
  };
  doc_changes = changes v (current_documents (folded event v));
}

unfoldable pub apply : RemoteEvent → QueryViewSink → Option QuerySnapshot × QueryViewSink
unfolding view_documents sorted_documents versions document_changes compute_doc_changes
apply event v =
    let raised : QueryViewSink = record (folded event v) {
      raised_first_snapshot = true;
      previous = some (current_documents (folded event v));
    } in
    if should_raise event v then (some (query_snapshot event v), raised) else (none, folded event v)

unfoldable pub reset : QueryViewSink → QueryViewSink
reset v = new v.definition

-- The view of a single document.

pub record DocumentViewSink : Type 0 where
  pub key : DocumentKey
  pub document : Option WatchDocument
  pub current : Bool
  pub raised_first_snapshot : Bool

abbrev pub new_document : DocumentKey → DocumentViewSink
new_document key = record {
  key = key;
  document = none;
  current = false;
  raised_first_snapshot = false;
}

abbrev pub update_time_of : Option WatchDocument → Option Timestamp
update_time_of none = none
update_time_of (some d) = d.update_time

-- the document after an event
unfoldable pub view_document :
    RemoteEvent → DocumentKey → Option WatchDocument → Option WatchDocument
view_document event key document =
    let kept = if is_reset event then none else document in
    let updated = unwrap_or kept (BTreeMap.get key event.document_updates) in
    if BTreeMap.contains_key key (removed_of event) then none else updated

abbrev pub document_changed : Option WatchDocument → Option WatchDocument → Bool
document_changed before after =
    not (eq_bool (is_some before) (is_some after))
    || not (eq_version (update_time_of before) (update_time_of after))

abbrev pub document_snapshot : DocumentViewSink → DocumentSnapshot
document_snapshot v = elim v.document [
  | some d ↦ snapshot (not v.current) d
  | none ↦
      Snapshot.new v.key none (record { from_cache = not v.current; has_pending_writes = false })
]

abbrev pub folded_document : RemoteEvent → DocumentViewSink → DocumentViewSink
folded_document event v = record v {
  document = view_document event v.key v.document;
  current = view_current event v.current;
}

unfoldable pub apply_document :
    RemoteEvent → DocumentViewSink → Option DocumentSnapshot × DocumentViewSink
unfolding view_document
apply_document event v =
    let next = folded_document event v in
    let raise =
      if v.raised_first_snapshot
      then document_changed v.document next.document || sync_state_changed event v.current
      else next.current in
    if raise
    then (some (document_snapshot next), record next { raised_first_snapshot = true })
    else (none, next)

unfoldable pub reset_document : DocumentViewSink → DocumentViewSink
reset_document v = new_document v.key
