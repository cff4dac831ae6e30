-- ===== src/Firestore/Watch/View/Session.antt =====
-- A session of api/listener.rs: the aggregator and the documents of the view, change after change.
use firebase_rs_sdk.Common.{
  ◌≡◌, ◌≢◌, true, false, Option, none, some, [], ◌∷◌, length, unwrap_or, is_some, if◌then◌else◌,
}
use firebase_rs_sdk.Common.BTreeMap
use firebase_rs_sdk.Common.BTreeMap.{BTreeMap, BTreeSet, get-insert, get-remove}
use firebase_rs_sdk.Common.Ord.{◌==◌, nat_ord}
use firebase_rs_sdk.Common.Ordered.{IsOrdered}
use firebase_rs_sdk.Common.Int.{ℤ, int_ord, pos_part}
use firebase_rs_sdk.Firestore.Error.{ok}
use firebase_rs_sdk.Firestore.Model.DocumentKey.{DocumentKey, key_ord}
use firebase_rs_sdk.Firestore.Model.Timestamp.{Timestamp}
use firebase_rs_sdk.Firestore.Watch.{
  TargetChangeState, WatchTargetChange, WatchDocument, DocumentDelete, DocumentRemove,
  ExistenceFilterChange, WatchChange, target_change, document_change, document_delete,
  document_remove, existence_filter, RemoteEvent, is_empty,
}
use firebase_rs_sdk.Firestore.Watch.Aggregator
use firebase_rs_sdk.Firestore.Watch.Aggregator.{
  WatchChangeAggregator, state_of, affected, documents_of, keys, set_target, change_target,
  change_targets, handle_target_change, apply_doc_update, apply_doc_updates, handle_document_change,
  remove_document, handle_existence_filter, handle_watch_change, update_document,
  set_snapshot_version, drain, emptied, taken,
}
use firebase_rs_sdk.Firestore.Watch.View.{Documents, listen_target_id, view_documents}

-- `impl TargetMetadataProvider for ()`
abbrev pub no_remote_keys : ℤ → BTreeSet DocumentKey
no_remote_keys _ = []

-- the documents of the listener's target, and those that the target lost since the last snapshot
abbrev pub held : WatchChangeAggregator → BTreeSet DocumentKey
held a = documents_of no_remote_keys listen_target_id a

abbrev pub lost : WatchChangeAggregator → BTreeSet DocumentKey
lost a = (state_of listen_target_id a).removed

-- The documents that the listener's target has on the server.
abbrev pub Target : Type 0
Target = DocumentKey → Option WatchDocument

abbrev pub assign : DocumentKey → Option WatchDocument → Target → Target
assign k document target j = if j == k then document else target j

-- No document left the target and came back since the last snapshot.
abbrev pub IsSettled : WatchChangeAggregator → Target → Type 0
IsSettled a target = (k : DocumentKey) → BTreeMap.contains_key k (lost a) ≡ true → target k ≡ none

-- No removal of a document waits for a snapshot.
abbrev pub NoneLost : WatchChangeAggregator → Type 0
NoneLost a = (k : DocumentKey) → BTreeMap.contains_key k (lost a) ≡ false

-- How a server tells of the listener's one target while it neither resets nor drops it: each message, and
-- the documents that the target has before and after what it tells. A document enters or changes; it
-- changes and no longer matches, or is not told of further; it is deleted; it is no longer in the target. A
-- target is added while no removal waits, and a filter counts what the aggregator holds.
pub data Tells (a : WatchChangeAggregator) (target : Target) : WatchChange → Target → Type 0 where
  tells_target :
      (c : WatchTargetChange)
      → c.state ≢ TargetChangeState.reset
      → c.state ≢ TargetChangeState.remove
      → (c.state ≡ TargetChangeState.add → NoneLost a)
      → Tells a target (target_change c) target
  tells_updated :
      (k : DocumentKey) (d : WatchDocument)
      → Tells a target
          (document_change (record {
            updated_target_ids = listen_target_id ∷ [];
            removed_target_ids = [];
            key = k;
            document = some d;
          }))
          (assign k (some d) target)
  tells_left :
      (k : DocumentKey) (d : WatchDocument)
      → is_some (target k) ≡ true
      → Tells a target
          (document_change (record {
            updated_target_ids = [];
            removed_target_ids = listen_target_id ∷ [];
            key = k;
            document = some d;
          }))
          (assign k none target)
  tells_gone :
      (k : DocumentKey)
      → Tells a target
          (document_change (record {
            updated_target_ids = [];
            removed_target_ids = listen_target_id ∷ [];
            key = k;
            document = none;
          }))
          (assign k none target)
  tells_delete :
      (d : DocumentDelete)
      → d.removed_target_ids ≡ listen_target_id ∷ []
      → Tells a target (document_delete d) (assign d.key none target)
  tells_remove :
      (r : DocumentRemove)
      → r.removed_target_ids ≡ listen_target_id ∷ []
      → Tells a target (document_remove r) (assign r.key none target)
  tells_filter :
      (f : ExistenceFilterChange)
      → f.target_id ≡ listen_target_id
      → length (held a) ≡ pos_part f.count
      → Tells a target (existence_filter f) target

-- what an event does to the documents of a view; an empty event is not applied
abbrev pub delivered : RemoteEvent → Documents → Documents
delivered event docs = if is_empty event then docs else view_documents event docs

abbrev pub at_snapshot : Timestamp → WatchChangeAggregator → RemoteEvent × WatchChangeAggregator
at_snapshot time a = drain (set_snapshot_version (some time) a)

-- The states of a session: the documents of the view, the aggregator, and the documents of the target.
pub data Session : Documents → WatchChangeAggregator → Target → Type 0 where
  session_start : Session [] Aggregator.new (λ _. none)
  session_change :
      {docs : Documents} {a b : WatchChangeAggregator} {target after : Target}
      (change : WatchChange)
      → Session docs a target
      → Tells a target change after
      → handle_watch_change no_remote_keys change a ≡ ok b
      → Session docs b after
  session_snapshot :
      {docs : Documents} {a : WatchChangeAggregator} {target : Target} (time : Timestamp)
      → Session docs a target
      → IsSettled a target
      → Session (delivered (at_snapshot time a).0 docs) (at_snapshot time a).1 target

-- what the view would hold of a document if all updates that wait were applied
abbrev pub overlay : DocumentKey → Documents → WatchChangeAggregator → Option WatchDocument
overlay k docs a = unwrap_or (BTreeMap.get k docs) (BTreeMap.get k a.pending_document_updates)

pub record InStep (docs : Documents) (a : WatchChangeAggregator) (target : Target) : Type 0 where
  pub ordered_states : IsOrdered a.target_states
  pub ordered_updates : IsOrdered a.pending_document_updates
  pub no_reset : a.pending_target_resets ≡ []
  pub holds : (k : DocumentKey) → BTreeMap.contains_key k (held a) ≡ is_some (target k)
  pub agrees :
      (k : DocumentKey) → BTreeMap.contains_key k (lost a) ≡ false → overlay k docs a ≡ target k
