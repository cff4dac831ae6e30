-- ===== src/Firestore/Watch/Aggregator.antt =====
-- `WatchChangeAggregator` of crates/firebase-firestore/src/remote/watch_change_aggregator.rs. The keys
-- that a metadata provider knows of a target are a parameter.
pub mod Drain
use firebase_rs_sdk.Common.{
  ℕ, Bool, true, false, not, Option, none, some, List, [], ◌∷◌, unwrap_or, length, if◌then◌else◌,
}
use firebase_rs_sdk.Common.BTreeMap
use firebase_rs_sdk.Common.BTreeMap.{BTreeMap, BTreeSet}
use firebase_rs_sdk.Common.Int.{ℤ, int_ord, pos_part}
use firebase_rs_sdk.Common.Ord.{◌==◌, nat_ord}
use firebase_rs_sdk.Firestore.Error.{FirestoreResult, ok, err}
use firebase_rs_sdk.Firestore.Model.DocumentKey.{DocumentKey, key_ord}
use firebase_rs_sdk.Firestore.Model.Timestamp.{Timestamp}
use firebase_rs_sdk.Firestore.Watch.{
  Token, TargetChangeState, WatchTargetChange, WatchDocument, DocumentChange, DocumentDelete,
  DocumentRemove, ExistenceFilterChange, WatchChange, target_change, document_change,
  document_delete, document_remove, existence_filter, TargetChange, RemoteEvent,
}
use firebase_rs_sdk.Firestore.Watch.TargetState
use firebase_rs_sdk.Firestore.Watch.TargetState.{
  TargetState, update_resume_token, mark_dirty, answered, take_changes,
}

pub record WatchChangeAggregator : Type 0 where
  pub target_states : BTreeMap ℤ TargetState
  pub target_documents : BTreeMap ℤ (BTreeSet DocumentKey)
  pub pending_document_updates : BTreeMap DocumentKey (Option WatchDocument)
  pub resolved_limbo_documents : BTreeSet DocumentKey
  pub pending_target_resets : BTreeSet ℤ
  pub snapshot_version : Option Timestamp

abbrev pub new : WatchChangeAggregator
new = record {
  target_states = [];
  target_documents = [];
  pending_document_updates = [];
  resolved_limbo_documents = [];
  pending_target_resets = [];
  snapshot_version = none;
}

abbrev pub keys {ℓ κ} : {K : Type ℓ} {V : Type κ} → BTreeMap K V → List K
keys [] = []
keys ((k, _) ∷ m) = k ∷ keys m

-- target_states.entry(target_id).or_insert_with(TargetState::new)
abbrev pub state_of : ℤ → WatchChangeAggregator → TargetState
state_of target_id a = unwrap_or TargetState.new (BTreeMap.get target_id a.target_states)

abbrev pub set_target :
    ℤ → TargetState → BTreeSet DocumentKey → WatchChangeAggregator → WatchChangeAggregator
set_target target_id s docs a = record a {
  target_states = BTreeMap.insert target_id s a.target_states;
  target_documents = BTreeMap.insert target_id docs a.target_documents;
}

abbrev pub update_document :
    DocumentKey → Option WatchDocument → WatchChangeAggregator → WatchChangeAggregator
update_document key document a = record a {
  pending_document_updates = BTreeMap.insert key document a.pending_document_updates;
}

-- no target ids: all targets
abbrev pub affected : WatchTargetChange → WatchChangeAggregator → List ℤ
affected change a = elim change.target_ids [ [] ↦ keys a.target_states | t ∷ ts ↦ t ∷ ts ]

module _ (get_remote_keys : ℤ → BTreeSet DocumentKey) where
  -- target_documents.entry(target_id).or_insert_with(..)
  abbrev pub documents_of : ℤ → WatchChangeAggregator → BTreeSet DocumentKey
  documents_of target_id a =
      unwrap_or (get_remote_keys target_id) (BTreeMap.get target_id a.target_documents)

  -- one round of the loop of `handle_target_change`
  unfoldable pub change_target :
      WatchTargetChange → ℤ → WatchChangeAggregator → WatchChangeAggregator
  change_target change target_id a =
      let s = state_of target_id a in
      let put : TargetState → WatchChangeAggregator =
        λ s'. set_target target_id s' (documents_of target_id a) a in
      let token = change.resume_token in
      elim change.state [
        | TargetChangeState.no_change ↦ put (update_resume_token token s)
        | TargetChangeState.add ↦ put (answered (update_resume_token token (TargetState.reset s)))
        | TargetChangeState.remove ↦ record a {
          target_states = BTreeMap.remove target_id a.target_states;
          target_documents = BTreeMap.remove target_id a.target_documents;
        }
        | TargetChangeState.current ↦
            put (mark_dirty (update_resume_token token (record s { current = true })))
        | TargetChangeState.reset ↦ record (put (update_resume_token token (TargetState.reset s))) {
          pending_target_resets = BTreeMap.insert target_id tt a.pending_target_resets;
        }
      ]

  unfoldable pub change_targets :
      WatchTargetChange → List ℤ → WatchChangeAggregator → WatchChangeAggregator
  unfolding change_target
  change_targets change [] a = a
  change_targets change (t ∷ ts) a = change_targets change ts (change_target change t a)

  unfoldable pub handle_target_change :
      WatchTargetChange → WatchChangeAggregator → FirestoreResult WatchChangeAggregator
  unfolding change_targets
  handle_target_change change a = elim change.cause [
    | some error ↦ err error
    | none ↦ ok (change_targets change (affected change a) a)
  ]

  unfoldable pub apply_doc_update :
      ℤ → DocumentKey → Option WatchDocument → WatchChangeAggregator → WatchChangeAggregator
  apply_doc_update target_id key document a =
      let s = state_of target_id a in
      let docs = documents_of target_id a in
      let existed = BTreeMap.contains_key key docs in
      elim document [
        | some _ ↦
            set_target target_id
              (mark_dirty (
                if existed
                then record s { modified = BTreeMap.insert key tt s.modified }
                else record s { added = BTreeMap.insert key tt s.added }))
              (BTreeMap.insert key tt docs) a
        | none ↦
            set_target target_id
              (if existed
                then mark_dirty (record s { removed = BTreeMap.insert key tt s.removed })
                else s)
              (BTreeMap.remove key docs) a
      ]

  unfoldable pub apply_doc_updates :
      List ℤ → DocumentKey → Option WatchDocument → WatchChangeAggregator → WatchChangeAggregator
  unfolding apply_doc_update
  apply_doc_updates [] key document a = a
  apply_doc_updates (t ∷ ts) key document a =
      apply_doc_updates ts key document (apply_doc_update t key document a)

  unfoldable pub handle_document_change :
      DocumentChange → WatchChangeAggregator → WatchChangeAggregator
  unfolding apply_doc_updates
  handle_document_change change a = elim change.document [
    | some document ↦ apply_doc_updates change.removed_target_ids change.key none (
        update_document change.key (some document)
          (apply_doc_updates change.updated_target_ids change.key (some document) a))
    | none ↦
        update_document change.key none
          (apply_doc_updates change.removed_target_ids change.key none a)
  ]

  -- `handle_document_delete` and `handle_document_remove` have one body
  unfoldable pub remove_document :
      DocumentKey → List ℤ → WatchChangeAggregator → WatchChangeAggregator
  unfolding apply_doc_updates
  remove_document key removed a = update_document key none (apply_doc_updates removed key none a)

  unfoldable pub handle_existence_filter :
      ExistenceFilterChange → WatchChangeAggregator → WatchChangeAggregator
  handle_existence_filter change a =
      let held = unwrap_or 0 (elim (BTreeMap.get change.target_id a.target_documents) [
        | none ↦ none
        | some docs ↦ some (length docs)
      ]) in
      let states = a.target_states in
      if held == pos_part change.count then a else record a {
        pending_target_resets = BTreeMap.insert change.target_id tt a.pending_target_resets;
        target_states = elim (BTreeMap.get change.target_id states) [
          | none ↦ states
          | some s ↦ BTreeMap.insert change.target_id (TargetState.reset s) states
        ];
        target_documents = BTreeMap.remove change.target_id a.target_documents;
      }

  unfoldable pub handle_watch_change :
      WatchChange → WatchChangeAggregator → FirestoreResult WatchChangeAggregator
  unfolding handle_target_change handle_document_change remove_document handle_existence_filter
  handle_watch_change (target_change change) a = handle_target_change change a
  handle_watch_change (document_change change) a = ok (handle_document_change change a)
  handle_watch_change (document_delete d) a = ok (remove_document d.key d.removed_target_ids a)
  handle_watch_change (document_remove r) a = ok (remove_document r.key r.removed_target_ids a)
  handle_watch_change (existence_filter filter) a = ok (handle_existence_filter filter a)

abbrev pub set_snapshot_version : Option Timestamp → WatchChangeAggregator → WatchChangeAggregator
set_snapshot_version version a = record a { snapshot_version = version }

-- the `filter_map` of `drain`, which also empties each state
unfoldable pub taken : BTreeMap ℤ TargetState → BTreeMap ℤ TargetChange
unfolding take_changes
taken [] = []
taken ((t, s) ∷ states) =
    let rest = taken states in
    elim (take_changes s).0 [ none ↦ rest | some change ↦ (t, change) ∷ rest ]

unfoldable pub emptied : BTreeMap ℤ TargetState → BTreeMap ℤ TargetState
unfolding take_changes
emptied [] = []
emptied ((t, s) ∷ states) = (t, (take_changes s).1) ∷ emptied states

unfoldable pub drain : WatchChangeAggregator → RemoteEvent × WatchChangeAggregator
unfolding taken emptied
drain a = (
  record {
    snapshot_version = a.snapshot_version;
    target_changes = taken a.target_states;
    target_resets = a.pending_target_resets;
    document_updates = a.pending_document_updates;
    resolved_limbo_documents = a.resolved_limbo_documents;
  },
  record a {
    target_states = emptied a.target_states;
    snapshot_version = none;
    pending_target_resets = [];
    pending_document_updates = [];
    resolved_limbo_documents = [];
  },
)
