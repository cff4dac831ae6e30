-- ===== src/Firestore/Tests/Watch.antt =====
-- Watch changes, views and listeners at concrete inputs.
use firebase_rs_sdk.Common.{ℕ, ◌≡◌, ◌↔◌, refl, false, true, none, some, List, [], ◌∷◌, All}
use firebase_rs_sdk.Common.Int.{ℤ, pos, int_ord, cmp_ℤ}
use firebase_rs_sdk.Common.Ord.{cmp_list, nat_ord, list_ord}
use firebase_rs_sdk.Common.Text.{codes}
use firebase_rs_sdk.Common.BTreeMap
use firebase_rs_sdk.Firestore.Error.{unavailable}
use firebase_rs_sdk.Firestore.Model.DocumentKey.{DocumentKey, key_ord}
use firebase_rs_sdk.Firestore.Model.Timestamp.{Timestamp}
use firebase_rs_sdk.Firestore.Value.{end}
use firebase_rs_sdk.Firestore.Snapshot.{DocumentSnapshot}
use firebase_rs_sdk.Firestore.Watch.{
  TargetChangeState, WatchDocument, WatchChange, target_change, document_change, document_delete,
}
use firebase_rs_sdk.Firestore.Watch.Aggregator
use firebase_rs_sdk.Firestore.Watch.Aggregator.{WatchChangeAggregator}
use firebase_rs_sdk.Firestore.Watch.Changes.{document_changes}
use firebase_rs_sdk.Firestore.Watch.Changes.Laws.{IsUnchanged, IsKeyOf, document_changes-nil}
use firebase_rs_sdk.Firestore.Watch.View.{
  Documents, listen_target_id, snapshot, view_documents, view_document,
}
use firebase_rs_sdk.Firestore.Watch.View.Laws.{get-view_documents}
use firebase_rs_sdk.Firestore.Watch.View.Session.{Target, assign, Session, at_snapshot}
use firebase_rs_sdk.Firestore.Watch.Listener.{
  ViewSink, Connection, opened, refused, change, ended, start, pump_stream, retry, run_listener,
}
use firebase_rs_sdk.Firestore.Watch.Listener.Backoff.{Waits, listening, run_listener-Waits}
use firebase_rs_sdk.Firestore.Watch.Listener.Reports.{
  logged, ReportsOnce, run_listener-ReportsOnce, was_failed, was_reset,
}

abbrev at : ℕ → Timestamp
at n = record { seconds = pos n; nanos = pos 0 }

abbrev a_key : DocumentKey
a_key = record { path = record { segments = codes "rooms" ∷ codes "a" ∷ [] } }

abbrev room : WatchDocument
room = record { key = a_key; fields = end; update_time = some (at 1); create_time = some (at 1) }

-- the room enters the target, leaves it, and enters it again
abbrev enters : WatchChange
enters = document_change (record {
  updated_target_ids = listen_target_id ∷ [];
  removed_target_ids = [];
  key = a_key;
  document = some room;
})

abbrev leaves : WatchChange
leaves =
    document_delete
      (record { key = a_key; read_time = none; removed_target_ids = listen_target_id ∷ [] })

-- the room changed and no longer matches
abbrev falls_out : WatchChange
falls_out = document_change (record {
  updated_target_ids = [];
  removed_target_ids = listen_target_id ∷ [];
  key = a_key;
  document = some room;
})

abbrev target : TargetChangeState → List ℤ → WatchChange
target state ids = target_change (record {
  state = state;
  target_ids = ids;
  resume_token = some (7 ∷ []);
  read_time = some (at 5);
  cause = none;
})

abbrev boundary : WatchChange
boundary = target TargetChangeState.no_change []

-- the aggregator after the room entered
abbrev entered : WatchChangeAggregator
entered = record {
  target_states =
      (
        listen_target_id,
        record {
          pending_responses = 1;
          resume_token = none;
          current = false;
          added = (a_key, tt) ∷ [];
          modified = [];
          removed = [];
          dirty = true;
        },
      )
      ∷ [];
  target_documents = (listen_target_id, (a_key, tt) ∷ []) ∷ [];
  pending_document_updates = (a_key, some room) ∷ [];
  resolved_limbo_documents = [];
  pending_target_resets = [];
  snapshot_version = none;
}

abbrev target_after : Target
target_after = assign a_key (some room) (λ _. none)

get-view_documents_example :
    BTreeMap.get a_key (view_documents (at_snapshot (at 5) entered).0 [])
    ≡ view_document (at_snapshot (at 5) entered).0 a_key none
unfolding BTreeMap.get
get-view_documents_example =
    get-view_documents (at_snapshot (at 5) entered).0 [] a_key (unfold Aggregator.drain in (tt, tt))

-- a sink that keeps the documents of a query view
abbrev view : ViewSink Documents
view = record { apply = view_documents; fail = λ _ docs. docs; reset = λ _. [] }

-- A document that leaves and comes back between two snapshots is dropped from the view.
comes_back :
    (pump_stream view
      (change enters ∷ change boundary ∷ change leaves ∷ change enters ∷ change boundary ∷ [])
      (start none [])).1.sink
    ≡ []
unfolding pump_stream BTreeMap.insert cmp_ℤ view_documents BTreeMap.get BTreeMap.remove cmp_list
comes_back = refl

-- After a stream is resumed, a document that changed and fell out of the query enters the view.
falls_in :
    (pump_stream view (change falls_out ∷ change boundary ∷ []) (start (some (7 ∷ [])) [])).1.sink
    ≡ (a_key, room) ∷ []
unfolding pump_stream BTreeMap.insert cmp_ℤ view_documents BTreeMap.get
falls_in = refl

-- A stream that drops between a resume token and the snapshot loses the change but keeps the token.
token_ahead :
    let r =
      pump_stream view
        (change enters
          ∷ change (target TargetChangeState.current (listen_target_id ∷ []))
          ∷ ended
          ∷ [])
        (start none []) in
    (r.0 ≡ some retry) × (r.1.sink ≡ []) × (r.1.resume_token ≡ some (7 ∷ []))
unfolding pump_stream
token_ahead = (refl, refl, refl)

-- A listener whose first attempt to reconnect is refused gives up.
abbrev connections : List Connection
connections = opened (ended ∷ []) ∷ refused unavailable ∷ opened [] ∷ []

gives_up :
    run_listener logged connections (listening [])
    ≡ (200 ∷ [], was_failed unavailable ∷ was_reset ∷ [])
unfolding run_listener
gives_up = refl

run_listener-Waits_example : Waits 0 (run_listener logged connections (listening [])).0
run_listener-Waits_example = run_listener-Waits logged connections []

run_listener-ReportsOnce_example : ReportsOnce (run_listener logged connections (listening [])).1
run_listener-ReportsOnce_example = run_listener-ReportsOnce connections (listening []) tt

abbrev room_snapshot : DocumentSnapshot
room_snapshot = snapshot false room

document_changes-nil_example :
    (document_changes ((a_key, some (at 1)) ∷ []) (some (room_snapshot ∷ [])) (room_snapshot ∷ [])
      ≡ [])
    ↔ (All (IsUnchanged ((a_key, some (at 1)) ∷ [])) (room_snapshot ∷ [])
        × All (IsKeyOf (room_snapshot ∷ [])) (room_snapshot ∷ []))
document_changes-nil_example =
    document_changes-nil ((a_key, some (at 1)) ∷ []) (room_snapshot ∷ []) (room_snapshot ∷ [])
