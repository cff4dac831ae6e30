-- ===== src/Firestore/Watch/Listener.antt =====
-- The loops of crates/firebase-firestore/src/api/listener.rs. What the streams of a listener bring is
-- a parameter: a list of connections, each the messages of one stream. Cancellation comes as a message
-- or, between two streams, as a connection. A sink is any implementation of `ViewSink`.
pub mod Rounds
pub mod Reports
pub mod Backoff
use firebase_rs_sdk.Common.{
  ℕ, ◌*◌, Bool, true, false, ◌&&◌, ◌||◌, Option, none, some, List, [], ◌∷◌, leb, if◌then◌else◌,
}
use firebase_rs_sdk.Common.BTreeMap
use firebase_rs_sdk.Common.BTreeMap.{BTreeSet}
use firebase_rs_sdk.Common.Int.{ℤ, int_ord}
use firebase_rs_sdk.Common.Ord.{◌==◌, nat_ord}
use firebase_rs_sdk.Firestore.Error.{FirestoreErrorCode, FirestoreResult, ok, err, map_status_code}
use firebase_rs_sdk.Firestore.Model.Timestamp.{Timestamp}
use firebase_rs_sdk.Firestore.Watch.{
  Token, TargetChangeState, WatchTargetChange, WatchChange, target_change, existence_filter,
  RemoteEvent, is_empty, is_nil,
}
use firebase_rs_sdk.Firestore.Watch.Aggregator
use firebase_rs_sdk.Firestore.Watch.Aggregator.{
  WatchChangeAggregator, handle_watch_change, set_snapshot_version, drain,
}
use firebase_rs_sdk.Firestore.Watch.View.{is_reset}
use firebase_rs_sdk.Firestore.Watch.View.Session.{no_remote_keys}

pub record ViewSink {ℓ} (S : Type ℓ) : Type ℓ where
  pub apply : RemoteEvent → S → S
  pub fail : FirestoreErrorCode → S → S
  pub reset : S → S

-- what `session.next()` and the decoder make of the stream; a status is its gRPC code
pub data Message : Type 0 where
  cancelled ended unknown : Message
  status : ℕ → Message
  undecodable : FirestoreErrorCode → Message
  change : WatchChange → Message

pub data StreamOutcome : Type 0 where
  was_cancelled fatal retry : StreamOutcome

-- the codes of gRPC
unfoldable pub is_retryable_status : ℕ → Bool
is_retryable_status code =
    code == 1 || code == 2 || code == 4 || code == 8 || code == 13 || code == 14 || code == 16

unfoldable pub snapshot_read_time : WatchChange → Option Timestamp
snapshot_read_time (target_change c) = elim c.state [
  | TargetChangeState.no_change ↦ if is_nil c.target_ids then c.read_time else none
  | _ ↦ none
]
snapshot_read_time _ = none

-- the variables of `pump_stream`
pub record Pump {ℓ} (S : Type ℓ) : Type ℓ where
  pub aggregator : WatchChangeAggregator
  pub saw_existence_filter : Bool
  pub sink : S
  pub resume_token : Option Token

abbrev pub start {ℓ} : {S : Type ℓ} → Option Token → S → Pump S
start token sink = record {
  aggregator = Aggregator.new;
  saw_existence_filter = false;
  sink = sink;
  resume_token = token;
}

abbrev pub cause_of : WatchChange → Option FirestoreErrorCode
cause_of (target_change c) = c.cause
cause_of _ = none

-- the token that a target change carries, over the one that there is
abbrev pub token_of : WatchChange → Option Token → Option Token
token_of (target_change c) kept = elim c.resume_token [ none ↦ kept | some token ↦ some token ]
token_of _ kept = kept

abbrev pub is_filter : WatchChange → Bool
is_filter (existence_filter _) = true
is_filter _ = false

module _ {ℓ} {S : Type ℓ} (sink : ViewSink S) where
  abbrev pub failed : FirestoreErrorCode → Pump S → Option StreamOutcome × Pump S
  failed e p = (some fatal, record p { sink = sink.fail e p.sink })

  -- The snapshot boundary: the event is delivered, and a filter that did not match ends the stream.
  unfoldable pub deliver : Timestamp → Pump S → Option StreamOutcome × Pump S
  unfolding drain
  deliver time p =
      let (event, aggregator) = drain (set_snapshot_version (some time) p.aggregator) in
      let next : Pump S = record {
        aggregator = aggregator;
        saw_existence_filter = false;
        sink = if is_empty event then p.sink else sink.apply event p.sink;
        resume_token = p.resume_token;
      } in
      if p.saw_existence_filter && is_reset event
      then (some retry, record next { resume_token = none })
      else (none, next)

  -- what the aggregator made of a change, and the snapshot that the change asks for
  unfoldable pub handled :
      FirestoreResult WatchChangeAggregator
      → Option Timestamp
      → Pump S
      → Option StreamOutcome × Pump S
  unfolding deliver
  handled (err e) time p = failed e p
  handled (ok aggregator) none p = (none, record p { aggregator = aggregator })
  handled (ok aggregator) (some time) p = deliver time (record p { aggregator = aggregator })

  -- a change without a cause
  unfoldable pub handle_change : WatchChange → Pump S → Option StreamOutcome × Pump S
  unfolding handled handle_watch_change snapshot_read_time
  handle_change c p =
      handled (handle_watch_change no_remote_keys c p.aggregator) (snapshot_read_time c) (record p {
        resume_token = token_of c p.resume_token;
        saw_existence_filter = is_filter c || p.saw_existence_filter;
      })

  -- One round of the loop of `pump_stream`: its outcome, if it returns.
  unfoldable pub pump_one : Message → Pump S → Option StreamOutcome × Pump S
  unfolding handle_change map_status_code is_retryable_status
  pump_one cancelled p = (some was_cancelled, p)
  pump_one ended p = (some retry, p)
  pump_one unknown p = (none, p)
  pump_one (status code) p =
      if is_retryable_status code then (some retry, p) else failed (map_status_code code) p
  pump_one (undecodable e) p = failed e p
  pump_one (change c) p = elim (cause_of c) [ some e ↦ failed e p | none ↦ handle_change c p ]

  -- The loop; `none`: it still waits when the messages are used up.
  unfoldable pub pump_stream : List Message → Pump S → Option StreamOutcome × Pump S
  unfolding pump_one
  pump_stream [] p = (none, p)
  pump_stream (m ∷ ms) p =
      let r = pump_one m p in
      let rest = pump_stream ms r.1 in elim r.0 [ none ↦ rest | some outcome ↦ (some outcome, r.1) ]

abbrev pub is_retry : Option StreamOutcome → Bool
is_retry (some retry) = true
is_retry _ = false

-- What becomes of one connection.
pub data Connection : Type 0 where
  stopped : Connection
  refused : FirestoreErrorCode → Connection
  opened : List Message → Connection

-- milliseconds
abbrev pub initial_backoff : ℕ
initial_backoff = 200

abbrev pub max_backoff : ℕ
max_backoff = 10000

abbrev pub backoff_factor : ℕ
backoff_factor = 2

abbrev pub min : ℕ → ℕ → ℕ
min a b = if leb a b then a else b

-- the variables of `run_listener`, and how long it has slept each time
pub record Listener {ℓ} (S : Type ℓ) : Type ℓ where
  pub resume_token : Option Token
  pub backoff : ℕ
  pub sink : S

-- the state after the last connection used, and the sleeps between the connections
module _ {ℓ} {S : Type ℓ} (sink : ViewSink S) where
  -- what follows a stream that is to be opened again, before the next connection
  unfoldable pub reconnected : Pump S → ℕ → Listener S
  reconnected p backoff = record {
    resume_token = p.resume_token;
    backoff = min (backoff * backoff_factor) max_backoff;
    sink = elim p.resume_token [ none ↦ sink.reset p.sink | some _ ↦ p.sink ];
  }

  unfoldable pub run_listener : List Connection → Listener S → List ℕ × S
  unfolding pump_stream reconnected
  run_listener [] l = ([], l.sink)
  run_listener (stopped ∷ cs) l = ([], l.sink)
  run_listener (refused e ∷ cs) l = ([], sink.fail e l.sink)
  run_listener (opened ms ∷ cs) l =
      let r = pump_stream sink ms (start l.resume_token l.sink) in
      let rest = run_listener cs (reconnected r.1 l.backoff) in
      if is_retry r.0 then (l.backoff ∷ rest.0, rest.1) else ([], r.1.sink)
