-- ===== src/Firestore/Watch/Listener/Rounds.antt =====
-- The rounds of the two loops of api/listener.rs, by what they came to.
use firebase_rs_sdk.Common.{◌≡◌, refl, true, false, none, some, List, [], ◌∷◌}
use firebase_rs_sdk.Firestore.Watch.Listener.{
  ViewSink, Connection, opened, Listener, StreamOutcome, Pump, Message, pump_one, pump_stream,
  run_listener, reconnected, start, is_retry,
}

module _ {ℓ} {S : Type ℓ} (sink : ViewSink S) where
  pub pump_stream-next :
      (m : Message) (ms : List Message) (p : Pump S)
      → (pump_one sink m p).0 ≡ none
      → pump_stream sink (m ∷ ms) p ≡ pump_stream sink ms (pump_one sink m p).1
  unfolding pump_stream
  pump_stream-next m ms p e = rw (pump_stream, e) refl

  pub pump_stream-last :
      (m : Message) (ms : List Message) (p : Pump S) (outcome : StreamOutcome)
      → (pump_one sink m p).0 ≡ some outcome
      → pump_stream sink (m ∷ ms) p ≡ (some outcome, (pump_one sink m p).1)
  unfolding pump_stream
  pump_stream-last m ms p outcome e = rw (pump_stream, e) refl

  -- the state of a listener after a stream that is to be opened again
  abbrev pub next_listener : List Message → Listener S → Listener S
  next_listener ms l =
      reconnected sink (pump_stream sink ms (start l.resume_token l.sink)).1 l.backoff

  pub run_listener-again :
      (ms : List Message) (cs : List Connection) (l : Listener S)
      → is_retry (pump_stream sink ms (start l.resume_token l.sink)).0 ≡ true
      → run_listener sink (opened ms ∷ cs) l ≡ (
        l.backoff ∷ (run_listener sink cs (next_listener ms l)).0,
        (run_listener sink cs (next_listener ms l)).1,
      )
  unfolding run_listener
  run_listener-again ms cs l e = rw (run_listener, e) refl

  pub run_listener-done :
      (ms : List Message) (cs : List Connection) (l : Listener S)
      → is_retry (pump_stream sink ms (start l.resume_token l.sink)).0 ≡ false
      → run_listener sink (opened ms ∷ cs) l
        ≡ ([], (pump_stream sink ms (start l.resume_token l.sink)).1.sink)
  unfolding run_listener
  run_listener-done ms cs l e = rw (run_listener, e) refl
