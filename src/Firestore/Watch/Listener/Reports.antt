-- ===== src/Firestore/Watch/Listener/Reports.antt =====
-- What `run_listener` of api/listener.rs tells its sink, and when.
use mathlib.Core.Path.{subst}
use firebase_rs_sdk.Common.{
  ℕ, ◌≡◌, ◌≢◌, ◌⊎◌, inl, inr, refl, sym, arith, Bool, true, false, Option, none, some, List, [],
  ◌∷◌, All, Bool-cases, Option-cases,
}
use firebase_rs_sdk.Common.Ord.{nat_ord}
use firebase_rs_sdk.Common.Int.{int_ord}
use firebase_rs_sdk.Firestore.Model.DocumentKey.{key_ord}
use firebase_rs_sdk.Firestore.Model.Timestamp.{Timestamp}
use firebase_rs_sdk.Firestore.Error.{FirestoreErrorCode, FirestoreResult, ok, err, map_status_code}
use firebase_rs_sdk.Firestore.Watch.{RemoteEvent, WatchChange}
use firebase_rs_sdk.Firestore.Watch.Aggregator.{WatchChangeAggregator}
use firebase_rs_sdk.Firestore.Watch.Listener.{
  ViewSink, Connection, stopped, refused, opened, Listener, StreamOutcome, fatal, Pump, Message,
  cancelled, ended, unknown, status, undecodable, change, cause_of, is_retryable_status, deliver,
  handled, handle_change, pump_one, pump_stream, run_listener, reconnected, start, is_retry,
}
use firebase_rs_sdk.Firestore.Watch.Listener.Rounds.{
  next_listener, pump_stream-next, pump_stream-last, run_listener-again, run_listener-done,
}

-- a sink that writes down what it is told, the last call first
pub data Call : Type 0 where
  applied : RemoteEvent → Call
  was_failed : FirestoreErrorCode → Call
  was_reset : Call

abbrev pub logged : ViewSink (List Call)
logged = record {
  apply = λ event log. applied event ∷ log;
  fail = λ e log. was_failed e ∷ log;
  reset = λ log. was_reset ∷ log;
}

abbrev pub is_failure : Call → Bool
is_failure (was_failed _) = true
is_failure _ = false

abbrev pub IsQuiet : List Call → Type 0
IsQuiet log = All (λ c. is_failure c ≡ false) log

-- a log that ends in an error, after no other
pub record IsFailed (log : List Call) : Type 0 where
  pub error : FirestoreErrorCode
  pub before : List Call
  pub ends : log ≡ was_failed error ∷ before
  pub quiet : IsQuiet before

-- what a stream that starts with a quiet log comes to
abbrev Reports : Option StreamOutcome × Pump (List Call) → Type 0
Reports r = ((r.0 ≡ some fatal) × IsFailed r.1.sink) ⊎ ((r.0 ≢ some fatal) × IsQuiet r.1.sink)

deliver-Reports :
    (time : Timestamp) (p : Pump (List Call)) → IsQuiet p.sink → Reports (deliver logged time p)
unfolding deliver
deliver-Reports time p q = inr (ground arith, ground (arith, q))

abbrev failure :
    (e : FirestoreErrorCode) (log : List Call) → IsQuiet log → IsFailed (was_failed e ∷ log)
failure e log q = record { error = e; before = log; ends = refl; quiet = q }

handled-Reports :
    (a : FirestoreResult WatchChangeAggregator) (time : Option Timestamp) (p : Pump (List Call))
    → IsQuiet p.sink
    → Reports (handled logged a time p)
unfolding handled
handled-Reports (err e) time p q = inl (refl, failure e p.sink q)
handled-Reports (ok a) none p q = inr ((λ h. cc h), q)
handled-Reports (ok a) (some time) p q = deliver-Reports time (record p { aggregator = a }) q

status-Reports :
    (code : ℕ) (p : Pump (List Call)) → IsQuiet p.sink → Reports (pump_one logged (status code) p)
unfolding pump_one
status-Reports code p q = elim (Bool-cases (is_retryable_status code)) [
  | inl e ↦ rw (pump_one, e) (inr ((λ h. cc h), q))
  | inr e ↦ rw (pump_one, e) (inl (refl, failure (map_status_code code) p.sink q))
]

change-Reports :
    (c : WatchChange) (p : Pump (List Call))
    → IsQuiet p.sink
    → Reports (pump_one logged (change c) p)
unfolding pump_one handle_change
change-Reports c p q = elim (Option-cases (cause_of c)) [
  | inl e ↦ rw (pump_one, e) (handled-Reports _ _ _ q)
  | inr (x, e) ↦ rw (pump_one, e) (inl (refl, failure x p.sink q))
]

pump_one-Reports :
    (m : Message) (p : Pump (List Call)) → IsQuiet p.sink → Reports (pump_one logged m p)
unfolding pump_one
pump_one-Reports cancelled p q = inr ((λ h. cc h), q)
pump_one-Reports ended p q = inr ((λ h. cc h), q)
pump_one-Reports unknown p q = inr ((λ h. cc h), q)
pump_one-Reports (status code) p q = status-Reports code p q
pump_one-Reports (undecodable e) p q = inl (refl, failure e p.sink q)
pump_one-Reports (change c) p q = change-Reports c p q

-- a stream that goes on after a message has not failed
still-IsQuiet :
    (r : Option StreamOutcome × Pump (List Call)) → Reports r → r.0 ≢ some fatal → IsQuiet r.1.sink
still-IsQuiet r (inl h) g = absurd (g h.0)
still-IsQuiet r (inr h) g = h.1

pump_stream-Reports :
    (ms : List Message) (p : Pump (List Call)) → IsQuiet p.sink → Reports (pump_stream logged ms p)
unfolding pump_stream
pump_stream-Reports [] p q = inr ((λ h. cc h), q)
pump_stream-Reports (m ∷ ms) p q = elim (Option-cases (pump_one logged m p).0) [
  | inl e ↦ subst Reports (sym (pump_stream-next logged m ms p e)) (
      pump_stream-Reports ms (pump_one logged m p).1
        (still-IsQuiet (pump_one logged m p) (pump_one-Reports m p q) (λ h. cc (e, h))))
  | inr (outcome, e) ↦
      subst Reports (sym (pump_stream-last logged m ms p outcome e))
        (subst (λ o. Reports (o, (pump_one logged m p).1)) e (pump_one-Reports m p q))
]

reconnected-IsQuiet :
    (p : Pump (List Call)) (backoff : ℕ)
    → IsQuiet p.sink
    → IsQuiet (reconnected logged p backoff).sink
unfolding reconnected
reconnected-IsQuiet p backoff q = ground (arith, q)

-- what a listener tells its sink in all
abbrev pub ReportsOnce : List Call → Type 0
ReportsOnce log = IsFailed log ⊎ IsQuiet log

of_Reports : (r : Option StreamOutcome × Pump (List Call)) → Reports r → ReportsOnce r.1.sink
of_Reports r (inl h) = inl h.1
of_Reports r (inr h) = inr h.1

retry-ne-fatal : (o : Option StreamOutcome) → is_retry o ≡ true → o ≢ some fatal
retry-ne-fatal o h e = ground (arith, h, e)

-- Whatever its streams bring, a listener reports an error at most once, and tells its sink nothing more
-- after that.
pub run_listener-ReportsOnce :
    (cs : List Connection) (l : Listener (List Call))
    → IsQuiet l.sink
    → ReportsOnce (run_listener logged cs l).1
unfolding run_listener
run_listener-ReportsOnce [] l q = inr q
run_listener-ReportsOnce (stopped ∷ cs) l q = inr q
run_listener-ReportsOnce (refused e ∷ cs) l q =
    inl (record { error = e; before = l.sink; ends = refl; quiet = q })
run_listener-ReportsOnce (opened ms ∷ cs) l q =
    let r = pump_stream logged ms (start l.resume_token l.sink) in
    let reports = pump_stream-Reports ms (start l.resume_token l.sink) q in
    elim (Bool-cases (is_retry r.0)) [
      | inl e ↦
          subst (λ x. ReportsOnce x.1) (sym (run_listener-again logged ms cs l e))
            (run_listener-ReportsOnce cs (next_listener logged ms l)
              (reconnected-IsQuiet r.1 l.backoff (still-IsQuiet r reports (retry-ne-fatal r.0 e))))
      | inr e ↦
          subst (λ x. ReportsOnce x.1) (sym (run_listener-done logged ms cs l e))
            (of_Reports r reports)
    ]
