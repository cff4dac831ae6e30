-- ===== src/Firestore/Watch/Listener/Backoff.antt =====
-- How long `run_listener` of api/listener.rs waits between two streams.
use mathlib.Core.Path.{subst}
use firebase_rs_sdk.Common.{
  ℕ, suc, ◌*◌, ◌^◌, ◌≡◌, refl, sym, arith, none, List, [], ◌∷◌, Bool-cases, inl, inr,
}
use firebase_rs_sdk.Common.Ord.{nat_ord}
use firebase_rs_sdk.Common.Int.{int_ord}
use firebase_rs_sdk.Firestore.Model.DocumentKey.{key_ord}
use firebase_rs_sdk.Firestore.Watch.Listener.{
  ViewSink, Connection, stopped, refused, opened, Listener, Message, min, initial_backoff,
  max_backoff, backoff_factor, run_listener, reconnected, pump_stream, start, is_retry,
}
use firebase_rs_sdk.Firestore.Watch.Listener.Rounds.{
  next_listener, run_listener-again, run_listener-done,
}

-- the wait after `n` retries
abbrev pub backoff_after : ℕ → ℕ
backoff_after n = min (initial_backoff * backoff_factor ^ n) max_backoff

abbrev pub Waits : ℕ → List ℕ → Type 0
Waits n [] = Unit
Waits n (d ∷ ds) = (d ≡ backoff_after n) × Waits (suc n) ds

next_backoff : (n : ℕ) → min (backoff_after n * backoff_factor) max_backoff ≡ backoff_after (suc n)
next_backoff n = ground arith

-- the state that a listener starts in
abbrev pub listening {ℓ} : {S : Type ℓ} → S → Listener S
listening sink = record { resume_token = none; backoff = initial_backoff; sink = sink }

module _ {ℓ} {S : Type ℓ} (sink : ViewSink S) where
  next-reconnected :
      (ms : List Message) (l : Listener S) (n : ℕ)
      → l.backoff ≡ backoff_after n
      → (next_listener sink ms l).backoff ≡ backoff_after (suc n)
  unfolding reconnected
  next-reconnected ms l n e = rw e (next_backoff n)

  run_listener-Waits-from :
      (cs : List Connection) (l : Listener S) (n : ℕ)
      → l.backoff ≡ backoff_after n
      → Waits n (run_listener sink cs l).0
  unfolding run_listener
  run_listener-Waits-from [] l n e = tt
  run_listener-Waits-from (stopped ∷ cs) l n e = tt
  run_listener-Waits-from (refused x ∷ cs) l n e = tt
  run_listener-Waits-from (opened ms ∷ cs) l n e =
      elim (Bool-cases (is_retry (pump_stream sink ms (start l.resume_token l.sink)).0)) [
        | inl r ↦
            subst (λ x. Waits n x.0) (sym (run_listener-again sink ms cs l r))
              ((
                e,
                run_listener-Waits-from cs (next_listener sink ms l) (suc n)
                    (next-reconnected ms l n e),
              ))
        | inr r ↦ subst (λ x. Waits n x.0) (sym (run_listener-done sink ms cs l r)) tt
      ]

  -- Whatever its streams bring, a listener waits 200 ms times a power of two, at most ten seconds: before
  -- the n-th new stream, counted from 0, the smaller of 200 * 2 ^ n ms and 10000 ms.
  pub run_listener-Waits :
      (cs : List Connection) (s : S) → Waits 0 (run_listener sink cs (listening s)).0
  run_listener-Waits cs s = run_listener-Waits-from cs (listening s) 0 refl
