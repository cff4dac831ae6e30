-- ===== src/AppCheck/Refresher.antt =====
-- crates/firebase-app-check/src/refresher.rs. A duration is its nanoseconds. `E` is the type of errors.
-- What the loops that `start` spawned are at is part of the state: each takes its turns between the calls
-- of the handle and the turns of the others, and is interrupted only where it awaits.
pub mod Bounds
pub mod Stops
use firebase_rs_sdk.Common.{
  ℕ, ◌*◌, ◌/◌, ◌≤◌, ◌≡◌, Bool, true, false, Option, none, some, List, [], ◌∷◌, ◌++◌, leb,
  if◌then◌else◌,
}

-- a loop at its top with the outcome of the last operation, in its sleep, and in its operation
pub data Phase : Type 0 where
  at_top : Bool → Phase
  asleep : Bool → ℕ → Phase
  operating : Phase

pub record Refresher : Type 0 where
  pub next_error_wait : ℕ
  pub running : Bool
  pub cancel_requested : Bool
  pub loops : List Phase

abbrev pub nanos_per_milli : ℕ
nanos_per_milli = 1000000

abbrev pub as_millis : ℕ → ℕ
as_millis d = d / nanos_per_milli

abbrev pub from_millis : ℕ → ℕ
from_millis m = m * nanos_per_milli

abbrev pub min : ℕ → ℕ → ℕ
min a b = if leb a b then a else b

-- the last two stores of `run_loop`
abbrev pub ended : Refresher → Refresher
ended r = record r { running = false; cancel_requested = false }

abbrev pub stop : Refresher → Refresher
stop r = record r { cancel_requested = true; running = false }

module _ (lower_bound upper_bound : ℕ) where
  abbrev pub new : Refresher
  new = record {
    next_error_wait = lower_bound;
    running = false;
    cancel_requested = false;
    loops = [];
  }

  unfoldable pub start : Refresher → Refresher
  start r = if r.running then r else (record {
    next_error_wait = lower_bound;
    running = true;
    cancel_requested = false;
    loops = r.loops ++ at_top true ∷ [];
  })

  unfoldable pub next_wait : ℕ → Bool → Refresher → Refresher × ℕ
  next_wait wait_duration true r = (record r { next_error_wait = lower_bound }, wait_duration)
  next_wait wait_duration false r = (
    record r {
      next_error_wait = from_millis (min (as_millis r.next_error_wait * 2) (as_millis upper_bound));
    },
    r.next_error_wait,
  )

  module _ {E : Type 0} (retry_policy : E → Bool) where
    -- A turn of `run_loop`, up to where it waits next: the loop goes on in a phase, or ends.
    unfoldable pub run_loop : ℕ → Option E → Phase → Refresher → Refresher × List Phase
    unfolding next_wait
    run_loop wait_duration answer (at_top succeeded) r =
        let (waiting, wait) = next_wait wait_duration succeeded r in
        if r.cancel_requested then (ended r, []) else (waiting, asleep succeeded wait ∷ [])
    run_loop wait_duration answer (asleep succeeded wait) r =
        if r.cancel_requested then (ended r, []) else (r, operating ∷ [])
    run_loop wait_duration none operating r = (r, at_top true ∷ [])
    run_loop wait_duration (some error) operating r =
        if retry_policy error then (r, at_top false ∷ []) else (ended r, [])

    -- the turn of one loop among the others
    abbrev pub turn : ℕ → Option E → List Phase → Phase → List Phase → Refresher → Refresher
    turn wait_duration answer before phase after r =
        let (rest, phases) = run_loop wait_duration answer phase r in
        record rest { loops = before ++ (phases ++ after) }

    -- what calls and turns lead to
    pub data Reaches (s : Refresher) : Refresher → Type 0 where
      reaches_none : Reaches s s
      reaches_start : {r : Refresher} → Reaches s r → Reaches s (start r)
      reaches_stop : {r : Refresher} → Reaches s r → Reaches s (stop r)
      reaches_turn :
          {r : Refresher} (wait_duration : ℕ) (answer : Option E) (before after : List Phase)
          (phase : Phase)
          → r.loops ≡ before ++ phase ∷ after
          → Reaches s r
          → Reaches s (turn wait_duration answer before phase after r)
