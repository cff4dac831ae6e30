-- ===== src/AppCheck/Tests.antt =====
-- Refreshers at concrete inputs.
use firebase_rs_sdk.Common.{ℕ, ◌≡◌, refl, arith, Bool, true, false, none, All, [], ◌∷◌}
use firebase_rs_sdk.AppCheck.Refresher.{
  at_top, asleep, operating, Refresher, stop, new, start, next_wait, run_loop, turn, reaches_none,
  reaches_start, reaches_turn,
}
use firebase_rs_sdk.AppCheck.Refresher.Bounds.{IsBounded, Reaches-IsBounded}
use firebase_rs_sdk.AppCheck.Refresher.Stops.{IsIdle, winds_none, stop-IsIdle}

-- 30 seconds and 16 minutes
abbrev lower : ℕ
lower = 30000000000

abbrev upper : ℕ
upper = 960000000000

abbrev always : ℕ → Bool
always _ = true

-- the second failure in a row waits twice as long
doubled_wait :
    (next_wait lower upper 5 false (next_wait lower upper 5 false (new lower upper)).0).1
    ≡ 60000000000
unfolding next_wait
doubled_wait = refl

abbrev started : Refresher
started = start lower upper (new lower upper)

Reaches-IsBounded_example :
    IsBounded upper (turn lower upper always 5 none [] (at_top true) [] started)
unfolding start
Reaches-IsBounded_example =
    Reaches-IsBounded lower upper (omega arith) always
      (turn lower upper always 5 none [] (at_top true) [] started)
      (reaches_turn 5 none [] [] (at_top true) refl (reaches_start reaches_none))

abbrev sleeping : Refresher
sleeping = record {
  next_error_wait = lower;
  running = true;
  cancel_requested = false;
  loops = asleep true 5 ∷ [];
}

stop-IsIdle_example :
    All IsIdle (turn lower upper always 5 none [] (asleep true 5) [] (stop sleeping)).loops
stop-IsIdle_example =
    stop-IsIdle lower upper always sleeping (stop sleeping) (asleep true 5) 5 none [] []
      (asleep true 5) refl winds_none refl

-- a start while the loop that was stopped still sleeps makes a second one
abbrev restarted : Refresher
restarted = start lower upper (stop sleeping)

two_loops : restarted.loops ≡ asleep true 5 ∷ at_top true ∷ []
unfolding start
two_loops = refl

-- the first then goes on with its operation
goes_on :
    (turn lower upper always 5 none [] (asleep true 5) (at_top true ∷ []) restarted).loops
    ≡ operating ∷ at_top true ∷ []
unfolding start run_loop
goes_on = refl

-- and a stop ends only the one that sees it first
survives :
    (turn lower upper always 5 none []
      (at_top true)
      []
      (turn lower upper always 5 none [] (asleep true 5) (at_top true ∷ []) (stop restarted))).loops
    ≡ asleep true 5 ∷ []
unfolding start run_loop next_wait
survives = refl
