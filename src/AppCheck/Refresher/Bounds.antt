-- ===== src/AppCheck/Refresher/Bounds.antt =====
-- The waits of the refresher of refresher.rs.
use mathlib.Core.Path.{subst}
use firebase_rs_sdk.Common.{
  ℕ, ◌*◌, ◌≤◌, arith, Bool, true, false, Option, none, some, List, All, All-append, [], ◌∷◌, ◌++◌,
  if◌then◌else◌,
}
use firebase_rs_sdk.AppCheck.Refresher.{
  Phase, at_top, asleep, operating, Refresher, as_millis, from_millis, min, new, start, next_wait,
  run_loop, Reaches, reaches_none, reaches_start, reaches_stop, reaches_turn,
}

module _ (upper_bound : ℕ) where
  -- a sleep after a failure is not too long
  abbrev IsShort : Phase → Type 0
  IsShort (asleep false wait) = wait ≤ upper_bound
  IsShort _ = Unit

  -- what holds of the refresher and its loops
  pub record IsBounded (r : Refresher) : Type 0 where
    pub next : r.next_error_wait ≤ upper_bound
    pub sleeps : All IsShort r.loops

-- the parts of a split list
split-All :
    (P : Phase → Type 0) (before after : List Phase) (phase : Phase)
    → All P (before ++ phase ∷ after)
    → All P before × (P phase × All P after)
split-All P [] after phase h = (tt, h)
split-All P (x ∷ before) after phase h =
    let (hb, rest) = split-All P before after phase h.1 in ((h.0, hb), rest)

-- what both branches have
if-both : {A : Type 0} (P : A → Type 0) (b : Bool) {x y : A} → P x → P y → P (if b then x else y)
if-both P true hx hy = hx
if-both P false hx hy = hy

module _ (lower_bound upper_bound : ℕ) (ordered : lower_bound ≤ upper_bound) {E : Type 0}
    (retry_policy : E → Bool) where
  start-IsBounded :
      (r : Refresher)
      → IsBounded upper_bound r
      → IsBounded upper_bound (start lower_bound upper_bound r)
  unfolding start
  start-IsBounded r h = if-both (IsBounded upper_bound) r.running h (record {
    next = ordered;
    sleeps = All-append (IsShort upper_bound) r.loops (at_top true ∷ []) h.sleeps (tt, tt);
  })

  abbrev IsBoundedTurn : Refresher × List Phase → Type 0
  IsBoundedTurn t = (t.0.next_error_wait ≤ upper_bound) × All (IsShort upper_bound) t.1

  doubled :
      (wait : ℕ) → from_millis (min (as_millis wait * 2) (as_millis upper_bound)) ≤ upper_bound
  doubled wait = ground arith

  run_loop-IsBounded :
      (wait_duration : ℕ) (answer : Option E) (phase : Phase) (r : Refresher)
      → r.next_error_wait ≤ upper_bound
      → IsBoundedTurn (run_loop lower_bound upper_bound retry_policy wait_duration answer phase r)
  unfolding run_loop next_wait
  run_loop-IsBounded wait_duration answer (at_top true) r h =
      if-both IsBoundedTurn r.cancel_requested (h, tt) (ordered, (tt, tt))
  run_loop-IsBounded wait_duration answer (at_top false) r h =
      if-both IsBoundedTurn r.cancel_requested (h, tt) (doubled r.next_error_wait, (h, tt))
  run_loop-IsBounded wait_duration answer (asleep succeeded wait) r h =
      if-both IsBoundedTurn r.cancel_requested (h, tt) (h, (tt, tt))
  run_loop-IsBounded wait_duration none operating r h = (h, (tt, tt))
  run_loop-IsBounded wait_duration (some error) operating r h =
      if-both IsBoundedTurn (retry_policy error) (h, (tt, tt)) (h, tt)

  -- No sleep of the refresher after a failure is longer than the upper bound, and neither is the one that it
  -- keeps for the next failure, however its calls and the turns of its loops follow on each other.
  pub Reaches-IsBounded :
      (r : Refresher)
      → Reaches lower_bound upper_bound retry_policy (new lower_bound upper_bound) r
      → IsBounded upper_bound r
  Reaches-IsBounded r reaches_none = record { next = ordered; sleeps = tt }
  Reaches-IsBounded r (reaches_start {r = before} m) =
      start-IsBounded before (Reaches-IsBounded before m)
  Reaches-IsBounded r (reaches_stop {r = before} m) =
      let h = Reaches-IsBounded before m in record { next = h.next; sleeps = h.sleeps }
  Reaches-IsBounded r (reaches_turn {r = u} wait_duration answer before after phase e m) =
      let h = Reaches-IsBounded u m in
      let (hb, rest) =
        split-All (IsShort upper_bound) before after phase
          (subst (All (IsShort upper_bound)) e h.sleeps) in
      let kept = run_loop-IsBounded wait_duration answer phase u h.next in
      record {
        next = kept.0;
        sleeps =
            All-append (IsShort upper_bound) before
              ((run_loop lower_bound upper_bound retry_policy wait_duration answer phase u).1
                ++ after)
              hb
              (All-append (IsShort upper_bound)
                (run_loop lower_bound upper_bound retry_policy wait_duration answer phase u).1 after
                kept.1 rest.1);
      }
