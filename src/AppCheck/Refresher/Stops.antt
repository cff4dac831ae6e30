-- ===== src/AppCheck/Refresher/Stops.antt =====
-- What a stop of the refresher of refresher.rs comes to.
use mathlib.Core.Path.{subst}
use firebase_rs_sdk.Common.{
  ℕ, ◌≡◌, ◌∙◌, refl, sym, ap, ◌⊎◌, Bool, true, false, Bool-cases, inl, inr, Option, none, some,
  List, All, [], ◌∷◌, ◌++◌, if◌then◌else◌,
}
use firebase_rs_sdk.AppCheck.Refresher.{
  Phase, at_top, asleep, operating, Refresher, ended, stop, next_wait, run_loop, turn,
}

abbrev pub IsIdle : Phase → Type 0
IsIdle operating = ⊥
IsIdle _ = Unit

-- at most one loop, which a cancel is requested of
abbrev IsStopping : Refresher → Type 0
IsStopping r =
    (r.loops ≡ []) ⊎ ((r.cancel_requested ≡ true) × ((phase : Phase) × (r.loops ≡ phase ∷ [])))

abbrev tail : List Phase → List Phase
tail [] = []
tail (_ ∷ xs) = xs

nobody : (phase : Phase) (before after : List Phase) → [] ≡ before ++ phase ∷ after → ⊥
nobody phase [] after e = cc e
nobody phase (x ∷ before) after e = cc e

alone :
    (p phase : Phase) (before after : List Phase)
    → p ∷ [] ≡ before ++ phase ∷ after
    → (before ≡ []) × (after ≡ [])
alone p phase [] after e = (refl, sym (ap tail e))
alone p phase (x ∷ before) after e = absurd (nobody phase before after (ap tail e))

module _ (lower_bound upper_bound : ℕ) {E : Type 0} (retry_policy : E → Bool) where
  -- what stops and turns, but no start, lead to
  pub data Winds (s : Refresher) : Refresher → Type 0 where
    winds_none : Winds s s
    winds_stop : {r : Refresher} → Winds s r → Winds s (stop r)
    winds_turn :
        {r : Refresher} (wait_duration : ℕ) (answer : Option E) (before after : List Phase)
        (phase : Phase)
        → r.loops ≡ before ++ phase ∷ after
        → Winds s r
        → Winds s
            (turn lower_bound upper_bound retry_policy wait_duration answer before phase after r)

  -- a turn that stays stopping and begins no operation
  abbrev Stops : Refresher → Type 0
  Stops r = IsStopping r × All IsIdle r.loops

  -- the state and the phases that a loop leaves
  abbrev StopsWith : Refresher × List Phase → Type 0
  StopsWith t = Stops (record t.0 { loops = t.1 ++ [] })

  if-StopsWith :
      (r : Refresher) (other : Refresher × List Phase)
      → r.cancel_requested ≡ true
      → StopsWith (if r.cancel_requested then (ended r, []) else other)
  if-StopsWith r other c =
      subst (λ b. StopsWith (if b then (ended r, []) else other)) (sym c) (inl refl, tt)

  run_loop-StopsWith :
      (wait_duration : ℕ) (answer : Option E) (phase : Phase) (r : Refresher)
      → r.cancel_requested ≡ true
      → StopsWith (run_loop lower_bound upper_bound retry_policy wait_duration answer phase r)
  unfolding run_loop
  run_loop-StopsWith wait_duration answer (at_top succeeded) r c =
      let (waiting, wait) = next_wait lower_bound upper_bound wait_duration succeeded r in
      if-StopsWith r (waiting, asleep succeeded wait ∷ []) c
  run_loop-StopsWith wait_duration answer (asleep succeeded wait) r c =
      if-StopsWith r (r, operating ∷ []) c
  run_loop-StopsWith wait_duration none operating r c = (inr (c, (at_top true, refl)), (tt, tt))
  run_loop-StopsWith wait_duration (some error) operating r c =
      elim (Bool-cases (retry_policy error)) [
        | inl e ↦
            subst (λ b. StopsWith (if b then (r, at_top false ∷ []) else (ended r, []))) (sym e)
              (inr (c, (at_top false, refl)), (tt, tt))
        | inr e ↦
            subst (λ b. StopsWith (if b then (r, at_top false ∷ []) else (ended r, []))) (sym e)
              (inl refl, tt)
      ]

  turn-Stops :
      (wait_duration : ℕ) (answer : Option E) (before after : List Phase) (phase : Phase)
      (r : Refresher)
      → IsStopping r
      → r.loops ≡ before ++ phase ∷ after
      → Stops (turn lower_bound upper_bound retry_policy wait_duration answer before phase after r)
  turn-Stops wait_duration answer before after phase r (inl n) e =
      absurd (nobody phase before after (sym n ∙ e))
  turn-Stops wait_duration answer before after phase r (inr (c, (p, l))) e =
      let (hb, ha) = alone p phase before after (sym l ∙ e) in
      subst
        (λ xs.
          Stops (turn lower_bound upper_bound retry_policy wait_duration answer xs phase after r))
        (sym hb)
        (subst
          (λ xs.
            Stops (turn lower_bound upper_bound retry_policy wait_duration answer [] phase xs r))
          (sym ha) (run_loop-StopsWith wait_duration answer phase r c))

  Winds-IsStopping : (s r : Refresher) → IsStopping s → Winds s r → IsStopping r
  Winds-IsStopping s r h winds_none = h
  Winds-IsStopping s r h (winds_stop {r = u} m) = elim (Winds-IsStopping s u h m) [
    | inl n ↦ inl n
    | inr (_, l) ↦ inr (refl, l)
  ]
  Winds-IsStopping s r h (winds_turn {r = u} wait_duration answer before after phase e m) =
      (turn-Stops wait_duration answer before after phase u (Winds-IsStopping s u h m) e).0

  -- A stop holds: after a stop of a refresher with one loop, whatever that loop was at and until the next
  -- start, no turn of the loop begins an operation.
  pub stop-IsIdle :
      (s r : Refresher) (p : Phase) (wait_duration : ℕ) (answer : Option E)
      (before after : List Phase) (phase : Phase)
      → s.loops ≡ p ∷ []
      → Winds (stop s) r
      → r.loops ≡ before ++ phase ∷ after
      → All IsIdle
          (turn lower_bound upper_bound retry_policy wait_duration answer before phase after
            r).loops
  stop-IsIdle s r p wait_duration answer before after phase one m e =
      (turn-Stops wait_duration answer before after phase r
        (Winds-IsStopping (stop s) r (inr (refl, (p, one))) m) e).1
