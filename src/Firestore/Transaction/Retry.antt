-- ===== src/Firestore/Transaction/Retry.antt =====
-- `run_transaction` of api/transaction.rs: attempts until one commits, the error is permanent, or the
-- attempts are used up.
use firebase_rs_sdk.Common.{
  ℕ, zero, suc, ◌+◌, ◌-◌, ◌≤◌, ◌<◌, Bool, true, false, not, ◌||◌, Option, Option-cases, none, some,
  List, [], ◌∷◌, ◌≡◌, refl, sym, ap, ◌⊎◌, inl, inr, arith, leb, if◌then◌else◌, length, All,
  Bool-cases,
}
use mathlib.Core.Path.{subst}
use firebase_rs_sdk.Firestore.Error.{
  FirestoreErrorCode, invalid_argument, missing_project_id, not_found, permission_denied,
  FirestoreResult, ok, err, result-cases, ◌>>=◌,
}
use firebase_rs_sdk.Firestore.Query.{DatabaseId}
use firebase_rs_sdk.Firestore.Transaction.{Datastore, Transaction, new, finish}

-- durations are in nanoseconds
pub record TransactionOptions : Type 0 where
  pub max_attempts : ℕ
  pub initial_backoff : ℕ
  pub max_backoff : ℕ

abbrev pub default_options : TransactionOptions
default_options = record { max_attempts = 5; initial_backoff = 100000000; max_backoff = 5000000000 }

abbrev pub min : ℕ → ℕ → ℕ
min a b = if leb a b then a else b

abbrev pub max : ℕ → ℕ → ℕ
max a b = if leb a b then b else a

unfoldable pub is_retryable_transaction_error : FirestoreErrorCode → Bool
is_retryable_transaction_error invalid_argument = false
is_retryable_transaction_error missing_project_id = false
is_retryable_transaction_error not_found = false
is_retryable_transaction_error permission_denied = false
is_retryable_transaction_error _ = true

-- How a run ended: after how many attempts, with what waits between them, in which state. A result of
-- `none` is a panic.
pub record Run {ℓ κ} (S : Type ℓ) (T : Type κ) : Type (ℓ ⊔ κ) where
  pub attempts : ℕ
  pub sleeps : List ℕ
  pub store : S
  pub result : Option (FirestoreResult T)

-- `scale d i` is d.mul_f64(1.5f64.powi(i)), which panics where the duration overflows: `none`
unfoldable pub backoff_for : (ℕ → ℕ → Option ℕ) → TransactionOptions → ℕ → Option ℕ
backoff_for scale options retry_index = elim (scale options.initial_backoff retry_index) [
  | none ↦ none
  | some delay ↦ some (min delay options.max_backoff)
]

-- `update n` is what the closure does in attempt n, together with what other clients do to the
-- datastore up to the commit.
module _ {ℓ κ} {S : Type ℓ} {T : Type κ} (datastore : Datastore S) (scale : ℕ → ℕ → Option ℕ)
    (options : TransactionOptions) (database_id : DatabaseId)
    (update : ℕ → Transaction → S → Transaction × S × FirestoreResult T) where
  -- one round of the loop up to its outcome
  unfoldable pub attempt_once : ℕ → S → S × FirestoreResult T
  unfolding finish
  attempt_once attempt s =
      let (t, s', outcome) = update attempt (new database_id) s in
      elim outcome [
        | err e ↦ (s', err e)
        | ok value ↦ (elim (finish t).1 [
          | err e ↦ (s', err e)
          | ok writes ↦
              let r = datastore.commit_conditional writes s' in (r.0, r.1 >>= λ _. ok value)
        ])
      ]

  abbrev pub max_attempts : ℕ
  max_attempts = max options.max_attempts 1

  abbrev pub gives_up : ℕ → FirestoreErrorCode → Bool
  gives_up attempts e = leb max_attempts attempts || not (is_retryable_transaction_error e)

  abbrev pub add_sleep : ℕ → Option (Run S T) → Option (Run S T)
  add_sleep d none = none
  add_sleep d (some r) = some (record r { sleeps = d ∷ r.sleeps })

  abbrev pub ended : ℕ → S → Option (FirestoreResult T) → Run S T
  ended attempts store result = record {
    attempts = attempts;
    sleeps = [];
    store = store;
    result = result;
  }

  -- the wait before the next round, or the end by a panic
  unfoldable pub wait_then : Option ℕ → Run S T → Option (Run S T) → Option (Run S T)
  wait_then none panicked rest = some panicked
  wait_then (some d) panicked rest = add_sleep d rest

  -- the loop; `none` when the fuel is used up
  unfoldable pub attempts_from : ℕ → ℕ → S → Option (Run S T)
  unfolding attempt_once is_retryable_transaction_error backoff_for wait_then
  attempts_from zero attempt s = none
  attempts_from (suc fuel) attempt s =
      let r = attempt_once attempt s in
      let rest = attempts_from fuel (suc attempt) in
      elim r.1 [
        | ok value ↦ some (ended (suc attempt) r.0 (some r.1))
        | err e ↦
            if gives_up (suc attempt) e
            then some (ended (suc attempt) r.0 (some r.1))
            else wait_then (backoff_for scale options attempt) (ended (suc attempt) r.0 none)
                (rest r.0)
      ]

  unfoldable pub run_transaction : S → Option (Run S T)
  unfolding attempts_from
  run_transaction s = attempts_from max_attempts 0 s

  -- what a run may end as: an error is permanent, or it came at the last attempt; a panic is that of the
  -- scaled delay before the next attempt
  abbrev pub IsEnd : ℕ → Option (FirestoreResult T) → Type 0
  IsEnd attempts none =
      (attempts < max_attempts)
      × ((index : ℕ) × (suc index ≡ attempts) × (scale options.initial_backoff index ≡ none))
  IsEnd attempts (some (ok _)) = Unit
  IsEnd attempts (some (err e)) =
      (attempts ≡ max_attempts) ⊎ (is_retryable_transaction_error e ≡ false)

  pub record IsRun (attempt : ℕ) (r : Run S T) : Type 0 where
    pub bounded : r.attempts ≤ max_attempts
    pub slept : attempt + suc (length r.sleeps) ≡ r.attempts
    pub waits : All (λ d. d ≤ options.max_backoff) r.sleeps
    pub end : IsEnd r.attempts r.result

  attempts_from-ok :
      (fuel attempt : ℕ) (s : S) (value : T)
      → (attempt_once attempt s).1 ≡ ok value
      → attempts_from (suc fuel) attempt s
        ≡ some (ended (suc attempt) (attempt_once attempt s).0 (some (ok value)))
  unfolding attempts_from
  attempts_from-ok fuel attempt s value e =
      rw (attempts_from, e)
        (ap (λ r. some (ended (suc attempt) (attempt_once attempt s).0 (some r))) e)

  attempts_from-stop :
      (fuel attempt : ℕ) (s : S) (e : FirestoreErrorCode)
      → (attempt_once attempt s).1 ≡ err e
      → gives_up (suc attempt) e ≡ true
      → attempts_from (suc fuel) attempt s
        ≡ some (ended (suc attempt) (attempt_once attempt s).0 (some (err e)))
  unfolding attempts_from
  attempts_from-stop fuel attempt s e h g =
      rw (attempts_from, h, g)
        (ap (λ r. some (ended (suc attempt) (attempt_once attempt s).0 (some r))) h)

  attempts_from-again :
      (fuel attempt : ℕ) (s : S) (e : FirestoreErrorCode)
      → (attempt_once attempt s).1 ≡ err e
      → gives_up (suc attempt) e ≡ false
      → attempts_from (suc fuel) attempt s
        ≡ wait_then
            (backoff_for scale options attempt)
            (ended (suc attempt) (attempt_once attempt s).0 none)
            (attempts_from fuel (suc attempt) (attempt_once attempt s).0)
  unfolding attempts_from
  attempts_from-again fuel attempt s e h g = rw (attempts_from, h, g) refl

  backoff_for-some :
      (i d : ℕ)
      → scale options.initial_backoff i ≡ some d
      → backoff_for scale options i ≡ some (min d options.max_backoff)
  unfolding backoff_for
  backoff_for-some i d e = rw (backoff_for, e) refl

  backoff_for-none :
      (i : ℕ) → scale options.initial_backoff i ≡ none → backoff_for scale options i ≡ none
  unfolding backoff_for
  backoff_for-none i e = rw (backoff_for, e) refl

  min_bound : (d : ℕ) → min d options.max_backoff ≤ options.max_backoff
  min_bound d = ground arith

  stops :
      (attempts : ℕ) (e : FirestoreErrorCode)
      → attempts ≤ max_attempts
      → gives_up attempts e ≡ true
      → IsEnd attempts (some (err e))
  stops attempts e b g = ground (arith, b, g)

  goes_on :
      (attempts : ℕ) (e : FirestoreErrorCode)
      → gives_up attempts e ≡ false
      → attempts < max_attempts
  goes_on attempts e g = ground (arith, g)

  abbrev Ends : ℕ → ℕ → S → Type (ℓ ⊔ κ)
  Ends fuel attempt s = (r : Run S T) × (attempts_from fuel attempt s ≡ some r) × IsRun attempt r

  -- a round that is tried again: the delay is one that panics, or a wait
  retry-Ends :
      (fuel attempt : ℕ) (s : S) (c : FirestoreErrorCode)
      → attempt + suc fuel ≡ max_attempts
      → (attempt_once attempt s).1 ≡ err c
      → gives_up (suc attempt) c ≡ false
      → (scale options.initial_backoff attempt ≡ none)
        ⊎ ((d : ℕ) × (scale options.initial_backoff attempt ≡ some d))
      → Ends fuel (suc attempt) (attempt_once attempt s).0
      → Ends (suc fuel) attempt s
  unfolding wait_then
  retry-Ends fuel attempt s c b e g (inl n) rest = (
    ended (suc attempt) (attempt_once attempt s).0 none,
    rw (attempts_from-again fuel attempt s c e g, backoff_for-none attempt n) refl,
    record {
      bounded = omega (arith, b);
      slept = omega arith;
      waits = tt;
      end = (goes_on (suc attempt) c g, (attempt, refl, n));
    },
  )
  retry-Ends fuel attempt s c b e g (inr (d, n)) (r, f, run) = (
    record r { sleeps = min d options.max_backoff ∷ r.sleeps },
    rw (attempts_from-again fuel attempt s c e g, backoff_for-some attempt d n, f) refl,
    record {
      bounded = run.bounded;
      slept = omega (arith, run.slept);
      waits = (min_bound d, run.waits);
      end = run.end;
    },
  )

  -- one round, given that a round after it would end
  round-Ends :
      (fuel attempt : ℕ) (s : S)
      → attempt + suc fuel ≡ max_attempts
      → (0 < fuel → Ends fuel (suc attempt) (attempt_once attempt s).0)
      → Ends (suc fuel) attempt s
  round-Ends fuel attempt s b rest = elim (result-cases (attempt_once attempt s).1) [
    | inl (value, e) ↦ (
      ended (suc attempt) (attempt_once attempt s).0 (some (ok value)),
      attempts_from-ok fuel attempt s value e,
      record { bounded = omega (arith, b); slept = omega arith; waits = tt; end = tt },
    )
    | inr (c, e) ↦ (elim (Bool-cases (gives_up (suc attempt) c)) [
      | inl g ↦ (
        ended (suc attempt) (attempt_once attempt s).0 (some (err c)),
        attempts_from-stop fuel attempt s c e g,
        record {
          bounded = omega (arith, b);
          slept = omega arith;
          waits = tt;
          end = stops (suc attempt) c (omega (arith, b)) g;
        },
      )
      | inr g ↦
          retry-Ends fuel attempt s c b e g (Option-cases (scale options.initial_backoff attempt))
            (rest (omega (arith, b, goes_on (suc attempt) c g)))
    ])
  ]

  attempts_from-Ends :
      (fuel attempt : ℕ) (s : S) → attempt + suc fuel ≡ max_attempts → Ends (suc fuel) attempt s
  attempts_from-Ends zero attempt s b = round-Ends zero attempt s b (λ p. absurd (omega (arith, p)))
  attempts_from-Ends (suc fuel) attempt s b =
      round-Ends (suc fuel) attempt s b
        (λ _. attempts_from-Ends fuel (suc attempt) (attempt_once attempt s).0 (omega (arith, b)))

  max_attempts-suc : (m : ℕ) × (max_attempts ≡ suc m)
  max_attempts-suc = (max_attempts - 1, ground arith)

  -- The attempts of a transaction come to an end, whatever the closure, the datastore and other clients do:
  -- after at most the configured number of attempts (at least one), with one wait fewer than attempts, each
  -- of at most the maximal backoff. An error is permanent or came at the last attempt; and the run panics
  -- only where the scaled delay before a next attempt overflows.
  pub run_transaction-IsRun : (s : S) → (r : Run S T) × (run_transaction s ≡ some r) × IsRun 0 r
  unfolding run_transaction
  run_transaction-IsRun s =
      let (m, e) = max_attempts-suc in
      subst (λ n. Ends n 0 s) (sym e) (attempts_from-Ends m 0 s (omega (arith, e)))
