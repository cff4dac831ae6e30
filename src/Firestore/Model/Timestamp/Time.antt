-- ===== src/Firestore/Model/Timestamp/Time.antt =====
-- The instant that a timestamp of timestamp.rs stands for.
use firebase_rs_sdk.Common.{ℕ, ◌+◌, ◌*◌, ◌/◌, ◌^◌, ◌≤◌, ◌<◌, ◌≡◌, refl, ap, inl, ◌↔◌, ◌⊎◌, arith}
use firebase_rs_sdk.Common.Int.{
  ℤ, pos, negsuc, pos_part, neg_part, sub_ℕ, ◌+ℤ◌, cmp_ℤ, wrap_i64_of_IsI64, IsI64,
}
use firebase_rs_sdk.Firestore.Model.Timestamp.{
  Timestamp, billion, div_euclid, rem_euclid, carry, new, from_system_time, to_system_time, cmp,
}

-- seconds * 10^9 + nanos, the nanoseconds since the epoch
abbrev pub instant : Timestamp → ℤ
instant t =
    sub_ℕ (pos_part t.seconds * billion + pos_part t.nanos)
      (neg_part t.seconds * billion + neg_part t.nanos)

pub record IsNormal (t : Timestamp) : Type 0 where
  pub nonneg : neg_part t.nanos ≡ 0
  pub fraction : pos_part t.nanos < billion

-- The carry at the end of `normalize` is never taken: a Euclidean remainder is not negative.
carry_of_nonneg :
    (seconds : ℤ) (n : ℕ) → carry seconds (pos n) ≡ record { seconds = seconds; nanos = pos n }
unfolding carry
carry_of_nonneg seconds n = ground arith

new-eq :
    (seconds nanos : ℤ)
    → IsI64 (seconds +ℤ div_euclid nanos)
    → new seconds nanos ≡ record { seconds = seconds +ℤ div_euclid nanos; nanos = rem_euclid nanos }
unfolding new
new-eq seconds (pos n) h = rw (wrap_i64_of_IsI64 _ h) (carry_of_nonneg _ _)
new-eq seconds (negsuc n) h = rw (wrap_i64_of_IsI64 _ h) (carry_of_nonneg _ _)

instant_carry :
    (seconds nanos : ℤ)
    → instant (record { seconds = seconds +ℤ div_euclid nanos; nanos = rem_euclid nanos })
      ≡ instant (record { seconds = seconds; nanos = nanos })
unfolding ◌+ℤ◌
instant_carry (pos s) (pos n) = ground arith
instant_carry (pos s) (negsuc n) = ground arith
instant_carry (negsuc s) (pos n) = ground arith
instant_carry (negsuc s) (negsuc n) = ground arith

rem_euclid_bounds :
    (seconds nanos : ℤ) → IsNormal (record { seconds = seconds; nanos = rem_euclid nanos })
rem_euclid_bounds seconds (pos n) = omega arith
rem_euclid_bounds seconds (negsuc n) = omega arith

-- `new` gives a fraction in [0, 10^9) and keeps the instant, if the seconds with their carry fit `i64`.
pub new_lem :
    (seconds nanos : ℤ)
    → IsI64 (seconds +ℤ div_euclid nanos)
    → IsNormal (new seconds nanos)
      × (instant (new seconds nanos) ≡ instant (record { seconds = seconds; nanos = nanos }))
new_lem seconds nanos h =
    rw (new-eq seconds nanos h) (rem_euclid_bounds _ nanos, instant_carry seconds nanos)

-- On normal timestamps the derived order is the order of the instants.
pub cmp-eq-cmp_instant :
    (a b : Timestamp) → IsNormal a → IsNormal b → cmp a b ≡ cmp_ℤ (instant a) (instant b)
unfolding cmp cmp_ℤ
cmp-eq-cmp_instant a b ha hb = ground arith

-- A normal timestamp is converted to its own instant exactly when it is not before the epoch or has
-- no fraction: before the epoch the fraction is taken off the seconds instead of added to them.
pub to_system_time_iff :
    (t : Timestamp)
    → IsNormal t
    → (to_system_time t ≡ instant t) ↔ ((neg_part t.seconds ≡ 0) ⊎ (pos_part t.nanos ≡ 0))
unfolding to_system_time
to_system_time_iff t h = (λ e. ground arith, λ e. ground arith)

-- A system time survives the way to a timestamp and back exactly when it is not in the last second
-- before the epoch.
pub to_system_time-from_system_time_iff :
    (t : ℤ)
    → pos_part t < 2 ^ 63 * billion
    → (to_system_time (from_system_time t) ≡ t) ↔ ((neg_part t ≡ 0) ⊎ (billion ≤ neg_part t))
unfolding to_system_time from_system_time
to_system_time-from_system_time_iff (pos t) h =
    rw (wrap_i64_of_IsI64 (pos (t / billion)) (omega arith))
      (λ e. inl refl, λ e. ap pos (omega arith))
to_system_time-from_system_time_iff (negsuc n) h = (λ e. ground arith, λ e. ground arith)
