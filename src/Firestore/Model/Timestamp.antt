-- ===== src/Firestore/Model/Timestamp.antt =====
-- crates/firebase-firestore/src/model/timestamp.rs. `std::time::SystemTime` is read as the number of
-- nanoseconds since the epoch, an integer.
pub mod Time
use firebase_rs_sdk.Common.{
  ℕ, suc, ◌+◌, ◌-◌, ◌*◌, ◌/◌, ◌%◌, ◌^◌, ◌<◌, Ordering, Bool, ◌&&◌, if◌then◌else◌,
}
use firebase_rs_sdk.Common.Ord.{then_with}
use firebase_rs_sdk.Common.Int.{
  ℤ, pos, negsuc, neg, pos_part, neg_part, sub_ℕ, ◌+ℤ◌, cmp_ℤ, ltb_ℤ, wrap_i64,
}

pub record Timestamp : Type 0 where
  pub seconds : ℤ
  pub nanos : ℤ

abbrev pub billion : ℕ
billion = 1_000_000_000

-- i32::div_euclid and rem_euclid by 1_000_000_000
abbrev pub div_euclid : ℤ → ℤ
div_euclid (pos n) = pos (n / billion)
div_euclid (negsuc n) = negsuc (n / billion)

abbrev pub rem_euclid : ℤ → ℤ
rem_euclid (pos n) = pos (n % billion)
rem_euclid (negsuc n) = pos (billion - 1 - n % billion)

-- the last step of `normalize`
carry : ℤ → ℤ → Timestamp
carry seconds nanos =
    if ltb_ℤ (pos 0) seconds && ltb_ℤ nanos (pos 0)
    then record { seconds = seconds +ℤ negsuc 0; nanos = nanos +ℤ pos billion }
    else record { seconds = seconds; nanos = nanos }

unfoldable pub normalize : Timestamp → Timestamp
unfolding carry
normalize t = carry (wrap_i64 (t.seconds +ℤ div_euclid t.nanos)) (rem_euclid t.nanos)

unfoldable pub new : ℤ → ℤ → Timestamp
unfolding normalize
new seconds nanos = normalize (record { seconds = seconds; nanos = nanos })

-- `as i64`; the fraction of a second always fits an `i32`
unfoldable pub from_system_time : ℤ → Timestamp
from_system_time (pos t) = record {
  seconds = wrap_i64 (pos (t / billion));
  nanos = pos (t % billion);
}
from_system_time (negsuc n) = record {
  seconds = neg (suc n / billion);
  nanos = neg (suc n % billion);
}

-- `self.nanos as u64`, which sign-extends
abbrev pub as_u64 : ℤ → ℕ
as_u64 (pos n) = n
as_u64 (negsuc n) = 2 ^ 64 - 1 - n

-- `nanos.unsigned_abs()`
abbrev pub unsigned_abs : ℤ → ℕ
unsigned_abs n = pos_part n + neg_part n

unfoldable pub to_system_time : Timestamp → ℤ
to_system_time t = to t.seconds t.nanos
  where
    to : ℤ → ℤ → ℤ
    to (pos s) n = pos (s * billion + as_u64 n)
    to (negsuc s) n = neg (suc s * billion + unsigned_abs n)

unfoldable pub cmp : Timestamp → Timestamp → Ordering
cmp a b = then_with (cmp_ℤ a.seconds b.seconds) (cmp_ℤ a.nanos b.nanos)
