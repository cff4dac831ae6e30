-- ===== src/Firestore/F64.antt =====
-- Rust's `f64` as its 64-bit pattern: IEEE 754 comparison and the conversion `as f64` from an `i64`.
use firebase_rs_sdk.Common.{
  ℕ, suc, zero, ◌+◌, ◌-◌, ◌*◌, ◌/◌, ◌%◌, ◌^◌, Ordering, eq, ◌≡◌, refl, Bool, true, false, ◌&&◌,
  ◌||◌, Option, none, some, ltb, leb, if◌then◌else◌,
}
use firebase_rs_sdk.Common.Ord.{◌==◌, nat_ord}
use firebase_rs_sdk.Common.Int.{ℤ, pos, negsuc, neg, cmp_ℤ}

abbrev pub F64 : Type 0
F64 = ℕ

-- all bits but the sign
abbrev magnitude : F64 → ℕ
magnitude x = x % 2 ^ 63

-- the pattern of positive infinity; what lies above it, but for the sign, is a NaN
abbrev infinity : ℕ
infinity = 0x7FF0000000000000

unfoldable pub is_nan : F64 → Bool
is_nan x = ltb infinity (magnitude x)

-- The position of a number that is no NaN: both zeros stand at 0.
unfoldable pub position : F64 → ℤ
position x = if ltb x (2 ^ 63) then pos (magnitude x) else neg (magnitude x)

-- PartialOrd and PartialEq
unfoldable pub partial_cmp : F64 → F64 → Option Ordering
unfolding is_nan position
partial_cmp a b = if is_nan a || is_nan b then none else some (cmp_ℤ (position a) (position b))

unfoldable pub eq_f64 : F64 → F64 → Bool
unfolding partial_cmp
eq_f64 a b = elim (partial_cmp a b) [ none ↦ false | some o ↦ (elim o [ eq ↦ true | _ ↦ false ]) ]

-- the number of times that `n` can be halved, at most `fuel`
unfoldable pub log2 : ℕ → ℕ → ℕ
log2 zero n = 0
log2 (suc fuel) n = let rest = log2 fuel (n / 2) in if leb n 1 then 0 else suc rest

-- A number below 2^64, rounded to the nearest 53-bit significand, ties to even. The carry out of
-- the significand runs into the exponent, as it should.
unfoldable pub round_ℕ : ℕ → F64
unfolding log2
round_ℕ n =
    let e = log2 64 n in
    let shift = e - 52 in
    let exact = (e + 1022) * 2 ^ 52 + n * 2 ^ (52 - e) in
    let q = n / 2 ^ shift in
    let r = n % 2 ^ shift in
    let half = 2 ^ (shift - 1) in
    let up : ℕ = if ltb half r || (r == half && q % 2 == 1) then 1 else 0 in
    if n == 0 then 0 else if leb e 52 then exact else (e + 1022) * 2 ^ 52 + q + up

-- n as f64
unfoldable pub from_i64 : ℤ → F64
unfolding round_ℕ
from_i64 (pos n) = round_ℕ n
from_i64 (negsuc n) = 2 ^ 63 + round_ℕ (suc n)

from_i64_runs :
    (from_i64 (pos 1) ≡ 0x3FF0000000000000)
    × (from_i64 (negsuc 2) ≡ 0xC008000000000000)
    × (from_i64 (pos (2 ^ 53 + 1)) ≡ from_i64 (pos (2 ^ 53)))
    × (from_i64 (pos (2 ^ 63 - 1)) ≡ 0x43E0000000000000)
unfolding from_i64
from_i64_runs = (refl, refl, refl, refl)

abbrev pub nan : F64
nan = 0x7FF8000000000000
