-- ===== src/Common/Int.antt =====
-- Signed integers over the native numbers: `i64` and `i32` values, whose range is stated where it matters.
use Prim.Native.Nat.{ℕ, suc, ◌+◌, ◌-◌, ◌%◌, ◌^◌, ◌≤◌, ◌<◌, compare, Ordering}
use mathlib.Core.Bool.{Bool}
use Prim.Native.Nat.Ordering.{lt, eq}
use mathlib.Core.Path.{◌≡◌}
use native.Mathlib.Omega.{arith}
use firebase_rs_sdk.Common.Tests.{ltb, leb, if◌then◌else◌}
use firebase_rs_sdk.Common.Ord.{Ord, reverse}

-- `negsuc n` is -(n + 1).
pub data ℤ : Type 0 where
  pos : ℕ → ℤ
  negsuc : ℕ → ℤ

abbrev pub pos_part : ℤ → ℕ
pos_part (pos n) = n
pos_part (negsuc n) = 0

abbrev pub neg_part : ℤ → ℕ
neg_part (pos n) = 0
neg_part (negsuc n) = suc n

-- a - b
abbrev pub sub_ℕ : ℕ → ℕ → ℤ
sub_ℕ a b = if leb b a then pos (a - b) else negsuc (b - a - 1)

infixl 65 ◌+ℤ◌
unfoldable pub ◌+ℤ◌ : ℤ → ℤ → ℤ
a +ℤ b = sub_ℕ (pos_part a + pos_part b) (neg_part a + neg_part b)

unfoldable pub cmp_ℤ : ℤ → ℤ → Ordering
cmp_ℤ a b = compare (pos_part a + neg_part b) (pos_part b + neg_part a)

pub cmp_ℤ_refl : (a : ℤ) → cmp_ℤ a a ≡ eq
unfolding cmp_ℤ
cmp_ℤ_refl a = ground arith

pub eq_of_cmp_ℤ : (a b : ℤ) → cmp_ℤ a b ≡ eq → a ≡ b
unfolding cmp_ℤ
eq_of_cmp_ℤ a b h = ground arith

pub cmp_ℤ_swap : (a b : ℤ) → cmp_ℤ b a ≡ reverse (cmp_ℤ a b)
unfolding cmp_ℤ
cmp_ℤ_swap a b = ground arith

pub cmp_ℤ_trans : (a b c : ℤ) → cmp_ℤ a b ≡ lt → cmp_ℤ b c ≡ lt → cmp_ℤ a c ≡ lt
unfolding cmp_ℤ
cmp_ℤ_trans a b c p q = ground arith

instance abbrev pub int_ord : Ord ℤ
int_ord = record {
  cmp = cmp_ℤ;
  cmp_refl = cmp_ℤ_refl;
  eq_of_cmp = eq_of_cmp_ℤ;
  cmp_swap = cmp_ℤ_swap;
  lt_trans = cmp_ℤ_trans;
}

-- -n
abbrev pub neg : ℕ → ℤ
neg n = sub_ℕ 0 n

abbrev pub ltb_ℤ : ℤ → ℤ → Bool
ltb_ℤ a b = ltb (pos_part a + neg_part b) (pos_part b + neg_part a)

-- the residue modulo 2^64, and the `i64` with that residue
abbrev pub residue_64 : ℤ → ℕ
residue_64 (pos n) = n % 2 ^ 64
residue_64 (negsuc n) = 2 ^ 64 - 1 - n % 2 ^ 64

unfoldable pub wrap_i64 : ℤ → ℤ
wrap_i64 a = let n = residue_64 a in if ltb n (2 ^ 63) then pos n else negsuc (2 ^ 64 - 1 - n)

abbrev pub IsI64 : ℤ → Type 0
IsI64 a = (pos_part a < 2 ^ 63) × (neg_part a ≤ 2 ^ 63)

pub wrap_i64_of_IsI64 : (a : ℤ) → IsI64 a → wrap_i64 a ≡ a
unfolding wrap_i64
wrap_i64_of_IsI64 (pos n) h = ground arith
wrap_i64_of_IsI64 (negsuc n) h = ground arith

pub +ℤ_parts :
    (a b : ℤ)
    → pos_part (a +ℤ b) + neg_part a + neg_part b ≡ neg_part (a +ℤ b) + pos_part a + pos_part b
unfolding ◌+ℤ◌
+ℤ_parts a b = ground arith

pub eq_of_parts : (a b : ℤ) → pos_part a + neg_part b ≡ pos_part b + neg_part a → a ≡ b
eq_of_parts a b h = ground arith
