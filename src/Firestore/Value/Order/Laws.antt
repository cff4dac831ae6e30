-- ===== src/Firestore/Value/Order/Laws.antt =====
-- Laws of `compare_values` of query_evaluator.rs.
use firebase_rs_sdk.Common.{Ordering, eq, true, false, ◌≡◌, refl, ◌≢◌, arith}
use firebase_rs_sdk.Common.Ord.{nat_ord, list_ord, then_with, reverse, cmp_list_swap, cmp_list_refl}
use firebase_rs_sdk.Common.Int.{ℤ, cmp_ℤ_swap, cmp_ℤ_refl, eq_of_cmp_ℤ}
use firebase_rs_sdk.Common.Text.{split}
use firebase_rs_sdk.Firestore.F64.{F64, position, partial_cmp, from_i64}
use firebase_rs_sdk.Firestore.Model.Timestamp
use firebase_rs_sdk.Firestore.Model.Timestamp.{Timestamp}
use firebase_rs_sdk.Firestore.Value.{
  GeoPoint, Value, null, boolean, integer, double, timestamp, string, bytes, reference, geo_point,
  array, map, sentinel, Values, nil, cons, Fields, end, field,
}
use firebase_rs_sdk.Firestore.Value.Order.{
  compare_numbers, compare_bools, compare_geo_points, compare_values, compare_arrays, compare_maps,
}

compare_numbers_swap : (a b : F64) → compare_numbers b a ≡ reverse (compare_numbers a b)
unfolding compare_numbers partial_cmp
compare_numbers_swap a b = ground (arith, cmp_ℤ_swap (position a) (position b))

compare_numbers_refl : (a : F64) → compare_numbers a a ≡ eq
unfolding compare_numbers partial_cmp
compare_numbers_refl a = ground (arith, cmp_ℤ_refl (position a))

timestamp_swap : (a b : Timestamp) → Timestamp.cmp b a ≡ reverse (Timestamp.cmp a b)
unfolding Timestamp.cmp
timestamp_swap a b = ground (arith, cmp_ℤ_swap a.seconds b.seconds, cmp_ℤ_swap a.nanos b.nanos)

timestamp_refl : (a : Timestamp) → Timestamp.cmp a a ≡ eq
unfolding Timestamp.cmp
timestamp_refl a = ground (arith, cmp_ℤ_refl a.seconds, cmp_ℤ_refl a.nanos)

geo_point_swap : (a b : GeoPoint) → compare_geo_points b a ≡ reverse (compare_geo_points a b)
unfolding compare_geo_points
geo_point_swap a b = ground (
  arith,
  compare_numbers_swap a.latitude b.latitude,
  compare_numbers_swap a.longitude b.longitude,
)

geo_point_refl : (a : GeoPoint) → compare_geo_points a a ≡ eq
unfolding compare_geo_points
geo_point_refl a = ground (arith, compare_numbers_refl a.latitude, compare_numbers_refl a.longitude)

then_with_swap :
    (o p o' p' : Ordering)
    → o' ≡ reverse o
    → p' ≡ reverse p
    → then_with o' p' ≡ reverse (then_with o p)
then_with_swap o p o' p' h k = ground arith

mutual
  unfolding compare_values compare_bools

  swap : (a b : Value) → compare_values b a ≡ reverse (compare_values a b)
  swap null null = refl
  swap (boolean true) (boolean true) = refl
  swap (boolean true) (boolean false) = refl
  swap (boolean false) (boolean true) = refl
  swap (boolean false) (boolean false) = refl
  swap (integer a) (integer b) = cmp_ℤ_swap a b
  swap (double a) (double b) = compare_numbers_swap a b
  swap (integer a) (double b) = compare_numbers_swap (from_i64 a) b
  swap (double a) (integer b) = compare_numbers_swap a (from_i64 b)
  swap (timestamp a) (timestamp b) = timestamp_swap a b
  swap (string a) (string b) = cmp_list_swap a b
  swap (bytes a) (bytes b) = cmp_list_swap a b
  swap (reference a) (reference b) = cmp_list_swap (split b'/' a) (split b'/' b)
  swap (geo_point a) (geo_point b) = geo_point_swap a b
  swap (array a) (array b) = swap_arrays a b
  swap (map a) (map b) = swap_maps a b
  swap (sentinel a) (sentinel b) = refl
  swap _ _ = refl

  swap_arrays : (a b : Values) → compare_arrays b a ≡ reverse (compare_arrays a b)
  swap_arrays nil nil = refl
  swap_arrays nil (cons y ys) = refl
  swap_arrays (cons x xs) nil = refl
  swap_arrays (cons x xs) (cons y ys) = then_with_swap _ _ _ _ (swap x y) (swap_arrays xs ys)

  swap_maps : (a b : Fields) → compare_maps b a ≡ reverse (compare_maps a b)
  swap_maps end end = refl
  swap_maps end (field k w n) = refl
  swap_maps (field j v m) end = refl
  swap_maps (field j v m) (field k w n) =
      then_with_swap _ _ _ _ (cmp_list_swap j k) (then_with_swap _ _ _ _ (swap v w) (swap_maps m n))

mutual
  unfolding compare_values compare_bools

  compare_refl : (a : Value) → compare_values a a ≡ eq
  compare_refl null = refl
  compare_refl (boolean true) = refl
  compare_refl (boolean false) = refl
  compare_refl (integer a) = cmp_ℤ_refl a
  compare_refl (double a) = compare_numbers_refl a
  compare_refl (timestamp a) = timestamp_refl a
  compare_refl (string a) = cmp_list_refl a
  compare_refl (bytes a) = cmp_list_refl a
  compare_refl (reference a) = cmp_list_refl (split b'/' a)
  compare_refl (geo_point a) = geo_point_refl a
  compare_refl (array a) = compare_arrays_refl a
  compare_refl (map a) = compare_maps_refl a
  compare_refl (sentinel a) = refl

  compare_arrays_refl : (a : Values) → compare_arrays a a ≡ eq
  compare_arrays_refl nil = refl
  compare_arrays_refl (cons x xs) = rw (compare_refl x) (compare_arrays_refl xs)

  compare_maps_refl : (a : Fields) → compare_maps a a ≡ eq
  compare_maps_refl end = refl
  compare_maps_refl (field j v m) = rw (cmp_list_refl j, compare_refl v) (compare_maps_refl m)

-- Comparing two values the other way round reverses the result, NaN and mixed types included.
pub compare_values_swap : (a b : Value) → compare_values b a ≡ reverse (compare_values a b)
compare_values_swap a b = swap a b

-- Every value, NaN included, is equal in order to itself.
pub compare_values_refl : (a : Value) → compare_values a a ≡ eq
compare_values_refl a = compare_refl a

-- Two different integers that `as f64` rounds to one number both compare equal to that number and
-- not to each other: the order over integers and doubles is not transitive.
pub compare_values-not-transitive :
    (i j : ℤ)
    → i ≢ j
    → from_i64 i ≡ from_i64 j
    → (compare_values (integer i) (double (from_i64 j)) ≡ eq)
      × (compare_values (double (from_i64 j)) (integer j) ≡ eq)
      × (compare_values (integer i) (integer j) ≢ eq)
unfolding compare_values
compare_values-not-transitive i j ne e = (
  rw e (compare_numbers_refl (from_i64 j)),
  compare_numbers_refl (from_i64 j),
  λ h. ne (eq_of_cmp_ℤ i j h),
)

-- Comparing two values the other way round reverses the result, and every value is equal in order to
-- itself, NaN and mixed types included.
pub compare_values_lem :
    (a b : Value) → (compare_values b a ≡ reverse (compare_values a b)) × (compare_values a a ≡ eq)
compare_values_lem a b = (compare_values_swap a b, compare_values_refl a)
