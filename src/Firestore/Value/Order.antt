-- ===== src/Firestore/Value/Order.antt =====
-- `type_order`, `compare_numbers` and `compare_values` of query_evaluator.rs.
pub mod Laws
use firebase_rs_sdk.Common.{
  ℕ, suc, Ordering, lt, eq, gt, compare, Bool, true, false, ◌&&◌, Option, none, some, arith,
  if◌then◌else◌,
}
use firebase_rs_sdk.Common.Ord.{cmp_list, nat_ord, list_ord, then_with}
use firebase_rs_sdk.Common.Int.{cmp_ℤ}
use firebase_rs_sdk.Common.Text.{split}
use firebase_rs_sdk.Firestore.F64.{F64, is_nan, partial_cmp, from_i64}
use firebase_rs_sdk.Firestore.Model.Timestamp
use firebase_rs_sdk.Firestore.Value.{
  GeoPoint, Value, null, boolean, integer, double, timestamp, string, bytes, reference, geo_point,
  array, map, sentinel, Values, nil, cons, Fields, end, field,
}

abbrev pub type_order : Value → ℕ
type_order null = 0
type_order (boolean _) = 1
type_order (integer _) = 2
type_order (double _) = 2
type_order (timestamp _) = 3
type_order (string _) = 4
type_order (bytes _) = 5
type_order (reference _) = 6
type_order (geo_point _) = 7
type_order (array _) = 8
type_order (map _) = 9
type_order (sentinel _) = 10

-- unwrap_or(Ordering::Equal)
abbrev or_eq : Option Ordering → Ordering
or_eq none = eq
or_eq (some o) = o

unfoldable pub compare_numbers : F64 → F64 → Ordering
compare_numbers a b =
    if is_nan a && is_nan b
    then eq
    else if is_nan a
    then lt
    else if is_nan b
    then gt
    else or_eq (partial_cmp a b)

compare_bools : Bool → Bool → Ordering
compare_bools false true = lt
compare_bools true false = gt
compare_bools false false = eq
compare_bools true true = eq

compare_geo_points : GeoPoint → GeoPoint → Ordering
unfolding compare_numbers
compare_geo_points a b =
    then_with (compare_numbers a.latitude b.latitude) (compare_numbers a.longitude b.longitude)

-- The source returns `Some` on every path, so its `unwrap_or(Equal)` never acts and the result is
-- plain here. In the loops over arrays and maps, `then_with` is the early return; the lengths are
-- compared once one of them has ended.
unfoldable mutual
  unfolding compare_bools compare_geo_points Timestamp.cmp

  pub compare_values : Value → Value → Ordering
  compare_values null null = eq
  compare_values (boolean a) (boolean b) = compare_bools a b
  compare_values (integer a) (integer b) = cmp_ℤ a b
  compare_values (double a) (double b) = compare_numbers a b
  compare_values (integer a) (double b) = compare_numbers (from_i64 a) b
  compare_values (double a) (integer b) = compare_numbers a (from_i64 b)
  compare_values (timestamp a) (timestamp b) = Timestamp.cmp a b
  compare_values (string a) (string b) = cmp_list a b
  compare_values (bytes a) (bytes b) = cmp_list a b
  compare_values (reference a) (reference b) = cmp_list (split b'/' a) (split b'/' b)
  compare_values (geo_point a) (geo_point b) = compare_geo_points a b
  compare_values (array a) (array b) = compare_arrays a b
  compare_values (map a) (map b) = compare_maps a b
  compare_values (sentinel a) (sentinel b) = eq
  compare_values a b = compare (type_order a) (type_order b)

  pub compare_arrays : Values → Values → Ordering
  compare_arrays nil nil = eq
  compare_arrays nil (cons y ys) = lt
  compare_arrays (cons x xs) nil = gt
  compare_arrays (cons x xs) (cons y ys) = then_with (compare_values x y) (compare_arrays xs ys)

  pub compare_maps : Fields → Fields → Ordering
  compare_maps end end = eq
  compare_maps end (field k w n) = lt
  compare_maps (field j v m) end = gt
  compare_maps (field j v m) (field k w n) =
      then_with (cmp_list j k) (then_with (compare_values v w) (compare_maps m n))
