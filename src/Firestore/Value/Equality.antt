-- ===== src/Firestore/Value/Equality.antt =====
-- The derived `PartialEq` of `FirestoreValue` and its parts: a NaN is not equal to itself.
use firebase_rs_sdk.Common.{Bool, true, false, ◌&&◌, Option, none, some}
use firebase_rs_sdk.Common.Ord.{◌==◌, nat_ord, list_ord}
use firebase_rs_sdk.Common.Int.{int_ord}
use firebase_rs_sdk.Firestore.F64.{eq_f64}
use firebase_rs_sdk.Firestore.Model.Timestamp.{Timestamp}
use firebase_rs_sdk.Firestore.Value.{
  GeoPoint, Value, null, boolean, integer, double, timestamp, string, bytes, reference, geo_point,
  array, map, sentinel, Values, nil, cons, Fields, end, field, Sentinel, server_timestamp,
  array_union, array_remove, numeric_increment, delete_field,
}

abbrev pub eq_bool : Bool → Bool → Bool
eq_bool true b = b
eq_bool false true = false
eq_bool false false = true

abbrev pub eq_timestamp : Timestamp → Timestamp → Bool
eq_timestamp a b = a.seconds == b.seconds && a.nanos == b.nanos

-- of `Option<Timestamp>`
abbrev pub eq_version : Option Timestamp → Option Timestamp → Bool
eq_version none none = true
eq_version (some a) (some b) = eq_timestamp a b
eq_version _ _ = false

eq_geo_point : GeoPoint → GeoPoint → Bool
eq_geo_point a b = eq_f64 a.latitude b.latitude && eq_f64 a.longitude b.longitude

unfoldable mutual
  unfolding eq_geo_point

  pub eq_value : Value → Value → Bool
  eq_value null null = true
  eq_value (boolean a) (boolean b) = eq_bool a b
  eq_value (integer a) (integer b) = a == b
  eq_value (double a) (double b) = eq_f64 a b
  eq_value (timestamp a) (timestamp b) = eq_timestamp a b
  eq_value (string a) (string b) = a == b
  eq_value (bytes a) (bytes b) = a == b
  eq_value (reference a) (reference b) = a == b
  eq_value (geo_point a) (geo_point b) = eq_geo_point a b
  eq_value (array a) (array b) = eq_values a b
  eq_value (map a) (map b) = eq_fields a b
  eq_value (sentinel a) (sentinel b) = eq_sentinel a b
  eq_value _ _ = false

  pub eq_values : Values → Values → Bool
  eq_values nil nil = true
  eq_values (cons x xs) (cons y ys) = eq_value x y && eq_values xs ys
  eq_values _ _ = false

  pub eq_fields : Fields → Fields → Bool
  eq_fields end end = true
  eq_fields (field j a m) (field k b n) = j == k && eq_value a b && eq_fields m n
  eq_fields _ _ = false

  pub eq_sentinel : Sentinel → Sentinel → Bool
  eq_sentinel server_timestamp server_timestamp = true
  eq_sentinel (array_union a) (array_union b) = eq_values a b
  eq_sentinel (array_remove a) (array_remove b) = eq_values a b
  eq_sentinel (numeric_increment a) (numeric_increment b) = eq_value a b
  eq_sentinel delete_field delete_field = true
  eq_sentinel _ _ = false
