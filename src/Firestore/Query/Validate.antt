-- ===== src/Firestore/Query/Validate.antt =====
-- The checks on a filter in api/query.rs.
use firebase_rs_sdk.Common.{
  ℕ, Bool, true, false, not, ◌&&◌, ◌||◌, Option, none, some, List, [], ◌∷◌, if◌then◌else◌, ltb,
}
use firebase_rs_sdk.Common.Ord.{◌==◌, nat_ord, list_ord}
use firebase_rs_sdk.Common.Text.{Text}
use firebase_rs_sdk.Firestore.Error.{
  FirestoreResult, ok, err, invalid_argument, ◌>>=◌, ◌>>◌, fail_if,
}
use firebase_rs_sdk.Firestore.F64
use firebase_rs_sdk.Firestore.Model.FieldPath.{document_id, eqb, canonical_string}
use firebase_rs_sdk.Firestore.Value.{Value, null, double, array, sentinel, Values}
use firebase_rs_sdk.Firestore.Query.{
  FilterOperator, less_than, less_than_or_equal, greater_than, greater_than_or_equal, not_equal,
  array_contains, array_contains_any, in_list, not_in, FieldFilter, Filter, leaf, composite, Query,
}

abbrev pub is_inequality : FilterOperator → Bool
is_inequality less_than = true
is_inequality less_than_or_equal = true
is_inequality greater_than = true
is_inequality greater_than_or_equal = true
is_inequality not_equal = true
is_inequality not_in = true
is_inequality _ = false

unfoldable pub is_nan : Value → Bool
unfolding F64.is_nan
is_nan (double number) = F64.is_nan number
is_nan _ = false

abbrev pub is_null : Value → Bool
is_null null = true
is_null _ = false

abbrev is_sentinel : Value → Bool
is_sentinel (sentinel _) = true
is_sentinel _ = false

abbrev pub max_disjunctive_values : ℕ
max_disjunctive_values = 10

abbrev pub count_values : Values → ℕ
count_values Values.nil = 0
count_values (Values.cons x xs) = ℕ.suc (count_values xs)

unfoldable pub ensure_value_supported : Value → FirestoreResult (Unit {0})
unfolding is_nan
ensure_value_supported value = fail_if (is_nan value || is_null value) invalid_argument

-- the loop over the elements
ensure_elements : Values → FirestoreResult (Unit {0})
unfolding is_nan
ensure_elements Values.nil = ok tt
ensure_elements (Values.cons x xs) =
    fail_if (is_nan x || is_null x) invalid_argument >>= λ _. ensure_elements xs

unfoldable pub ensure_disjunctive_filter : Value → FirestoreResult (Unit {0})
unfolding ensure_elements
ensure_disjunctive_filter (array elements) = do
  fail_if (count_values elements == 0) invalid_argument
  fail_if (ltb max_disjunctive_values (count_values elements)) invalid_argument
  ensure_elements elements
ensure_disjunctive_filter _ = err invalid_argument

-- the first `match` of `validate_leaf`, under its test for `documentId()`
abbrev is_array_operator : FilterOperator → Bool
is_array_operator array_contains = true
is_array_operator array_contains_any = true
is_array_operator _ = false

-- the second `match` of `validate_leaf`
validate_operand : FilterOperator → Value → FirestoreResult (Unit {0})
unfolding ensure_value_supported ensure_disjunctive_filter
validate_operand array_contains value = ensure_value_supported value
validate_operand array_contains_any value = ensure_disjunctive_filter value
validate_operand in_list value = ensure_disjunctive_filter value
validate_operand not_in value = ensure_disjunctive_filter value
validate_operand not_equal value = fail_if (is_nan value) invalid_argument
validate_operand _ value = ok tt

unfoldable pub validate_leaf : FieldFilter → FirestoreResult (Unit {0})
unfolding validate_operand
validate_leaf f = do
  fail_if (is_sentinel f.value) invalid_argument
  fail_if (eqb f.field document_id && is_array_operator f.operator) invalid_argument
  validate_operand f.operator f.value

-- the field of the first plain inequality among the query's filters
unfoldable pub first_inequality : List Filter → Option Text
first_inequality [] = none
first_inequality (composite op fs ∷ rest) = first_inequality rest
first_inequality (leaf f ∷ rest) =
    let later = first_inequality rest in
    if is_inequality f.operator then some (canonical_string f.field) else later

abbrev pub inequality_field : Query → Option Text
inequality_field q = first_inequality q.filters

abbrev differs : Option Text → Text → Bool
differs none s = false
differs (some t) s = not (t == s)

unfoldable pub validate_filter : Query → FieldFilter → FirestoreResult (Unit {0})
unfolding validate_leaf first_inequality
validate_filter q f = do
  validate_leaf f
  fail_if (is_inequality f.operator && differs (inequality_field q) (canonical_string f.field))
      invalid_argument
