-- ===== src/Firestore/QueryEvaluator.antt =====
-- crates/firebase-firestore/src/query_evaluator.rs: a query applied to candidate documents. The order
-- of values that it uses is in `Value/Order`.
pub mod Results
pub mod Determined
pub mod Cursors
use firebase_rs_sdk.Common.{
  ℕ, ◌-◌, Ordering, lt, eq, gt, Bool, true, false, not, ◌&&◌, ◌||◌, Option, none, some, List, [],
  ◌∷◌, if◌then◌else◌, any, all, keep, length, take, drop, ltb,
}
use firebase_rs_sdk.Common.Ord.{reverse, then_with}
use firebase_rs_sdk.Common.Sort.{sort_by}
use firebase_rs_sdk.Common.Text.{Text}
use firebase_rs_sdk.Firestore.Model.FieldPath.{FieldPath, eqb, document_id}
use firebase_rs_sdk.Firestore.Model.ResourcePath.{canonical_string}
use firebase_rs_sdk.Firestore.Snapshot.{DocumentSnapshot, exists}
use firebase_rs_sdk.Firestore.Value.{Value, null, string, array, Values, nil, cons, Fields}
use firebase_rs_sdk.Firestore.Value.MapValue.{get_from_segments}
use firebase_rs_sdk.Firestore.Value.Equality.{eq_value}
use firebase_rs_sdk.Firestore.Value.Order.{compare_values}
use firebase_rs_sdk.Firestore.Query.{
  FilterOperator, less_than, less_than_or_equal, greater_than, greater_than_or_equal, equal,
  not_equal, array_contains, array_contains_any, in_list, not_in, FieldFilter, Filter, leaf,
  composite, and, or, Filters, OrderBy, OrderDirection, ascending, descending, Bound, LimitType,
  first, last,
}
use firebase_rs_sdk.Firestore.Query.Validate.{is_null}
use firebase_rs_sdk.Firestore.Query.Definition.{QueryDefinition}

-- `find_in_map` is the look-up of `MapValue::get` once more
unfoldable pub get_field_value : DocumentSnapshot → FieldPath → Option Value
get_field_value s path =
    if eqb path document_id
    then some (string (canonical_string s.key.path))
    else (elim s.fields [ none ↦ none | some m ↦ get_from_segments path.segments m ])

-- array.values().iter().any(..)
abbrev pub any_value : (Value → Bool) → Values → Bool
any_value p nil = false
any_value p (cons x xs) = p x || any_value p xs

array_has : Values → Value → Bool
array_has xs needle = any_value (λ candidate. eq_value candidate needle) xs

array_has_any : Values → Values → Bool
unfolding array_has
array_has_any xs needles = any_value (array_has xs) needles

is_lt : Ordering → Bool
is_lt lt = true
is_lt _ = false

is_le : Ordering → Bool
is_le gt = false
is_le _ = true

-- the arms by the operator; `compare_values` never returns `None`
unfoldable pub evaluate_filter : FieldFilter → Value → Bool
unfolding array_has_any is_lt is_le
evaluate_filter f value = arm f.operator f.value
  where
    arm : FilterOperator → Value → Bool
    arm equal operand = eq_value value operand
    arm not_equal operand = not (eq_value value operand)
    arm less_than operand = is_lt (compare_values value operand)
    arm less_than_or_equal operand = is_le (compare_values value operand)
    arm greater_than operand = is_lt (reverse (compare_values value operand))
    arm greater_than_or_equal operand = is_le (reverse (compare_values value operand))
    arm array_contains operand = elim value [ array xs ↦ array_has xs operand | _ ↦ false ]
    arm array_contains_any (array needles) = elim value [
      | array xs ↦ array_has_any xs needles
      | _ ↦ false
    ]
    arm in_list (array values) = any_value (λ needle. eq_value needle value) values
    arm not_in (array values) =
        not (is_null value) && not (any_value (λ needle. eq_value needle value) values)
    arm _ operand = false

-- The arm of a field condition. A missing field counts as null for `!=` and fails any other test.
unfoldable pub satisfies_field : DocumentSnapshot → FieldFilter → Bool
unfolding get_field_value evaluate_filter
satisfies_field s f = elim (get_field_value s f.field) [
  | some value ↦ evaluate_filter f value
  | none ↦ (elim f.operator [ not_equal ↦ evaluate_filter f null | _ ↦ false ])
]

unfoldable mutual
  unfolding satisfies_field

  pub document_satisfies : DocumentSnapshot → Filter → Bool
  document_satisfies s (leaf f) = satisfies_field s f
  document_satisfies s (composite and fs) = satisfies_all s fs
  document_satisfies s (composite or fs) = satisfies_any s fs

  pub satisfies_all : DocumentSnapshot → Filters → Bool
  satisfies_all s Filters.nil = true
  satisfies_all s (Filters.cons f fs) = document_satisfies s f && satisfies_all s fs

  pub satisfies_any : DocumentSnapshot → Filters → Bool
  satisfies_any s Filters.nil = false
  satisfies_any s (Filters.cons f fs) = document_satisfies s f || satisfies_any s fs

abbrev pub directed : OrderDirection → Ordering → Ordering
directed ascending o = o
directed descending o = reverse o

abbrev pub or_null : Option Value → Value
or_null none = null
or_null (some v) = v

-- the loops return the first order that tells the two sides apart
unfoldable pub compare_snapshots : List OrderBy → DocumentSnapshot → DocumentSnapshot → Ordering
compare_snapshots [] left right = eq
compare_snapshots (o ∷ os) left right =
    then_with
      (directed o.direction (
        compare_values (or_null (get_field_value left o.field))
          (or_null (get_field_value right o.field))))
      (compare_snapshots os left right)

unfoldable pub compare_to_values : List OrderBy → List Value → DocumentSnapshot → Ordering
compare_to_values [] values s = eq
compare_to_values (o ∷ os) [] s = eq
compare_to_values (o ∷ os) (v ∷ vs) s =
    then_with (directed o.direction (compare_values (or_null (get_field_value s o.field)) v))
      (compare_to_values os vs s)

abbrev pub compare_snapshot_to_bound : List OrderBy → Bound → DocumentSnapshot → Ordering
compare_snapshot_to_bound orders bound s = compare_to_values orders bound.values s

unfoldable pub is_before_start_bound : List OrderBy → Bound → DocumentSnapshot → Bool
is_before_start_bound orders bound s =
    let o = compare_snapshot_to_bound orders bound s in
    if bound.inclusive
    then (elim o [ lt ↦ true | _ ↦ false ])
    else (elim o [ gt ↦ false | _ ↦ true ])

unfoldable pub is_after_end_bound : List OrderBy → Bound → DocumentSnapshot → Bool
is_after_end_bound orders bound s =
    let o = compare_snapshot_to_bound orders bound s in
    if bound.inclusive
    then (elim o [ gt ↦ true | _ ↦ false ])
    else (elim o [ lt ↦ false | _ ↦ true ])

-- the two `retain`s as one test each; no bound keeps everything
unfoldable pub in_start : QueryDefinition → DocumentSnapshot → Bool
unfolding is_before_start_bound
in_start d s = elim d.result_start_at [
  | none ↦ true
  | some bound ↦ not (is_before_start_bound d.result_order_by bound s)
]

unfoldable pub in_end : QueryDefinition → DocumentSnapshot → Bool
unfolding is_after_end_bound
in_end d s = elim d.result_end_at [
  | none ↦ true
  | some bound ↦ not (is_after_end_bound d.result_order_by bound s)
]

unfoldable pub cut_first : ℕ → List DocumentSnapshot → List DocumentSnapshot
cut_first n docs = if ltb n (length docs) then take n docs else docs

unfoldable pub cut_last : ℕ → List DocumentSnapshot → List DocumentSnapshot
cut_last n docs = if ltb n (length docs) then drop (length docs - n) docs else docs

unfoldable pub limited : Option ℕ → LimitType → List DocumentSnapshot → List DocumentSnapshot
unfolding cut_first cut_last
limited none _ docs = docs
limited (some n) first docs = cut_first n docs
limited (some n) last docs = cut_last n docs

abbrev pub apply_limit : QueryDefinition → List DocumentSnapshot → List DocumentSnapshot
apply_limit d docs = limited d.limit d.limit_type docs

unfoldable pub matching : QueryDefinition → List DocumentSnapshot → List DocumentSnapshot
unfolding document_satisfies
matching d documents = keep (λ s. all (document_satisfies s) d.filters) (keep exists documents)

unfoldable pub apply_query_to_documents :
    QueryDefinition → List DocumentSnapshot → List DocumentSnapshot
unfolding limited in_start in_end matching compare_snapshots
apply_query_to_documents d documents = apply_limit d (
    keep (in_end d)
      (keep (in_start d) (sort_by (compare_snapshots d.result_order_by) (matching d documents))))
