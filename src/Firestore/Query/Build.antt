-- ===== src/Firestore/Query/Build.antt =====
-- The builder methods of `Query` in api/query.rs.
pub mod Invariant
use firebase_rs_sdk.Common.{
  ℕ, ◌%◌, Bool, true, false, not, ◌&&◌, ◌||◌, Option, none, some, List, [], ◌∷◌, ◌++◌,
  if◌then◌else◌, any, is_some, length,
}
use firebase_rs_sdk.Common.Ord.{◌==◌, nat_ord, list_ord}
use firebase_rs_sdk.Common.Text.{Text, codes}
use firebase_rs_sdk.Firestore.Error.{
  FirestoreResult, ok, err, invalid_argument, ◌>>=◌, ◌>>◌, fail_if,
}
use firebase_rs_sdk.Firestore.Model.FieldPath.{FieldPath, eqb}
use firebase_rs_sdk.Firestore.Model.ResourcePath.{ResourcePath, root, len}
use firebase_rs_sdk.Firestore.Value.{Value}
use firebase_rs_sdk.Firestore.Query.{
  FieldFilter, Filter, leaf, composite, Filters, nil, cons, leaves, OrderDirection, OrderBy,
  LimitType, first, last, Bound, DatabaseId, Query,
}
use firebase_rs_sdk.Firestore.Query.Validate.{validate_leaf, validate_filter}

abbrev pub is_nil {ℓ} : {A : Type ℓ} → List A → Bool
is_nil [] = true
is_nil (_ ∷ _) = false

abbrev blank : DatabaseId → ResourcePath → Option Text → Query
blank database_id path group = record {
  database_id = database_id;
  collection_path = path;
  collection_group = group;
  filters = [];
  explicit_order_by = [];
  limit = none;
  limit_type = first;
  start_at = none;
  end_at = none;
  projection = none;
}

unfoldable pub new : DatabaseId → ResourcePath → FirestoreResult Query
new database_id path = do
  fail_if (len path % 2 == 0) invalid_argument
  ok (blank database_id path none)

unfoldable pub new_collection_group : DatabaseId → Text → FirestoreResult Query
new_collection_group database_id collection_id = do
  fail_if (is_nil collection_id) invalid_argument
  fail_if (any (λ c. c == b'/') collection_id) invalid_argument
  ok (blank database_id root (some collection_id))

unfoldable pub where_field : FieldFilter → Query → FirestoreResult Query
where_field f q = do validate_filter q f; ok (record q { filters = q.filters ++ leaf f ∷ [] })

abbrev is_empty_composite : Filter → Bool
is_empty_composite (composite op nil) = true
is_empty_composite _ = false

unfoldable pub validate_leaves : List FieldFilter → FirestoreResult (Unit {0})
validate_leaves [] = ok tt
validate_leaves (f ∷ fs) = validate_leaf f >>= λ _. validate_leaves fs

unfoldable pub where_filter : Filter → Query → FirestoreResult Query
unfolding validate_leaves
where_filter filter q = do
  fail_if (is_empty_composite filter) invalid_argument
  validate_leaves (leaves filter)
  ok (record q { filters = q.filters ++ filter ∷ [] })

unfoldable pub order_by : FieldPath → OrderDirection → Query → FirestoreResult Query
order_by path direction q = do
  fail_if (is_some q.start_at || is_some q.end_at) invalid_argument
  ok (record q {
    explicit_order_by =
        q.explicit_order_by ++ (record { field = path; direction = direction }) ∷ [];
  })

unfoldable pub limit : ℕ → Query → FirestoreResult Query
limit value q = do
  fail_if (value == 0) invalid_argument
  ok (record q { limit = some value; limit_type = first })

unfoldable pub limit_to_last : ℕ → Query → FirestoreResult Query
limit_to_last value q = do
  fail_if (value == 0) invalid_argument
  fail_if (is_nil q.explicit_order_by) invalid_argument
  ok (record q { limit = some value; limit_type = last })

unfoldable pub apply_start_bound : List Value → Bool → Query → FirestoreResult Query
apply_start_bound values inclusive q = do
  fail_if (is_nil values) invalid_argument
  ok (record q { start_at = some (record { values = values; inclusive = inclusive }) })

unfoldable pub apply_end_bound : List Value → Bool → Query → FirestoreResult Query
apply_end_bound values inclusive q = do
  fail_if (is_nil values) invalid_argument
  ok (record q { end_at = some (record { values = values; inclusive = inclusive }) })

-- start_at, start_after, end_at, end_before
abbrev pub start_at : List Value → Query → FirestoreResult Query
start_at values q = apply_start_bound values true q

abbrev pub start_after : List Value → Query → FirestoreResult Query
start_after values q = apply_start_bound values false q

abbrev pub end_at : List Value → Query → FirestoreResult Query
end_at values q = apply_end_bound values true q

abbrev pub end_before : List Value → Query → FirestoreResult Query
end_before values q = apply_end_bound values false q

-- The loop of `select`: keeps the first of equal paths, `unique` being those kept.
unique_fields : List FieldPath → List FieldPath → List FieldPath
unique_fields unique [] = unique
unique_fields unique (p ∷ ps) =
    unique_fields (if any (λ q. eqb q p) unique then unique else unique ++ p ∷ []) ps

unfoldable pub select : List FieldPath → Query → FirestoreResult Query
unfolding unique_fields
select fields q = do
  fail_if (is_some q.projection) invalid_argument
  fail_if (is_nil (unique_fields [] fields)) invalid_argument
  ok (record q { projection = some (unique_fields [] fields) })
