-- ===== src/Firestore/Tests/Queries.antt =====
-- Queries built, defined and evaluated at concrete inputs.
use mathlib.Core.List.{Perm}
use firebase_rs_sdk.Common.{
  ◌≡◌, ◌≢◌, refl, sym, ◌∙◌, arith, Ordering, true, false, none, some, List, [], ◌∷◌, All, keep, gt,
  eq,
}
use firebase_rs_sdk.Common.Keep.{Pairwise}
use firebase_rs_sdk.Common.Ord.{
  nat_ord, list_ord, then_with, cmp_list, cmp_list_refl, eq_of_cmp_list, cmp_list_trans,
}
use firebase_rs_sdk.Common.Sort.{sort_by}
use firebase_rs_sdk.Firestore.Value.Order.{compare_values}
use firebase_rs_sdk.Common.Int.{pos}
use firebase_rs_sdk.Common.Text.{Text, codes, join}
use firebase_rs_sdk.Firestore.Error.{ok}
use firebase_rs_sdk.Firestore.Model.FieldPath.{FieldPath, document_id, canonical_string, replace}
use firebase_rs_sdk.Firestore.Model.ResourcePath
use firebase_rs_sdk.Firestore.Model.ResourcePath.{ResourcePath}
use firebase_rs_sdk.Firestore.Snapshot.{DocumentSnapshot, new}
use firebase_rs_sdk.Firestore.Value.{reference, integer, Fields, end, field}
use firebase_rs_sdk.Firestore.Query.{
  Query, FilterOperator, FieldFilter, leaf, OrderBy, leaves, OrderDirection, LimitType, DatabaseId,
}
use firebase_rs_sdk.Firestore.Query.Build.{order_by, limit_to_last, limit, where_field}
use firebase_rs_sdk.Firestore.Query.Build
use firebase_rs_sdk.Firestore.Query.Build.Invariant.{
  Built, built_new, built_order, built_limit_to_last, IsValid, Built-IsValid,
}
use firebase_rs_sdk.Firestore.Query.Definition.{
  start_at_snapshot, definition, normalized_order_by, inequality_fields,
}
use firebase_rs_sdk.Firestore.Query.Definition.Orders.{
  Extends, ordered_by, normalized_order_by-Extends, normalized_order_by-ordered_by,
}
use firebase_rs_sdk.Firestore.QueryEvaluator.Cursors.{start_at_snapshot-in_start}
use firebase_rs_sdk.Firestore.QueryEvaluator.{
  in_start, get_field_value, apply_query_to_documents, compare_snapshots,
}
use firebase_rs_sdk.Firestore.QueryEvaluator.Results.{
  is_result, IsChosen, apply_query_to_documents-All, apply_query_to_documents-Perm,
  apply_query_to_documents-Pairwise,
}
use firebase_rs_sdk.Firestore.QueryEvaluator.Determined.{definition-compare_snapshots}

abbrev database : DatabaseId
database = record { project_id = codes "demo"; database = codes "(default)" }

abbrev cities : ResourcePath
cities = record { segments = codes "cities" ∷ [] }

abbrev population : FieldPath
population = record { segments = codes "population" ∷ [] }

-- population > 1, ordered by name
abbrev filter : FieldFilter
filter = record {
  field = population;
  operator = FilterOperator.greater_than;
  value = integer (pos 1);
}

abbrev query : Query
query = record {
  database_id = database;
  collection_path = cities;
  collection_group = none;
  filters = leaf filter ∷ [];
  explicit_order_by = [];
  limit = none;
  limit_type = LimitType.first;
  start_at = none;
  end_at = none;
  projection = none;
}

abbrev by_name : OrderBy
by_name = record { field = document_id; direction = OrderDirection.ascending }

abbrev last_two : Query
last_two = record query {
  filters = [];
  explicit_order_by = by_name ∷ [];
  limit = some 2;
  limit_type = LimitType.last;
}

abbrev city : Text → Fields → DocumentSnapshot
city id fields =
    new (record { path = record { segments = codes "cities" ∷ id ∷ [] } }) (some fields)
      (record { from_cache = true; has_pending_writes = false })

abbrev people : Fields
people = field (codes "population") (integer (pos 5)) end

abbrev cities_list : List DocumentSnapshot
cities_list = city (codes "sf") people ∷ city (codes "la") people ∷ city (codes "ny") end ∷ []

abbrev all_cities : Query
all_cities = record query { filters = [] }

abbrev named_cities : Query
named_cities = record all_cities { explicit_order_by = by_name ∷ [] }

starts : Build.new database cities ≡ ok all_cities
unfolding Build.new
starts = refl

orders : order_by document_id OrderDirection.ascending all_cities ≡ ok named_cities
unfolding order_by
orders = refl

limits : limit_to_last 2 named_cities ≡ ok last_two
unfolding limit_to_last
limits = refl

last_two-Built : Built last_two
last_two-Built =
    built_limit_to_last 2
      (built_order document_id OrderDirection.ascending (built_new database cities starts) orders)
      limits

Built-IsValid_example : IsValid last_two
Built-IsValid_example = Built-IsValid last_two-Built

normalized_order_by-Extends_example :
    Extends last_two.explicit_order_by (normalized_order_by last_two)
normalized_order_by-Extends_example = normalized_order_by-Extends last_two

normalized_order_by-ordered_by_example :
    ordered_by (canonical_string population) (normalized_order_by query) ≡ true
unfolding inequality_fields leaves cmp_list canonical_string join replace
normalized_order_by-ordered_by_example =
    normalized_order_by-ordered_by query (canonical_string population) refl

abbrev name : DocumentSnapshot → Text
name s = ResourcePath.canonical_string s.key.path

then_with_right : (o : Ordering) → then_with o eq ≡ o
then_with_right o = ground arith

-- ordered by name, documents compare as their paths' strings do
name_order :
    (a b : DocumentSnapshot)
    → compare_snapshots (definition last_two).result_order_by a b ≡ cmp_list (name a) (name b)
unfolding definition normalized_order_by inequality_fields sort_by compare_snapshots get_field_value
    compare_values cmp_list
name_order a b = then_with_right (cmp_list (name a) (name b))

reorder :
    (a b : DocumentSnapshot)
    → cmp_list (name a) (name b) ≡ eq
    → compare_snapshots (definition last_two).result_order_by a b ≡ eq
reorder a b e = name_order a b ∙ e

le_trans : (a b c : Text) → cmp_list a b ≢ gt → cmp_list b c ≢ gt → cmp_list a c ≢ gt
le_trans a b c h k =
    ground (arith, h, k, cmp_list_trans a b c, eq_of_cmp_list a b, eq_of_cmp_list b c)

definition-compare_snapshots_example :
    ResourcePath.canonical_string (city (codes "sf") people).key.path
    ≡ ResourcePath.canonical_string (city (codes "sf") end).key.path
definition-compare_snapshots_example =
    definition-compare_snapshots last_two (city (codes "sf") people) (city (codes "sf") end) (
      reorder (city (codes "sf") people) (city (codes "sf") end)
        (cmp_list_refl (name (city (codes "sf") people))))

apply_query_to_documents-All_example :
    All
      (λ s. is_result (definition last_two) s ≡ true)
      (apply_query_to_documents (definition last_two) cities_list)
    × IsChosen
        (definition last_two)
        cities_list
        (apply_query_to_documents (definition last_two) cities_list)
apply_query_to_documents-All_example =
    apply_query_to_documents-All (definition last_two) cities_list

apply_query_to_documents-Perm_example :
    Perm
      (apply_query_to_documents (definition query) cities_list)
      (keep (is_result (definition query)) cities_list)
unfolding definition
apply_query_to_documents-Perm_example =
    apply_query_to_documents-Perm (definition query) cities_list refl

apply_query_to_documents-Pairwise_example :
    Pairwise
      (compare_snapshots (definition last_two).result_order_by)
      (apply_query_to_documents (definition last_two) cities_list)
apply_query_to_documents-Pairwise_example =
    apply_query_to_documents-Pairwise (λ s. Unit {0}) (definition last_two) cities_list
      (tt, (tt, (tt, tt)))
      (λ a b c _ _ _ h k e.
        le_trans (name a) (name b) (name c) (λ f. h (name_order a b ∙ f))
          (λ f. k (name_order b c ∙ f)) (sym (name_order a c) ∙ e))

abbrev at_sf : Query
at_sf = record all_cities {
  start_at = some (record {
    values = reference (codes "projects/demo/databases/(default)/documents/cities/sf") ∷ [];
    inclusive = true;
  });
}

starts_at_sf : start_at_snapshot (city (codes "sf") people) all_cities ≡ ok at_sf
unfolding start_at_snapshot normalized_order_by inequality_fields sort_by cmp_list join
    ResourcePath.canonical_string
starts_at_sf = refl

named : normalized_order_by all_cities ≡ by_name ∷ []
unfolding normalized_order_by inequality_fields sort_by
named = refl

start_at_snapshot-in_start_example : in_start (definition at_sf) (city (codes "sf") people) ≡ false
start_at_snapshot-in_start_example =
    start_at_snapshot-in_start all_cities at_sf (city (codes "sf") people)
      (city (codes "sf") people) named starts_at_sf
