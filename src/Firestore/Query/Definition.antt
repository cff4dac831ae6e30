-- ===== src/Firestore/Query/Definition.antt =====
-- `normalized_order_by`, `definition`, `matches_collection` and the snapshot cursors of api/query.rs.
pub mod Orders
use firebase_rs_sdk.Common.{
  ℕ, Ordering, Bool, true, false, not, ◌&&◌, ◌||◌, Option, none, some, List, [], ◌∷◌, ◌++◌,
  if◌then◌else◌, any, is_some, last as last_of, keep,
}
use firebase_rs_sdk.Common.Ord.{◌==◌, nat_ord, list_ord, cmp_list}
use firebase_rs_sdk.Common.Sort.{sort_by}
use firebase_rs_sdk.Common.Text.{Text, codes}
use firebase_rs_sdk.Firestore.Error.{
  FirestoreResult, ok, err, invalid_argument, ◌>>=◌, ◌>>◌, fail_if,
}
use firebase_rs_sdk.Firestore.Model.FieldPath.{FieldPath, eqb, document_id, canonical_string}
use firebase_rs_sdk.Firestore.Model.ResourcePath
use firebase_rs_sdk.Firestore.Model.ResourcePath.{ResourcePath, without_last, last_segment}
use firebase_rs_sdk.Firestore.Model.DocumentKey.{DocumentKey, collection_path}
use firebase_rs_sdk.Firestore.Snapshot.{DocumentSnapshot}
use firebase_rs_sdk.Firestore.Snapshot
use firebase_rs_sdk.Firestore.Value.{Value, reference, Fields}
use firebase_rs_sdk.Firestore.Value.MapValue.{get_path}
use firebase_rs_sdk.Firestore.Query.{
  FieldFilter, Filter, leaves, OrderDirection, ascending, OrderBy, flip_order, is_document_id,
  LimitType, first, last, Bound, DatabaseId, Query,
}
use firebase_rs_sdk.Firestore.Query.Build.{apply_start_bound, apply_end_bound}
use firebase_rs_sdk.Firestore.Query.Validate.{is_inequality}

abbrev pub map_list {ℓ κ} : {A : Type ℓ} {B : Type κ} → (A → B) → List A → List B
map_list f [] = []
map_list f (x ∷ xs) = f x ∷ map_list f xs

-- the fields of the inequalities among all leaves
unfoldable pub inequality_fields : List Filter → List FieldPath
inequality_fields [] = []
inequality_fields (f ∷ fs) =
    map_list (λ l. l.field) (keep (λ l. is_inequality l.operator) (leaves f))
    ++ inequality_fields fs

-- Vec::dedup: drops an element that is equal to the one before it
unfoldable pub dedup : List FieldPath → List FieldPath
dedup [] = []
dedup (p ∷ []) = p ∷ []
dedup (p ∷ q ∷ ps) =
    let rest = dedup (q ∷ ps) in
    let shorter = dedup (p ∷ ps) in if eqb q p then shorter else p ∷ rest

-- the loop over the inequality fields; `present` are the canonical strings of what is ordered
unfoldable pub add_orders :
    OrderDirection → List Text → List OrderBy → List FieldPath → List OrderBy
add_orders direction present order [] = order
add_orders direction present order (p ∷ ps) =
    let s = canonical_string p in
    let skip = add_orders direction present order ps in
    let push =
      add_orders direction (present ++ s ∷ [])
        (order ++ (record { field = p; direction = direction }) ∷ []) ps in
    if not (eqb p document_id) && not (any (λ t. t == s) present) then push else skip

abbrev last_direction : List OrderBy → OrderDirection
last_direction orders = elim (last_of orders) [ none ↦ ascending | some o ↦ o.direction ]

-- the last step: `__name__` unless it is ordered already
unfoldable pub add_name : OrderDirection → List OrderBy → List OrderBy
add_name direction order =
    if any is_document_id order
    then order
    else order ++ (record { field = document_id; direction = direction }) ∷ []

unfoldable pub normalized_order_by : Query → List OrderBy
unfolding add_name add_orders dedup inequality_fields
normalized_order_by q =
    let direction = last_direction q.explicit_order_by in
    let fields = dedup (
      sort_by (λ a b. cmp_list (canonical_string a) (canonical_string b))
        (inequality_fields q.filters)) in
    add_name direction (
      add_orders direction (map_list (λ o. canonical_string o.field) q.explicit_order_by)
        q.explicit_order_by fields)

pub record QueryDefinition : Type 0 where
  pub collection_path : ResourcePath
  pub parent_path : ResourcePath
  pub collection_id : Text
  pub collection_group : Option Text
  pub filters : List Filter
  pub request_order_by : List OrderBy
  pub result_order_by : List OrderBy
  pub limit : Option ℕ
  pub limit_type : LimitType
  pub request_start_at : Option Bound
  pub request_end_at : Option Bound
  pub result_start_at : Option Bound
  pub result_end_at : Option Bound
  pub projection : Option (List FieldPath)

-- `expect`: a panic if neither a group nor a segment is there, which no query allows; "" here
unfoldable pub collection_id : Query → Text
collection_id q = elim q.collection_group [
  | some group ↦ group
  | none ↦ (elim (last_segment q.collection_path) [ none ↦ [] | some s ↦ s ])
]

abbrev is_last : LimitType → Bool
is_last last = true
is_last first = false

unfoldable pub definition : Query → QueryDefinition
unfolding collection_id without_last
definition q =
    let normalized_order = normalized_order_by q in
    let reversed = is_last q.limit_type in
    record {
      collection_path = q.collection_path;
      parent_path =
          if is_some q.collection_group then q.collection_path else without_last q.collection_path;
      collection_id = collection_id q;
      collection_group = q.collection_group;
      filters = q.filters;
      request_order_by =
          if reversed then map_list flip_order normalized_order else normalized_order;
      result_order_by = normalized_order;
      limit = q.limit;
      limit_type = q.limit_type;
      request_start_at = if reversed then q.end_at else q.start_at;
      request_end_at = if reversed then q.start_at else q.end_at;
      result_start_at = q.start_at;
      result_end_at = q.end_at;
      projection = q.projection;
    }

unfoldable pub matches_collection : QueryDefinition → DocumentKey → Bool
unfolding collection_path
matches_collection d key = elim d.collection_group [
  | some group ↦ (elim (last_segment (collection_path key)) [
    | none ↦ false
    | some segment ↦ segment == group
  ])
  | none ↦ (collection_path key).segments == d.collection_path.segments
]

-- projects/{project_id}/databases/{database}/documents/{path}
unfoldable pub document_name : DatabaseId → DocumentKey → Text
document_name db key =
    codes "projects/"
    ++ (db.project_id
        ++ (codes "/databases/"
            ++ (db.database ++ (codes "/documents/" ++ ResourcePath.canonical_string key.path))))

-- the value of one order in a cursor; `snapshot.get` reads the document's fields
unfoldable pub cursor_value : DatabaseId → DocumentSnapshot → OrderBy → FirestoreResult Value
unfolding document_name
cursor_value db s order =
    if is_document_id order then ok (reference (document_name db s.key)) else (elim s.fields [
      | none ↦ err invalid_argument
      | some fields ↦ (elim (get_path order.field fields) [
        | none ↦ err invalid_argument
        | some v ↦ ok v
      ])
    ])

unfoldable pub cursor_values :
    DatabaseId → DocumentSnapshot → List OrderBy → FirestoreResult (List Value)
unfolding cursor_value
cursor_values db s [] = ok []
cursor_values db s (o ∷ os) =
    cursor_value db s o >>= λ v. cursor_values db s os >>= λ vs. ok (v ∷ vs)

unfoldable pub cursor_values_from_snapshot : Query → DocumentSnapshot → FirestoreResult (List Value)
unfolding cursor_values
cursor_values_from_snapshot q s = do
  fail_if (not (Snapshot.exists s)) invalid_argument
  cursor_values q.database_id s (normalized_order_by q)

unfoldable pub start_at_snapshot : DocumentSnapshot → Query → FirestoreResult Query
unfolding cursor_values_from_snapshot apply_start_bound
start_at_snapshot s q =
    cursor_values_from_snapshot q s >>= λ values. apply_start_bound values true q

unfoldable pub start_after_snapshot : DocumentSnapshot → Query → FirestoreResult Query
unfolding cursor_values_from_snapshot apply_start_bound
start_after_snapshot s q =
    cursor_values_from_snapshot q s >>= λ values. apply_start_bound values false q

unfoldable pub end_at_snapshot : DocumentSnapshot → Query → FirestoreResult Query
unfolding cursor_values_from_snapshot apply_end_bound
end_at_snapshot s q = cursor_values_from_snapshot q s >>= λ values. apply_end_bound values true q

unfoldable pub end_before_snapshot : DocumentSnapshot → Query → FirestoreResult Query
unfolding cursor_values_from_snapshot apply_end_bound
end_before_snapshot s q =
    cursor_values_from_snapshot q s >>= λ values. apply_end_bound values false q
