-- ===== src/Firestore/QueryEvaluator/Determined.antt =====
-- That the result order of a query's definition tells any two documents apart.
use firebase_rs_sdk.Common.{
  Ordering, eq, true, List, [], ◌∷◌, ◌≡◌, arith, any, Bool-cases, inl, inr,
}
use firebase_rs_sdk.Common.Ord.{then_with, eq_of_cmp_list, nat_ord}
use firebase_rs_sdk.Common.Text.{Text}
use firebase_rs_sdk.Firestore.Model.ResourcePath.{canonical_string}
use firebase_rs_sdk.Firestore.Snapshot.{DocumentSnapshot}
use firebase_rs_sdk.Firestore.Value.Order.{compare_values}
use firebase_rs_sdk.Firestore.Query.{OrderBy, OrderDirection, is_document_id, Query}
use firebase_rs_sdk.Firestore.Query.Definition.{definition, normalized_order_by}
use firebase_rs_sdk.Firestore.Query.Definition.Orders.{normalized_order_by-any}
use firebase_rs_sdk.Firestore.QueryEvaluator.{compare_snapshots, directed, or_null, get_field_value}

abbrev name : DocumentSnapshot → Text
name s = canonical_string s.key.path

then_with-eq : (a b : Ordering) → then_with a b ≡ eq → (a ≡ eq) × (b ≡ eq)
then_with-eq a b h = ground arith

directed-eq : (o : OrderDirection) (c : Ordering) → directed o c ≡ eq → c ≡ eq
directed-eq o c h = ground arith

-- the order by name compares the paths' strings
compare-name :
    (o : OrderBy) (a b : DocumentSnapshot)
    → is_document_id o ≡ true
    → compare_values (or_null (get_field_value a o.field)) (or_null (get_field_value b o.field))
      ≡ eq
    → name a ≡ name b
unfolding get_field_value compare_values
compare-name o a b h e = eq_of_cmp_list (name a) (name b) (ground (arith, e, h))

tie-name :
    (orders : List OrderBy) (a b : DocumentSnapshot)
    → any is_document_id orders ≡ true
    → compare_snapshots orders a b ≡ eq
    → name a ≡ name b
unfolding compare_snapshots
tie-name [] a b h e = ground arith
tie-name (o ∷ os) a b h e = elim (Bool-cases (is_document_id o)) [
  | inl n ↦ compare-name o a b n (directed-eq o.direction _ (then_with-eq _ _ e).0)
  | inr n ↦ tie-name os a b (ground (arith, h, n)) (then_with-eq _ _ e).1
]

-- Two documents that the result order of a query's definition does not tell apart have the same
-- path string: the order leaves no choice among documents with different names.
pub definition-compare_snapshots :
    (q : Query) (a b : DocumentSnapshot)
    → compare_snapshots (definition q).result_order_by a b ≡ eq
    → canonical_string a.key.path ≡ canonical_string b.key.path
unfolding definition
definition-compare_snapshots q a b e =
    tie-name (normalized_order_by q) a b (normalized_order_by-any q) e
