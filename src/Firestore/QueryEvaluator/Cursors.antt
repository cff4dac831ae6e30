-- ===== src/Firestore/QueryEvaluator/Cursors.antt =====
-- The cursors that api/query.rs takes from a snapshot, under the evaluator of query_evaluator.rs.
use firebase_rs_sdk.Common.{ℕ, lt, true, not, false, List, [], ◌∷◌, some, ◌≡◌, refl, sym}
use mathlib.Core.Path.{subst}
use firebase_rs_sdk.Common.Ord.{cmp_list}
use firebase_rs_sdk.Firestore.Error.{ok, invalid_argument, fail_if, >>=-eq-ok, ok_inj}
use firebase_rs_sdk.Firestore.Model.FieldPath.{document_id}
use firebase_rs_sdk.Firestore.Snapshot
use firebase_rs_sdk.Firestore.Snapshot.{DocumentSnapshot}
use firebase_rs_sdk.Firestore.Value.{Value, reference}
use firebase_rs_sdk.Firestore.Value.Order.{compare_values}
use firebase_rs_sdk.Firestore.Query.{OrderBy, OrderDirection, Query}
use firebase_rs_sdk.Firestore.Query.Definition.{
  definition, start_at_snapshot, normalized_order_by, cursor_value, cursor_values,
  cursor_values_from_snapshot, document_name,
}
use firebase_rs_sdk.Firestore.QueryEvaluator.{
  get_field_value, compare_to_values, is_before_start_bound, in_start,
}
use firebase_rs_sdk.Firestore.Query.Build.{is_nil, apply_start_bound}

abbrev by_name : OrderBy
by_name = record { field = document_id; direction = OrderDirection.ascending }

name_cursor :
    (q : Query) (s : DocumentSnapshot) (vs : List Value)
    → cursor_values q.database_id s (by_name ∷ []) ≡ ok vs
    → vs ≡ reference (document_name q.database_id s.key) ∷ []
unfolding cursor_values cursor_value cmp_list
name_cursor q s vs h = sym (ok_inj h)

string_before_reference :
    (t : DocumentSnapshot) (name : List ℕ)
    → compare_to_values (by_name ∷ []) (reference name ∷ []) t ≡ lt
unfolding compare_to_values get_field_value compare_values cmp_list
string_before_reference t name = refl

before_name :
    (q : Query) (s t : DocumentSnapshot) (vs : List Value)
    → normalized_order_by q ≡ by_name ∷ []
    → cursor_values_from_snapshot q s ≡ ok vs
    → is_before_start_bound (normalized_order_by q) (record { values = vs; inclusive = true }) t
      ≡ true
unfolding cursor_values_from_snapshot is_before_start_bound
before_name q s t vs o h =
    let (_, _, h') = >>=-eq-ok (fail_if (not (Snapshot.exists s)) invalid_argument) _ h in
    let e = name_cursor q s vs (subst (λ os. cursor_values q.database_id s os ≡ ok vs) o h') in
    rw (o, e, string_before_reference t (document_name q.database_id s.key)) refl

bound_at :
    (q r : Query) (vs : List Value) (t : DocumentSnapshot)
    → apply_start_bound vs true q ≡ ok r
    → is_before_start_bound (normalized_order_by q) (record { values = vs; inclusive = true }) t
      ≡ true
    → in_start (definition r) t ≡ false
unfolding apply_start_bound definition in_start normalized_order_by
bound_at q r vs t h b =
    let (_, _, h') = >>=-eq-ok (fail_if (is_nil vs) invalid_argument) _ h in
    subst (λ r. in_start (definition r) t ≡ false)
      {x = record q { start_at = some (record { values = vs; inclusive = true }) }} (ok_inj h')
      (rw b refl)

-- A query ordered by name alone, ascending, that starts at a snapshot accepts no document at all, the
-- snapshot's own among them, although the bound is inclusive: the cursor is a reference, and the
-- evaluator compares it with a document's name as a string.
pub start_at_snapshot-in_start :
    (q r : Query) (s t : DocumentSnapshot)
    → normalized_order_by q
      ≡ record { field = document_id; direction = OrderDirection.ascending } ∷ []
    → start_at_snapshot s q ≡ ok r
    → in_start (definition r) t ≡ false
unfolding start_at_snapshot
start_at_snapshot-in_start q r s t o h =
    let (vs, e, h') = >>=-eq-ok (cursor_values_from_snapshot q s) _ h in
    bound_at q r vs t h' (before_name q s t vs o e)
