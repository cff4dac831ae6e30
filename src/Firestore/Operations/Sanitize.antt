-- ===== src/Firestore/Operations/Sanitize.antt =====
-- `sanitize_for_write` of operations.rs: user data split into plain fields, transforms, the paths of
-- the transforms, and the paths marked by `delete_field()`.
pub mod Laws
use firebase_rs_sdk.Common.{ℕ, Bool, true, false, List, [], ◌∷◌, ◌++◌, if◌then◌else◌}
use firebase_rs_sdk.Common.Text.{Text}
use firebase_rs_sdk.Firestore.Error.{FirestoreResult, ok, err, invalid_argument, ◌>>=◌, ◌>>◌}
use firebase_rs_sdk.Firestore.Model.FieldPath
use firebase_rs_sdk.Firestore.Model.FieldPath.{FieldPath}
use firebase_rs_sdk.Firestore.Value
use firebase_rs_sdk.Firestore.Value.{
  Value, integer, double, array, map, sentinel, Values, nil, cons, Fields, end, field, Sentinel,
  delete_field,
}
use firebase_rs_sdk.Firestore.Value.MapValue.{insert, is_empty}
use firebase_rs_sdk.Firestore.Operations.{
  FieldTransform, TransformOperation, server_timestamp, array_union, array_remove,
  numeric_increment,
}

-- The three vectors that `sanitize_map` pushes to.
pub record Found : Type 0 where
  pub transforms : List FieldTransform
  pub sentinel_paths : List FieldPath
  pub deleted_paths : List FieldPath

abbrev pub nothing_found : Found
nothing_found = record { transforms = []; sentinel_paths = []; deleted_paths = [] }

abbrev pub push_deleted : FieldPath → Found → Found
push_deleted p found = record found { deleted_paths = found.deleted_paths ++ p ∷ [] }

abbrev pub push_transform : FieldPath → FieldTransform → Found → Found
push_transform p t found = record found {
  transforms = found.transforms ++ t ∷ [];
  sentinel_paths = found.sentinel_paths ++ p ∷ [];
}

-- The loops stop at the first error.
unfoldable mutual
  pub assert_no_sentinel_in_value : Value → FirestoreResult (Unit {0})
  assert_no_sentinel_in_value (sentinel s) = err invalid_argument
  assert_no_sentinel_in_value (array xs) = assert_no_sentinel_in_values xs
  assert_no_sentinel_in_value (map m) = assert_no_sentinel_in_fields m
  assert_no_sentinel_in_value _ = ok tt

  pub assert_no_sentinel_in_values : Values → FirestoreResult (Unit {0})
  assert_no_sentinel_in_values nil = ok tt
  assert_no_sentinel_in_values (cons x xs) =
      assert_no_sentinel_in_value x >>= λ _. assert_no_sentinel_in_values xs

  pub assert_no_sentinel_in_fields : Fields → FirestoreResult (Unit {0})
  assert_no_sentinel_in_fields end = ok tt
  assert_no_sentinel_in_fields (field k v m) =
      assert_no_sentinel_in_value v >>= λ _. assert_no_sentinel_in_fields m

abbrev is_number : Value → Bool
is_number (integer _) = true
is_number (double _) = true
is_number _ = false

unfoldable pub validate_sentinel_usage : Sentinel → FirestoreResult (Unit {0})
unfolding assert_no_sentinel_in_value
validate_sentinel_usage Sentinel.server_timestamp = ok tt
validate_sentinel_usage (Sentinel.array_union xs) = assert_no_sentinel_in_values xs
validate_sentinel_usage (Sentinel.array_remove xs) = assert_no_sentinel_in_values xs
validate_sentinel_usage (Sentinel.numeric_increment operand) =
    if is_number operand then ok tt else err invalid_argument
validate_sentinel_usage delete_field = ok tt

unfoldable pub transform_from_sentinel : FieldPath → Sentinel → FirestoreResult FieldTransform
transform_from_sentinel p Sentinel.server_timestamp =
    ok (record { field_path = p; operation = server_timestamp })
transform_from_sentinel p (Sentinel.array_union xs) =
    ok (record { field_path = p; operation = array_union xs })
transform_from_sentinel p (Sentinel.array_remove xs) =
    ok (record { field_path = p; operation = array_remove xs })
transform_from_sentinel p (Sentinel.numeric_increment v) =
    ok (record { field_path = p; operation = numeric_increment v })
transform_from_sentinel p delete_field = err invalid_argument

-- The arm of a sentinel that is not `delete_field`.
unfoldable pub record_transform : FieldPath → Sentinel → Found → FirestoreResult Found
unfolding validate_sentinel_usage transform_from_sentinel
record_transform p s found = do
  validate_sentinel_usage s
  t ← transform_from_sentinel p s
  ok (push_transform p t found)

-- The arm of a map, after the recursive call.
abbrev pub keep_nested : Text → Fields → Fields × Found → FirestoreResult (Fields × Found)
keep_nested key cleaned (nested, found) =
    ok ((if is_empty nested then cleaned else insert key (map nested) cleaned), found)

-- One round of the loop is `sanitize_entry`. The loop carries `cleaned` and the three vectors.
unfoldable mutual
  unfolding record_transform assert_no_sentinel_in_value

  pub sanitize_map : Fields → List Text → Found → Fields → FirestoreResult (Fields × Found)
  sanitize_map end parent_segments found cleaned = ok (cleaned, found)
  sanitize_map (field key value data') parent_segments found cleaned =
      sanitize_entry value key (parent_segments ++ key ∷ []) found cleaned >>= λ r.
      sanitize_map data' parent_segments r.1 r.0

  pub sanitize_entry : Value → Text → List Text → Found → Fields → FirestoreResult (Fields × Found)
  sanitize_entry (sentinel delete_field) key segments found cleaned =
      FieldPath.new segments >>= λ p. ok (cleaned, push_deleted p found)
  sanitize_entry (sentinel s) key segments found cleaned =
      FieldPath.new segments >>= λ p. record_transform p s found >>= λ f. ok (cleaned, f)
  sanitize_entry (map m) key segments found cleaned =
      FieldPath.new segments >>= λ _. sanitize_map m segments found end >>= keep_nested key cleaned
  sanitize_entry (array xs) key segments found cleaned = FieldPath.new segments >>= λ _.
      assert_no_sentinel_in_value (array xs) >>= λ _. ok (insert key (array xs) cleaned, found)
  sanitize_entry value key segments found cleaned =
      FieldPath.new segments >>= λ _. ok (insert key value cleaned, found)

unfoldable pub sanitize_for_write : Fields → FirestoreResult (Fields × Found)
unfolding sanitize_map
sanitize_for_write data' = sanitize_map data' [] nothing_found end
