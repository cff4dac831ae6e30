-- ===== src/Firestore/InMemory/Transforms.antt =====
-- `apply_field_transforms` of remote/datastore/in_memory.rs and the transforms that it applies.
use firebase_rs_sdk.Common.{Bool, true, false, Option, none, some, List, [], ◌∷◌, if◌then◌else◌}
use firebase_rs_sdk.Common.Int.{ℤ, ◌+ℤ◌, wrap_i64, int_ord}
use firebase_rs_sdk.Common.Ord.{◌==◌}
use firebase_rs_sdk.Firestore.Error.{FirestoreResult, ok, err, invalid_argument, ◌>>=◌}
use firebase_rs_sdk.Firestore.F64.{F64, from_i64}
use firebase_rs_sdk.Firestore.Model.Timestamp.{Timestamp}
use firebase_rs_sdk.Firestore.Value.{
  Value, timestamp, array, integer, double, Values, nil, cons, Fields,
}
use firebase_rs_sdk.Firestore.Value.Equality.{eq_value}
use firebase_rs_sdk.Firestore.Operations.{
  TransformOperation, server_timestamp, numeric_increment, FieldTransform,
}
use firebase_rs_sdk.Firestore.Operations.Paths.{set_value_at_field_path, value_for_field_path}

-- the elements of an array; of anything else, none
abbrev pub elements : Option Value → Values
elements (some (array xs)) = xs
elements _ = nil

abbrev pub has : Values → Value → Bool
has nil v = false
has (cons x xs) v = if eq_value x v then true else has xs v

abbrev push : Values → Value → Values
push nil v = cons v nil
push (cons x xs) v = cons x (push xs v)

-- the loop of `array_union`
unfoldable pub union : Values → Values → Values
union values nil = values
union values (cons v additions) = union (if has values v then values else push values v) additions

-- the filter of `array_remove`
unfoldable pub without : Values → Values → Values
without nil removals = nil
without (cons v values) removals =
    let rest = without values removals in if has removals v then rest else cons v rest

abbrev pub array_union : Option Value → Values → Value
array_union existing additions = array (union (elements existing) additions)

abbrev pub array_remove : Option Value → Values → Value
array_remove existing removals = array (without (elements existing) removals)

-- i64::checked_add
unfoldable pub checked_add : ℤ → ℤ → Option ℤ
checked_add a b = if wrap_i64 (a +ℤ b) == (a +ℤ b) then some (a +ℤ b) else none

module _ (now : Timestamp) (add : F64 → F64 → F64) where
  -- the arms of `numeric_increment` for an integer and for a double operand
  unfoldable pub increment_by_integer : Option Value → ℤ → Value
  unfolding checked_add
  increment_by_integer (some (integer current)) delta = elim (checked_add current delta) [
    | some sum ↦ integer sum
    | none ↦ double (add (from_i64 current) (from_i64 delta))
  ]
  increment_by_integer (some (double current)) delta = double (add current (from_i64 delta))
  increment_by_integer _ delta = integer delta

  unfoldable pub increment_by_double : Option Value → F64 → Value
  increment_by_double (some (integer current)) delta = double (add (from_i64 current) delta)
  increment_by_double (some (double current)) delta = double (add current delta)
  increment_by_double _ delta = double delta

  unfoldable pub numeric_increment_of : Option Value → Value → FirestoreResult Value
  unfolding increment_by_integer increment_by_double
  numeric_increment_of existing (integer delta) = ok (increment_by_integer existing delta)
  numeric_increment_of existing (double delta) = ok (increment_by_double existing delta)
  numeric_increment_of existing _ = err invalid_argument

  unfoldable pub apply_transform : Option Value → TransformOperation → FirestoreResult Value
  unfolding numeric_increment_of union without
  apply_transform current server_timestamp = ok (timestamp now)
  apply_transform current (TransformOperation.array_union xs) = ok (array_union current xs)
  apply_transform current (TransformOperation.array_remove xs) = ok (array_remove current xs)
  apply_transform current (numeric_increment operand) = numeric_increment_of current operand

  unfoldable pub apply_field_transforms : List FieldTransform → Fields → FirestoreResult Fields
  unfolding apply_transform
  apply_field_transforms [] fields = ok fields
  apply_field_transforms (t ∷ ts) fields =
      apply_transform (value_for_field_path fields t.field_path) t.operation >>= λ value.
      apply_field_transforms ts (set_value_at_field_path t.field_path value fields)
