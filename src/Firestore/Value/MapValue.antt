-- ===== src/Firestore/Value/MapValue.antt =====
-- The `BTreeMap` operations on the fields of a map value, and value/map_value.rs.
pub mod Laws
use firebase_rs_sdk.Common.{
  ℕ, Ordering, lt, eq, gt, Bool, true, false, List, [], ◌∷◌, Option, none, some, if◌then◌else◌,
}
use firebase_rs_sdk.Common.Ord.{◌==◌, nat_ord, list_ord, cmp_list}
use firebase_rs_sdk.Common.Text.{Text}
use firebase_rs_sdk.Firestore.Model.FieldPath.{FieldPath}
use firebase_rs_sdk.Firestore.Value.{Value, map, Fields, end, field}

unfoldable pub get : Text → Fields → Option Value
get k end = none
get k (field j v m) = if k == j then some v else get k m

unfoldable pub insert : Text → Value → Fields → Fields
insert k v end = field k v end
insert k v (field j w m) =
    let rest = insert k v m in
    elim (cmp_list k j) [ lt ↦ field k v (field j w m) | eq ↦ field k v m | gt ↦ field j w rest ]

unfoldable pub remove : Text → Fields → Fields
remove k end = end
remove k (field j w m) = let rest = remove k m in if k == j then rest else field j w rest

abbrev pub is_empty : Fields → Bool
is_empty end = true
is_empty (field k v m) = false

-- the step from a value into the map that it may hold
abbrev pub child_fields : Value → Option Fields
child_fields (map m) = some m
child_fields _ = none

-- get_from_segments
unfoldable pub get_from_segments : List Text → Fields → Option Value
unfolding get
get_from_segments [] m = none
get_from_segments (first ∷ []) m = get first m
get_from_segments (first ∷ second ∷ rest) m = elim (get first m) [
  | none ↦ none
  | some v ↦ (elim (child_fields v) [ none ↦ none | some c ↦ get_from_segments (second ∷ rest) c ])
]

-- MapValue::get
abbrev pub get_path : FieldPath → Fields → Option Value
get_path path m = get_from_segments path.segments m
