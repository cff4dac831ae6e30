-- ===== src/Firestore/Operations/Paths.antt =====
-- `set_value_at_field_path` and `remove_value_at_field_path` of operations.rs.
pub mod Laws
use firebase_rs_sdk.Common.{ℕ, List, [], ◌∷◌, Option, none, some}
use firebase_rs_sdk.Common.Text.{Text}
use firebase_rs_sdk.Firestore.Model.FieldPath.{FieldPath}
use firebase_rs_sdk.Firestore.Value.{Value, map, Fields, end, field}
use firebase_rs_sdk.Firestore.Value.MapValue.{get, insert, remove, child_fields, get_from_segments}

-- the fields of the map at a key; a missing entry and any other value count as an empty map
abbrev pub nested : Option Value → Fields
nested none = end
nested (some v) = elim (child_fields v) [ none ↦ end | some m ↦ m ]

unfoldable pub set_value_at_segments : List Text → Value → Fields → Fields
set_value_at_segments [] value fields = fields
set_value_at_segments (last ∷ []) value fields = insert last value fields
set_value_at_segments (first ∷ second ∷ rest) value fields =
    insert first (map (set_value_at_segments (second ∷ rest) value (nested (get first fields))))
      fields

abbrev pub set_value_at_field_path : FieldPath → Value → Fields → Fields
set_value_at_field_path path value fields = set_value_at_segments path.segments value fields

-- Nothing happens where the path leaves the maps.
unfoldable pub remove_segments : List Text → Fields → Fields
remove_segments [] fields = fields
remove_segments (last ∷ []) fields = remove last fields
remove_segments (head ∷ second ∷ rest) fields = elim (get head fields) [
  | none ↦ fields
  | some v ↦ (elim (child_fields v) [
    | none ↦ fields
    | some m ↦ insert head (map (remove_segments (second ∷ rest) m)) fields
  ])
]

abbrev pub remove_value_at_field_path : FieldPath → Fields → Fields
remove_value_at_field_path path fields = remove_segments path.segments fields

abbrev pub value_for_field_path : Fields → FieldPath → Option Value
value_for_field_path fields path = get_from_segments path.segments fields
