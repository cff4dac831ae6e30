-- ===== src/Firestore/Operations/Encode.antt =====
-- `encode_set_data` and `encode_update_document_data` of operations.rs.
pub mod Laws
use firebase_rs_sdk.Common.{
  ℕ, Bool, true, false, not, ◌&&◌, Option, none, some, List, [], ◌∷◌, ◌++◌, if◌then◌else◌,
}
use firebase_rs_sdk.Common.Text.{Text}
use firebase_rs_sdk.Firestore.Error.{
  FirestoreResult, ok, err, invalid_argument, ◌>>=◌, ◌>>◌, fail_if,
}
use firebase_rs_sdk.Firestore.Model.FieldPath
use firebase_rs_sdk.Firestore.Model.FieldPath.{FieldPath, canonical_string}
use firebase_rs_sdk.Firestore.Value.{Value, map, Values, Fields, end, field}
use firebase_rs_sdk.Firestore.Value.MapValue.{is_empty}
use firebase_rs_sdk.Firestore.Operations.{
  FieldTransform, SetOptions, contains, unique_paths, is_merge,
}
use firebase_rs_sdk.Firestore.Operations.Sanitize.{Found, sanitize_for_write}

pub record EncodedSetData : Type 0 where
  pub fields : Fields
  pub mask : Option (List FieldPath)
  pub transforms : List FieldTransform

pub record EncodedUpdateData : Type 0 where
  pub fields : Fields
  pub field_paths : List FieldPath
  pub transforms : List FieldTransform

abbrev leaf : List Text → FirestoreResult (List FieldPath)
leaf segments = FieldPath.new segments >>= λ p. ok (p ∷ [])

abbrev pub join_paths :
    FirestoreResult (List FieldPath)
    → FirestoreResult (List FieldPath)
    → FirestoreResult (List FieldPath)
join_paths a b = a >>= λ ps. b >>= λ qs. ok (ps ++ qs)

-- The paths of the leaves, depth first; an empty map is a leaf. A call gives the paths that the
-- source pushes to its accumulator.
unfoldable mutual
  pub collect_paths_from_value : Value → List Text → FirestoreResult (List FieldPath)
  collect_paths_from_value (map (field k v m)) segments =
      join_paths (collect_paths_from_value v (segments ++ k ∷ []))
        (collect_paths_from_fields m segments)
  collect_paths_from_value _ segments = leaf segments

  pub collect_paths_from_fields : Fields → List Text → FirestoreResult (List FieldPath)
  collect_paths_from_fields end segments = ok []
  collect_paths_from_fields (field k v m) segments =
      join_paths (collect_paths_from_value v (segments ++ k ∷ []))
        (collect_paths_from_fields m segments)

unfoldable pub collect_update_paths : Fields → FirestoreResult (List FieldPath)
unfolding collect_paths_from_value
collect_update_paths data' = collect_paths_from_fields data' []

unfoldable pub validate_mask_against_available :
    List FieldPath → List Text → FirestoreResult (Unit {0})
validate_mask_against_available [] available = ok tt
validate_mask_against_available (p ∷ ps) available =
    let rest = validate_mask_against_available ps available in
    if contains (canonical_string p) available then rest else err invalid_argument

unfoldable pub choose_mask :
    SetOptions → List FieldPath → List Text → FirestoreResult (Option (List FieldPath))
unfolding validate_mask_against_available
choose_mask options deduped available = elim options.merge_fields [
  | some mask ↦ (validate_mask_against_available mask available >>= λ _. ok (some mask))
  | none ↦
      (if options.merge
        then (elim deduped [ [] ↦ err invalid_argument | p ∷ ps ↦ ok (some (p ∷ ps)) ])
        else ok none)
]

abbrev is_nil {ℓ} : {A : Type ℓ} → List A → Bool
is_nil [] = true
is_nil (_ ∷ _) = false

-- all that follows `sanitize_for_write`
unfoldable encode_sanitized : SetOptions → Fields → Found → FirestoreResult EncodedSetData
unfolding choose_mask collect_update_paths
encode_sanitized options sanitized found = do
  fail_if (not (is_nil found.deleted_paths) && not (is_merge options)) invalid_argument
  paths ← collect_update_paths sanitized
  let unique = unique_paths [] (paths ++ (found.sentinel_paths ++ found.deleted_paths))
  mask ← choose_mask options unique.0 unique.1
  ok (record { fields = sanitized; mask = mask; transforms = found.transforms })

unfoldable pub encode_set_data : Fields → SetOptions → FirestoreResult EncodedSetData
unfolding encode_sanitized sanitize_for_write
encode_set_data data' options = do r ← sanitize_for_write data'; encode_sanitized options r.0 r.1

unfoldable encode_sanitized_update : Fields → Found → FirestoreResult EncodedUpdateData
unfolding collect_update_paths
encode_sanitized_update sanitized found = do
  fail_if (is_empty sanitized && is_nil found.transforms && is_nil found.deleted_paths)
      invalid_argument
  paths ← collect_update_paths sanitized
  ok (record {
    fields = sanitized;
    field_paths = paths ++ found.deleted_paths;
    transforms = found.transforms;
  })

unfoldable pub encode_update_document_data : Fields → FirestoreResult EncodedUpdateData
unfolding encode_sanitized_update sanitize_for_write
encode_update_document_data data' = do r ← sanitize_for_write data'; encode_sanitized_update r.0 r.1
