-- ===== src/Firestore/Operations.antt =====
-- crates/firebase-firestore/src/api/operations.rs: what a write sends. The parts on reading and
-- writing along a field path are in `Paths`, the encoding of user data is in `Sanitize` and `Encode`.
pub mod Paths
pub mod Sanitize
pub mod Encode
use firebase_rs_sdk.Common.{
  ℕ, Bool, true, false, ◌||◌, Option, none, some, List, [], ◌∷◌, ◌++◌, any, is_some, if◌then◌else◌,
}
use firebase_rs_sdk.Common.Ord.{◌==◌, nat_ord, list_ord}
use firebase_rs_sdk.Common.Text.{Text}
use firebase_rs_sdk.Firestore.Error.{FirestoreResult, ok, err, invalid_argument}
use firebase_rs_sdk.Firestore.Model.FieldPath.{FieldPath, canonical_string}
use firebase_rs_sdk.Firestore.Value.{Value, Values, Fields}

pub data TransformOperation : Type 0 where
  server_timestamp : TransformOperation
  array_union : Values → TransformOperation
  array_remove : Values → TransformOperation
  numeric_increment : Value → TransformOperation

pub record FieldTransform : Type 0 where
  pub field_path : FieldPath
  pub operation : TransformOperation

pub record SetOptions : Type 0 where
  pub merge : Bool
  pub merge_fields : Option (List FieldPath)

abbrev pub merge_all : SetOptions
merge_all = record { merge = true; merge_fields = none }

-- HashSet<String>::contains; a `HashSet` is the list of what was inserted
abbrev pub contains : Text → List Text → Bool
contains s seen = any (λ t. s == t) seen

-- The loop that keeps the first path of each canonical string: what it keeps, and the set of the
-- strings seen.
unfoldable pub unique_paths : List Text → List FieldPath → List FieldPath × List Text
unique_paths seen [] = ([], seen)
unique_paths seen (p ∷ ps) =
    let s = canonical_string p in
    let old = unique_paths seen ps in
    let fresh = unique_paths (s ∷ seen) ps in
    if contains s seen then old else (p ∷ fresh.0, fresh.1)

-- SetOptions::merge_fields
require_some : List FieldPath → FirestoreResult SetOptions
require_some [] = err invalid_argument
require_some (p ∷ ps) = ok (record { merge = false; merge_fields = some (p ∷ ps) })

pub of_merge_fields : List FieldPath → FirestoreResult SetOptions
unfolding require_some unique_paths
of_merge_fields fields = require_some (unique_paths [] fields).0

abbrev pub is_merge : SetOptions → Bool
is_merge options = options.merge || is_some options.merge_fields

abbrev pub field_mask : SetOptions → Option (List FieldPath)
field_mask options = options.merge_fields
