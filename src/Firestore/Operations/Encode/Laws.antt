-- ===== src/Firestore/Operations/Encode/Laws.antt =====
-- What `encode_set_data` and `encode_update_document_data` promise.
use mathlib.Core.Path.{subst}
use mathlib.Core.List
use firebase_rs_sdk.Common.{
  ◌≡◌, refl, sym, ◌≢◌, ◌⊎◌, inl, inr, true, false, Option, none, some, List, [], ◌∷◌, ◌++◌, All,
  arith, Bool-cases,
}
use firebase_rs_sdk.Common.Ord.{nat_ord, list_ord, ==_refl}
use firebase_rs_sdk.Common.Text.{Text}
use firebase_rs_sdk.Firestore.Error.{ok}
use firebase_rs_sdk.Firestore.Model.FieldPath.{FieldPath, canonical_string}
use firebase_rs_sdk.Firestore.Value.{Fields}
use firebase_rs_sdk.Firestore.Operations.{SetOptions, contains, unique_paths, is_merge}
use firebase_rs_sdk.Firestore.Operations.Sanitize.{Found, sanitize_for_write}
use firebase_rs_sdk.Firestore.Operations.Sanitize.Laws.{HasPlainFields, IsWellFormed}
use firebase_rs_sdk.Firestore.Operations.Encode.{EncodedSetData, collect_update_paths}

-- Of the paths given, each is represented in what `unique_paths` has seen, and what was seen before
-- still is.
contains-unique_paths :
    (seen : List Text) (ps : List FieldPath) (s : Text)
    → contains s seen ≡ true
    → contains s (unique_paths seen ps).1 ≡ true
unfolding unique_paths
contains-unique_paths seen [] s h = h
contains-unique_paths seen (p ∷ ps) s h = elim (Bool-cases (contains (canonical_string p) seen)) [
  | inl e ↦ rw e (contains-unique_paths seen ps s h)
  | inr e ↦ rw e (contains-unique_paths (canonical_string p ∷ seen) ps s (ground arith))
]

unique_paths_old :
    (seen : List Text) (p : FieldPath) (ps : List FieldPath)
    → contains (canonical_string p) seen ≡ true
    → unique_paths seen (p ∷ ps) ≡ unique_paths seen ps
unfolding unique_paths
unique_paths_old seen p ps e = rw e refl

unique_paths_fresh :
    (seen : List Text) (p : FieldPath) (ps : List FieldPath)
    → contains (canonical_string p) seen ≡ false
    → unique_paths seen (p ∷ ps) ≡ (
      p ∷ (unique_paths (canonical_string p ∷ seen) ps).0,
      (unique_paths (canonical_string p ∷ seen) ps).1,
    )
unfolding unique_paths
unique_paths_fresh seen p ps e = rw e refl

unique_paths_seen :
    (seen : List Text) (ps : List FieldPath)
    → All (λ p. contains (canonical_string p) (unique_paths seen ps).1 ≡ true) ps
unique_paths_seen seen [] = tt
unique_paths_seen seen (p ∷ ps) = elim (Bool-cases (contains (canonical_string p) seen)) [
  | inl e ↦
      subst (λ r. All (λ q. contains (canonical_string q) r.1 ≡ true) (p ∷ ps))
        (sym (unique_paths_old seen p ps e))
        (contains-unique_paths seen ps (canonical_string p) e, unique_paths_seen seen ps)
  | inr e ↦
      subst (λ r. All (λ q. contains (canonical_string q) r.1 ≡ true) (p ∷ ps))
        (sym (unique_paths_fresh seen p ps e))
        (
          contains-unique_paths (canonical_string p ∷ seen) ps (canonical_string p)
              (rw (==_refl (canonical_string p)) refl),
          unique_paths_seen (canonical_string p ∷ seen) ps,
        )
]

-- The canonical strings of the paths are new to `seen` and differ from one another.
abbrev pub AreFresh : List Text → List FieldPath → Type 0
AreFresh seen [] = Unit
AreFresh seen (p ∷ ps) =
    (contains (canonical_string p) seen ≡ false) × AreFresh (canonical_string p ∷ seen) ps

unique_paths-AreFresh :
    (seen : List Text) (ps : List FieldPath) → AreFresh seen (unique_paths seen ps).0
unfolding unique_paths
unique_paths-AreFresh seen [] = tt
unique_paths-AreFresh seen (p ∷ ps) = elim (Bool-cases (contains (canonical_string p) seen)) [
  | inl e ↦ rw e (unique_paths-AreFresh seen ps)
  | inr e ↦ rw e (e, unique_paths-AreFresh (canonical_string p ∷ seen) ps)
]

-- What the mask of a `set` may be, by its options: the given fields, all of them in the data; every
-- path of the data once; or none.
abbrev pub IsMask : SetOptions → List FieldPath → Option (List FieldPath) → Type 0
IsMask options paths none = is_merge options ≡ false
IsMask options paths (some mask) =
    ((options.merge_fields ≡ some mask)
      × All (λ p. contains (canonical_string p) (unique_paths [] paths).1 ≡ true) mask)
    ⊎ ((options.merge ≡ true) × (mask ≡ (unique_paths [] paths).0) × (mask ≢ []))

-- Everything a successful `encode_set_data` says of its data: what is sent is the sanitized data and
-- holds no sentinel, the transforms are well formed, and the mask is the one that the options ask for
-- over the leaves of what is sent, the transforms' fields and the deleted fields. A field is deleted
-- only in a merge.
pub record IsEncodedSet (data' : Fields) (options : SetOptions) (r : EncodedSetData) : Type 0 where
  pub found : Found
  pub sanitized : sanitize_for_write data' ≡ ok (r.fields, found)
  pub same_transforms : r.transforms ≡ found.transforms
  pub plain : HasPlainFields r.fields
  pub well_formed : All (λ t. IsWellFormed t.operation) r.transforms
  pub leaves : List FieldPath
  pub are_leaves : collect_update_paths r.fields ≡ ok leaves
  pub masked :
      IsMask options
        (leaves ++ (List.map (λ t. t.field_path) r.transforms ++ found.deleted_paths))
        r.mask
  pub deleted_in_merge : (is_merge options ≡ true) ⊎ (found.deleted_paths ≡ [])
