-- ===== src/Firestore/Watch/Changes.antt =====
-- `QueryDocumentChange` and `compute_doc_changes` of crates/firebase-firestore/src/api/query.rs, and
-- `document_changes` of api/listener.rs.
pub mod Laws
use firebase_rs_sdk.Common.{
  ℕ, suc, ◌-◌, ◌%◌, ◌^◌, Bool, not, ◌&&◌, ◌||◌, Option, none, some, List, [], ◌∷◌, ◌++◌, get_elem?,
  ltb, unwrap_or, if◌then◌else◌,
}
use firebase_rs_sdk.Common.BTreeMap
use firebase_rs_sdk.Common.BTreeMap.{BTreeMap, BTreeSet}
use firebase_rs_sdk.Common.Int.{ℤ, pos, negsuc}
use firebase_rs_sdk.Common.Ord.{◌==◌, nat_ord}
use firebase_rs_sdk.Firestore.Model.DocumentKey.{DocumentKey, key_ord}
use firebase_rs_sdk.Firestore.Model.Timestamp.{Timestamp}
use firebase_rs_sdk.Firestore.Snapshot.{DocumentSnapshot}
use firebase_rs_sdk.Firestore.Value.{Fields}
use firebase_rs_sdk.Firestore.Value.Equality.{eq_version, eq_fields, eq_bool}
use firebase_rs_sdk.Firestore.Watch.{is_nil}

pub data DocumentChangeType : Type 0 where
  was_added was_modified was_removed : DocumentChangeType

pub record QueryDocumentChange : Type 0 where
  pub change_type : DocumentChangeType
  pub doc : DocumentSnapshot
  pub old_index : ℤ
  pub new_index : ℤ

-- `n as i32`
abbrev pub as_i32 : ℕ → ℤ
as_i32 n = let m = n % 2 ^ 32 in if ltb m (2 ^ 31) then pos m else negsuc (2 ^ 32 - 1 - m)

abbrev pub added : DocumentSnapshot → ℕ → QueryDocumentChange
added doc new_index = record {
  change_type = DocumentChangeType.was_added;
  doc = doc;
  old_index = negsuc 0;
  new_index = as_i32 new_index;
}

abbrev pub modified : DocumentSnapshot → ℕ → ℕ → QueryDocumentChange
modified doc old_index new_index = record {
  change_type = DocumentChangeType.was_modified;
  doc = doc;
  old_index = as_i32 old_index;
  new_index = as_i32 new_index;
}

abbrev pub removed : DocumentSnapshot → ℕ → QueryDocumentChange
removed doc old_index = record {
  change_type = DocumentChangeType.was_removed;
  doc = doc;
  old_index = as_i32 old_index;
  new_index = negsuc 0;
}

-- the index of each key, from `i` on; of a key that occurs twice, the last
unfoldable pub indices : ℕ → List DocumentSnapshot → BTreeMap DocumentKey ℕ → BTreeMap DocumentKey ℕ
indices i [] m = m
indices i (d ∷ ds) m = indices (suc i) ds (BTreeMap.insert d.key i m)

-- All the documents, as added ones.
unfoldable pub all_added : ℕ → List DocumentSnapshot → List QueryDocumentChange
all_added i [] = []
all_added i (d ∷ ds) = added d i ∷ all_added (suc i) ds

abbrev eq_map : Option Fields → Option Fields → Bool
eq_map none none = Bool.true
eq_map (some a) (some b) = eq_fields a b
eq_map _ _ = Bool.false

unfoldable pub document_snapshots_equal : DocumentSnapshot → DocumentSnapshot → Bool
document_snapshots_equal a b =
    eq_map a.fields b.fields
    && eq_bool a.metadata.from_cache b.metadata.from_cache
    && eq_bool a.metadata.has_pending_writes b.metadata.has_pending_writes

-- the change of a document that was at `old_index`, if there is one
unfoldable pub moved : List DocumentSnapshot → DocumentSnapshot → ℕ → ℕ → List QueryDocumentChange
unfolding document_snapshots_equal
moved previous d old_index new_index = elim (get_elem? previous old_index) [
  | none ↦ []
  | some before ↦
      if not (document_snapshots_equal before d) || not (old_index == new_index)
      then modified d old_index new_index ∷ []
      else []
]

-- the loop over the current documents, and what it leaves of the indices
unfoldable pub compared :
    List DocumentSnapshot
    → BTreeMap DocumentKey ℕ
    → ℕ
    → List DocumentSnapshot
    → List QueryDocumentChange × BTreeMap DocumentKey ℕ
unfolding moved
compared previous old i [] = ([], old)
compared previous old i (d ∷ ds) =
    let fresh = compared previous old (suc i) ds in
    let rest = compared previous (BTreeMap.remove d.key old) (suc i) ds in
    elim (BTreeMap.get d.key old) [
      | none ↦ (added d i ∷ fresh.0, fresh.1)
      | some old_index ↦ (moved previous d old_index i ++ rest.0, rest.1)
    ]

-- the loop over the indices that are left
unfoldable pub left_over : List DocumentSnapshot → BTreeMap DocumentKey ℕ → List QueryDocumentChange
left_over previous [] = []
left_over previous ((_, i) ∷ old) =
    let rest = left_over previous old in
    elim (get_elem? previous i) [ none ↦ rest | some before ↦ removed before i ∷ rest ]

unfoldable pub compute_doc_changes :
    Option (List DocumentSnapshot) → List DocumentSnapshot → List QueryDocumentChange
unfolding all_added indices compared left_over
compute_doc_changes none current = all_added 0 current
compute_doc_changes (some previous) current =
    let r = compared previous (indices 0 previous []) 0 current in
    if is_nil previous then all_added 0 current else r.0 ++ left_over previous r.1

-- The changes of a listener: the first loop of `document_changes`.
unfoldable pub present_changes :
    BTreeMap DocumentKey (Option Timestamp)
    → BTreeMap DocumentKey ℕ
    → ℕ
    → List DocumentSnapshot
    → List QueryDocumentChange
present_changes versions old i [] = []
present_changes versions old i (d ∷ ds) =
    let rest = present_changes versions old (suc i) ds in
    let old_index = unwrap_or i (BTreeMap.get d.key old) in
    elim (BTreeMap.get d.key versions) [
      | none ↦ added d i ∷ rest
      | some version ↦
          if eq_version version d.update_time then rest else modified d old_index i ∷ rest
    ]

unfoldable pub key_set : List DocumentSnapshot → BTreeSet DocumentKey
key_set [] = []
key_set (d ∷ ds) = BTreeMap.insert d.key tt (key_set ds)

-- the second loop
unfoldable pub absent_changes :
    BTreeSet DocumentKey → ℕ → List DocumentSnapshot → List QueryDocumentChange
absent_changes present i [] = []
absent_changes present i (d ∷ ds) =
    let rest = absent_changes present (suc i) ds in
    if BTreeMap.contains_key d.key present then rest else removed d i ∷ rest

unfoldable pub document_changes :
    BTreeMap DocumentKey (Option Timestamp)
    → Option (List DocumentSnapshot)
    → List DocumentSnapshot
    → List QueryDocumentChange
unfolding indices present_changes key_set absent_changes
document_changes versions previous current =
    present_changes versions (indices 0 (unwrap_or [] previous) []) 0 current
    ++ absent_changes (key_set current) 0 (unwrap_or [] previous)
