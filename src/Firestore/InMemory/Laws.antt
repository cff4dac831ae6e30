-- ===== src/Firestore/InMemory/Laws.antt =====
-- What the writes and commits of remote/datastore/in_memory.rs do to the two maps.
use firebase_rs_sdk.Common.{false, Option, List, ◌≡◌, ◌≢◌, refl, sym, arith, Bool-cases, inl, inr}
use firebase_rs_sdk.Common.Ord.{nat_ord, list_ord, ◌==◌, eq_iff}
use firebase_rs_sdk.Common.BTreeMap
use firebase_rs_sdk.Common.BTreeMap.{get-insert, get-remove}
use firebase_rs_sdk.Common.Text.{Text}
use firebase_rs_sdk.Firestore.Error.{ok, >>=-eq-ok, ok_inj}
use firebase_rs_sdk.Firestore.F64.{F64}
use firebase_rs_sdk.Firestore.Model.DocumentKey.{DocumentKey}
use firebase_rs_sdk.Firestore.Model.FieldPath.{FieldPath}
use firebase_rs_sdk.Firestore.Model.ResourcePath.{canonical_string}
use firebase_rs_sdk.Firestore.Model.Timestamp.{Timestamp}
use firebase_rs_sdk.Firestore.Model.Timestamp
use firebase_rs_sdk.Firestore.InMemory.Transforms.{apply_field_transforms}
use firebase_rs_sdk.Common.Int.{pos, ◌+ℤ◌, wrap_i64}
use firebase_rs_sdk.Firestore.Operations.{FieldTransform}
use firebase_rs_sdk.Firestore.Value.{Fields}
use firebase_rs_sdk.Firestore.Datastore.{WriteOperation, set, update, delete, write_key}
use firebase_rs_sdk.Firestore.InMemory.{
  InMemoryDatastore, version_of, require, set_fields, apply_mask, put, bump_version, forget_version,
  apply_set, apply_update, apply_delete, apply_write,
}

-- a path has a version just when it has a document
abbrev pub IsConsistent : InMemoryDatastore → Type 0
IsConsistent store =
    (k : Text) → BTreeMap.contains_key k store.documents ≡ BTreeMap.contains_key k store.by_path

put-IsConsistent :
    (c : Text) (fields : Fields) (store : InMemoryDatastore)
    → IsConsistent store
    → IsConsistent (put c fields store)
unfolding put bump_version
put-IsConsistent c fields store h k =
    rw
      (
        get-insert k c fields store.documents,
        get-insert k c (Timestamp.new (wrap_i64 (store.next +ℤ pos 1)) (pos 0)) store.by_path,
      )
      (ground (arith, h k))

delete-IsConsistent :
    (c : Text) (store : InMemoryDatastore)
    → IsConsistent store
    → IsConsistent
        (forget_version c (record store { documents = BTreeMap.remove c store.documents }))
unfolding forget_version
delete-IsConsistent c store h k =
    rw (get-remove k c store.documents, get-remove k c store.by_path) (ground (arith, h k))

pub eqb_of_ne : (s t : Text) → s ≢ t → (s == t) ≡ false
eqb_of_ne s t n = elim (Bool-cases (s == t)) [ inl e ↦ absurd (n ((eq_iff s t).0 e)) | inr e ↦ e ]

-- what the two maps have at a path
abbrev pub entry : Text → InMemoryDatastore → Option Fields × Option Timestamp
entry k store = (BTreeMap.get k store.documents, version_of k store)

put-other :
    (c k : Text) (fields : Fields) (store : InMemoryDatastore)
    → k ≢ c
    → entry k (put c fields store) ≡ entry k store
unfolding put bump_version
put-other c k fields store n =
    rw
      (
        get-insert k c fields store.documents,
        get-insert k c (Timestamp.new (wrap_i64 (store.next +ℤ pos 1)) (pos 0)) store.by_path,
        eqb_of_ne k c n,
      )
      refl

delete-other :
    (c k : Text) (store : InMemoryDatastore)
    → k ≢ c
    → entry k (forget_version c (record store { documents = BTreeMap.remove c store.documents }))
      ≡ entry k store
unfolding forget_version
delete-other c k store n =
    rw (get-remove k c store.documents, get-remove k c store.by_path, eqb_of_ne k c n) refl

module _ (now : Timestamp) (add : F64 → F64 → F64) where
  -- a successful set or update ends in one `put`
  apply_set-put :
      (key : DocumentKey) (fields : Fields) (mask : Option (List FieldPath))
      (ts : List FieldTransform) (store next : InMemoryDatastore)
      → apply_set now add key fields mask ts store ≡ ok next
      → (result : Fields) × (next ≡ put (canonical_string key.path) result store)
  unfolding apply_set
  apply_set-put key fields mask ts store next h =
      let (result, _, e) =
        >>=-eq-ok
          (apply_field_transforms now add ts
            (set_fields mask fields (BTreeMap.get (canonical_string key.path) store.documents)))
          _ h in
      (result, sym (ok_inj e))

  apply_update-put :
      (key : DocumentKey) (fields : Fields) (paths : List FieldPath) (ts : List FieldTransform)
      (store next : InMemoryDatastore)
      → apply_update now add key fields paths ts store ≡ ok next
      → (result : Fields) × (next ≡ put (canonical_string key.path) result store)
  unfolding apply_update
  apply_update-put key fields paths ts store next h =
      let (current, _, h') =
        >>=-eq-ok (require (BTreeMap.get (canonical_string key.path) store.documents)) _ h in
      let (result, _, e) =
        >>=-eq-ok (apply_field_transforms now add ts (apply_mask paths fields current)) _ h' in
      (result, sym (ok_inj e))

  -- A write that succeeds keeps documents and versions in step.
  pub apply_write-IsConsistent :
      (w : WriteOperation) (store next : InMemoryDatastore)
      → IsConsistent store
      → apply_write now add w store ≡ ok next
      → IsConsistent next
  unfolding apply_write apply_delete
  apply_write-IsConsistent (set key fields mask ts) store next c h =
      let (result, e) = apply_set-put key fields mask ts store next h in
      rw e (put-IsConsistent (canonical_string key.path) result store c)
  apply_write-IsConsistent (update key fields paths ts) store next c h =
      let (result, e) = apply_update-put key fields paths ts store next h in
      rw e (put-IsConsistent (canonical_string key.path) result store c)
  apply_write-IsConsistent (delete key) store next c h =
      rw (← ok_inj h) (delete-IsConsistent (canonical_string key.path) store c)

  -- A write that succeeds changes neither the document nor the version of any path but its own.
  pub apply_write-other :
      (w : WriteOperation) (store next : InMemoryDatastore) (k : Text)
      → apply_write now add w store ≡ ok next
      → k ≢ canonical_string (write_key w).path
      → entry k next ≡ entry k store
  unfolding apply_write apply_delete
  apply_write-other (set key fields mask ts) store next k h n =
      let (result, e) = apply_set-put key fields mask ts store next h in
      rw e (put-other (canonical_string key.path) k result store n)
  apply_write-other (update key fields paths ts) store next k h n =
      let (result, e) = apply_update-put key fields paths ts store next h in
      rw e (put-other (canonical_string key.path) k result store n)
  apply_write-other (delete key) store next k h n =
      rw (← ok_inj h) (delete-other (canonical_string key.path) k store n)
