-- ===== src/Firestore/WriteBatch.antt =====
-- crates/firebase-firestore/src/api/write_batch.rs. The methods change the batch in place: a failure
-- leaves it as it was.
use firebase_rs_sdk.Common.{
  ℕ, Option, List, [], ◌∷◌, ◌++◌, ◌≡◌, refl, sym, ap, suc, ◌≤◌, leb, leb→le, arith, length,
}
use firebase_rs_sdk.Common.Ord.{nat_ord}
use firebase_rs_sdk.Firestore.Error.{
  FirestoreResult, ok, resource_exhausted, fail_if, ◌>>=◌, ◌>>◌, >>=-eq-ok, ok_inj,
}
use firebase_rs_sdk.Firestore.F64.{F64}
use firebase_rs_sdk.Firestore.Model.DocumentKey.{DocumentKey, from_path}
use firebase_rs_sdk.Firestore.Model.Timestamp.{Timestamp}
use firebase_rs_sdk.Firestore.Value.{Fields}
use firebase_rs_sdk.Firestore.Query.{DatabaseId}
use firebase_rs_sdk.Firestore.Operations.{SetOptions}
use firebase_rs_sdk.Firestore.Operations.Encode.{
  EncodedSetData, EncodedUpdateData, encode_set_data, encode_update_document_data,
}
use firebase_rs_sdk.Firestore.Datastore.{WriteOperation, set, update, delete, CommitResult}
use firebase_rs_sdk.Firestore.InMemory
use firebase_rs_sdk.Firestore.InMemory.{InMemoryDatastore}
use firebase_rs_sdk.Firestore.Reference.{DocumentReference, ensure_same_firestore}
use firebase_rs_sdk.Firestore.Transaction.{or_default}

abbrev pub max_batch_writes : ℕ
max_batch_writes = 500

pub record WriteBatch : Type 0 where
  pub database_id : DatabaseId
  pub writes : List WriteOperation

abbrev pub new : DatabaseId → WriteBatch
new database_id = record { database_id = database_id; writes = [] }

abbrev pub ensure_capacity : WriteBatch → FirestoreResult (Unit {0})
ensure_capacity b = fail_if (leb max_batch_writes (length b.writes)) resource_exhausted

abbrev pub push : WriteOperation → WriteBatch → WriteBatch
push w b = record b { writes = b.writes ++ w ∷ [] }

-- the guards that every method starts with
abbrev pub admit : WriteBatch → DocumentReference → FirestoreResult DocumentKey
admit b r = ensure_capacity b >> ensure_same_firestore b.database_id r >> from_path r.key.path

unfoldable pub add_set :
    DocumentReference → Fields → Option SetOptions → WriteBatch → FirestoreResult WriteBatch
add_set r data' options b = do
  key ← admit b r
  encoded ← encode_set_data data' (or_default options)
  ok (push (set key encoded.fields encoded.mask encoded.transforms) b)

unfoldable pub add_update : DocumentReference → Fields → WriteBatch → FirestoreResult WriteBatch
add_update r data' b = do
  key ← admit b r
  encoded ← encode_update_document_data data'
  ok (push (update key encoded.fields encoded.field_paths encoded.transforms) b)

unfoldable pub add_delete : DocumentReference → WriteBatch → FirestoreResult WriteBatch
add_delete r b = admit b r >>= λ key. ok (push (delete key) b)

-- The commit of a batch by the in-memory datastore; it takes the batch.
unfoldable pub commit :
    Timestamp
    → (F64 → F64 → F64)
    → WriteBatch
    → InMemoryDatastore
    → InMemoryDatastore × FirestoreResult (Unit {0})
commit now add b store = InMemory.commit now add b.writes store

unfoldable pub commit_with_results :
    Timestamp
    → (F64 → F64 → F64)
    → WriteBatch
    → InMemoryDatastore
    → InMemoryDatastore × FirestoreResult CommitResult
commit_with_results now add b store = InMemory.commit_with_results now add b.writes store

-- a call of a method of a batch
pub data Call : Type 0 where
  call_set : DocumentReference → Fields → Option SetOptions → Call
  call_update : DocumentReference → Fields → Call
  call_delete : DocumentReference → Call

abbrev pub called : Call → WriteBatch → FirestoreResult WriteBatch
called (call_set r data' options) b = add_set r data' options b
called (call_update r data') b = add_update r data' b
called (call_delete r) b = add_delete r b

-- what a call asks to write: the document of its reference, with the fields that it gives
pub data Asks : Call → WriteOperation → Type 0 where
  asks_set :
      (r : DocumentReference) (data' : Fields) (options : Option SetOptions) (key : DocumentKey)
      (encoded : EncodedSetData)
      → from_path r.key.path ≡ ok key
      → encode_set_data data' (or_default options) ≡ ok encoded
      → Asks (call_set r data' options) (set key encoded.fields encoded.mask encoded.transforms)
  asks_update :
      (r : DocumentReference) (data' : Fields) (key : DocumentKey) (encoded : EncodedUpdateData)
      → from_path r.key.path ≡ ok key
      → encode_update_document_data data' ≡ ok encoded
      → Asks
          (call_update r data')
          (update key encoded.fields encoded.field_paths encoded.transforms)
  asks_delete :
      (r : DocumentReference) (key : DocumentKey)
      → from_path r.key.path ≡ ok key
      → Asks (call_delete r) (delete key)

-- the batches that calls of a new one lead to, the last call first
pub data Builds (db : DatabaseId) : List Call → WriteBatch → Type 0 where
  built_new : Builds db [] (new db)
  built_call :
      {calls : List Call} {b c : WriteBatch} (call : Call)
      → Builds db calls b
      → called call b ≡ ok c
      → Builds db (call ∷ calls) c

-- Writes are what calls ask for, each for the call at its place; the last call is the first of its list.
pub data Asked : List Call → List WriteOperation → Type 0 where
  asked_none : Asked [] []
  asked_more :
      {calls : List Call} {ws : List WriteOperation} (call : Call) (w : WriteOperation)
      → Asked calls ws
      → Asks call w
      → Asked (call ∷ calls) (ws ++ w ∷ [])

length-append :
    (ws : List WriteOperation) (w : WriteOperation) → length (ws ++ w ∷ []) ≡ suc (length ws)
length-append [] w = refl
length-append (v ∷ ws) w = omega (arith, length-append ws w)

admit-key :
    (b : WriteBatch) (r : DocumentReference) (key : DocumentKey)
    → admit b r ≡ ok key
    → from_path r.key.path ≡ ok key
admit-key b r key h =
    let (u, _, e) = >>=-eq-ok (ensure_capacity b >> ensure_same_firestore b.database_id r) _ h in e

admit-room :
    (b : WriteBatch) (r : DocumentReference) (key : DocumentKey)
    → admit b r ≡ ok key
    → suc (length b.writes) ≤ max_batch_writes
admit-room b r key h =
    let (_, same, _) = >>=-eq-ok (ensure_capacity b >> ensure_same_firestore b.database_id r) _ h in
    let (u, e, _) = >>=-eq-ok (ensure_capacity b) _ same in
    leb→le (suc (length b.writes)) max_batch_writes (ground (arith, e))

-- What one call that succeeds does: a batch with room has one more write at its end, what the call asks.
abbrev Grows : Call → WriteBatch → WriteBatch → Type 0
Grows call b c =
    (suc (length b.writes) ≤ max_batch_writes)
    × ((w : WriteOperation) × Asks call w × (c.writes ≡ b.writes ++ w ∷ []))

called-Grows : (call : Call) (b c : WriteBatch) → called call b ≡ ok c → Grows call b c
unfolding add_set add_update add_delete
called-Grows (call_set r data' options) b c h =
    let (key, e, h1) = >>=-eq-ok (admit b r) _ h in
    let (encoded, f, h2) = >>=-eq-ok (encode_set_data data' (or_default options)) _ h1 in
    (
      admit-room b r key e,
      (
        _,
        asks_set r data' options key encoded (admit-key b r key e) f,
        ap (λ x. x.writes) (sym (ok_inj h2)),
      ),
    )
called-Grows (call_update r data') b c h =
    let (key, e, h1) = >>=-eq-ok (admit b r) _ h in
    let (encoded, f, h2) = >>=-eq-ok (encode_update_document_data data') _ h1 in
    (
      admit-room b r key e,
      (
        _,
        asks_update r data' key encoded (admit-key b r key e) f,
        ap (λ x. x.writes) (sym (ok_inj h2)),
      ),
    )
called-Grows (call_delete r) b c h =
    let (key, e, h1) = >>=-eq-ok (admit b r) _ h in
    (
      admit-room b r key e,
      (_, asks_delete r key (admit-key b r key e), ap (λ x. x.writes) (sym (ok_inj h1))),
    )

Builds-Asked :
    {db : DatabaseId} (calls : List Call) (b : WriteBatch)
    → Builds db calls b
    → (length b.writes ≤ max_batch_writes) × Asked calls b.writes
Builds-Asked _ _ built_new = (omega arith, asked_none)
Builds-Asked _ _ (built_call {calls} {b} {c} call p h) =
    let (room, (w, asks, e)) = called-Grows call b c h in
    (
      rw e (omega (arith, room, length-append b.writes w)),
      rw e (asked_more call w (Builds-Asked calls b p).1 asks),
    )

-- However calls of its methods built it, a batch holds at most 500 writes: one for each call that
-- succeeded, in the order of the calls, of the document and with the encoded data of the call. Both commits
-- give the in-memory datastore just these writes in this order.
pub Builds-bounded :
    {db : DatabaseId} (calls : List Call) (b : WriteBatch) (now : Timestamp) (add : F64 → F64 → F64)
    (store : InMemoryDatastore)
    → Builds db calls b
    → (ws : List WriteOperation) × (length ws ≤ max_batch_writes)
      × Asked calls ws
      × (commit now add b store ≡ InMemory.commit now add ws store)
      × (commit_with_results now add b store ≡ InMemory.commit_with_results now add ws store)
unfolding commit commit_with_results
Builds-bounded calls b now add store p =
    let (bounded, asked) = Builds-Asked calls b p in (b.writes, bounded, asked, refl, refl)
