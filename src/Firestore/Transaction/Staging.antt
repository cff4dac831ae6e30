-- ===== src/Firestore/Transaction/Staging.antt =====
-- What reads and staged writes keep of a transaction of api/transaction.rs, call after call.
use mathlib.Core.Path.{subst}
use firebase_rs_sdk.Common.{
  true, false, Option, none, some, List, [], ◌∷◌, ◌≡◌, ◌⊎◌, inl, inr, refl, sym, ◌∙◌, arith,
  Bool-cases, Option-cases, Has, Has-append_left, Has-append_right, if◌then◌else◌,
}
use firebase_rs_sdk.Common.BTreeMap
use firebase_rs_sdk.Common.BTreeMap.{BTreeMap, get-insert}
use firebase_rs_sdk.Common.Ord.{nat_ord, list_ord, ◌==◌, eq_iff}
use firebase_rs_sdk.Common.Text.{Text}
use firebase_rs_sdk.Firestore.Error.{
  FirestoreErrorCode, FirestoreResult, ok, err, aborted, ◌>>=◌, ◌>>◌, >>=-eq-ok, ok_inj,
  result-cases, err-ne-ok,
}
use firebase_rs_sdk.Firestore.Model.DocumentKey.{DocumentKey}
use firebase_rs_sdk.Firestore.Model.ResourcePath.{canonical_string}
use firebase_rs_sdk.Firestore.Value.{Fields}
use firebase_rs_sdk.Firestore.Value.Equality.{eq_version}
use firebase_rs_sdk.Firestore.Snapshot.{DocumentSnapshot}
use firebase_rs_sdk.Firestore.Operations.{SetOptions}
use firebase_rs_sdk.Firestore.Operations.Encode.{encode_set_data, encode_update_document_data}
use firebase_rs_sdk.Firestore.Datastore.{
  WriteOperation, write_key, Precondition, ConditionalWrite, write, conditional_key, precondition,
}
use firebase_rs_sdk.Firestore.Reference.{DocumentReference}
use firebase_rs_sdk.Firestore.Transaction.{
  Datastore, get_key, get_all, answered_key, answered_all, reference_keys, last_snapshot,
  record_all, ReadVersion, Transaction, ensure_not_finished, ensure_reads_allowed, is_written,
  version, remember, record_version, of_version, precondition_for, precondition_for_update, stage,
  or_default, set_key, update_key, delete_key,
}

-- A write that is guarded by a version of a document.
abbrev pub Guards : Text → ReadVersion → ConditionalWrite → Type 0
Guards k v w = (canonical_string (conditional_key w).path ≡ k) × (precondition w ≡ of_version v)

-- A version that was recorded of a document stays recorded; and if the document has been written, a staged
-- write is guarded by it.
pub record IsKept (k : Text) (v : ReadVersion) (t : Transaction) : Type 0 where
  pub recorded : BTreeMap.get k t.read_versions ≡ some v
  pub guarded : is_written k t ≡ true → Has (Guards k v) t.writes

-- A precondition that carries what was read of its document, if that is its first write.
abbrev Carries : Text → Precondition → Transaction → Type 0
Carries c p t =
    (v : ReadVersion)
    → BTreeMap.get c t.read_versions ≡ some v
    → is_written c t ≡ false
    → p ≡ of_version v

is_written-stage :
    (operation : WriteOperation) (p : Precondition) (t : Transaction) (k : Text)
    → is_written k (stage operation p t)
      ≡ (if k == canonical_string (write_key operation).path then true else is_written k t)
unfolding stage
is_written-stage operation p t k =
    rw (get-insert k (canonical_string (write_key operation).path) tt t.written) (ground arith)

stage-IsKept :
    (k : Text) (v : ReadVersion) (operation : WriteOperation) (p : Precondition) (t : Transaction)
    → Carries (canonical_string (write_key operation).path) p t
    → IsKept k v t
    → IsKept k v (stage operation p t)
unfolding stage
stage-IsKept k v operation p t c g = record {
  recorded = g.recorded;
  guarded = λ w. elim (Bool-cases (is_written k t)) [
    | inl e ↦ Has-append_left (Guards k v) t.writes (write operation p ∷ []) (g.guarded e)
    | inr e ↦
        (let same : (k == canonical_string (write_key operation).path) ≡ true =
            ground (arith, is_written-stage operation p t k, w, e) in
          let path = (eq_iff k (canonical_string (write_key operation).path)).0 same in
          Has-append_right (Guards k v) t.writes (write operation p ∷ [])
            (inl (sym path, c v (rw⁻¹ path g.recorded) (rw⁻¹ path e))))
  ];
}

precondition_for-Carries : (c : Text) (t : Transaction) → Carries c (precondition_for c t) t
unfolding precondition_for
precondition_for-Carries c t v h e = rw (e, h) refl

precondition_for_update-Carries :
    (c : Text) (t : Transaction) (p : Precondition)
    → precondition_for_update c t ≡ ok p
    → Carries c p t
unfolding precondition_for_update
precondition_for_update-Carries c t p ok_p none h e = absurd (ground (arith, ok_p, h, e))
precondition_for_update-Carries c t p ok_p (some time) h e =
    let read : precondition_for_update c t ≡ ok (Precondition.update_time time) = rw (e, h) refl in
    ok_inj (sym ok_p ∙ read)

remember-cases :
    (c : Text) (v : ReadVersion) (t next : Transaction)
    → remember c v t ≡ ok next
    → (t ≡ next)
      ⊎ ((BTreeMap.get c t.read_versions ≡ none)
          × (record t { read_versions = BTreeMap.insert c v t.read_versions } ≡ next))
unfolding remember
remember-cases c v t next h = elim (Option-cases (BTreeMap.get c t.read_versions)) [
  | inl e ↦ inr (e, ok_inj (sym (rw (remember, e) refl) ∙ h))
  | inr (w, e) ↦ (elim (Bool-cases (eq_version w v)) [
    | inl f ↦ inl (ok_inj (sym (rw (remember, e, f) refl) ∙ h))
    | inr f ↦ absurd (err-ne-ok {c = aborted} (sym (rw (remember, e, f) refl) ∙ h))
  ])
]

-- the first version that is recorded of another document
insert-IsKept :
    (k c : Text) (v w : ReadVersion) (t : Transaction)
    → BTreeMap.get c t.read_versions ≡ none
    → IsKept k v t
    → IsKept k v (record t { read_versions = BTreeMap.insert c w t.read_versions })
insert-IsKept k c v w t n g = record {
  recorded = get-insert k c w t.read_versions ∙ (elim (Bool-cases (k == c)) [
    | inl e ↦
        cc (n, (subst (λ x. BTreeMap.get x t.read_versions ≡ some v) ((eq_iff k c).0 e) g.recorded))
    | inr e ↦ rw e g.recorded
  ]);
  guarded = g.guarded;
}

record_version-IsKept :
    (k : Text) (v : ReadVersion) (s : DocumentSnapshot) (t next : Transaction)
    → record_version s t ≡ ok next
    → IsKept k v t
    → IsKept k v next
unfolding record_version
record_version-IsKept k v s t next h g =
    let (w, _, h1) = >>=-eq-ok (version s) _ h in
    elim (remember-cases (canonical_string s.key.path) w t next h1) [
      | inl e ↦ subst (IsKept k v) e g
      | inr (n, e) ↦ subst (IsKept k v) e (insert-IsKept k (canonical_string s.key.path) v w t n g)
    ]

set_key-IsKept :
    (k : Text) (v : ReadVersion) (key : DocumentKey) (data' : Fields) (options : Option SetOptions)
    (t next : Transaction)
    → set_key key data' options t ≡ ok next
    → IsKept k v t
    → IsKept k v next
unfolding set_key
set_key-IsKept k v key data' options t next h g =
    let (_, _, h1) = >>=-eq-ok (ensure_not_finished t) _ h in
    let (encoded, _, h2) = >>=-eq-ok (encode_set_data data' (or_default options)) _ h1 in
    rw (← ok_inj h2)
      (stage-IsKept k v _ _ t (precondition_for-Carries (canonical_string key.path) t) g)

update_key-IsKept :
    (k : Text) (v : ReadVersion) (key : DocumentKey) (data' : Fields) (t next : Transaction)
    → update_key key data' t ≡ ok next
    → IsKept k v t
    → IsKept k v next
unfolding update_key
update_key-IsKept k v key data' t next h g =
    let (_, _, h1) = >>=-eq-ok (ensure_not_finished t) _ h in
    let (encoded, _, h2) = >>=-eq-ok (encode_update_document_data data') _ h1 in
    let (p, e, h3) = >>=-eq-ok (precondition_for_update (canonical_string key.path) t) _ h2 in
    rw (← ok_inj h3)
      (stage-IsKept k v _ p t (precondition_for_update-Carries (canonical_string key.path) t p e) g)

delete_key-IsKept :
    (k : Text) (v : ReadVersion) (key : DocumentKey) (t next : Transaction)
    → delete_key key t ≡ ok next
    → IsKept k v t
    → IsKept k v next
unfolding delete_key
delete_key-IsKept k v key t next h g =
    let (_, _, h1) = >>=-eq-ok (ensure_not_finished t) _ h in
    rw (← ok_inj h1)
      (stage-IsKept k v _ _ t (precondition_for-Carries (canonical_string key.path) t) g)

record_all-ok :
    (s : DocumentSnapshot) (ss : List DocumentSnapshot) (t next : Transaction)
    → record_version s t ≡ ok next
    → record_all (s ∷ ss) t ≡ record_all ss next
unfolding record_all
record_all-ok s ss t next e = rw (record_all, e) refl

record_all-err :
    (s : DocumentSnapshot) (ss : List DocumentSnapshot) (t : Transaction) (c : FirestoreErrorCode)
    → record_version s t ≡ err c
    → record_all (s ∷ ss) t ≡ (t, err c)
unfolding record_all
record_all-err s ss t c e = rw (record_all, e) refl

record_all-IsKept :
    (k : Text) (v : ReadVersion) (ss : List DocumentSnapshot) (t : Transaction)
    → IsKept k v t
    → IsKept k v (record_all ss t).0
unfolding record_all
record_all-IsKept k v [] t g = g
record_all-IsKept k v (s ∷ ss) t g = elim (result-cases (record_version s t)) [
  | inl (next, e) ↦
      subst (λ r. IsKept k v r.0) (sym (record_all-ok s ss t next e))
        (record_all-IsKept k v ss next (record_version-IsKept k v s t next e g))
  | inr (c, e) ↦ subst (λ r. IsKept k v r.0) (sym (record_all-err s ss t c e)) g
]

-- what holds of both arms
ok-both :
    {A X : Type 0} (P : X → Type 0) (r : FirestoreResult A) {f : FirestoreErrorCode → X} {h : A → X}
    → ((c : FirestoreErrorCode) → P (f c))
    → ((a : A) → P (h a))
    → P (elim r [ err c ↦ f c | ok a ↦ h a ])
ok-both P (err c) hf hh = hf c
ok-both P (ok a) hf hh = hh a

module _ {ℓ} {S : Type ℓ} (datastore : Datastore S) where
  answered_key-IsKept :
      (k : Text) (v : ReadVersion) (answer : FirestoreResult DocumentSnapshot) (u : Transaction)
      → IsKept k v u
      → IsKept k v (answered_key datastore answer u).0
  unfolding answered_key
  answered_key-IsKept k v (err c) u g = g
  answered_key-IsKept k v (ok s) u g = record_all-IsKept k v (s ∷ []) u g

  answered_all-IsKept :
      (k : Text) (v : ReadVersion) (answer : FirestoreResult (List DocumentSnapshot))
      (u : Transaction)
      → IsKept k v u
      → IsKept k v (answered_all datastore answer u).0
  unfolding answered_all
  answered_all-IsKept k v (err c) u g = g
  answered_all-IsKept k v (ok ss) u g = record_all-IsKept k v ss u g

  get_key-IsKept :
      (k : Text) (v : ReadVersion) (key : DocumentKey) (t u : Transaction) (s : S)
      → IsKept k v t
      → IsKept k v u
      → IsKept k v (get_key datastore key t u s).0
  unfolding get_key
  get_key-IsKept k v key t u s g h =
      ok-both (λ (r : Transaction × FirestoreResult DocumentSnapshot). IsKept k v r.0)
        (ensure_reads_allowed t) (λ _. g)
        (λ _.
          answered_key-IsKept k v (datastore.batch_get_documents (key ∷ []) s >>= last_snapshot) u
            h)

  get_all-IsKept :
      (k : Text) (v : ReadVersion) (rs : List DocumentReference) (t u : Transaction) (s : S)
      → IsKept k v t
      → IsKept k v u
      → IsKept k v (get_all datastore rs t u s).0
  unfolding get_all
  get_all-IsKept k v rs t u s g h =
      elim (result-cases (ensure_reads_allowed t >> reference_keys t rs)) [
        | inl ([], e) ↦ rw (get_all, e) g
        | inl (key ∷ keys, e) ↦
            rw (get_all, e)
              (answered_all-IsKept k v (datastore.batch_get_documents (key ∷ keys) s) u h)
        | inr (c, e) ↦ rw (get_all, e) g
      ]

  -- What the calls on a transaction lead to, in any order. A read ends with the transaction that its answer
  -- finds, which other calls may have led to since it was asked for. A method on a reference or a path is the
  -- one on its key, once the key is known.
  pub data Later : Transaction → Transaction → Type ℓ where
    later_none : {t : Transaction} → Later t t
    later_get :
        {t₀ t u : Transaction} (key : DocumentKey) (s : S)
        → Later t₀ t
        → Later t u
        → Later t₀ (get_key datastore key t u s).0
    later_get_all :
        {t₀ t u : Transaction} (rs : List DocumentReference) (s : S)
        → Later t₀ t
        → Later t u
        → Later t₀ (get_all datastore rs t u s).0
    later_set :
        {t₀ t u : Transaction} (key : DocumentKey) (data' : Fields) (options : Option SetOptions)
        → Later t₀ t
        → set_key key data' options t ≡ ok u
        → Later t₀ u
    later_update :
        {t₀ t u : Transaction} (key : DocumentKey) (data' : Fields)
        → Later t₀ t
        → update_key key data' t ≡ ok u
        → Later t₀ u
    later_delete :
        {t₀ t u : Transaction} (key : DocumentKey)
        → Later t₀ t
        → delete_key key t ≡ ok u
        → Later t₀ u

  IsKept-Later :
      (k : Text) (v : ReadVersion) (t₀ t : Transaction) → IsKept k v t₀ → Later t₀ t → IsKept k v t
  IsKept-Later k v _ t g later_none = g
  IsKept-Later k v _ _ g (later_get {t₀} {t} {u} key s l m) =
      let h = IsKept-Later k v t₀ t g l in get_key-IsKept k v key t u s h (IsKept-Later k v t u h m)
  IsKept-Later k v _ _ g (later_get_all {t₀} {t} {u} rs s l m) =
      let h = IsKept-Later k v t₀ t g l in get_all-IsKept k v rs t u s h (IsKept-Later k v t u h m)
  IsKept-Later k v _ _ g (later_set {t₀} {t} {u} key data' options l h) =
      set_key-IsKept k v key data' options t u h (IsKept-Later k v t₀ t g l)
  IsKept-Later k v _ _ g (later_update {t₀} {t} {u} key data' l h) =
      update_key-IsKept k v key data' t u h (IsKept-Later k v t₀ t g l)
  IsKept-Later k v _ _ g (later_delete {t₀} {t} {u} key l h) =
      delete_key-IsKept k v key t u h (IsKept-Later k v t₀ t g l)

  -- Whatever calls follow, a document's read that was recorded before the transaction wrote the document
  -- stays recorded, and once the document is written a staged write is guarded by it. The calls may overlap:
  -- a read's answer may come after any calls made since it was asked for.
  pub Later-IsKept :
      (k : Text) (v : ReadVersion) (t₀ t : Transaction)
      → BTreeMap.get k t₀.read_versions ≡ some v
      → is_written k t₀ ≡ false
      → Later t₀ t
      → IsKept k v t
  Later-IsKept k v t₀ t e n l =
      IsKept-Later k v t₀ t (record { recorded = e; guarded = λ w. cc (n, w) }) l
