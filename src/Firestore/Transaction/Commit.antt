-- ===== src/Firestore/Transaction/Commit.antt =====
-- The commit of a transaction of api/transaction.rs by the in-memory datastore.
use mathlib.Core.Path.{subst}
use firebase_rs_sdk.Common.{
  true, false, Option, none, some, List, [], ◌∷◌, ◌++◌, ◌≡◌, inl, inr, refl, sym, ap, ◌∙◌, arith,
  Bool-cases, Has, Has-append_left, Has-append_right, All-Has,
}
use firebase_rs_sdk.Common.BTreeMap
use firebase_rs_sdk.Common.BTreeMap.{BTreeMap}
use firebase_rs_sdk.Common.Int.{int_ord}
use firebase_rs_sdk.Common.Ord.{nat_ord, list_ord, ◌==◌, eq_iff}
use firebase_rs_sdk.Common.Text.{Text}
use firebase_rs_sdk.Firestore.Error.{ok, ◌>>=◌, >>=-eq-ok, ok_inj}
use firebase_rs_sdk.Firestore.F64.{F64}
use firebase_rs_sdk.Firestore.Model.DocumentKey.{DocumentKey, from_string}
use firebase_rs_sdk.Firestore.Model.ResourcePath.{canonical_string}
use firebase_rs_sdk.Firestore.Model.Timestamp.{Timestamp}
use firebase_rs_sdk.Firestore.Datastore.{CommitResult, ConditionalWrite, verify, precondition}
use firebase_rs_sdk.Firestore.InMemory
use firebase_rs_sdk.Firestore.InMemory.{
  InMemoryDatastore, version_of, check_version, check_precondition,
}
use firebase_rs_sdk.Firestore.InMemory.Commits.{commit_conditional-ok}
use firebase_rs_sdk.Firestore.Transaction.{
  Datastore, ReadVersion, Transaction, is_written, of_version, verifications, finish,
}
use firebase_rs_sdk.Firestore.Transaction.Staging.{Guards, IsKept, Later, Later-IsKept}

-- a path string that `from_string` reads as the key of that path
abbrev pub IsCanonical : Text → Type 0
IsCanonical k = (key : DocumentKey) → from_string k ≡ ok key → canonical_string key.path ≡ k

eq_version_of :
    (current : Option Timestamp) (v : ReadVersion)
    → check_version current (of_version v) ≡ ok tt
    → current ≡ v
unfolding check_version
eq_version_of none none h = refl
eq_version_of (some a) none h = absurd (ground (arith, h))
eq_version_of none (some b) h = absurd (ground (arith, h))
eq_version_of (some a) (some b) h =
    ground (arith, h, (eq_iff a.seconds b.seconds).0, (eq_iff a.nanos b.nanos).0)

verifications-skip :
    (j : Text) (w : ReadVersion) (reads : BTreeMap Text ReadVersion)
    (written : BTreeMap Text (Unit {0}))
    → BTreeMap.contains_key j written ≡ true
    → verifications ((j, w) ∷ reads) written ≡ verifications reads written
unfolding verifications
verifications-skip j w reads written e = rw (verifications, e) refl

get-nil : (k : Text) (v : ReadVersion) → BTreeMap.get k [] ≡ some v → ⊥
unfolding BTreeMap.get
get-nil k v e = cc

-- an entry that is checked, and the entries after it
verifications-checked :
    (j : Text) (w : ReadVersion) (reads : BTreeMap Text ReadVersion)
    (written : BTreeMap Text (Unit {0})) (checks : List ConditionalWrite)
    → BTreeMap.contains_key j written ≡ false
    → verifications ((j, w) ∷ reads) written ≡ ok checks
    → (key : DocumentKey) × (later : List ConditionalWrite) × (from_string j ≡ ok key)
      × (verifications reads written ≡ ok later)
      × (verify key (of_version w) ∷ later ≡ checks)
verifications-checked j w reads written checks n h =
    let opened : verifications ((j, w) ∷ reads) written ≡ (
        from_string j >>= λ key.
        verifications reads written >>= λ later. ok (verify key (of_version w) ∷ later)) =
      unfold verifications in rw (verifications, n) refl in
    let (key, a, h1) = >>=-eq-ok (from_string j) _ (sym opened ∙ h) in
    let (later, b, h2) = >>=-eq-ok (verifications reads written) _ h1 in
    (key, later, a, b, ok_inj h2)

get-head :
    (k j : Text) (w v : ReadVersion) (reads : BTreeMap Text ReadVersion)
    → (k == j) ≡ true
    → BTreeMap.get k ((j, w) ∷ reads) ≡ some v
    → w ≡ v
unfolding BTreeMap.get
get-head k j w v reads n e = ground (arith, n, e)

get-tail :
    (k j : Text) (w v : ReadVersion) (reads : BTreeMap Text ReadVersion)
    → (k == j) ≡ false
    → BTreeMap.get k ((j, w) ∷ reads) ≡ some v
    → BTreeMap.get k reads ≡ some v
unfolding BTreeMap.get
get-tail k j w v reads n e = ground (arith, n, e)

-- Each read that was not written has its check among the entries that `finish` adds.
verifications-Guards :
    (reads : BTreeMap Text ReadVersion) (written : BTreeMap Text (Unit {0}))
    (checks : List ConditionalWrite) (k : Text) (v : ReadVersion)
    → verifications reads written ≡ ok checks
    → BTreeMap.get k reads ≡ some v
    → BTreeMap.contains_key k written ≡ false
    → IsCanonical k
    → Has (Guards k v) checks
verifications-Guards [] written checks k v h e n c = absurd (get-nil k v e)
verifications-Guards ((j, w) ∷ reads) written checks k v h e n c = elim (Bool-cases (k == j)) [
  | inl same ↦
      (let path = (eq_iff k j).0 same in
        let (key, later, a, b, joined) =
          verifications-checked j w reads written checks
            (subst (λ x. BTreeMap.contains_key x written ≡ false) path n) h in
        rw (← joined) (
          inl (
            c key (subst (λ x. from_string x ≡ ok key) (sym path) a),
            ap of_version (get-head k j w v reads same e),
          )))
  | inr other ↦ (elim (Bool-cases (BTreeMap.contains_key j written)) [
    | inl skipped ↦
        verifications-Guards reads written checks k v
          (sym (verifications-skip j w reads written skipped) ∙ h) (get-tail k j w v reads other e)
          n c
    | inr fresh ↦
        (let (key, later, a, b, joined) = verifications-checked j w reads written checks fresh h in
          rw (← joined) (
            inr (
              verifications-Guards reads written later k v b (get-tail k j w v reads other e) n c)))
  ])
]

-- the in-memory datastore as a datastore of transactions
abbrev pub in_memory : Timestamp → (F64 → F64 → F64) → Datastore InMemoryDatastore
in_memory now add = record {
  batch_get_documents = λ keys store. ok (InMemory.batch_get_documents keys store);
  commit_conditional = InMemory.commit_conditional now add;
}

-- A read is guarded by a staged write, or by an entry that `finish` adds.
finish-Guards :
    (t : Transaction) (checks : List ConditionalWrite) (k : Text) (v : ReadVersion)
    → IsKept k v t
    → verifications t.read_versions t.written ≡ ok checks
    → IsCanonical k
    → Has (Guards k v) (t.writes ++ checks)
finish-Guards t checks k v g h c = elim (Bool-cases (is_written k t)) [
  | inl w ↦ Has-append_left (Guards k v) t.writes checks (g.guarded w)
  | inr n ↦
      Has-append_right (Guards k v) t.writes checks
        (verifications-Guards t.read_versions t.written checks k v h g.recorded n c)
]

-- Optimistic concurrency. When the in-memory datastore commits what a transaction staged, a document has in
-- the store just before the commit the version that the transaction read of it, or is still absent: for each
-- read that was recorded before the transaction wrote the document, whatever calls followed, also ones that
-- overlap, and whose path string the parser reads as a key of that path. The commit overlaps no other call
-- of the datastore.
pub finish-version_of {ℓ} :
    {S : Type ℓ} (datastore : Datastore S) (t₀ t : Transaction) (now : Timestamp)
    (add : F64 → F64 → F64) (ws : List ConditionalWrite) (store : InMemoryDatastore)
    (r : CommitResult) (k : Text) (v : ReadVersion)
    → BTreeMap.get k t₀.read_versions ≡ some v
    → is_written k t₀ ≡ false
    → IsCanonical k
    → Later datastore t₀ t
    → (finish t).1 ≡ ok ws
    → (InMemory.commit_conditional now add ws store).1 ≡ ok r
    → version_of k store ≡ v
unfolding finish
finish-version_of datastore t₀ t now add ws store r k v e n c later f committed =
    let (checks, g, joined) = >>=-eq-ok (verifications t.read_versions t.written) _ f in
    let held = (commit_conditional-ok now add ws store r committed).0 in
    let guarded : Has (Guards k v) ws =
      rw (← ok_inj joined)
        (finish-Guards t checks k v (Later-IsKept datastore k v t₀ t e n later) g c) in
    let (w, held_w) = All-Has (Guards k v) ws held guarded in
    eq_version_of (version_of k store) v (
      subst (λ p. check_version (version_of k store) p ≡ ok tt) held_w.1.1
        (subst (λ x. check_version (version_of x store) (precondition w) ≡ ok tt) held_w.1.0
          held_w.0))
