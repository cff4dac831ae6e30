-- ===== src/Firestore/InMemory/Commits.antt =====
-- The commits of remote/datastore/in_memory.rs.
use firebase_rs_sdk.Common.{
  none, List, [], ◌∷◌, ◌≡◌, ◌≢◌, refl, ap, sym, arith, inl, inr, All, length,
}
use mathlib.Core.Path.{subst}
use firebase_rs_sdk.Common.Ord.{nat_ord, list_ord}
use firebase_rs_sdk.Common.BTreeMap
use firebase_rs_sdk.Common.BTreeMap.{get-insert, get-remove}
use firebase_rs_sdk.Firestore.Error.{
  result-cases, err-ne-ok, FirestoreErrorCode, FirestoreResult, ok, err, not_found, >>=-eq-ok,
  ok_inj,
}
use firebase_rs_sdk.Firestore.F64.{F64}
use firebase_rs_sdk.Firestore.Model.DocumentKey.{DocumentKey}
use firebase_rs_sdk.Firestore.Model.ResourcePath.{canonical_string}
use firebase_rs_sdk.Firestore.Model.Timestamp.{Timestamp}
use firebase_rs_sdk.Firestore.InMemory.Transforms.{apply_field_transforms}
use firebase_rs_sdk.Firestore.Value.{Fields}
use firebase_rs_sdk.Firestore.Datastore.{
  WriteOperation, set, update, write_key, WriteResultInfo, CommitResult, Precondition,
  ConditionalWrite, write, verify, conditional_key, precondition,
}
use firebase_rs_sdk.Firestore.InMemory.{
  InMemoryDatastore, version_of, set_fields, put, bump_version, apply_set, apply_update,
  apply_write, commit, apply_all, check_all, latest, finish, check_precondition, commit_conditional,
  add_result,
}
use firebase_rs_sdk.Firestore.InMemory.Laws.{IsConsistent, eqb_of_ne, apply_write-IsConsistent}

finish-ok :
    (m : InMemoryDatastore × FirestoreResult (List WriteResultInfo)) (r : CommitResult)
    → (finish m).1 ≡ ok r
    → (rs : List WriteResultInfo) × (m.1 ≡ ok rs) × (r.write_results ≡ rs)
finish-ok m r h =
    let (rs, e, f) = >>=-eq-ok m.1 _ h in (rs, e, ap (λ r. r.write_results) (sym (ok_inj f)))

module _ (now : Timestamp) (add : F64 → F64 → F64) where
  commit-ok :
      (w : WriteOperation) (ws : List WriteOperation) (store next : InMemoryDatastore)
      → apply_write now add w store ≡ ok next
      → commit now add (w ∷ ws) store ≡ commit now add ws next
  unfolding commit
  commit-ok w ws store next e = rw (commit, e) refl

  commit-err :
      (w : WriteOperation) (ws : List WriteOperation) (store : InMemoryDatastore)
      (c : FirestoreErrorCode)
      → apply_write now add w store ≡ err c
      → commit now add (w ∷ ws) store ≡ (store, err c)
  unfolding commit
  commit-err w ws store c e = rw (commit, e) refl

  -- A commit, also one that fails half-way, keeps documents and versions in step: a path has a
  -- version afterwards just when it has a document, if that was so before.
  pub commit-IsConsistent :
      (ws : List WriteOperation) (store : InMemoryDatastore)
      → IsConsistent store
      → IsConsistent (commit now add ws store).0
  commit-IsConsistent [] store c = unfold commit in c
  commit-IsConsistent (w ∷ ws) store c = elim (result-cases (apply_write now add w store)) [
    | inl (next, e) ↦
        subst (λ r. IsConsistent r.0) (sym (commit-ok w ws store next e))
          (commit-IsConsistent ws next (apply_write-IsConsistent now add w store next c e))
    | inr (code, e) ↦ subst (λ r. IsConsistent r.0) (sym (commit-err w ws store code e)) c
  ]

  abbrev info : WriteOperation → InMemoryDatastore → WriteResultInfo
  info w next = record { update_time = version_of (canonical_string (write_key w).path) next }

  apply_all-ok :
      (w : WriteOperation) (p : Precondition) (ws : List ConditionalWrite)
      (store next : InMemoryDatastore)
      → apply_write now add w store ≡ ok next
      → apply_all now add (write w p ∷ ws) store
        ≡ add_result now add (info w next) (apply_all now add ws next)
  unfolding apply_all
  apply_all-ok w p ws store next e = rw (apply_all, e) refl

  apply_all-err :
      (w : WriteOperation) (p : Precondition) (ws : List ConditionalWrite)
      (store : InMemoryDatastore) (c : FirestoreErrorCode)
      → apply_write now add w store ≡ err c
      → apply_all now add (write w p ∷ ws) store ≡ (store, err c)
  unfolding apply_all
  apply_all-err w p ws store c e = rw (apply_all, e) refl

  verified :
      (k : DocumentKey) (p : Precondition) (ws : List ConditionalWrite) (store : InMemoryDatastore)
      → apply_all now add (verify k p ∷ ws) store
        ≡ add_result now add (record { update_time = none }) (apply_all now add ws store)
  unfolding apply_all
  verified k p ws store = refl

  apply_all-IsConsistent :
      (ws : List ConditionalWrite) (store : InMemoryDatastore)
      → IsConsistent store
      → IsConsistent (apply_all now add ws store).0
  apply_all-IsConsistent [] store c = unfold apply_all in c
  apply_all-IsConsistent (write w p ∷ ws) store c =
      elim (result-cases (apply_write now add w store)) [
        | inl (next, e) ↦
            subst (λ r. IsConsistent r.0) (sym (apply_all-ok w p ws store next e))
              (apply_all-IsConsistent ws next (apply_write-IsConsistent now add w store next c e))
        | inr (code, e) ↦ subst (λ r. IsConsistent r.0) (sym (apply_all-err w p ws store code e)) c
      ]
  apply_all-IsConsistent (verify k p ∷ ws) store c =
      subst (λ r. IsConsistent r.0) (sym (verified k p ws store))
        (apply_all-IsConsistent ws store c)

  checked :
      (ws : List ConditionalWrite) (store : InMemoryDatastore) (u : Unit {0})
      → check_all now add ws store ≡ ok u
      → commit_conditional now add ws store ≡ finish (apply_all now add ws store)
  unfolding commit_conditional latest
  checked ws store u e = rw (commit_conditional, e) refl

  refused :
      (ws : List ConditionalWrite) (store : InMemoryDatastore) (c : FirestoreErrorCode)
      → check_all now add ws store ≡ err c
      → commit_conditional now add ws store ≡ (store, err c)
  unfolding commit_conditional
  refused ws store c e = rw (commit_conditional, e) refl

  -- A conditional commit, whatever it returns, keeps documents and versions in step: a path has a
  -- version afterwards just when it has a document, if that was so before.
  pub commit_conditional-IsConsistent :
      (ws : List ConditionalWrite) (store : InMemoryDatastore)
      → IsConsistent store
      → IsConsistent (commit_conditional now add ws store).0
  commit_conditional-IsConsistent ws store c = elim (result-cases (check_all now add ws store)) [
    | inl (u, e) ↦
        subst (λ r. IsConsistent r.0) (sym (checked ws store u e))
          (apply_all-IsConsistent ws store c)
    | inr (code, e) ↦ subst (λ r. IsConsistent r.0) (sym (refused ws store code e)) c
  ]

  check_all-All :
      (ws : List ConditionalWrite) (store : InMemoryDatastore) (u : Unit {0})
      → check_all now add ws store ≡ ok u
      → All (λ w. check_precondition (conditional_key w) (precondition w) store ≡ ok tt) ws
  unfolding check_all
  check_all-All [] store u h = tt
  check_all-All (w ∷ ws) store u h =
      let (_, e, h') =
        >>=-eq-ok (check_precondition (conditional_key w) (precondition w) store) _ h in
      (e, check_all-All ws store u h')

  add_result-ok :
      (r : WriteResultInfo) (m : InMemoryDatastore × FirestoreResult (List WriteResultInfo))
      (rs : List WriteResultInfo)
      → (add_result now add r m).1 ≡ ok rs
      → (qs : List WriteResultInfo) × (m.1 ≡ ok qs) × (rs ≡ r ∷ qs)
  add_result-ok r (store, m) rs h =
      let (qs, e, f) = >>=-eq-ok m (λ qs. ok (r ∷ qs)) h in (qs, e, sym (ok_inj f))

  apply_all-length :
      (ws : List ConditionalWrite) (store : InMemoryDatastore) (rs : List WriteResultInfo)
      → (apply_all now add ws store).1 ≡ ok rs
      → length rs ≡ length ws
  apply_all-length [] store rs h = unfold apply_all in rw (← ok_inj h) refl
  apply_all-length (write w p ∷ ws) store rs h = elim (result-cases (apply_write now add w store)) [
    | inl (next, e) ↦
        let (qs, f, g) =
          add_result-ok (info w next) (apply_all now add ws next) rs
            (subst (λ r. r.1 ≡ ok rs) (apply_all-ok w p ws store next e) h) in
        rw g (omega (arith, apply_all-length ws next qs f))
    | inr (code, e) ↦
        absurd (err-ne-ok (subst (λ r. r.1 ≡ ok rs) (apply_all-err w p ws store code e) h))
  ]
  apply_all-length (verify k p ∷ ws) store rs h =
      let (qs, f, g) =
        add_result-ok (record { update_time = none }) (apply_all now add ws store) rs
          (subst (λ r. r.1 ≡ ok rs) (verified k p ws store) h) in
      rw g (omega (arith, apply_all-length ws store qs f))

  -- When a conditional commit succeeds, every precondition held of the store as it was before the
  -- commit, and there is one result for each write.
  pub commit_conditional-ok :
      (ws : List ConditionalWrite) (store : InMemoryDatastore) (r : CommitResult)
      → (commit_conditional now add ws store).1 ≡ ok r
      → All (λ w. check_precondition (conditional_key w) (precondition w) store ≡ ok tt) ws
        × (length r.write_results ≡ length ws)
  commit_conditional-ok ws store r h = elim (result-cases (check_all now add ws store)) [
    | inl (u, e) ↦
        let (rs, f, g) =
          finish-ok (apply_all now add ws store) r
            (subst (λ m. m.1 ≡ ok r) (checked ws store u e) h) in
        (check_all-All ws store u e, rw g (apply_all-length ws store rs f))
    | inr (code, e) ↦ absurd (err-ne-ok (subst (λ m. m.1 ≡ ok r) (refused ws store code e) h))
  ]

  -- A conditional commit is not atomic. A set of one document with an update of another that does
  -- not exist passes the preconditions, fails as not found, and leaves the first document written.
  pub commit_conditional-not-atomic :
      (a b : DocumentKey) (fields : Fields) (store : InMemoryDatastore)
      → canonical_string a.path ≢ canonical_string b.path
      → BTreeMap.get (canonical_string b.path) store.documents ≡ none
      → commit_conditional now add
          (write (set a fields none []) Precondition.none
            ∷ write (update b fields [] []) Precondition.none
            ∷ [])
          store
        ≡ (put (canonical_string a.path) fields store, err not_found)
  unfolding commit_conditional check_all apply_all apply_write apply_set apply_update put
      bump_version apply_field_transforms set_fields
  commit_conditional-not-atomic a b fields store n h =
      rw
        (
          get-insert (canonical_string b.path) (canonical_string a.path) fields store.documents,
          eqb_of_ne (canonical_string b.path) (canonical_string a.path) (λ e. n (sym e)),
          h,
        )
        refl

  -- A commit and a conditional commit, whatever they return and also when they fail half-way, keep
  -- documents and versions in step: a path has a version afterwards just when it has a document, if
  -- that was so before.
  pub commits-IsConsistent :
      (ws : List WriteOperation) (cs : List ConditionalWrite) (store : InMemoryDatastore)
      → IsConsistent store
      → IsConsistent (commit now add ws store).0
        × IsConsistent (commit_conditional now add cs store).0
  commits-IsConsistent ws cs store c =
      (commit-IsConsistent ws store c, commit_conditional-IsConsistent cs store c)
