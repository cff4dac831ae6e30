-- ===== src/Firestore/Watch/Changes/Laws.antt =====
-- What the changes of `document_changes` in api/listener.rs say.
use firebase_rs_sdk.Common.{
  ℕ, suc, ◌≡◌, ◌↔◌, ◌∙◌, refl, sym, ap, arith, true, Option, none, some, List, [], ◌∷◌, ◌++◌, All,
  Has, inl, inr, Bool-cases, Option-cases,
}
use firebase_rs_sdk.Common.BTreeMap
use firebase_rs_sdk.Common.BTreeMap.{BTreeMap, BTreeSet, get-insert}
use firebase_rs_sdk.Common.Int.{int_ord}
use firebase_rs_sdk.Common.Ord.{◌==◌, nat_ord, eq_iff}
use firebase_rs_sdk.Firestore.Model.DocumentKey.{DocumentKey, key_ord}
use firebase_rs_sdk.Firestore.Model.Timestamp.{Timestamp}
use firebase_rs_sdk.Firestore.Snapshot.{DocumentSnapshot}
use firebase_rs_sdk.Firestore.Value.Equality.{eq_version}
use firebase_rs_sdk.Firestore.Watch.Changes.{
  QueryDocumentChange, indices, present_changes, key_set, absent_changes, document_changes,
}

eq_version_iff : (a b : Option Timestamp) → (eq_version a b ≡ true) ↔ (a ≡ b)
eq_version_iff none none = (λ _. refl, λ _. refl)
eq_version_iff none (some b) = (λ h. cc h, λ h. cc h)
eq_version_iff (some a) none = (λ h. cc h, λ h. cc h)
eq_version_iff (some a) (some b) = (
  λ h. ground (arith, h, (eq_iff a.seconds b.seconds).0, (eq_iff a.nanos b.nanos).0),
  λ e. ground (arith, (eq_iff a.seconds b.seconds).1, (eq_iff a.nanos b.nanos).1),
)

some_inj {ℓ} : {A : Type ℓ} {a b : A} → some a ≡ some b → a ≡ b
some_inj e = cc

-- a document that had the same version before
abbrev pub IsUnchanged : BTreeMap DocumentKey (Option Timestamp) → DocumentSnapshot → Type 0
IsUnchanged versions d = BTreeMap.get d.key versions ≡ some d.update_time

-- the key of one of some documents
abbrev pub IsKeyOf : List DocumentSnapshot → DocumentSnapshot → Type 0
IsKeyOf ds d = Has (λ e. e.key ≡ d.key) ds

present_changes-cons :
    (versions : BTreeMap DocumentKey (Option Timestamp)) (old : BTreeMap DocumentKey ℕ) (i : ℕ)
    (d : DocumentSnapshot) (ds : List DocumentSnapshot)
    → (present_changes versions old i (d ∷ ds) ≡ [])
      ↔ (IsUnchanged versions d × (present_changes versions old (suc i) ds ≡ []))
unfolding present_changes
present_changes-cons versions old i d ds = elim (Option-cases (BTreeMap.get d.key versions)) [
  | inl e ↦ (λ h. absurd (ground (arith, e, h)), λ h. absurd (ground (arith, e, h.0)))
  | inr (v, e) ↦ (elim (Bool-cases (eq_version v d.update_time)) [
    | inl f ↦ (
      λ h. ((e ∙ ap some ((eq_version_iff v d.update_time).0 f)), ground (arith, e, f, h)),
      λ h. ground (arith, e, f, h.1),
    )
    | inr f ↦ (
      λ h. absurd (ground (arith, e, f, h)),
      λ h. absurd (ground (arith, f, (eq_version_iff v d.update_time).1 (some_inj (sym e ∙ h.0)))),
    )
  ])
]

present_changes-nil :
    (versions : BTreeMap DocumentKey (Option Timestamp)) (old : BTreeMap DocumentKey ℕ) (i : ℕ)
    (ds : List DocumentSnapshot)
    → (present_changes versions old i ds ≡ []) ↔ All (IsUnchanged versions) ds
unfolding present_changes
present_changes-nil versions old i [] = (λ _. tt, λ _. refl)
present_changes-nil versions old i (d ∷ ds) =
    let (to, from) = present_changes-cons versions old i d ds in
    let (to', from') = present_changes-nil versions old (suc i) ds in
    (λ h. ((to h).0, to' (to h).1), λ h. from (h.0, from' h.1))

contains-key_set :
    (d : DocumentSnapshot) (ds : List DocumentSnapshot)
    → (BTreeMap.contains_key d.key (key_set ds) ≡ true) ↔ IsKeyOf ds d
unfolding key_set BTreeMap.get
contains-key_set d [] = (λ h. cc h, λ h. absurd h)
contains-key_set d (e ∷ es) = (
  λ h. elim (Bool-cases (d.key == e.key)) [
    | inl f ↦ inl (sym (key_ord.eq_of_cmp d.key e.key (ground (arith, f))))
    | inr f ↦
        inr
          ((contains-key_set d es).0 (ground (arith, get-insert d.key e.key tt (key_set es), f, h)))
  ],
  λ h. elim h [
    | inl same ↦
        ground (arith, get-insert d.key e.key tt (key_set es), (eq_iff d.key e.key).1 (sym same))
    | inr later ↦
        ground (arith, get-insert d.key e.key tt (key_set es), (contains-key_set d es).1 later)
  ],
)

absent_changes-nil :
    (current : List DocumentSnapshot) (i : ℕ) (previous : List DocumentSnapshot)
    → (absent_changes (key_set current) i previous ≡ []) ↔ All (IsKeyOf current) previous
unfolding absent_changes
absent_changes-nil current i [] = (λ _. tt, λ _. refl)
absent_changes-nil current i (d ∷ ds) =
    let (to, from) = contains-key_set d current in
    let (to', from') = absent_changes-nil current (suc i) ds in
    (
      λ h. elim (Bool-cases (BTreeMap.contains_key d.key (key_set current))) [
        | inl e ↦ (to e, to' (ground (arith, e, h)))
        | inr e ↦ absurd (ground (arith, e, h))
      ],
      λ h. ground (arith, from h.0, from' h.1),
    )

append-nil_iff : (xs ys : List QueryDocumentChange) → (xs ++ ys ≡ []) ↔ ((xs ≡ []) × (ys ≡ []))
append-nil_iff [] ys = (λ h. (refl, h), λ h. h.1)
append-nil_iff (x ∷ xs) ys = (λ h. cc h, λ h. cc (h.0))

-- A listener's diff is empty just when nothing changed: every current document had its version before,
-- and every document of the previous snapshot is still there.
pub document_changes-nil :
    (versions : BTreeMap DocumentKey (Option Timestamp)) (previous current : List DocumentSnapshot)
    → (document_changes versions (some previous) current ≡ [])
      ↔ (All (IsUnchanged versions) current × All (IsKeyOf current) previous)
unfolding document_changes
document_changes-nil versions previous current =
    let (to, from) = append-nil_iff _ _ in
    let (to', from') = present_changes-nil versions (indices 0 previous []) 0 current in
    let (to'', from'') = absent_changes-nil current 0 previous in
    (λ h. (to' (to h).0, to'' (to h).1), λ h. from (from' h.0, from'' h.1))
