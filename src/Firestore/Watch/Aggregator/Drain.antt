-- ===== src/Firestore/Watch/Aggregator/Drain.antt =====
-- What `drain` of remote/watch_change_aggregator.rs takes.
use firebase_rs_sdk.Common.{◌≡◌, refl, arith, true, Option, none, some, List, [], ◌∷◌}
use firebase_rs_sdk.Common.BTreeMap
use firebase_rs_sdk.Common.BTreeMap.{BTreeMap, BTreeSet}
use firebase_rs_sdk.Common.Int.{ℤ, int_ord}
use firebase_rs_sdk.Common.Ordered.{IsBelow, IsOrdered, get_below}
use firebase_rs_sdk.Firestore.Model.DocumentKey.{DocumentKey}
use firebase_rs_sdk.Firestore.Watch.{TargetChange, is_nil}
use firebase_rs_sdk.Firestore.Watch.TargetState.{TargetState, take_changes}
use firebase_rs_sdk.Firestore.Watch.Aggregator.{taken, emptied}

taken-IsBelow :
    (t : ℤ) (states : BTreeMap ℤ TargetState) → IsBelow t states → IsBelow t (taken states)
unfolding taken
taken-IsBelow t [] h = tt
taken-IsBelow t ((j, s) ∷ states) h = ground (arith, h.0, taken-IsBelow t states h.1)

pub get-taken :
    (t : ℤ) (states : BTreeMap ℤ TargetState)
    → IsOrdered states
    → BTreeMap.get t (taken states)
      ≡ (elim (BTreeMap.get t states) [ none ↦ none | some s ↦ (take_changes s).0 ])
unfolding taken BTreeMap.get
get-taken t [] h = refl
get-taken t ((j, s) ∷ states) h = ground (
  arith,
  get-taken t states h.1,
  int_ord.eq_of_cmp t j,
  get_below j (taken states) (taken-IsBelow j states h.0),
)

pub get-emptied :
    (t : ℤ) (states : BTreeMap ℤ TargetState)
    → BTreeMap.get t (emptied states)
      ≡ (elim (BTreeMap.get t states) [ none ↦ none | some s ↦ some (take_changes s).1 ])
unfolding emptied BTreeMap.get
get-emptied t [] = refl
get-emptied t ((j, s) ∷ states) = ground (arith, get-emptied t states)

nil_of_is_nil {ℓ} : {A : Type ℓ} (xs : List A) → is_nil xs ≡ true → xs ≡ []
nil_of_is_nil [] h = refl
nil_of_is_nil (x ∷ xs) h = cc h

-- what an event says was removed, of the change of a target that it may have
abbrev pub removed_in : Option TargetChange → BTreeSet DocumentKey
removed_in change = elim change [ none ↦ [] | some c ↦ c.removed_documents ]

pub take_changes-removed : (s : TargetState) → removed_in (take_changes s).0 ≡ s.removed
unfolding take_changes
take_changes-removed s = ground (arith, nil_of_is_nil s.removed)

emptied-IsBelow :
    (t : ℤ) (states : BTreeMap ℤ TargetState) → IsBelow t states → IsBelow t (emptied states)
unfolding emptied
emptied-IsBelow t [] h = tt
emptied-IsBelow t ((j, s) ∷ states) h = (h.0, emptied-IsBelow t states h.1)

pub emptied-IsOrdered :
    (states : BTreeMap ℤ TargetState) → IsOrdered states → IsOrdered (emptied states)
unfolding emptied
emptied-IsOrdered [] h = tt
emptied-IsOrdered ((j, s) ∷ states) h = (emptied-IsBelow j states h.0, emptied-IsOrdered states h.1)
