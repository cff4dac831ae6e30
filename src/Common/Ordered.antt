-- ===== src/Common/Ordered.antt =====
-- Maps in key order, and the loops over them: each key comes up once.
use firebase_rs_sdk.Common.{none, [], ◌∷◌, ◌≡◌, refl, arith}
use firebase_rs_sdk.Common.Ord.{Ord, ◌≺◌}
use firebase_rs_sdk.Common.BTreeMap.{BTreeMap, get, insert}

module _ {ℓ κ} {K : Type ℓ} {V : Type κ} ⦃o : Ord K⦄ where
  -- `k` is below every key of a map
  abbrev pub IsBelow : K → BTreeMap K V → Type 0
  IsBelow k [] = Unit
  IsBelow k ((j, _) ∷ m) = (k ≺ j) × IsBelow k m

  abbrev pub IsOrdered : BTreeMap K V → Type 0
  IsOrdered [] = Unit
  IsOrdered ((k, _) ∷ m) = IsBelow k m × IsOrdered m

  pub get_below : (k : K) (m : BTreeMap K V) → IsBelow k m → get k m ≡ none
  unfolding get
  get_below k [] h = refl
  get_below k ((j, v) ∷ m) h = ground (arith, h.0, get_below k m h.1)

  IsBelow-trans : (i k : K) (m : BTreeMap K V) → i ≺ k → IsBelow k m → IsBelow i m
  IsBelow-trans i k [] p h = tt
  IsBelow-trans i k ((j, _) ∷ m) p h = (o.lt_trans i k j p h.0, IsBelow-trans i k m p h.1)

  insert-IsBelow :
      (i k : K) (v : V) (m : BTreeMap K V) → i ≺ k → IsBelow i m → IsBelow i (insert k v m)
  unfolding insert
  insert-IsBelow i k v [] p h = (p, tt)
  insert-IsBelow i k v ((j, w) ∷ m) p h = ground (arith, p, h.0, h.1, insert-IsBelow i k v m p h.1)

  pub insert-IsOrdered : (k : K) (v : V) (m : BTreeMap K V) → IsOrdered m → IsOrdered (insert k v m)
  unfolding insert
  insert-IsOrdered k v [] h = (tt, tt)
  insert-IsOrdered k v ((j, w) ∷ m) h = ground (
    arith,
    h.0,
    h.1,
    o.cmp_swap k j,
    o.eq_of_cmp k j,
    IsBelow-trans k j m,
    insert-IsBelow j k v m,
    insert-IsOrdered k v m h.1,
  )
