-- ===== src/Common/BTreeMap.antt =====
-- `std::collections::BTreeMap` and `BTreeSet` as association lists in key order. The order is kept by
-- `insert`; `get` and `remove` are right on any list. A `HashMap` whose iteration order cannot show
-- is read as one too.
use Prim.Native.Nat.Ordering.{lt, eq, gt}
use mathlib.Core.Path.{◌≡◌, refl}
use mathlib.Core.Bool.{Bool}
use mathlib.Core.List.{List, [], ◌∷◌}
use mathlib.Core.Option.{Option, none, some}
use native.Mathlib.Omega.{arith}
use firebase_rs_sdk.Common.Tests.{if◌then◌else◌, is_some}
use firebase_rs_sdk.Common.Ord.{Ord, ◌==◌}

abbrev pub BTreeMap {ℓ κ} : Type ℓ → Type κ → Type (ℓ ⊔ κ)
BTreeMap K V = List (K × V)

-- a set: keys with no value
abbrev pub BTreeSet {ℓ} : Type ℓ → Type ℓ
BTreeSet K = BTreeMap K (Unit {0})

module _ {ℓ κ} {K : Type ℓ} {V : Type κ} ⦃o : Ord K⦄ where
  unfoldable pub get : K → BTreeMap K V → Option V
  get k [] = none
  get k ((j, v) ∷ m) = if k == j then some v else get k m

  unfoldable pub insert : K → V → BTreeMap K V → BTreeMap K V
  insert k v [] = (k, v) ∷ []
  insert k v ((j, w) ∷ m) =
      let rest = insert k v m in
      elim (o.cmp k j) [ lt ↦ (k, v) ∷ (j, w) ∷ m | eq ↦ (k, v) ∷ m | gt ↦ (j, w) ∷ rest ]

  unfoldable pub remove : K → BTreeMap K V → BTreeMap K V
  remove k [] = []
  remove k ((j, w) ∷ m) = let rest = remove k m in if k == j then rest else (j, w) ∷ rest

  abbrev pub contains_key : K → BTreeMap K V → Bool
  contains_key k m = is_some (get k m)

  -- entry(k).or_insert(v)
  unfoldable pub or_insert : K → V → BTreeMap K V → BTreeMap K V
  or_insert k v m = if contains_key k m then m else insert k v m

  pub get-insert :
      (j k : K) (v : V) (m : BTreeMap K V)
      → get j (insert k v m) ≡ (if j == k then some v else get j m)
  unfolding get insert
  get-insert j k v [] = refl
  get-insert j k v ((i, w) ∷ m) =
      ground
        (arith, get-insert j k v m, o.eq_of_cmp k i, o.eq_of_cmp j i, o.eq_of_cmp j k, o.cmp_refl j)

  pub get-remove :
      (j k : K) (m : BTreeMap K V) → get j (remove k m) ≡ (if j == k then none else get j m)
  unfolding get remove
  get-remove j k [] = ground arith
  get-remove j k ((i, w) ∷ m) =
      ground
        (arith, get-remove j k m, o.eq_of_cmp k i, o.eq_of_cmp j i, o.eq_of_cmp j k, o.cmp_refl j)

  pub get-or_insert :
      (j k : K) (v : V) (m : BTreeMap K V)
      → get j (or_insert k v m)
        ≡ (if j == k then (if contains_key k m then get k m else some v) else get j m)
  unfolding or_insert
  get-or_insert j k v m = ground (arith, get-insert j k v m, o.eq_of_cmp j k)

pub ruleset map_laws = (get-insert, get-remove, get-or_insert)
