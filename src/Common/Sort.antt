-- ===== src/Common/Sort.antt =====
-- `slice::sort_by`: a stable sort. Where the comparison is a total order, stability leaves one
-- possible result, which an insertion sort computes. Where it is not one, the source's sort promises
-- only a permutation.
use mathlib.Core.List.{Perm}
use mathlib.Core.List.Perm
use Prim.Native.Nat.{Ordering}
use Prim.Native.Nat.Ordering.{lt, eq, gt}
use mathlib.Core.Path.{◌≡◌, refl}
use mathlib.Core.Logic.{◌≢◌, ◌⊎◌, inl, inr}
use mathlib.Core.List.{List, [], ◌∷◌}
use native.Mathlib.Omega.{arith}
use firebase_rs_sdk.Common.Lists.{All}
use firebase_rs_sdk.Common.Ord.{reverse}

gt-cases : (o : Ordering) → (o ≡ gt) ⊎ (o ≢ gt)
gt-cases lt = inr (λ e. cc e)
gt-cases eq = inr (λ e. cc e)
gt-cases gt = inl refl

module _ {ℓ} {A : Type ℓ} where
  -- puts `x`, which stood before all of the list, in front of what it is not above
  unfoldable pub insert_by : (A → A → Ordering) → A → List A → List A
  insert_by cmp x [] = x ∷ []
  insert_by cmp x (y ∷ ys) =
      let later = y ∷ insert_by cmp x ys in elim (cmp x y) [ gt ↦ later | _ ↦ x ∷ y ∷ ys ]

  unfoldable pub sort_by : (A → A → Ordering) → List A → List A
  unfolding insert_by
  sort_by cmp [] = []
  sort_by cmp (x ∷ xs) = insert_by cmp x (sort_by cmp xs)

  -- no element is above the next
  abbrev pub IsSorted : (A → A → Ordering) → List A → Type 0
  IsSorted cmp [] = Unit
  IsSorted cmp (x ∷ []) = Unit
  IsSorted cmp (x ∷ y ∷ ys) = (cmp x y ≢ gt) × IsSorted cmp (y ∷ ys)

  insert_by-gt :
      (cmp : A → A → Ordering) (x y : A) (ys : List A)
      → cmp x y ≡ gt
      → insert_by cmp x (y ∷ ys) ≡ y ∷ insert_by cmp x ys
  unfolding insert_by
  insert_by-gt cmp x y ys h = ground arith

  insert_by-ne-gt :
      (cmp : A → A → Ordering) (x y : A) (ys : List A)
      → cmp x y ≢ gt
      → insert_by cmp x (y ∷ ys) ≡ x ∷ y ∷ ys
  unfolding insert_by
  insert_by-ne-gt cmp x y ys h = ground arith

  insert_by-perm :
      (cmp : A → A → Ordering) (x : A) (ys : List A) → Perm (insert_by cmp x ys) (x ∷ ys)
  insert_by-perm cmp x [] = unfold insert_by in Perm.refl (x ∷ [])
  insert_by-perm cmp x (y ∷ ys) = elim (gt-cases (cmp x y)) [
    | inl e ↦
        rw (insert_by-gt cmp x y ys e)
          (Perm.trans (Perm.cons y (insert_by-perm cmp x ys)) (Perm.swap x y ys))
    | inr e ↦ rw (insert_by-ne-gt cmp x y ys e) (Perm.refl _)
  ]

  pub sort_by-perm : (cmp : A → A → Ordering) (xs : List A) → Perm (sort_by cmp xs) xs
  unfolding sort_by
  sort_by-perm cmp [] = Perm.refl []
  sort_by-perm cmp (x ∷ xs) =
      Perm.trans (insert_by-perm cmp x (sort_by cmp xs)) (Perm.cons x (sort_by-perm cmp xs))

  module _ (cmp : A → A → Ordering) (swap : (x y : A) → cmp y x ≡ reverse (cmp x y)) where
    insert_by-IsSorted : (x : A) (ys : List A) → IsSorted cmp ys → IsSorted cmp (insert_by cmp x ys)
    unfolding insert_by
    insert_by-IsSorted x [] h = tt
    insert_by-IsSorted x (y ∷ []) h = ground (arith, swap x y)
    insert_by-IsSorted x (y ∷ z ∷ zs) h =
        ground (arith, swap x y, swap x z, insert_by-IsSorted x (z ∷ zs) h.1)

    pub sort_by-IsSorted : (xs : List A) → IsSorted cmp (sort_by cmp xs)
    unfolding sort_by
    sort_by-IsSorted [] = tt
    sort_by-IsSorted (x ∷ xs) = insert_by-IsSorted x (sort_by cmp xs) (sort_by-IsSorted xs)

  module _ {κ} (P : A → Type κ) where
    insert_by-All :
        (cmp : A → A → Ordering) (x : A) (ys : List A) → P x → All P ys → All P (insert_by cmp x ys)
    unfolding insert_by
    insert_by-All cmp x [] p h = (p, tt)
    insert_by-All cmp x (y ∷ ys) p h = ground (arith, insert_by-All cmp x ys p h.1)

    pub sort_by-All : (cmp : A → A → Ordering) (xs : List A) → All P xs → All P (sort_by cmp xs)
    unfolding sort_by
    sort_by-All cmp [] h = tt
    sort_by-All cmp (x ∷ xs) h = insert_by-All cmp x (sort_by cmp xs) h.0 (sort_by-All cmp xs h.1)
