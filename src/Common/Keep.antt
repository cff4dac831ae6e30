-- ===== src/Common/Keep.antt =====
-- `keep`, `take` and `drop` with permutations, predicates and sorted lists.
use mathlib.Core.List.{Perm, Permᴰ}
use mathlib.Core.List.Perm
use mathlib.Core.Logic.{∥∥₁_elim}
use Prim.Native.Nat.{ℕ, zero, suc, ◌-◌, ◌≤◌, Ordering}
use Prim.Native.Nat.Ordering.{gt}
use mathlib.Core.Path.{◌≡◌, refl}
use mathlib.Core.Logic.{◌≢◌, inl, inr}
use mathlib.Core.Bool.{Bool, true, false, ◌&&◌}
use mathlib.Core.List.{List, [], ◌∷◌}
use native.Mathlib.Omega.{arith}
use firebase_rs_sdk.Common.Tests.{Bool-cases}
use firebase_rs_sdk.Common.Lists.{All, keep, take, drop, length}
use firebase_rs_sdk.Common.Sort.{IsSorted}

module _ {ℓ} {A : Type ℓ} where
  pub keep-true :
      (p : A → Bool) (x : A) (xs : List A) → p x ≡ true → keep p (x ∷ xs) ≡ x ∷ keep p xs
  keep-true p x xs h = ground arith

  pub keep-false : (p : A → Bool) (x : A) (xs : List A) → p x ≡ false → keep p (x ∷ xs) ≡ keep p xs
  keep-false p x xs h = ground arith

  -- keeping from a list with its first two elements exchanged
  keep-swap : (p : A → Bool) (x y : A) (l : List A) → Perm (keep p (y ∷ x ∷ l)) (keep p (x ∷ y ∷ l))
  keep-swap p x y l = elim (Bool-cases (p x)) [
    | inl e ↦ (elim (Bool-cases (p y)) [
      | inl f ↦
          rw
            (keep-true p x (y ∷ l) e, keep-true p y (x ∷ l) f, keep-true p y l f, keep-true p x l e)
            (Perm.swap x y (keep p l))
      | inr f ↦
          rw
            (
              keep-true p x (y ∷ l) e,
              keep-false p y (x ∷ l) f,
              keep-false p y l f,
              keep-true p x l e,
            )
            (Perm.refl _)
    ])
    | inr e ↦ (elim (Bool-cases (p y)) [
      | inl f ↦
          rw
            (
              keep-false p x (y ∷ l) e,
              keep-true p y (x ∷ l) f,
              keep-true p y l f,
              keep-false p x l e,
            )
            (Perm.refl _)
      | inr f ↦
          rw
            (
              keep-false p x (y ∷ l) e,
              keep-false p y (x ∷ l) f,
              keep-false p y l f,
              keep-false p x l e,
            )
            (Perm.refl _)
    ])
  ]

  keep-cons :
      (p : A → Bool) (x : A) (xs ys : List A)
      → Perm (keep p xs) (keep p ys)
      → Perm (keep p (x ∷ xs)) (keep p (x ∷ ys))
  keep-cons p x xs ys h = elim (Bool-cases (p x)) [
    | inl e ↦ rw (keep-true p x xs e, keep-true p x ys e) (Perm.cons x h)
    | inr e ↦ rw (keep-false p x xs e, keep-false p x ys e) h
  ]

  keep-Permᴰ : (p : A → Bool) {xs ys : List A} → Permᴰ xs ys → Perm (keep p xs) (keep p ys)
  keep-Permᴰ p Permᴰ.nil = Perm.refl []
  keep-Permᴰ p (Permᴰ.cons {b = b} {l₁} {l₂} e h) = rw e (keep-cons p b l₁ l₂ (keep-Permᴰ p h))
  keep-Permᴰ p (Permᴰ.swap {a' = a'} {b' = b'} {l = l} e f) = rw (e, f) (keep-swap p a' b' l)
  keep-Permᴰ p (Permᴰ.trans h k) = Perm.trans (keep-Permᴰ p h) (keep-Permᴰ p k)

  pub keep-Perm : (p : A → Bool) {xs ys : List A} → Perm xs ys → Perm (keep p xs) (keep p ys)
  keep-Perm p h = ∥∥₁_elim h (hlevel) (λ d. keep-Permᴰ p d)

  pub keep-keep : (p q : A → Bool) (xs : List A) → keep p (keep q xs) ≡ keep (λ x. q x && p x) xs
  keep-keep p q [] = refl
  keep-keep p q (x ∷ xs) = ground (arith, keep-keep p q xs)

  module _ {κ} (P : A → Type κ) where
    pub keep-All : (p : A → Bool) (xs : List A) → All P xs → All P (keep p xs)
    keep-All p [] h = tt
    keep-All p (x ∷ xs) h = elim (Bool-cases (p x)) [
      | inl e ↦ rw (keep-true p x xs e) ((h.0, keep-All p xs h.1))
      | inr e ↦ rw (keep-false p x xs e) (keep-All p xs h.1)
    ]

    pub take-All : (n : ℕ) (xs : List A) → All P xs → All P (take n xs)
    take-All zero xs h = tt
    take-All (suc n) [] h = tt
    take-All (suc n) (x ∷ xs) h = (h.0, take-All n xs h.1)

    pub drop-All : (n : ℕ) (xs : List A) → All P xs → All P (drop n xs)
    drop-All zero xs h = h
    drop-All (suc n) [] h = tt
    drop-All (suc n) (x ∷ xs) h = drop-All n xs h.1

  pub keep-kept : (p : A → Bool) (xs : List A) → All (λ x. p x ≡ true) (keep p xs)
  keep-kept p [] = tt
  keep-kept p (x ∷ xs) = elim (Bool-cases (p x)) [
    | inl e ↦ rw (keep-true p x xs e) ((e, keep-kept p xs))
    | inr e ↦ rw (keep-false p x xs e) (keep-kept p xs)
  ]

  pub length-take : (n : ℕ) (xs : List A) → length (take n xs) ≤ n
  length-take zero xs = omega arith
  length-take (suc n) [] = omega arith
  length-take (suc n) (x ∷ xs) = omega (arith, length-take n xs)

  pub length-drop : (n : ℕ) (xs : List A) → length (drop n xs) ≡ length xs - n
  length-drop zero xs = omega arith
  length-drop (suc n) [] = omega arith
  length-drop (suc n) (x ∷ xs) = omega (arith, length-drop n xs)

  -- none is above a later one
  abbrev pub Pairwise : (A → A → Ordering) → List A → Type ℓ
  Pairwise cmp [] = Unit
  Pairwise cmp (x ∷ xs) = All (λ y. cmp x y ≢ gt) xs × Pairwise cmp xs

  module _ (cmp : A → A → Ordering) where
    pub drop-Pairwise : (n : ℕ) (xs : List A) → Pairwise cmp xs → Pairwise cmp (drop n xs)
    drop-Pairwise zero xs h = h
    drop-Pairwise (suc n) [] h = tt
    drop-Pairwise (suc n) (x ∷ xs) h = drop-Pairwise n xs h.1

    pub take-Pairwise : (n : ℕ) (xs : List A) → Pairwise cmp xs → Pairwise cmp (take n xs)
    take-Pairwise zero xs h = tt
    take-Pairwise (suc n) [] h = tt
    take-Pairwise (suc n) (x ∷ xs) h =
        (take-All (λ y. cmp x y ≢ gt) n xs h.0, take-Pairwise n xs h.1)

    pub keep-Pairwise : (p : A → Bool) (xs : List A) → Pairwise cmp xs → Pairwise cmp (keep p xs)
    keep-Pairwise p [] h = tt
    keep-Pairwise p (x ∷ xs) h = elim (Bool-cases (p x)) [
      | inl e ↦
          rw (keep-true p x xs e) ((keep-All (λ y. cmp x y ≢ gt) p xs h.0, keep-Pairwise p xs h.1))
      | inr e ↦ rw (keep-false p x xs e) (keep-Pairwise p xs h.1)
    ]

    module _ {κ} (P : A → Type κ)
        (trans : (a b c : A) → P a → P b → P c → cmp a b ≢ gt → cmp b c ≢ gt → cmp a c ≢ gt) where
      above :
          (x y : A) (zs : List A)
          → P x
          → P y
          → All P zs
          → cmp x y ≢ gt
          → All (λ z. cmp y z ≢ gt) zs
          → All (λ z. cmp x z ≢ gt) zs
      above x y [] px py ps h hs = tt
      above x y (z ∷ zs) px py ps h hs =
          (trans x y z px py ps.0 h hs.0, above x y zs px py ps.1 h hs.1)

      -- where the comparison is transitive, a sorted list has no element above any later one
      pub IsSorted-Pairwise : (xs : List A) → All P xs → IsSorted cmp xs → Pairwise cmp xs
      IsSorted-Pairwise [] ps h = tt
      IsSorted-Pairwise (x ∷ []) ps h = (tt, tt)
      IsSorted-Pairwise (x ∷ y ∷ ys) ps h =
          let rest = IsSorted-Pairwise (y ∷ ys) ps.1 h.1 in
          ((h.0, above x y ys ps.0 ps.1.0 ps.1.1 h.0 rest.0), rest)

  -- what held before a test, and the test, hold of what it keeps
  pub keep-and :
      (q p : A → Bool) (xs : List A)
      → All (λ x. q x ≡ true) xs
      → All (λ x. (q x && p x) ≡ true) (keep p xs)
  keep-and q p [] h = tt
  keep-and q p (x ∷ xs) h = elim (Bool-cases (p x)) [
    | inl e ↦ rw (keep-true p x xs e) ((ground (arith, h.0), keep-and q p xs h.1))
    | inr e ↦ rw (keep-false p x xs e) (keep-and q p xs h.1)
  ]

  pub keep-always : (p : A → Bool) (xs : List A) → ((x : A) → p x ≡ true) → keep p xs ≡ xs
  keep-always p [] h = refl
  keep-always p (x ∷ xs) h = rw (keep-true p x xs (h x), keep-always p xs h) refl

-- the first list is the second with elements left out
pub data Part {ℓ} {A : Type ℓ} : List A → List A → Type ℓ where
  part_nil : Part [] []
  part_skip : {x : A} {xs ys : List A} → Part xs ys → Part xs (x ∷ ys)
  part_keep : {x : A} {xs ys : List A} → Part xs ys → Part (x ∷ xs) (x ∷ ys)

module _ {ℓ} {A : Type ℓ} where
  pub Part-refl : (xs : List A) → Part xs xs
  Part-refl [] = part_nil
  Part-refl (x ∷ xs) = part_keep (Part-refl xs)

  Part-nil : (xs : List A) → Part [] xs
  Part-nil [] = part_nil
  Part-nil (x ∷ xs) = part_skip (Part-nil xs)

  pub take-Part : (n : ℕ) (xs : List A) → Part (take n xs) xs
  take-Part zero xs = Part-nil xs
  take-Part (suc n) [] = part_nil
  take-Part (suc n) (x ∷ xs) = part_keep (take-Part n xs)

  pub drop-Part : (n : ℕ) (xs : List A) → Part (drop n xs) xs
  drop-Part zero xs = Part-refl xs
  drop-Part (suc n) [] = part_nil
  drop-Part (suc n) (x ∷ xs) = part_skip (drop-Part n xs)
