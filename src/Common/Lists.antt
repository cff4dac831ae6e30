-- ===== src/Common/Lists.antt =====
-- Lists measured and indexed by native numbers, and Boolean tests and predicates over lists.
use Prim.Native.Nat.{ℕ, zero, suc, ◌+◌}
use mathlib.Core.Path.{◌≡◌}
use mathlib.Core.Bool.{Bool, true, false, ◌&&◌, ◌||◌}
use mathlib.Core.Logic.{◌⊎◌, inl, inr}
use mathlib.Core.List.{List, [], ◌∷◌, ◌++◌}
use mathlib.Core.Option.{Option, none, some}
use native.Mathlib.Omega.{arith}

module _ {ℓ} {A : Type ℓ} where
  abbrev pub length : List A → ℕ
  length [] = 0
  length (x ∷ xs) = suc (length xs)

  abbrev pub get_elem? : List A → ℕ → Option A
  get_elem? [] i = none
  get_elem? (x ∷ xs) zero = some x
  get_elem? (x ∷ xs) (suc i) = get_elem? xs i

  abbrev pub take : ℕ → List A → List A
  take zero xs = []
  take (suc n) [] = []
  take (suc n) (x ∷ xs) = x ∷ take n xs

  abbrev pub drop : ℕ → List A → List A
  drop zero xs = xs
  drop (suc n) [] = []
  drop (suc n) (x ∷ xs) = drop n xs

  -- the last element
  abbrev pub last : List A → Option A
  last [] = none
  last (x ∷ []) = some x
  last (x ∷ y ∷ xs) = last (y ∷ xs)

  -- all but the last element
  abbrev pub init : List A → List A
  init [] = []
  init (x ∷ []) = []
  init (x ∷ y ∷ xs) = x ∷ init (y ∷ xs)

  -- Iterator::any and Iterator::all
  abbrev pub any : (A → Bool) → List A → Bool
  any p [] = false
  any p (x ∷ xs) = p x || any p xs

  abbrev pub all : (A → Bool) → List A → Bool
  all p [] = true
  all p (x ∷ xs) = p x && all p xs

  -- Iterator::filter
  abbrev pub keep : (A → Bool) → List A → List A
  keep p [] = []
  keep p (x ∷ xs) = let rest = keep p xs in elim (p x) [ true ↦ x ∷ rest | false ↦ rest ]

  pub length-append : (xs ys : List A) → length (xs ++ ys) ≡ length xs + length ys
  length-append [] ys = omega arith
  length-append (x ∷ xs) ys = omega (arith, length-append xs ys)

module _ {ℓ κ} {A : Type ℓ} where
  abbrev pub All : (A → Type κ) → List A → Type κ
  All P [] = Unit
  All P (x ∷ xs) = P x × All P xs

  pub All-append : (P : A → Type κ) (xs ys : List A) → All P xs → All P ys → All P (xs ++ ys)
  All-append P [] ys _ hy = hy
  All-append P (x ∷ xs) ys (hx, h) hy = (hx, All-append P xs ys h hy)

module _ {ℓ} {A : Type ℓ} where
  -- some element satisfies `P`
  abbrev pub Has : (A → Type 0) → List A → Type 0
  Has P [] = ⊥
  Has P (x ∷ xs) = P x ⊎ Has P xs

  pub Has-append_left : (P : A → Type 0) (xs ys : List A) → Has P xs → Has P (xs ++ ys)
  Has-append_left P [] ys h = absurd h
  Has-append_left P (x ∷ xs) ys (inl p) = inl p
  Has-append_left P (x ∷ xs) ys (inr h) = inr (Has-append_left P xs ys h)

  pub Has-append_right : (P : A → Type 0) (xs ys : List A) → Has P ys → Has P (xs ++ ys)
  Has-append_right P [] ys h = h
  Has-append_right P (x ∷ xs) ys h = inr (Has-append_right P xs ys h)

  -- what holds of all elements holds of the one that there is
  pub All-Has :
      {Q : A → Type 0} (P : A → Type 0) (xs : List A) → All Q xs → Has P xs → (x : A) × (Q x × P x)
  All-Has P [] q h = absurd h
  All-Has P (x ∷ xs) q (inl p) = (x, (q.0, p))
  All-Has P (x ∷ xs) q (inr h) = All-Has P xs q.1 h
