-- ===== src/Common/Ord.antt =====
-- Rust's `Ord`: a total order whose `Equal` is equality. Numbers and, lexicographically, lists.
use Prim.Native.Nat.{ℕ, compare, Ordering}
use Prim.Native.Nat.Ordering.{lt, eq, gt}
use mathlib.Core.Path.{◌≡◌, refl}
use mathlib.Core.Logic.{◌↔◌}
use mathlib.Core.Bool.{Bool, true, false}
use mathlib.Core.List.{List, [], ◌∷◌}
use native.Mathlib.Omega.{arith}

-- Ordering::reverse
abbrev pub reverse : Ordering → Ordering
reverse lt = gt
reverse eq = eq
reverse gt = lt

-- Ordering::then
abbrev pub then_with : Ordering → Ordering → Ordering
then_with eq second = second
then_with first _ = first

pub record Ord {ℓ} (K : Type ℓ) : Type ℓ where
  pub cmp : K → K → Ordering
  pub cmp_refl : (a : K) → cmp a a ≡ eq
  pub eq_of_cmp : (a b : K) → cmp a b ≡ eq → a ≡ b
  pub cmp_swap : (a b : K) → cmp b a ≡ reverse (cmp a b)
  pub lt_trans : (a b c : K) → cmp a b ≡ lt → cmp b c ≡ lt → cmp a c ≡ lt

infix 50 ◌==◌
abbrev pub ◌==◌ {ℓ} : {K : Type ℓ} ⦃o : Ord K⦄ → K → K → Bool
◌==◌ ⦃o⦄ a b = elim (o.cmp a b) [ eq ↦ true | _ ↦ false ]

infix 50 ◌≺◌
abbrev pub ◌≺◌ {ℓ} : {K : Type ℓ} ⦃o : Ord K⦄ → K → K → Type 0
◌≺◌ ⦃o⦄ a b = o.cmp a b ≡ lt

module _ {ℓ} {K : Type ℓ} ⦃o : Ord K⦄ where
  pub eq_iff : (a b : K) → ((a == b) ≡ true) ↔ (a ≡ b)
  eq_iff a b = (λ h. o.eq_of_cmp a b (ground arith), λ e. ground (arith, o.cmp_refl a))

  pub ==_refl : (a : K) → (a == a) ≡ true
  ==_refl a = (eq_iff a a).1 refl

pub compare_swap : (a b : ℕ) → compare b a ≡ reverse (compare a b)
compare_swap a b = ground arith

pub compare_refl : (a : ℕ) → compare a a ≡ eq
compare_refl a = ground arith

pub eq_of_compare : (a b : ℕ) → compare a b ≡ eq → a ≡ b
eq_of_compare a b h = ground arith

pub compare_trans : (a b c : ℕ) → compare a b ≡ lt → compare b c ≡ lt → compare a c ≡ lt
compare_trans a b c p q = ground arith

instance abbrev pub nat_ord : Ord ℕ
nat_ord = record {
  cmp = compare;
  cmp_refl = compare_refl;
  eq_of_cmp = eq_of_compare;
  cmp_swap = compare_swap;
  lt_trans = compare_trans;
}

module _ {ℓ} {A : Type ℓ} ⦃o : Ord A⦄ where
  -- slices compare element by element, and a prefix comes first
  unfoldable pub cmp_list : List A → List A → Ordering
  cmp_list [] [] = eq
  cmp_list [] (y ∷ ys) = lt
  cmp_list (x ∷ xs) [] = gt
  cmp_list (x ∷ xs) (y ∷ ys) = then_with (o.cmp x y) (cmp_list xs ys)

  pub cmp_list_refl : (xs : List A) → cmp_list xs xs ≡ eq
  unfolding cmp_list
  cmp_list_refl [] = refl
  cmp_list_refl (x ∷ xs) = ground (arith, o.cmp_refl x, cmp_list_refl xs)

  pub eq_of_cmp_list : (xs ys : List A) → cmp_list xs ys ≡ eq → xs ≡ ys
  unfolding cmp_list
  eq_of_cmp_list [] [] h = refl
  eq_of_cmp_list [] (y ∷ ys) h = ground arith
  eq_of_cmp_list (x ∷ xs) [] h = ground arith
  eq_of_cmp_list (x ∷ xs) (y ∷ ys) h = ground (arith, o.eq_of_cmp x y, eq_of_cmp_list xs ys)

  pub cmp_list_swap : (xs ys : List A) → cmp_list ys xs ≡ reverse (cmp_list xs ys)
  unfolding cmp_list
  cmp_list_swap [] [] = refl
  cmp_list_swap [] (y ∷ ys) = refl
  cmp_list_swap (x ∷ xs) [] = refl
  cmp_list_swap (x ∷ xs) (y ∷ ys) = ground (arith, o.cmp_swap x y, cmp_list_swap xs ys)

  pub cmp_list_trans :
      (xs ys zs : List A) → cmp_list xs ys ≡ lt → cmp_list ys zs ≡ lt → cmp_list xs zs ≡ lt
  unfolding cmp_list
  cmp_list_trans [] [] zs p q = ground arith
  cmp_list_trans [] (y ∷ ys) [] p q = ground arith
  cmp_list_trans [] (y ∷ ys) (z ∷ zs) p q = refl
  cmp_list_trans (x ∷ xs) [] zs p q = ground arith
  cmp_list_trans (x ∷ xs) (y ∷ ys) [] p q = ground arith
  cmp_list_trans (x ∷ xs) (y ∷ ys) (z ∷ zs) p q = ground (
    arith,
    o.lt_trans x y z,
    o.eq_of_cmp x y,
    o.eq_of_cmp y z,
    o.cmp_refl x,
    cmp_list_trans xs ys zs,
  )

  instance abbrev pub list_ord : Ord (List A)
  list_ord = record {
    cmp = cmp_list;
    cmp_refl = cmp_list_refl;
    eq_of_cmp = eq_of_cmp_list;
    cmp_swap = cmp_list_swap;
    lt_trans = cmp_list_trans;
  }
