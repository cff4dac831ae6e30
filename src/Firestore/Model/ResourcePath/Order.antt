-- ===== src/Firestore/Model/ResourcePath/Order.antt =====
-- `is_prefix_of` and `comparator` of resource_path.rs, and the operations on the last segment.
use firebase_rs_sdk.Common.{
  ◌≤◌, compare, ◌≡◌, refl, ap, ◌↔◌, true, false, some, List, [], ◌∷◌, ◌++◌, arith, length,
  length-append, last, init,
}
use firebase_rs_sdk.Common.Ord.{nat_ord, list_ord, cmp_list, then_with, eq_iff, ==_refl}
use firebase_rs_sdk.Common.Text.{Text}
use firebase_rs_sdk.Firestore.Model.ResourcePath.{
  ResourcePath, new, is_empty, child, pop_last, last_segment, zip_all_eq, is_prefix_of, cmp_zip,
  comparator,
}

cmp_zip-eq-cmp_list :
    (ls rs : List Text)
    → then_with (cmp_zip ls rs) (compare (length ls) (length rs)) ≡ cmp_list ls rs
unfolding cmp_zip cmp_list
cmp_zip-eq-cmp_list [] [] = refl
cmp_zip-eq-cmp_list [] (r ∷ rs) = ground arith
cmp_zip-eq-cmp_list (l ∷ ls) [] = ground arith
cmp_zip-eq-cmp_list (l ∷ ls) (r ∷ rs) = ground (arith, cmp_zip-eq-cmp_list ls rs)

-- The hand-written path comparator is the lexicographic order of the segment vectors, which is the
-- order that document keys derive.
pub comparator-eq-cmp_list :
    (left right : ResourcePath) → comparator left right ≡ cmp_list left.segments right.segments
unfolding comparator
comparator-eq-cmp_list left right = cmp_zip-eq-cmp_list left.segments right.segments

zip_all_eq-append : (ls rs : List Text) → zip_all_eq ls (ls ++ rs) ≡ true
unfolding zip_all_eq
zip_all_eq-append [] rs = refl
zip_all_eq-append (l ∷ ls) rs = ground (arith, zip_all_eq-append ls rs, ==_refl l)

rest_of_zip_all_eq :
    (ls rs : List Text)
    → length ls ≤ length rs
    → zip_all_eq ls rs ≡ true
    → (rest : List Text) × (ls ++ rest ≡ rs)
unfolding zip_all_eq
rest_of_zip_all_eq [] rs n h = (rs, refl)
rest_of_zip_all_eq (l ∷ ls) [] n h = absurd (omega arith)
rest_of_zip_all_eq (l ∷ ls) (r ∷ rs) n h =
    let (rest, e) = rest_of_zip_all_eq ls rs (omega arith) (ground arith) in
    (rest, ground (arith, (eq_iff l r).0))

-- One path is a prefix of another exactly when the other is a descendant (or the path itself): it is
-- reached from the prefix by `child`.
pub is_prefix_of_iff :
    (p q : ResourcePath) → (is_prefix_of p q ≡ true) ↔ ((rest : List Text) × (child p rest ≡ q))
unfolding is_prefix_of child
is_prefix_of_iff p q = (
  λ h.
      let (rest, e) = rest_of_zip_all_eq p.segments q.segments (ground arith) (ground arith) in
      (rest, ap new e),
  λ r. ground (arith, zip_all_eq-append p.segments r.0, length-append p.segments r.0),
)

last-concat : (ss : List Text) (s : Text) → last (ss ++ s ∷ []) ≡ some s
last-concat [] s = refl
last-concat (t ∷ []) s = refl
last-concat (t ∷ u ∷ ss) s = last-concat (u ∷ ss) s

init-concat : (ss : List Text) (s : Text) → init (ss ++ s ∷ []) ≡ ss
init-concat [] s = refl
init-concat (t ∷ []) s = refl
init-concat (t ∷ u ∷ ss) s = ap (λ l. t ∷ l) (init-concat (u ∷ ss) s)

is_empty-concat : (ss : List Text) (s : Text) → is_empty (ss ++ s ∷ []) ≡ false
is_empty-concat [] s = refl
is_empty-concat (t ∷ ss) s = refl

-- A child of one segment has that segment last, and popping it gives the parent back.
pub pop_last-child :
    (p : ResourcePath) (s : Text)
    → (pop_last (child p (s ∷ [])) ≡ some p) × (last_segment (child p (s ∷ [])) ≡ some s)
unfolding pop_last child
pop_last-child p s =
    (rw (is_empty-concat p.segments s, init-concat p.segments s) refl, last-concat p.segments s)
