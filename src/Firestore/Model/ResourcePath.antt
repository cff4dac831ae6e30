-- ===== src/Firestore/Model/ResourcePath.antt =====
-- crates/firebase-firestore/src/model/resource_path.rs
pub mod Parsing
pub mod Order
use firebase_rs_sdk.Common.{
  ℕ, ◌≤◌, Ordering, compare, Bool, true, false, ◌&&◌, ◌||◌, not, Option, none, some, List, [], ◌∷◌,
  ◌++◌, if◌then◌else◌, leb, ltb, length, get_elem?, drop, last, init, keep,
}
use firebase_rs_sdk.Common.Ord.{Ord, ◌==◌, nat_ord, list_ord, cmp_list, then_with}
use firebase_rs_sdk.Common.Text.{Text, is_blank, split, join}
use firebase_rs_sdk.Firestore.Error.{FirestoreResult, ok, err, invalid_argument}

pub record ResourcePath : Type 0 where
  pub segments : List Text

abbrev pub new : List Text → ResourcePath
new segments = record { segments = segments }

abbrev pub root : ResourcePath
root = new []

pub with_offset : List Text → ℕ → ResourcePath
with_offset segments offset =
    if leb (length segments) offset then root else new (drop offset segments)

abbrev pub is_empty {ℓ} : {A : Type ℓ} → List A → Bool
is_empty [] = true
is_empty (_ ∷ _) = false

-- path.contains("//")
unfoldable pub has_double_slash : Text → Bool
has_double_slash [] = false
has_double_slash (c ∷ []) = false
has_double_slash (c ∷ d ∷ s) = (c == b'/' && d == b'/') || has_double_slash (d ∷ s)

unfoldable pub from_string : Text → FirestoreResult ResourcePath
from_string path =
    if is_blank path
    then ok root
    else if has_double_slash path
    then err invalid_argument
    else ok (new (keep (λ segment. not (is_empty segment)) (split b'/' path)))

abbrev pub len : ResourcePath → ℕ
len p = length p.segments

pub get : ResourcePath → ℕ → Option Text
get p index = get_elem? p.segments index

pub child : ResourcePath → List Text → ResourcePath
child p segments = new (p.segments ++ segments)

unfoldable pub pop_last : ResourcePath → Option ResourcePath
pop_last p = if is_empty p.segments then none else some (new (init p.segments))

unfoldable pub without_last : ResourcePath → ResourcePath
unfolding pop_last
without_last p = elim (pop_last p) [ none ↦ root | some q ↦ q ]

pub pop_first_n : ResourcePath → ℕ → ResourcePath
pop_first_n p count =
    if count == 0 then p else if leb (len p) count then root else new (drop count p.segments)

abbrev pub last_segment : ResourcePath → Option Text
last_segment p = last p.segments

unfoldable pub canonical_string : ResourcePath → Text
canonical_string p = join b'/' p.segments

-- zip(..).all(|(l, r)| l == r)
zip_all_eq : List Text → List Text → Bool
zip_all_eq (l ∷ ls) (r ∷ rs) = l == r && zip_all_eq ls rs
zip_all_eq [] rs = true
zip_all_eq (l ∷ ls) [] = true

pub is_prefix_of : ResourcePath → ResourcePath → Bool
unfolding zip_all_eq
is_prefix_of p other =
    if ltb (len other) (len p) then false else zip_all_eq p.segments other.segments

-- the loop of `comparator` over the zipped segments: the first difference, or `eq`
cmp_zip : List Text → List Text → Ordering
cmp_zip (l ∷ ls) (r ∷ rs) = then_with (cmp_list l r) (cmp_zip ls rs)
cmp_zip [] rs = Ordering.eq
cmp_zip (l ∷ ls) [] = Ordering.eq

pub comparator : ResourcePath → ResourcePath → Ordering
unfolding cmp_zip
comparator left right =
    then_with (cmp_zip left.segments right.segments) (compare (len left) (len right))
