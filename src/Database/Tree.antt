-- ===== src/Database/Tree.antt =====
-- The tree functions of crates/firebase-database/src/api.rs and backend.rs: a path is its segments.
pub mod Laws
use firebase_rs_sdk.Common.{
  ℕ, suc, Bool, true, false, ◌&&◌, ◌||◌, Option, none, some, List, [], ◌∷◌, length, ltb,
  if◌then◌else◌,
}
use firebase_rs_sdk.Common.Ord.{◌==◌, nat_ord, list_ord}
use firebase_rs_sdk.Common.Text.{Text}
use firebase_rs_sdk.Database.{Value, null, object, Members, end, get, insert, remove}

-- what a loop finds of a value on its way: anything but an object is replaced by an empty one
abbrev pub members : Value → Members
members (object m) = m
members _ = end

-- entry(segment).or_insert(Value::Object(..))
abbrev pub or_object : Option Value → Value
or_object none = object end
or_object (some v) = v

unfoldable pub set_at_path : List Text → Value → Value → Value
unfolding get insert
set_at_path [] v root = v
set_at_path (s ∷ []) v root = object (insert s v (members root))
set_at_path (s ∷ t ∷ ss) v root =
    object (insert s (set_at_path (t ∷ ss) v (or_object (get s (members root)))) (members root))

unfoldable pub get_at_path : List Text → Value → Option Value
unfolding get
get_at_path [] v = some v
get_at_path (s ∷ ss) (object m) = elim (get s m) [ none ↦ none | some child ↦ get_at_path ss child ]
get_at_path (s ∷ ss) _ = none

unfoldable pub delete_at_path : List Text → Value → Value
unfolding get insert remove
delete_at_path [] root = null
delete_at_path (s ∷ []) (object m) = object (remove s m)
delete_at_path (s ∷ t ∷ ss) (object m) = elim (get s m) [
  | none ↦ object m
  | some child ↦ object (insert s (delete_at_path (t ∷ ss) child) m)
]
delete_at_path (s ∷ ss) root = root

abbrev pub is_null : Value → Bool
is_null null = true
is_null _ = false

-- the removal of `apply_realtime_value`: only an object loses an entry
abbrev pub remove_member : Text → Value → Value
remove_member s (object m) = object (remove s m)
remove_member s root = root

unfoldable pub apply_realtime_value : List Text → Value → Value → Value
unfolding get insert remove
apply_realtime_value [] v root = v
apply_realtime_value (s ∷ []) v root =
    if is_null v then remove_member s root else object (insert s v (members root))
apply_realtime_value (s ∷ t ∷ ss) v root =
    object
      (insert s (apply_realtime_value (t ∷ ss) v (or_object (get s (members root)))) (members root))

-- iter().zip(..).all(..)
unfoldable pub zip_all_eq : List Text → List Text → Bool
zip_all_eq (l ∷ ls) (r ∷ rs) = l == r && zip_all_eq ls rs
zip_all_eq [] rs = true
zip_all_eq (l ∷ ls) [] = true

unfoldable pub is_prefix : List Text → List Text → Bool
unfolding zip_all_eq
is_prefix prefix path = if ltb (length path) (length prefix) then false else zip_all_eq prefix path

-- whether a listener at a path is told of a change at another; a query listener is asked the same
unfoldable pub paths_related : List Text → List Text → Bool
unfolding is_prefix
paths_related a b = is_prefix a b || is_prefix b a
