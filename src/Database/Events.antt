-- ===== src/Database/Events.antt =====
-- The reads and the child events of crates/firebase-database/src/api.rs. The reading and printing of an
-- index and the equality of JSON values are those of the standard library and of serde_json: parameters.
pub mod Laws
use firebase_rs_sdk.Common.{
  ℕ, zero, suc, Bool, true, false, not, Option, none, some, List, [], ◌∷◌, ◌++◌, is_some, unwrap_or,
  if◌then◌else◌,
}
use firebase_rs_sdk.Common.BTreeMap
use firebase_rs_sdk.Common.BTreeMap.{BTreeMap}
use firebase_rs_sdk.Common.Ord.{◌==◌, nat_ord, list_ord}
use firebase_rs_sdk.Common.Text.{Text, codes}
use firebase_rs_sdk.Database.{
  Value, null, array, object, Items, nil, cons, Members, end, member, get,
}

abbrev pub value_key : Text
value_key = codes ".value"

unfoldable pub extract_data_ref : Value → Value
unfolding get
extract_data_ref (object m) = unwrap_or (object m) (get value_key m)
extract_data_ref v = v

unfoldable pub item : ℕ → Items → Option Value
item i nil = none
item zero (cons v vs) = some v
item (suc i) (cons v vs) = item i vs

module _ (parse_usize : Text → Option ℕ) where
  abbrev pub indexed : Text → Items → Option Value
  indexed s items = elim (parse_usize s) [ none ↦ none | some i ↦ item i items ]

  -- one step of the loop of `get_value_at_path`
  unfoldable pub child_at : Text → Value → Option Value
  unfolding get item
  child_at s (object m) = elim (get s m) [
    | some child ↦ some child
    | none ↦ (elim (get value_key m) [
      | some (object o) ↦ get s o
      | some (array items) ↦ indexed s items
      | _ ↦ none
    ])
  ]
  child_at s (array items) = indexed s items
  child_at s _ = none

  unfoldable pub walk : List Text → Value → Option Value
  unfolding child_at
  walk [] v = some v
  walk (s ∷ ss) v = elim (child_at s v) [ none ↦ none | some child ↦ walk ss child ]

  unfoldable pub get_value_at_path : Value → List Text → Option Value
  unfolding walk extract_data_ref
  get_value_at_path root [] = some (extract_data_ref root)
  get_value_at_path root (s ∷ ss) = walk (s ∷ ss) root

  unfoldable pub value_at_path : Value → List Text → Value
  unfolding get_value_at_path
  value_at_path root [] = extract_data_ref root
  value_at_path root (s ∷ ss) = unwrap_or null (get_value_at_path root (s ∷ ss))

abbrev pub Children : Type 0
Children = BTreeMap Text Value

unfoldable pub children_of : Members → Children → Children
children_of end children = children
children_of (member k v m) children = children_of m (BTreeMap.insert k v children)

module _ (print_usize : ℕ → Text) where
  unfoldable pub children_from : ℕ → Items → Children → Children
  children_from i nil children = children
  children_from i (cons v vs) children =
      children_from (suc i) vs (BTreeMap.insert (print_usize i) v children)

  abbrev pub children_in : Value → Children
  children_in (object m) = children_of m []
  children_in (array items) = children_from 0 items []
  children_in _ = []

  unfoldable pub children_map : Value → Children
  unfolding extract_data_ref children_of children_from
  children_map v = children_in (extract_data_ref v)

-- the loop: the key before the first that equals `key`
unfoldable pub previous_from : Option Text → List Text → Text → Option Text
previous_from previous [] key = none
previous_from previous (k ∷ ks) key =
    let rest = previous_from (some k) ks key in if k == key then previous else rest

abbrev pub previous_key : List Text → Text → Option Text
previous_key keys key = previous_from none keys key

pub data ChildEventType : Type 0 where
  added changed removed : ChildEventType

-- the reference of a child is its parent's path with the key at its end
pub record ChildEvent : Type 0 where
  pub event : ChildEventType
  pub path : List Text
  pub value : Value
  pub previous_name : Option Text

unfoldable pub keys : Children → List Text
keys [] = []
keys ((k, _) ∷ m) = k ∷ keys m

module _ (eq_value : Value → Value → Bool) (parent_path : List Text) where
  -- the loop of an arm: an event for each key that it picks, with its value among the children
  unfoldable pub events_from :
      ChildEventType → (Text → Bool) → Children → List Text → List ChildEvent
  unfolding keys previous_from BTreeMap.get
  events_from event picks children [] = []
  events_from event picks children (key ∷ ks) =
      let rest = events_from event picks children ks in
      if picks key
      then (record {
        event = event;
        path = parent_path ++ key ∷ [];
        value = unwrap_or null (BTreeMap.get key children);
        previous_name = previous_key (keys children) key;
      })
        ∷ rest
      else rest

  abbrev pub differs : Option Value → Option Value → Bool
  differs (some a) (some b) = not (eq_value a b)
  differs _ _ = false

  unfoldable pub emit_child_events : ChildEventType → Children → Children → List ChildEvent
  unfolding events_from keys
  emit_child_events added old fresh =
      events_from added (λ key. not (BTreeMap.contains_key key old)) fresh (keys fresh)
  emit_child_events changed old fresh =
      events_from changed (λ key. differs (BTreeMap.get key old) (BTreeMap.get key fresh)) fresh
        (keys fresh)
  emit_child_events removed old fresh =
      events_from removed (λ key. not (BTreeMap.contains_key key fresh)) old (keys old)
