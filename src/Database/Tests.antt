-- ===== src/Database/Tests.antt =====
-- Trees, child events and push ids at concrete inputs.
use firebase_rs_sdk.Common.{
  ℕ, ◌≡◌, ◌↔◌, refl, arith, lt, inr, Bool, true, false, Option, none, some, All, [], ◌∷◌,
  if◌then◌else◌,
}
use firebase_rs_sdk.Common.BTreeMap
use firebase_rs_sdk.Common.Ord.{◌==◌, nat_ord, list_ord, cmp_list}
use firebase_rs_sdk.Common.Text.{Text, codes}
use firebase_rs_sdk.Database.{
  Value, null, string, boolean, array, object, nil, cons, end, member, get,
}
use firebase_rs_sdk.Database.Tree.{is_null, apply_realtime_value, paths_related}
use firebase_rs_sdk.Database.Tree.Laws.{
  IsPlain, apply_realtime_value-unrelated, get-apply_realtime_value,
}
use firebase_rs_sdk.Database.Events.{
  Children, emit_child_events, added, changed, removed, differs, value_at_path, get_value_at_path,
}
use firebase_rs_sdk.Database.Events.Laws.{Tells, IsEventOf, emit_child_events_lem}
use firebase_rs_sdk.Database.PushId.{PushState, next_push_id, carry}
use firebase_rs_sdk.Database.PushId.Order.{next_push_id-increasing}

abbrev a : Text
a = codes "a"

abbrev b : Text
b = codes "b"

abbrev text : Value
text = string (codes "x")

abbrev tree : Value
tree = object (member a text (member b (object (member a text end)) end))

parted : paths_related (b ∷ a ∷ []) (a ∷ b ∷ []) ≡ false
unfolding paths_related cmp_list
parted = refl

-- stands for the reading of an index
abbrev read_index : Text → Option ℕ
read_index s = if s == codes "0" then some 0 else if s == codes "1" then some 1 else none

tree-IsPlain : IsPlain (a ∷ b ∷ []) tree
unfolding get cmp_list
tree-IsPlain = (refl, (refl, (refl, (tt, tt))))

apply_realtime_value-unrelated_example :
    (get_value_at_path read_index (apply_realtime_value (a ∷ b ∷ []) text tree) (b ∷ a ∷ [])
      ≡ get_value_at_path read_index tree (b ∷ a ∷ []))
    × (value_at_path read_index (apply_realtime_value (a ∷ b ∷ []) text tree) (b ∷ a ∷ [])
        ≡ value_at_path read_index tree (b ∷ a ∷ []))
apply_realtime_value-unrelated_example =
    apply_realtime_value-unrelated read_index (b ∷ a ∷ []) (a ∷ b ∷ []) text tree tree-IsPlain
      parted

get-apply_realtime_value_example :
    get_value_at_path read_index (apply_realtime_value (a ∷ b ∷ []) text tree) (a ∷ b ∷ [])
    ≡ (if is_null text then none else some text)
get-apply_realtime_value_example =
    get-apply_realtime_value read_index a (b ∷ []) text tree tree-IsPlain

-- A list at `a`, as a server sends it. A write at its second place replaces the list: what is read at
-- its first place, by a listener that is not told, is gone.
abbrev listed : Value
listed = object (member a (array (cons text (cons text nil))) end)

list_lost :
    (value_at_path read_index listed (a ∷ codes "0" ∷ []) ≡ text)
    × (value_at_path read_index
          (apply_realtime_value (a ∷ codes "1" ∷ []) (boolean true) listed)
          (a ∷ codes "0" ∷ [])
        ≡ null)
    × (paths_related (a ∷ codes "0" ∷ []) (a ∷ codes "1" ∷ []) ≡ false)
unfolding value_at_path apply_realtime_value paths_related cmp_list
list_lost = (refl, refl, refl)

-- The same of a value that the server sends wrapped, with a child that is not written.
abbrev wrapped : Value
wrapped = object (
    member a
      (object (member (codes ".value") (object (member b (object (member a text end)) end)) end))
      end)

wrapped_lost :
    (value_at_path read_index wrapped (a ∷ b ∷ a ∷ []) ≡ text)
    × (value_at_path read_index
          (apply_realtime_value (a ∷ b ∷ b ∷ []) (boolean true) wrapped)
          (a ∷ b ∷ a ∷ [])
        ≡ null)
    × (paths_related (a ∷ b ∷ a ∷ []) (a ∷ b ∷ b ∷ []) ≡ false)
unfolding value_at_path apply_realtime_value paths_related cmp_list
wrapped_lost = (refl, refl, refl)

-- stands for the equality of values
abbrev same : Value → Value → Bool
same null null = true
same _ _ = false

abbrev before : Children
before = (a, null) ∷ []

abbrev after : Children
after = (a, text) ∷ (b, text) ∷ []

emit_child_events_lem_example :
    ((Tells same [] b (emit_child_events same [] added before after)
        ↔ ((BTreeMap.contains_key b after ≡ true) × (BTreeMap.contains_key b before ≡ false)))
      × All (IsEventOf same [] added after) (emit_child_events same [] added before after))
    × (((Tells same [] b (emit_child_events same [] removed before after)
            ↔ ((BTreeMap.contains_key b before ≡ true) × (BTreeMap.contains_key b after ≡ false)))
          × All (IsEventOf same [] removed before) (emit_child_events same [] removed before after))
        × ((Tells same [] b (emit_child_events same [] changed before after)
              ↔ (differs same [] (BTreeMap.get b before) (BTreeMap.get b after) ≡ true))
            × All
                (IsEventOf same [] changed after)
                (emit_child_events same [] changed before after)))
emit_child_events_lem_example = emit_child_events_lem same [] before after b

abbrev fresh : PushState
fresh = record { last_push_time = 0; last_rand_chars = [] }

-- two calls at one time: the last digit carries
raised : carry (5 ∷ 63 ∷ []) ≡ some (6 ∷ 0 ∷ [])
unfolding carry
raised = refl

abbrev now : ℕ
now = 1700000000000

next_push_id-increasing_example :
    cmp_list
      (next_push_id (5 ∷ 63 ∷ []) now fresh).0
      (next_push_id [] now (next_push_id (5 ∷ 63 ∷ []) now fresh).1).0
    ≡ lt
next_push_id-increasing_example =
    next_push_id-increasing (5 ∷ 63 ∷ []) [] now now fresh (omega arith, (omega arith, tt)) tt tt
      (omega arith) (unfold next_push_id in inr (refl, (6 ∷ 0 ∷ [], raised)))
