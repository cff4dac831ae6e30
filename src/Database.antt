-- ===== src/Database.antt =====
-- crates/firebase-database: one module for each part of the crate that is modelled. The JSON values of
-- serde_json stand here: a number is an integer or a double, an object a map in key order.
pub mod Tree
pub mod Events
pub mod PushId
mod Tests
use firebase_rs_sdk.Common.{Bool, true, false, Option, none, some, lt, eq, gt, if◌then◌else◌}
use firebase_rs_sdk.Common.Int.{ℤ}
use firebase_rs_sdk.Common.Ord.{◌==◌, nat_ord, list_ord, cmp_list}
use firebase_rs_sdk.Common.Text.{Text}
use firebase_rs_sdk.Firestore.F64.{F64}

pub data Number : Type 0 where
  integer : ℤ → Number
  double : F64 → Number

mutual
  pub data Value : Type 0 where
    null : Value
    boolean : Bool → Value
    number : Number → Value
    string : Text → Value
    array : Items → Value
    object : Members → Value

  pub data Items : Type 0 where
    nil : Items
    cons : Value → Items → Items

  pub data Members : Type 0 where
    end : Members
    member : Text → Value → Members → Members

-- the operations of an object's map
unfoldable pub get : Text → Members → Option Value
get k end = none
get k (member j v m) = if k == j then some v else get k m

unfoldable pub insert : Text → Value → Members → Members
insert k v end = member k v end
insert k v (member j w m) =
    let rest = insert k v m in
    elim (cmp_list k j) [
      | lt ↦ member k v (member j w m)
      | eq ↦ member k v m
      | gt ↦ member j w rest
    ]

unfoldable pub remove : Text → Members → Members
remove k end = end
remove k (member j w m) = let rest = remove k m in if k == j then rest else member j w rest
