-- ===== src/Firestore/Value/MapValue/Laws.antt =====
-- What `insert` and `remove` on fields do to a look-up.
use firebase_rs_sdk.Common.{◌≡◌, refl, none, some, arith, if◌then◌else◌}
use firebase_rs_sdk.Common.Ord.{◌==◌, nat_ord, list_ord, eq_of_cmp_list, cmp_list_refl}
use firebase_rs_sdk.Common.Text.{Text}
use firebase_rs_sdk.Firestore.Value.{Value, Fields, end, field}
use firebase_rs_sdk.Firestore.Value.MapValue.{get, insert, remove}

pub get-insert :
    (j k : Text) (v : Value) (m : Fields)
    → get j (insert k v m) ≡ (if j == k then some v else get j m)
unfolding get insert
get-insert j k v end = refl
get-insert j k v (field i w m) = ground (
  arith,
  get-insert j k v m,
  eq_of_cmp_list k i,
  eq_of_cmp_list j i,
  eq_of_cmp_list j k,
  cmp_list_refl j,
)

pub get-remove : (j k : Text) (m : Fields) → get j (remove k m) ≡ (if j == k then none else get j m)
unfolding get remove
get-remove j k end = ground arith
get-remove j k (field i w m) = ground (
  arith,
  get-remove j k m,
  eq_of_cmp_list k i,
  eq_of_cmp_list j i,
  eq_of_cmp_list j k,
  cmp_list_refl j,
)
