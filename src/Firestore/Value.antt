-- ===== src/Firestore/Value.antt =====
-- crates/firebase-firestore/src/value: the values of a document, and look-up along a field path.
-- `FirestoreValue` and its `ValueKind` are one type here; a `MapValue` is its fields in key order.
pub mod MapValue
pub mod Equality
pub mod Order
use firebase_rs_sdk.Common.{ℕ, Bool, List, [], ◌∷◌, Option, none, some}
use firebase_rs_sdk.Common.Text.{Text}
use firebase_rs_sdk.Common.Int.{ℤ}
use firebase_rs_sdk.Firestore.F64.{F64}
use firebase_rs_sdk.Firestore.Model.Timestamp.{Timestamp}

pub record GeoPoint : Type 0 where
  pub latitude : F64
  pub longitude : F64

mutual
  pub data Value : Type 0 where
    null : Value
    boolean : Bool → Value
    integer : ℤ → Value
    double : F64 → Value
    timestamp : Timestamp → Value
    string : Text → Value
    bytes : List ℕ → Value
    reference : Text → Value
    geo_point : GeoPoint → Value
    array : Values → Value
    map : Fields → Value
    sentinel : Sentinel → Value

  -- Vec<FirestoreValue>
  pub data Values : Type 0 where
    nil : Values
    cons : Value → Values → Values

  -- BTreeMap<String, FirestoreValue>
  pub data Fields : Type 0 where
    end : Fields
    field : Text → Value → Fields → Fields

  pub data Sentinel : Type 0 where
    server_timestamp : Sentinel
    array_union : Values → Sentinel
    array_remove : Values → Sentinel
    numeric_increment : Value → Sentinel
    delete_field : Sentinel
