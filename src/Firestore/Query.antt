-- ===== src/Firestore/Query.antt =====
-- crates/firebase-firestore/src/api/query.rs: filters, orders, bounds, the query builder, and the
-- definition that a query is sent and evaluated as. Of the `Firestore` handle only the database id
-- is read.
pub mod Validate
pub mod Build
pub mod Definition
use firebase_rs_sdk.Common.{ℕ, Bool, true, false, Option, List, [], ◌∷◌, ◌++◌}
use firebase_rs_sdk.Common.Text.{Text}
use firebase_rs_sdk.Firestore.Model.FieldPath.{FieldPath, document_id, eqb}
use firebase_rs_sdk.Firestore.Model.ResourcePath.{ResourcePath}
use firebase_rs_sdk.Firestore.Value.{Value}

pub data FilterOperator : Type 0 where
  less_than less_than_or_equal greater_than greater_than_or_equal : FilterOperator
  equal not_equal array_contains array_contains_any in_list not_in : FilterOperator

pub data OrderDirection : Type 0 where
  ascending descending : OrderDirection

abbrev pub flipped : OrderDirection → OrderDirection
flipped ascending = descending
flipped descending = ascending

pub data LimitType : Type 0 where
  first last : LimitType

pub record FieldFilter : Type 0 where
  pub field : FieldPath
  pub operator : FilterOperator
  pub value : Value

pub data CompositeOperator : Type 0 where
  and or : CompositeOperator

mutual
  pub data Filter : Type 0 where
    leaf : FieldFilter → Filter
    composite : CompositeOperator → Filters → Filter

  -- Vec<Filter>
  pub data Filters : Type 0 where
    nil : Filters
    cons : Filter → Filters → Filters

unfoldable mutual
  -- Filter::leaves, depth first
  pub leaves : Filter → List FieldFilter
  leaves (leaf f) = f ∷ []
  leaves (composite op fs) = leaves_all fs

  pub leaves_all : Filters → List FieldFilter
  leaves_all nil = []
  leaves_all (cons f fs) = leaves f ++ leaves_all fs

pub record OrderBy : Type 0 where
  pub field : FieldPath
  pub direction : OrderDirection

abbrev pub flip_order : OrderBy → OrderBy
flip_order o = record o { direction = flipped o.direction }

abbrev pub is_document_id : OrderBy → Bool
is_document_id o = eqb o.field document_id

pub record Bound : Type 0 where
  pub values : List Value
  pub inclusive : Bool

-- model/database_id.rs
pub record DatabaseId : Type 0 where
  pub project_id : Text
  pub database : Text

pub record Query : Type 0 where
  pub database_id : DatabaseId
  pub collection_path : ResourcePath
  pub collection_group : Option Text
  pub filters : List Filter
  pub explicit_order_by : List OrderBy
  pub limit : Option ℕ
  pub limit_type : LimitType
  pub start_at : Option Bound
  pub end_at : Option Bound
  pub projection : Option (List FieldPath)
