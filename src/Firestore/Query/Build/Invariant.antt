-- ===== src/Firestore/Query/Build/Invariant.antt =====
-- What holds of every query that the builder methods of api/query.rs construct.
use mathlib.Core.Path.{subst}
use firebase_rs_sdk.Common.{
  ℕ, ◌%◌, Bool, true, false, Option, none, some, List, [], ◌∷◌, ◌++◌, ◌≡◌, ◌⊎◌, inl, inr, refl,
  arith, is_some, All, All-append,
}
use firebase_rs_sdk.Common.Ord.{◌==◌, nat_ord}
use firebase_rs_sdk.Common.Text.{Text}
use firebase_rs_sdk.Firestore.Error.{
  FirestoreResult, ok, invalid_argument, ◌>>◌, fail_if, >>=-eq-ok, ok_inj,
}
use firebase_rs_sdk.Firestore.Model.FieldPath.{FieldPath}
use firebase_rs_sdk.Firestore.Model.ResourcePath.{ResourcePath, len}
use firebase_rs_sdk.Firestore.Value.{Value}
use firebase_rs_sdk.Firestore.Query.{
  FieldFilter, Filter, leaf, leaves, OrderDirection, OrderBy, LimitType, first, last, Bound,
  DatabaseId, Query,
}
use firebase_rs_sdk.Firestore.Query.Validate.{validate_leaf, validate_filter}
use firebase_rs_sdk.Firestore.Query.Build.{
  new, new_collection_group, where_field, where_filter, validate_leaves, order_by, limit,
  limit_to_last, apply_start_bound, apply_end_bound, select, is_nil,
}

-- the queries that calls of the builder methods lead to
pub data Built : Query → Type 0 where
  built_new : {q : Query} (db : DatabaseId) (path : ResourcePath) → new db path ≡ ok q → Built q
  built_group :
      {q : Query} (db : DatabaseId) (id : Text) → new_collection_group db id ≡ ok q → Built q
  built_where : {q r : Query} (f : FieldFilter) → Built q → where_field f q ≡ ok r → Built r
  built_filter : {q r : Query} (f : Filter) → Built q → where_filter f q ≡ ok r → Built r
  built_order :
      {q r : Query} (p : FieldPath) (d : OrderDirection) → Built q → order_by p d q ≡ ok r → Built r
  built_limit : {q r : Query} (n : ℕ) → Built q → limit n q ≡ ok r → Built r
  built_limit_to_last : {q r : Query} (n : ℕ) → Built q → limit_to_last n q ≡ ok r → Built r
  built_start :
      {q r : Query} (vs : List Value) (i : Bool)
      → Built q
      → apply_start_bound vs i q ≡ ok r
      → Built r
  built_end :
      {q r : Query} (vs : List Value) (i : Bool) → Built q → apply_end_bound vs i q ≡ ok r → Built r
  built_select : {q r : Query} (fs : List FieldPath) → Built q → select fs q ≡ ok r → Built r

abbrev IsValidBound : Option Bound → Type 0
IsValidBound none = Unit
IsValidBound (some b) = is_nil b.values ≡ false

abbrev IsValidLimit : Option ℕ → LimitType → List OrderBy → Type 0
IsValidLimit none t orders = t ≡ first
IsValidLimit (some n) first orders = (n == 0) ≡ false
IsValidLimit (some n) last orders = ((n == 0) ≡ false) × (is_nil orders ≡ false)

abbrev IsValidProjection : Option (List FieldPath) → Type 0
IsValidProjection none = Unit
IsValidProjection (some fs) = is_nil fs ≡ false

abbrev IsValidFilter : Filter → Type 0
IsValidFilter f = All (λ l. validate_leaf l ≡ ok tt) (leaves f)

-- a collection, or a group; filters whose leaves all passed; and nothing empty that must not be
pub record IsValid (q : Query) : Type 0 where
  pub collection : ((len q.collection_path % 2 == 0) ≡ false) ⊎ (is_some q.collection_group ≡ true)
  pub filters_ok : All IsValidFilter q.filters
  pub limit_ok : IsValidLimit q.limit q.limit_type q.explicit_order_by
  pub start_ok : IsValidBound q.start_at
  pub end_ok : IsValidBound q.end_at
  pub projection_ok : IsValidProjection q.projection

-- a guard that was passed, and what came after it
passed :
    {A : Type 0} (b : Bool) (m : FirestoreResult A) (a : A)
    → (fail_if b invalid_argument >> m) ≡ ok a
    → (b ≡ false) × (m ≡ ok a)
passed b m a h = ground arith

new-IsValid : (db : DatabaseId) (path : ResourcePath) (q : Query) → new db path ≡ ok q → IsValid q
unfolding new
new-IsValid db path q h =
    let (b, e) = passed _ _ _ h in
    subst IsValid (ok_inj e) (record {
      collection = inl b;
      filters_ok = tt;
      limit_ok = refl;
      start_ok = tt;
      end_ok = tt;
      projection_ok = tt;
    })

group-IsValid :
    (db : DatabaseId) (id : Text) (q : Query) → new_collection_group db id ≡ ok q → IsValid q
unfolding new_collection_group
group-IsValid db id q h =
    let (_, h') = passed _ _ _ h in
    let (_, e) = passed _ _ _ h' in
    subst IsValid (ok_inj e) (record {
      collection = inr refl;
      filters_ok = tt;
      limit_ok = refl;
      start_ok = tt;
      end_ok = tt;
      projection_ok = tt;
    })

validate_leaves-All :
    (fs : List FieldFilter) (u : Unit {0})
    → validate_leaves fs ≡ ok u
    → All (λ l. validate_leaf l ≡ ok tt) fs
unfolding validate_leaves
validate_leaves-All [] u h = tt
validate_leaves-All (f ∷ fs) u h =
    let (_, e, h') = >>=-eq-ok (validate_leaf f) _ h in (e, validate_leaves-All fs u h')

with_filter-IsValid :
    (q : Query) (f : Filter)
    → IsValid q
    → IsValidFilter f
    → IsValid (record q { filters = q.filters ++ f ∷ [] })
with_filter-IsValid q f v hf = record {
  collection = v.collection;
  filters_ok = All-append IsValidFilter q.filters (f ∷ []) v.filters_ok (hf, tt);
  limit_ok = v.limit_ok;
  start_ok = v.start_ok;
  end_ok = v.end_ok;
  projection_ok = v.projection_ok;
}

where_field-IsValid :
    (f : FieldFilter) (q r : Query) → IsValid q → where_field f q ≡ ok r → IsValid r
unfolding where_field validate_filter
where_field-IsValid f q r v h =
    let (_, e, h') = >>=-eq-ok (validate_filter q f) _ h in
    let (_, e', _) = >>=-eq-ok (validate_leaf f) _ e in
    subst IsValid (ok_inj h') (with_filter-IsValid q (leaf f) v (unfold leaves in (e', tt)))

where_filter-IsValid : (f : Filter) (q r : Query) → IsValid q → where_filter f q ≡ ok r → IsValid r
unfolding where_filter
where_filter-IsValid f q r v h =
    let (_, h') = passed _ _ _ h in
    let (u, e, h'') = >>=-eq-ok (validate_leaves (leaves f)) _ h' in
    subst IsValid (ok_inj h'') (with_filter-IsValid q f v (validate_leaves-All (leaves f) u e))

is_nil-append : (xs : List OrderBy) (x : OrderBy) → is_nil (xs ++ x ∷ []) ≡ false
is_nil-append [] x = refl
is_nil-append (y ∷ ys) x = refl

limit-append :
    (n : Option ℕ) (t : LimitType) (orders : List OrderBy) (o : OrderBy)
    → IsValidLimit n t orders
    → IsValidLimit n t (orders ++ o ∷ [])
limit-append none t orders o h = h
limit-append (some n) first orders o h = h
limit-append (some n) last orders o h = (h.0, is_nil-append orders o)

order_by-IsValid :
    (p : FieldPath) (d : OrderDirection) (q r : Query)
    → IsValid q
    → order_by p d q ≡ ok r
    → IsValid r
unfolding order_by
order_by-IsValid p d q r v h =
    let (_, e) = passed _ _ _ h in
    subst IsValid (ok_inj e) (record {
      collection = v.collection;
      filters_ok = v.filters_ok;
      limit_ok = limit-append q.limit q.limit_type q.explicit_order_by _ v.limit_ok;
      start_ok = v.start_ok;
      end_ok = v.end_ok;
      projection_ok = v.projection_ok;
    })

limit-IsValid : (n : ℕ) (q r : Query) → IsValid q → limit n q ≡ ok r → IsValid r
unfolding limit
limit-IsValid n q r v h =
    let (b, e) = passed _ _ _ h in
    subst IsValid (ok_inj e) (record {
      collection = v.collection;
      filters_ok = v.filters_ok;
      limit_ok = b;
      start_ok = v.start_ok;
      end_ok = v.end_ok;
      projection_ok = v.projection_ok;
    })

limit_to_last-IsValid : (n : ℕ) (q r : Query) → IsValid q → limit_to_last n q ≡ ok r → IsValid r
unfolding limit_to_last
limit_to_last-IsValid n q r v h =
    let (b, h') = passed _ _ _ h in
    let (c, e) = passed _ _ _ h' in
    subst IsValid {x = record q { limit = some n; limit_type = last }} (ok_inj e) (record {
      collection = v.collection;
      filters_ok = v.filters_ok;
      limit_ok = (b, c);
      start_ok = v.start_ok;
      end_ok = v.end_ok;
      projection_ok = v.projection_ok;
    })

start-IsValid :
    (vs : List Value) (i : Bool) (q r : Query)
    → IsValid q
    → apply_start_bound vs i q ≡ ok r
    → IsValid r
unfolding apply_start_bound
start-IsValid vs i q r v h =
    let (b, e) = passed _ _ _ h in
    subst IsValid (ok_inj e) (record {
      collection = v.collection;
      filters_ok = v.filters_ok;
      limit_ok = v.limit_ok;
      start_ok = b;
      end_ok = v.end_ok;
      projection_ok = v.projection_ok;
    })

end-IsValid :
    (vs : List Value) (i : Bool) (q r : Query)
    → IsValid q
    → apply_end_bound vs i q ≡ ok r
    → IsValid r
unfolding apply_end_bound
end-IsValid vs i q r v h =
    let (b, e) = passed _ _ _ h in
    subst IsValid (ok_inj e) (record {
      collection = v.collection;
      filters_ok = v.filters_ok;
      limit_ok = v.limit_ok;
      start_ok = v.start_ok;
      end_ok = b;
      projection_ok = v.projection_ok;
    })

select-IsValid : (fs : List FieldPath) (q r : Query) → IsValid q → select fs q ≡ ok r → IsValid r
unfolding select
select-IsValid fs q r v h =
    let (_, h') = passed _ _ _ h in
    let (b, e) = passed _ _ _ h' in
    subst IsValid (ok_inj e) (record {
      collection = v.collection;
      filters_ok = v.filters_ok;
      limit_ok = v.limit_ok;
      start_ok = v.start_ok;
      end_ok = v.end_ok;
      projection_ok = b;
    })

-- Every query that the builder methods construct names a collection by a path of odd length or a
-- group, has only filters whose leaves all pass `validate_leaf`, has no limit of 0, no limit to the
-- last results without an explicit order, no empty bound and no empty projection.
pub Built-IsValid : {q : Query} → Built q → IsValid q
Built-IsValid (built_new {q} db path h) = new-IsValid db path q h
Built-IsValid (built_group {q} db id h) = group-IsValid db id q h
Built-IsValid (built_where {q} {r} f b h) = where_field-IsValid f q r (Built-IsValid b) h
Built-IsValid (built_filter {q} {r} f b h) = where_filter-IsValid f q r (Built-IsValid b) h
Built-IsValid (built_order {q} {r} p d b h) = order_by-IsValid p d q r (Built-IsValid b) h
Built-IsValid (built_limit {q} {r} n b h) = limit-IsValid n q r (Built-IsValid b) h
Built-IsValid (built_limit_to_last {q} {r} n b h) = limit_to_last-IsValid n q r (Built-IsValid b) h
Built-IsValid (built_start {q} {r} vs i b h) = start-IsValid vs i q r (Built-IsValid b) h
Built-IsValid (built_end {q} {r} vs i b h) = end-IsValid vs i q r (Built-IsValid b) h
Built-IsValid (built_select {q} {r} fs b h) = select-IsValid fs q r (Built-IsValid b) h
