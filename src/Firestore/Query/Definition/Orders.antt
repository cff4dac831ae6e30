-- ===== src/Firestore/Query/Definition/Orders.antt =====
-- The orders of `normalized_order_by` and `definition` in api/query.rs.
use firebase_rs_sdk.Common.{
  Ordering, Bool, not, ◌&&◌, true, false, List, [], ◌∷◌, ◌++◌, ◌≡◌, ◌≢◌, refl, sym, ◌∙◌, arith, any,
  Bool-cases, inl, inr, ◌⊎◌, ◌||◌, append_assoc, append-nil,
}
use mathlib.Core.Path.{subst}
use firebase_rs_sdk.Common.Ord.{nat_ord, list_ord, cmp_list, ◌==◌, eq_iff, ==_refl}
use firebase_rs_sdk.Common.Sort.{insert_by, sort_by}
use firebase_rs_sdk.Common.Text.{Text}
use firebase_rs_sdk.Firestore.Model.FieldPath.{FieldPath, eqb, document_id, canonical_string}
use firebase_rs_sdk.Firestore.Query.{
  OrderDirection, OrderBy, flip_order, LimitType, is_document_id, Query,
}
use firebase_rs_sdk.Firestore.Query.Definition.{
  add_name, add_orders, dedup, inequality_fields, normalized_order_by, last_direction, map_list,
  definition,
}

module _ {ℓ} {A : Type ℓ} where
  any-append : (p : A → Bool) (xs ys : List A) → any p (xs ++ ys) ≡ (any p xs || any p ys)
  any-append p [] ys = refl
  any-append p (x ∷ xs) ys = ground (arith, any-append p xs ys)

-- `document_id` is equal to itself
document_id-eqb : eqb document_id document_id ≡ true
unfolding cmp_list
document_id-eqb = refl

pub add_name-any :
    (direction : OrderDirection) (order : List OrderBy)
    → any is_document_id (add_name direction order) ≡ true
unfolding add_name
add_name-any direction order = elim (Bool-cases (any is_document_id order)) [
  | inl e ↦ rw e e
  | inr e ↦ rw (e, any-append is_document_id order _, e, document_id-eqb) refl
]

-- The normalised order always contains the document name.
pub normalized_order_by-any : (q : Query) → any is_document_id (normalized_order_by q) ≡ true
unfolding normalized_order_by
normalized_order_by-any q = add_name-any _ _

-- an order that only appends
abbrev pub Extends : List OrderBy → List OrderBy → Type 0
Extends order extended = (rest : List OrderBy) × (extended ≡ order ++ rest)

Extends-refl : (order : List OrderBy) → Extends order order
Extends-refl order = ([], rw (append-nil order) refl)

Extends-trans : (a b c : List OrderBy) → Extends a b → Extends b c → Extends a c
Extends-trans a b c (r, e) (s, f) = (r ++ s, rw (f, e) (append_assoc a r s))

add_orders-Extends :
    (direction : OrderDirection) (present : List Text) (order : List OrderBy) (ps : List FieldPath)
    → Extends order (add_orders direction present order ps)
unfolding add_orders
add_orders-Extends direction present order [] = Extends-refl order
add_orders-Extends direction present order (p ∷ ps) =
    elim (Bool-cases
      (not (eqb p document_id) && not (any (λ t. t == canonical_string p) present))) [
        | inl e ↦ rw e (
            Extends-trans order _ _ (record { field = p; direction = direction } ∷ [], refl)
              (add_orders-Extends direction (present ++ canonical_string p ∷ []) _ ps))
        | inr e ↦ rw e (add_orders-Extends direction present order ps)
      ]

add_name-Extends :
    (direction : OrderDirection) (order : List OrderBy) → Extends order (add_name direction order)
unfolding add_name
add_name-Extends direction order = elim (Bool-cases (any is_document_id order)) [
  | inl e ↦ rw e (Extends-refl order)
  | inr e ↦ rw e ((_, refl))
]

-- The normalised order begins with the explicit orders, in the given order and directions.
pub normalized_order_by-Extends : (q : Query) → Extends q.explicit_order_by (normalized_order_by q)
unfolding normalized_order_by
normalized_order_by-Extends q =
    Extends-trans q.explicit_order_by _ _ (add_orders-Extends _ _ q.explicit_order_by _)
      (add_name-Extends _ _)

-- an order by the field with this canonical string
abbrev pub ordered_by : Text → List OrderBy → Bool
ordered_by t orders = any (λ o. canonical_string o.field == t) orders

abbrev names : Text → List FieldPath → Bool
names t fields = any (λ p. canonical_string p == t) fields

any-insert_by :
    (r : FieldPath → Bool) (cmp : FieldPath → FieldPath → Ordering) (x : FieldPath)
    (ys : List FieldPath)
    → any r (insert_by cmp x ys) ≡ (r x || any r ys)
unfolding insert_by
any-insert_by r cmp x [] = refl
any-insert_by r cmp x (y ∷ ys) = ground (arith, any-insert_by r cmp x ys)

any-sort_by :
    (r : FieldPath → Bool) (cmp : FieldPath → FieldPath → Ordering) (xs : List FieldPath)
    → any r (sort_by cmp xs) ≡ any r xs
unfolding sort_by
any-sort_by r cmp [] = refl
any-sort_by r cmp (x ∷ xs) = rw (any-insert_by r cmp x (sort_by cmp xs), any-sort_by r cmp xs) refl

names-dedup : (t : Text) (ps : List FieldPath) → names t (dedup ps) ≡ names t ps
unfolding dedup
names-dedup t [] = refl
names-dedup t (p ∷ []) = refl
names-dedup t (p ∷ q ∷ ps) = elim (Bool-cases (eqb q p)) [
  | inl e ↦ rw (e, names-dedup t (p ∷ ps), (eq_iff q.segments p.segments).0 e) (ground arith)
  | inr e ↦ rw (e, names-dedup t (q ∷ ps)) refl
]

ordered_by-Extends :
    (t : Text) (a b : List OrderBy) → Extends a b → ordered_by t a ≡ true → ordered_by t b ≡ true
ordered_by-Extends t a b (r, e) h = rw (e, any-append _ a r, h) refl

ordered_by-present :
    (t : Text) (order : List OrderBy)
    → any (λ s. s == t) (map_list (λ o. canonical_string o.field) order) ≡ ordered_by t order
ordered_by-present t [] = refl
ordered_by-present t (o ∷ os) = rw (ordered_by-present t os) refl

or-cases : (a b : Bool) → (a || b) ≡ true → (a ≡ true) ⊎ (b ≡ true)
or-cases true b h = inl refl
or-cases false b h = inr h

abbrev strings : List OrderBy → List Text
strings order = map_list (λ o. canonical_string o.field) order

strings-append : (a b : List OrderBy) → strings (a ++ b) ≡ strings a ++ strings b
strings-append [] b = refl
strings-append (o ∷ os) b = rw (strings-append os b) refl

ordered_by-last :
    (t : Text) (order : List OrderBy) (o : OrderBy)
    → (canonical_string o.field == t) ≡ true
    → ordered_by t (order ++ o ∷ []) ≡ true
ordered_by-last t [] o h = rw h refl
ordered_by-last t (x ∷ xs) o h = ground (arith, ordered_by-last t xs o h)

not-document_id :
    (p : FieldPath) → canonical_string p ≢ canonical_string document_id → eqb p document_id ≡ false
not-document_id p n = elim (Bool-cases (eqb p document_id)) [
  | inl e ↦ absurd (n (rw ((eq_iff p.segments document_id.segments).0 e) refl))
  | inr e ↦ e
]

-- The first field is ordered afterwards, whether it is added or skipped.
add_orders-head :
    (direction : OrderDirection) (order : List OrderBy) (p : FieldPath) (ps : List FieldPath)
    → eqb p document_id ≡ false
    → ordered_by (canonical_string p) (add_orders direction (strings order) order (p ∷ ps)) ≡ true
unfolding add_orders
add_orders-head direction order p ps n =
    elim (Bool-cases (any (λ t. t == canonical_string p) (strings order))) [
      | inl e ↦
          rw (n, e)
            (ordered_by-Extends _ order _ (add_orders-Extends direction (strings order) order ps)
              (rw⁻¹ (ordered_by-present (canonical_string p) order) e))
      | inr e ↦
          rw (n, e)
            (ordered_by-Extends _ _ _
              (add_orders-Extends direction (strings order ++ canonical_string p ∷ []) _ ps)
              (ordered_by-last _ order _ (==_refl (canonical_string p))))
    ]

add_orders-ordered_by :
    (t : Text) (direction : OrderDirection) (order : List OrderBy) (ps : List FieldPath)
    → names t ps ≡ true
    → t ≢ canonical_string document_id
    → ordered_by t (add_orders direction (strings order) order ps) ≡ true
unfolding add_orders
add_orders-ordered_by t direction order [] h n = ground arith
add_orders-ordered_by t direction order (p ∷ ps) h n = elim (or-cases _ _ h) [
  | inl e ↦
      subst (λ t. ordered_by t (add_orders direction (strings order) order (p ∷ ps)) ≡ true)
        ((eq_iff _ _).0 e)
        (add_orders-head direction order p ps
          (not-document_id p (λ f. n (sym ((eq_iff (canonical_string p) t).0 e) ∙ f))))
  | inr r ↦
      (elim (Bool-cases
        (not (eqb p document_id) && not (any (λ s. s == canonical_string p) (strings order)))) [
          | inl e ↦
              rw (e, ← strings-append order (record { field = p; direction = direction } ∷ []))
                (add_orders-ordered_by t direction
                  (order ++ record { field = p; direction = direction } ∷ []) ps r n)
          | inr e ↦ rw e (add_orders-ordered_by t direction order ps r n)
        ])
]

ordered_by-document_id :
    (orders : List OrderBy)
    → any is_document_id orders ≡ true
    → ordered_by (canonical_string document_id) orders ≡ true
ordered_by-document_id [] h = h
ordered_by-document_id (o ∷ os) h = elim (or-cases _ _ h) [
  | inl e ↦
      rw
        ((eq_iff o.field.segments document_id.segments).0 e, ==_refl (canonical_string document_id))
        refl
  | inr r ↦ ground (arith, ordered_by-document_id os r)
]

-- Every field of an inequality filter, anywhere in the filters, is ordered by; fields count as the
-- same when their canonical strings are.
pub normalized_order_by-ordered_by :
    (q : Query) (t : Text)
    → any (λ p. canonical_string p == t) (inequality_fields q.filters) ≡ true
    → ordered_by t (normalized_order_by q) ≡ true
unfolding normalized_order_by
normalized_order_by-ordered_by q t h = elim (Bool-cases (t == canonical_string document_id)) [
  | inl e ↦
      rw ((eq_iff t (canonical_string document_id)).0 e)
        (ordered_by-document_id _ (normalized_order_by-any q))
  | inr e ↦ ordered_by-Extends t _ _ (add_name-Extends (last_direction q.explicit_order_by) _) (
      add_orders-ordered_by t (last_direction q.explicit_order_by) q.explicit_order_by _
        (names-dedup t _ ∙ any-sort_by (λ p. canonical_string p == t) _ _ ∙ h)
        (λ f. cc (e, (eq_iff t (canonical_string document_id)).1 f)))
]

flip_order-flip_order : (os : List OrderBy) → map_list flip_order (map_list flip_order os) ≡ os
flip_order-flip_order [] = refl
flip_order-flip_order (o ∷ os) = ground (arith, flip_order-flip_order os)

limit_type-cases : (t : LimitType) → (t ≡ LimitType.last) ⊎ (t ≡ LimitType.first)
limit_type-cases LimitType.last = inl refl
limit_type-cases LimitType.first = inr refl

-- The request of a limit-to-last query has each result order reversed and the two bounds exchanged;
-- reversing the request again gives the result orders. Any other query requests what it returns.
pub definition-request :
    (q : Query)
    → (q.limit_type ≡ LimitType.last)
        × ((map_list flip_order (definition q).request_order_by ≡ (definition q).result_order_by)
            × (((definition q).request_start_at ≡ q.end_at)
                × ((definition q).request_end_at ≡ q.start_at)))
      ⊎ (q.limit_type ≡ LimitType.first)
        × (((definition q).request_order_by ≡ (definition q).result_order_by)
            × (((definition q).request_start_at ≡ q.start_at)
                × ((definition q).request_end_at ≡ q.end_at)))
unfolding definition
definition-request q = elim (limit_type-cases q.limit_type) [
  | inl e ↦ inl (
    e,
    (
      ground (arith, e, flip_order-flip_order (normalized_order_by q)),
      (ground (arith, e), ground (arith, e)),
    ),
  )
  | inr e ↦ inr (e, (ground (arith, e), (ground (arith, e), ground (arith, e))))
]
