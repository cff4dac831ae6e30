-- ===== src/Firestore/Operations/Sanitize/Laws.antt =====
-- What `sanitize_map` lets through: no sentinel in the fields, and well-formed transforms.
use mathlib.Core.List
use firebase_rs_sdk.Common.{
  ◌≡◌, refl, true, List, [], ◌∷◌, ◌++◌, All, All-append, arith, if◌then◌else◌,
}
use firebase_rs_sdk.Common.Ord.{nat_ord}
use firebase_rs_sdk.Common.Text.{Text}
use firebase_rs_sdk.Firestore.Error.{ok, ◌>>=◌, >>=-eq-ok, ok_inj}
use firebase_rs_sdk.Firestore.Model.FieldPath
use firebase_rs_sdk.Firestore.Model.FieldPath.{FieldPath}
use firebase_rs_sdk.Firestore.Value.{
  Value, array, map, sentinel, Values, nil, cons, Fields, end, field, Sentinel, delete_field,
}
use firebase_rs_sdk.Firestore.Value.MapValue.{insert, is_empty}
use firebase_rs_sdk.Firestore.Operations.{
  FieldTransform, TransformOperation, server_timestamp, array_union, array_remove,
  numeric_increment,
}
use firebase_rs_sdk.Firestore.Operations.Sanitize.{
  Found, nothing_found, push_transform, push_deleted, assert_no_sentinel_in_value,
  assert_no_sentinel_in_values, assert_no_sentinel_in_fields, is_number, validate_sentinel_usage,
  transform_from_sentinel, record_transform, sanitize_map, sanitize_entry, sanitize_for_write,
}

-- No sentinel stands anywhere in the value.
unfoldable mutual
  pub IsPlain : Value → Type 0
  IsPlain (sentinel s) = ⊥
  IsPlain (array xs) = ArePlain xs
  IsPlain (map m) = HasPlainFields m
  IsPlain _ = Unit

  pub ArePlain : Values → Type 0
  ArePlain nil = Unit
  ArePlain (cons x xs) = IsPlain x × ArePlain xs

  pub HasPlainFields : Fields → Type 0
  HasPlainFields end = Unit
  HasPlainFields (field k v m) = IsPlain v × HasPlainFields m

mutual
  unfolding assert_no_sentinel_in_value IsPlain

  IsPlain-of-assert : (v : Value) → assert_no_sentinel_in_value v ≡ ok tt → IsPlain v
  IsPlain-of-assert (sentinel s) h = ground arith
  IsPlain-of-assert (array xs) h = ArePlain-of-assert xs h
  IsPlain-of-assert (map m) h = HasPlainFields-of-assert m h
  IsPlain-of-assert _ h = tt

  ArePlain-of-assert : (xs : Values) → assert_no_sentinel_in_values xs ≡ ok tt → ArePlain xs
  ArePlain-of-assert nil h = tt
  ArePlain-of-assert (cons x xs) h =
      let (_, here, there) = >>=-eq-ok (assert_no_sentinel_in_value x) _ h in
      (IsPlain-of-assert x here, ArePlain-of-assert xs there)

  HasPlainFields-of-assert :
      (m : Fields) → assert_no_sentinel_in_fields m ≡ ok tt → HasPlainFields m
  HasPlainFields-of-assert end h = tt
  HasPlainFields-of-assert (field k v m) h =
      let (_, here, there) = >>=-eq-ok (assert_no_sentinel_in_value v) _ h in
      (IsPlain-of-assert v here, HasPlainFields-of-assert m there)

insert-HasPlainFields :
    (k : Text) (v : Value) (m : Fields)
    → IsPlain v
    → HasPlainFields m
    → HasPlainFields (insert k v m)
unfolding insert IsPlain
insert-HasPlainFields k v end p h = (p, tt)
insert-HasPlainFields k v (field j w m) p h = ground (arith, insert-HasPlainFields k v m p h.1)

-- An array transform holds no sentinel, and an increment has a numeric operand.
abbrev pub IsWellFormed : TransformOperation → Type 0
IsWellFormed server_timestamp = Unit
IsWellFormed (array_union xs) = ArePlain xs
IsWellFormed (array_remove xs) = ArePlain xs
IsWellFormed (numeric_increment v) = is_number v ≡ true

-- What holds of the loop's variables.
pub record IsSane (r : Fields × Found) : Type 0 where
  pub plain : HasPlainFields r.0
  pub well_formed : All (λ t. IsWellFormed t.operation) r.1.transforms
  pub same_paths : List.map (λ t. t.field_path) r.1.transforms ≡ r.1.sentinel_paths

IsWellFormed-of-validate :
    (p : FieldPath) (s : Sentinel) (t : FieldTransform)
    → validate_sentinel_usage s ≡ ok tt
    → transform_from_sentinel p s ≡ ok t
    → IsWellFormed t.operation × (t.field_path ≡ p)
unfolding validate_sentinel_usage transform_from_sentinel
IsWellFormed-of-validate p Sentinel.server_timestamp t h e = rw (← ok_inj e) (tt, refl)
IsWellFormed-of-validate p (Sentinel.array_union xs) t h e =
    rw (← ok_inj e) (ArePlain-of-assert xs h, refl)
IsWellFormed-of-validate p (Sentinel.array_remove xs) t h e =
    rw (← ok_inj e) (ArePlain-of-assert xs h, refl)
IsWellFormed-of-validate p (Sentinel.numeric_increment v) t h e =
    rw (← ok_inj e) (ground arith, refl)
IsWellFormed-of-validate p delete_field t h e = cc

record_transform-eq-ok :
    (p : FieldPath) (s : Sentinel) (found found' : Found)
    → record_transform p s found ≡ ok found'
    → (t : FieldTransform) × (push_transform p t found ≡ found')
      × IsWellFormed t.operation
      × (t.field_path ≡ p)
unfolding record_transform
record_transform-eq-ok p s found found' h =
    let (u, valid, h') = >>=-eq-ok (validate_sentinel_usage s) _ h in
    let (t, made, h'') = >>=-eq-ok (transform_from_sentinel p s) _ h' in
    let (well_formed, same) = IsWellFormed-of-validate p s t valid made in
    (t, ok_inj h'', well_formed, same)

push_transform-IsSane :
    (p : FieldPath) (t : FieldTransform) (c : Fields) (found : Found)
    → IsWellFormed t.operation
    → t.field_path ≡ p
    → IsSane (c, found)
    → IsSane (c, push_transform p t found)
push_transform-IsSane p t c found w e sane = record {
  plain = sane.plain;
  well_formed =
      All-append (λ u. IsWellFormed u.operation) found.transforms (t ∷ []) sane.well_formed (w, tt);
  same_paths = rw (List.map-append, sane.same_paths, e) refl;
}

keep_nested-IsSane :
    (k : Text) (cleaned n : Fields) (found found' : Found)
    → IsSane (cleaned, found)
    → IsSane (n, found')
    → IsSane ((if is_empty n then cleaned else insert k (map n) cleaned), found')
unfolding IsPlain
keep_nested-IsSane k cleaned n found found' sane inner = record {
  plain = ground (arith, insert-HasPlainFields k (map n) cleaned);
  well_formed = inner.well_formed;
  same_paths = inner.same_paths;
}

insert-IsSane :
    (k : Text) (v : Value) (cleaned : Fields) (found : Found)
    → IsPlain v
    → IsSane (cleaned, found)
    → IsSane (insert k v cleaned, found)
insert-IsSane k v cleaned found p sane = record {
  plain = insert-HasPlainFields k v cleaned p sane.plain;
  well_formed = sane.well_formed;
  same_paths = sane.same_paths;
}

deleted-IsSane :
    (p : FieldPath) (cleaned : Fields) (found : Found)
    → IsSane (cleaned, found)
    → IsSane (cleaned, push_deleted p found)
deleted-IsSane p cleaned found sane = record {
  plain = sane.plain;
  well_formed = sane.well_formed;
  same_paths = sane.same_paths;
}

-- The arm of a sentinel other than `delete_field`.
transform-IsSane :
    (s : Sentinel) (segments : List Text) (found : Found) (cleaned : Fields) (r : Fields × Found)
    → IsSane (cleaned, found)
    → (FieldPath.new segments >>= λ p. record_transform p s found >>= λ f. ok (cleaned, f)) ≡ ok r
    → IsSane r
transform-IsSane s segments found cleaned r sane h =
    let (p, _, h') = >>=-eq-ok (FieldPath.new segments) _ h in
    let (f, recorded, h'') = >>=-eq-ok (record_transform p s found) _ h' in
    let (t, same, well_formed, path) = record_transform-eq-ok p s found f recorded in
    rw (← ok_inj h'', ← same) (push_transform-IsSane p t cleaned found well_formed path sane)

-- The arm of a value that is kept as it is.
plain-IsSane :
    (v : Value) (key : Text) (segments : List Text) (found : Found) (cleaned : Fields)
    (r : Fields × Found)
    → IsPlain v
    → IsSane (cleaned, found)
    → (FieldPath.new segments >>= λ _. ok (insert key v cleaned, found)) ≡ ok r
    → IsSane r
plain-IsSane v key segments found cleaned r p sane h =
    let (_, _, h') = >>=-eq-ok (FieldPath.new segments) _ h in
    rw (← ok_inj h') (insert-IsSane key v cleaned found p sane)

mutual
  unfolding sanitize_map IsPlain

  sanitize_map-IsSane :
      (m : Fields) (parent : List Text) (found : Found) (cleaned : Fields) (r : Fields × Found)
      → IsSane (cleaned, found)
      → sanitize_map m parent found cleaned ≡ ok r
      → IsSane r
  sanitize_map-IsSane end parent found cleaned r sane h = rw (← ok_inj h) sane
  sanitize_map-IsSane (field k v m) parent found cleaned r sane h =
      let (q, here, there) = >>=-eq-ok (sanitize_entry v k (parent ++ k ∷ []) found cleaned) _ h in
      sanitize_map-IsSane m parent q.1 q.0 r
        (sanitize_entry-IsSane v k (parent ++ k ∷ []) found cleaned q sane here) there

  sanitize_entry-IsSane :
      (v : Value) (key : Text) (segments : List Text) (found : Found) (cleaned : Fields)
      (r : Fields × Found)
      → IsSane (cleaned, found)
      → sanitize_entry v key segments found cleaned ≡ ok r
      → IsSane r
  sanitize_entry-IsSane (sentinel delete_field) key segments found cleaned r sane h =
      let (p, _, h') = >>=-eq-ok (FieldPath.new segments) _ h in
      rw (← ok_inj h') (deleted-IsSane p cleaned found sane)
  sanitize_entry-IsSane (sentinel s) key segments found cleaned r sane h =
      transform-IsSane s segments found cleaned r sane h
  sanitize_entry-IsSane (map m) key segments found cleaned r sane h =
      let (_, _, h') = >>=-eq-ok (FieldPath.new segments) _ h in
      let (q, inner, h'') = >>=-eq-ok (sanitize_map m segments found end) _ h' in
      let start : IsSane (end, found) = record {
        plain = tt;
        well_formed = sane.well_formed;
        same_paths = sane.same_paths;
      } in
      rw (← ok_inj h'') (
        keep_nested-IsSane key cleaned q.0 found q.1 sane
          (sanitize_map-IsSane m segments found end q start inner))
  sanitize_entry-IsSane (array xs) key segments found cleaned r sane h =
      let (_, _, h') = >>=-eq-ok (FieldPath.new segments) _ h in
      let (_, checked, h'') = >>=-eq-ok (assert_no_sentinel_in_value (array xs)) _ h' in
      rw (← ok_inj h'')
        (insert-IsSane key (array xs) cleaned found (ArePlain-of-assert xs checked) sane)
  sanitize_entry-IsSane v key segments found cleaned r sane h =
      plain-IsSane v key segments found cleaned r tt sane h

-- Whatever the data, sanitizing that succeeds leaves fields without a sentinel, transforms that are
-- well formed, and the paths of exactly these transforms.
pub sanitize_for_write-IsSane :
    (data' : Fields) (r : Fields × Found) → sanitize_for_write data' ≡ ok r → IsSane r
unfolding sanitize_for_write IsPlain
sanitize_for_write-IsSane data' r h =
    sanitize_map-IsSane data' [] nothing_found end r
      (record { plain = tt; well_formed = tt; same_paths = refl }) h

new-concat :
    (ss : List Text) (s : Text)
    → FieldPath.new (ss ++ s ∷ []) ≡ ok (record { segments = ss ++ s ∷ [] })
unfolding FieldPath.new
new-concat [] s = refl
new-concat (t ∷ ss) s = refl

-- An empty map in the data is dropped: sanitizing goes on as if the field were not there.
pub sanitize_map-empty_map :
    (key : Text) (m : Fields) (parent : List Text) (found : Found) (cleaned : Fields)
    → sanitize_map (field key (map end) m) parent found cleaned
      ≡ sanitize_map m parent found cleaned
unfolding sanitize_map
sanitize_map-empty_map key m parent found cleaned = rw (new-concat parent key) refl
