-- ===== src/Firestore/Model/DocumentKey.antt =====
-- crates/firebase-firestore/src/model/document_key.rs
use firebase_rs_sdk.Common.{
  ◌+◌, ◌%◌, ◌≤◌, Ordering, ◌≡◌, refl, ◌||◌, not, Option, some, List, [], ◌∷◌, arith, if◌then◌else◌,
  ltb, length, last, init, All, inr, false,
}
use firebase_rs_sdk.Common.Ord.{
  Ord, ◌==◌, nat_ord, list_ord, cmp_list, eq_of_cmp_list, cmp_list_refl, cmp_list_swap,
  cmp_list_trans,
}
use firebase_rs_sdk.Common.Text.{Text, is_blank}
use firebase_rs_sdk.Firestore.Error.{FirestoreResult, ok, err, invalid_argument, ◌>>=◌}
use firebase_rs_sdk.Firestore.Model.ResourcePath
use firebase_rs_sdk.Firestore.Model.ResourcePath.{
  ResourcePath, len, last_segment, without_last, canonical_string,
}
use firebase_rs_sdk.Firestore.Model.ResourcePath.Parsing.{IsSegment}

pub record DocumentKey : Type 0 where
  pub path : ResourcePath

unfoldable pub from_path : ResourcePath → FirestoreResult DocumentKey
from_path path =
    if ltb (len path) 2 || not (len path % 2 == 0)
    then err invalid_argument
    else ok (record { path = path })

unfoldable pub from_string : Text → FirestoreResult DocumentKey
from_string path = do resource ← ResourcePath.from_string path; from_path resource

unfoldable pub collection_path : DocumentKey → ResourcePath
unfolding without_last
collection_path key = without_last key.path

-- `expect`: a panic on an empty path, which no key has
unfoldable pub id : DocumentKey → Option Text
id key = last_segment key.path

-- Ord for DocumentKey
abbrev pub cmp : DocumentKey → DocumentKey → Ordering
cmp a b = cmp_list a.path.segments b.path.segments

pub eq_of_cmp : (a b : DocumentKey) → cmp a b ≡ Ordering.eq → a ≡ b
eq_of_cmp a b h = ground (arith, eq_of_cmp_list a.path.segments b.path.segments)

instance abbrev pub key_ord : Ord DocumentKey
key_ord = record {
  cmp = cmp;
  cmp_refl = λ a. cmp_list_refl a.path.segments;
  eq_of_cmp = eq_of_cmp;
  cmp_swap = λ a b. cmp_list_swap a.path.segments b.path.segments;
  lt_trans = λ a b c. cmp_list_trans a.path.segments b.path.segments c.path.segments;
}

-- What `from_path` checks: an even number of segments, and at least two.
pub record IsValid (key : DocumentKey) : Type 0 where
  pub even : len key.path % 2 ≡ 0
  pub nonempty : 2 ≤ len key.path

-- Any key that `from_path` accepts is the path given, with an even number of segments, at least two.
pub from_path-IsValid :
    (path : ResourcePath) (key : DocumentKey)
    → from_path path ≡ ok key
    → (key.path ≡ path) × IsValid key
unfolding from_path
from_path-IsValid path key h = ground arith

length-init : (s : Text) (ss : List Text) → length (init (s ∷ ss)) + 1 ≡ length (s ∷ ss)
length-init s [] = omega arith
length-init s (t ∷ ss) = omega (arith, length-init t ss)

last-nonempty : (s : Text) (ss : List Text) → (r : Text) × (last (s ∷ ss) ≡ some r)
last-nonempty s [] = (s, refl)
last-nonempty s (t ∷ ss) = last-nonempty t ss

parent_of_valid :
    (ss : List Text)
    → 2 ≤ length ss
    → length ss % 2 ≡ 0
    → (length (init ss) % 2 ≡ 1) × ((r : Text) × (last ss ≡ some r))
parent_of_valid [] h e = absurd (omega arith)
parent_of_valid (s ∷ ss) h e = (omega (arith, length-init s ss), last-nonempty s ss)

segments-without_last :
    (ss : List Text) → (without_last (record { segments = ss })).segments ≡ init ss
unfolding without_last
segments-without_last [] = refl
segments-without_last (s ∷ ss) = refl

-- Any key that `from_path` accepts has an id (the `expect` of `id` cannot fail), and its collection
-- path has an odd number of segments, as a query's collection must.
pub from_path-collection_path :
    (path : ResourcePath) (key : DocumentKey)
    → from_path path ≡ ok key
    → (len (collection_path key) % 2 ≡ 1) × ((name : Text) × (id key ≡ some name))
unfolding collection_path id
from_path-collection_path path key h =
    let valid = (from_path-IsValid path key h).1 in
    rw (segments-without_last key.path.segments)
      (parent_of_valid key.path.segments valid.nonempty valid.even)

-- A key of well-formed segments is found again by its canonical string, under which the in-memory
-- store files its document, unless that string is all white space.
pub from_string-canonical_string_of_key :
    (key : DocumentKey)
    → IsValid key
    → All IsSegment key.path.segments
    → is_blank (canonical_string key.path) ≡ false
    → from_string (canonical_string key.path) ≡ ok key
unfolding from_string from_path
from_string-canonical_string_of_key key valid segs b =
    rw (ResourcePath.Parsing.from_string-canonical_string key.path segs (inr b)) (ground arith)

-- Any key that `from_path` accepts is the path given, with an even number of segments, at least two; it
-- has an id (the `expect` of `id` cannot fail), and its collection path has an odd number of segments, as
-- a query's collection must.
pub from_path_lem :
    (path : ResourcePath) (key : DocumentKey)
    → from_path path ≡ ok key
    → (key.path ≡ path)
      × (IsValid key
          × ((len (collection_path key) % 2 ≡ 1) × ((name : Text) × (id key ≡ some name))))
from_path_lem path key h =
    let (same, valid) = from_path-IsValid path key h in
    (same, (valid, from_path-collection_path path key h))
