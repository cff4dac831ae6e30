-- ===== src/Firestore/Tests/Model.antt =====
-- Paths, keys, timestamps, status codes and the order of values at concrete inputs.
use firebase_rs_sdk.Common.{
  ℕ, ◌^◌, ◌≤◌, ◌%◌, ◌≡◌, ◌≢◌, ◌↔◌, ◌⊎◌, inr, refl, arith, [], ◌∷◌, All, eq, ◌+◌, some,
}
use firebase_rs_sdk.Common.Ord.{reverse, nat_ord, list_ord}
use firebase_rs_sdk.Common.Int.{pos, negsuc, neg_part, ◌+ℤ◌}
use firebase_rs_sdk.Common.Text.{Text, codes, join, split_from, is_whitespace}
use firebase_rs_sdk.Firestore.Error.{ok}
use firebase_rs_sdk.Firestore.F64.{from_i64, nan}
use firebase_rs_sdk.Firestore.Model.ResourcePath
use firebase_rs_sdk.Firestore.Model.ResourcePath.{
  ResourcePath, comparator, is_prefix_of, child, pop_last, last_segment, len,
}
use firebase_rs_sdk.Firestore.Model.ResourcePath.Parsing.{
  from_string-IsSegment, from_string-canonical_string, IsSegment,
}
use firebase_rs_sdk.Firestore.Model.FieldPath
use firebase_rs_sdk.Firestore.Model.FieldPath.{
  FieldPath, from_dot_separated, from_dot_separated_lem,
}
use firebase_rs_sdk.Firestore.Model.FieldPath.Canonical.{canonical_string_inj}
use firebase_rs_sdk.Firestore.Model.DocumentKey.{
  DocumentKey, IsValid, from_path, collection_path, id, from_path_lem,
}
use firebase_rs_sdk.Firestore.Model.Timestamp
use firebase_rs_sdk.Firestore.Model.Timestamp.{
  Timestamp, to_system_time, from_system_time, billion, div_euclid,
}
use firebase_rs_sdk.Firestore.Model.Timestamp.Time.{
  instant, IsNormal, new_lem, to_system_time-from_system_time_iff,
}
use firebase_rs_sdk.Firestore.Value.{integer, double}
use firebase_rs_sdk.Firestore.Value.Order.{compare_values}
use firebase_rs_sdk.Firestore.Value.Order.Laws.{compare_values_lem, compare_values-not-transitive}

abbrev cities_sf : ResourcePath
cities_sf = record { segments = codes "cities" ∷ codes "sf" ∷ [] }

abbrev cities : ResourcePath
cities = record { segments = codes "cities" ∷ [] }

abbrev sf : DocumentKey
sf = record { path = cities_sf }

abbrev address_city : FieldPath
address_city = record { segments = codes "address" ∷ codes "city" ∷ [] }

-- one segment, with a dot in it
abbrev dotted : FieldPath
dotted = record { segments = codes "address.city" ∷ [] }

-- a second and a half before the epoch
abbrev before : Timestamp
before = record { seconds = negsuc 1; nanos = pos 500000000 }

abbrev after : Timestamp
after = record { seconds = pos 3; nanos = pos 7 }

before-IsNormal : IsNormal before
before-IsNormal = record { nonneg = refl; fraction = omega arith }

after-IsNormal : IsNormal after
after-IsNormal = record { nonneg = refl; fraction = omega arith }

-- ALREADY_EXISTS
abbrev six : ℕ
six = 6

parsed : ResourcePath.from_string (codes "/cities/sf/") ≡ ok cities_sf
unfolding ResourcePath.from_string ResourcePath.has_double_slash split_from is_whitespace
parsed = refl

segments_ok : All IsSegment cities_sf.segments
segments_ok = from_string-IsSegment (codes "/cities/sf/") cities_sf parsed

from_string-canonical_string_example :
    ResourcePath.from_string (ResourcePath.canonical_string cities_sf) ≡ ok cities_sf
unfolding ResourcePath.canonical_string join is_whitespace
from_string-canonical_string_example = from_string-canonical_string cities_sf segments_ok (inr refl)

canonical_string_inj_example : address_city ≡ address_city
canonical_string_inj_example =
    canonical_string_inj address_city address_city (λ e. cc e) (λ e. cc e) refl

dots : from_dot_separated (codes "address.city") ≡ ok address_city
unfolding from_dot_separated FieldPath.new split_from is_whitespace
dots = refl

key_ok : from_path cities_sf ≡ ok sf
unfolding from_path
key_ok = refl

from_path_lem_example :
    (sf.path ≡ cities_sf)
    × (IsValid sf × ((len (collection_path sf) % 2 ≡ 1) × ((name : Text) × (id sf ≡ some name))))
from_path_lem_example = from_path_lem cities_sf sf key_ok

new_lem_example :
    IsNormal (Timestamp.new (negsuc 0) (negsuc 0))
    × (instant (Timestamp.new (negsuc 0) (negsuc 0))
        ≡ instant (record { seconds = negsuc 0; nanos = negsuc 0 }))
new_lem_example = new_lem (negsuc 0) (negsuc 0) (unfold ◌+ℤ◌ in (omega arith, omega arith))

to_system_time-from_system_time_iff_example :
    (to_system_time (from_system_time (negsuc 0)) ≡ negsuc 0)
    ↔ ((neg_part (negsuc 0) ≡ 0) ⊎ (billion ≤ neg_part (negsuc 0)))
to_system_time-from_system_time_iff_example =
    to_system_time-from_system_time_iff (negsuc 0) (omega arith)

compare_values_lem_example :
    (compare_values (double nan) (integer (pos 1))
      ≡ reverse (compare_values (integer (pos 1)) (double nan)))
    × (compare_values (integer (pos 1)) (integer (pos 1)) ≡ eq)
compare_values_lem_example = compare_values_lem (integer (pos 1)) (double nan)

same_double : from_i64 (pos (2 ^ 53 + 1)) ≡ from_i64 (pos (2 ^ 53))
unfolding from_i64
same_double = refl

compare_values-not-transitive_example :
    (compare_values (integer (pos (2 ^ 53 + 1))) (double (from_i64 (pos (2 ^ 53)))) ≡ eq)
    × (compare_values (double (from_i64 (pos (2 ^ 53)))) (integer (pos (2 ^ 53))) ≡ eq)
    × (compare_values (integer (pos (2 ^ 53 + 1))) (integer (pos (2 ^ 53))) ≢ eq)
compare_values-not-transitive_example =
    compare_values-not-transitive (pos (2 ^ 53 + 1)) (pos (2 ^ 53)) (λ e. ground (arith, e))
      same_double
