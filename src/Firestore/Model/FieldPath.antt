-- ===== src/Firestore/Model/FieldPath.antt =====
-- crates/firebase-firestore/src/model/field_path.rs
pub mod Canonical
use firebase_rs_sdk.Common.{
  ℕ, ◌≡◌, refl, ◌≢◌, Bool, true, false, ◌&&◌, ◌||◌, not, Option, none, some, List, [], ◌∷◌, ◌++◌,
  arith, if◌then◌else◌, leb, any, all, All, last,
}
use firebase_rs_sdk.Common.Ord.{◌==◌, nat_ord, list_ord}
use firebase_rs_sdk.Common.Text.{
  Text, codes, is_blank, split, join, join-split_from, Lacks, split_from-Lacks,
}
use firebase_rs_sdk.Firestore.Error.{FirestoreResult, ok, err, invalid_argument}

pub record FieldPath : Type 0 where
  pub segments : List Text

abbrev pub is_empty {ℓ} : {A : Type ℓ} → List A → Bool
is_empty [] = true
is_empty (_ ∷ _) = false

unfoldable pub new : List Text → FirestoreResult FieldPath
new [] = err invalid_argument
new (s ∷ ss) = ok (record { segments = s ∷ ss })

-- '~', '*', '/', '[' and ']'
is_forbidden : ℕ → Bool
is_forbidden c = c == b'~' || c == b'*' || c == b'/' || c == b'[' || c == b']'

unfoldable pub from_dot_separated : Text → FirestoreResult FieldPath
unfolding is_forbidden
from_dot_separated path =
    if is_blank path
    then err invalid_argument
    else if any is_forbidden path
    then err invalid_argument
    else if any is_empty (split b'.' path)
    then err invalid_argument
    else new (split b'.' path)

-- `expect`: a panic on an empty path, which `new` refuses
abbrev pub last_segment : FieldPath → Option Text
last_segment p = last p.segments

is_ascii_alphabetic : ℕ → Bool
is_ascii_alphabetic c = (leb b'a' c && leb c b'z') || (leb b'A' c && leb c b'Z')

is_ascii_alphanumeric : ℕ → Bool
unfolding is_ascii_alphabetic
is_ascii_alphanumeric c = is_ascii_alphabetic c || (leb b'0' c && leb c b'9')

-- s.replace(c, by)
unfoldable pub replace : ℕ → Text → Text → Text
replace c by [] = []
replace c by (d ∷ s) = let rest = replace c by s in if d == c then by ++ rest else d ∷ rest

unfoldable pub is_simple_identifier : Text → Bool
unfolding is_ascii_alphabetic is_ascii_alphanumeric
is_simple_identifier [] = false
is_simple_identifier (first ∷ rest) =
    (first == b'_' || is_ascii_alphabetic first)
    && all (λ c. c == b'_' || is_ascii_alphanumeric c) rest

abbrev pub escape : Text → Text
escape segment = replace b'`' (b'\\' ∷ b'`' ∷ []) (replace b'\\' (b'\\' ∷ b'\\' ∷ []) segment)

-- one segment of `canonical_string`
unfoldable pub quote : Text → Text
unfolding is_simple_identifier
quote segment =
    let escaped = escape segment in
    if is_simple_identifier segment then escaped else b'`' ∷ (escaped ++ b'`' ∷ [])

unfoldable pub quote_all : List Text → List Text
unfolding quote
quote_all [] = []
quote_all (s ∷ ss) = quote s ∷ quote_all ss

unfoldable pub canonical_string : FieldPath → Text
unfolding quote_all
canonical_string p = join b'.' (quote_all p.segments)

abbrev pub document_id : FieldPath
document_id = record { segments = codes "__name__" ∷ [] }

-- derived PartialEq
abbrev pub eqb : FieldPath → FieldPath → Bool
eqb p q = p.segments == q.segments

from_dot_separated-eq-ok :
    (path : Text) (p : FieldPath)
    → from_dot_separated path ≡ ok p
    → (p.segments ≡ split b'.' path) × (any is_empty (split b'.' path) ≡ false)
unfolding from_dot_separated new
from_dot_separated-eq-ok path p h = ground arith

not-empty-of-any : (ss : List Text) → any is_empty ss ≡ false → All (λ s. s ≢ []) ss
not-empty-of-any [] h = tt
not-empty-of-any ([] ∷ ss) h = cc
not-empty-of-any ((c ∷ s) ∷ ss) h = (λ e. cc e, not-empty-of-any ss h)

-- A parsed field path is the text's dotted segments: none is empty, none holds a dot, and joined by
-- dots they are the text again.
pub from_dot_separated_lem :
    (path : Text) (p : FieldPath)
    → from_dot_separated path ≡ ok p
    → (join b'.' p.segments ≡ path) × All (λ s. s ≢ []) p.segments × All (Lacks b'.') p.segments
from_dot_separated_lem path p h =
    let (same, full) = from_dot_separated-eq-ok path p h in
    rw same
      (join-split_from b'.' [] path, not-empty-of-any _ full, split_from-Lacks b'.' [] path tt)
