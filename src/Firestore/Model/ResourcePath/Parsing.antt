-- ===== src/Firestore/Model/ResourcePath/Parsing.antt =====
-- `from_string` and `canonical_string` of resource_path.rs.
use firebase_rs_sdk.Common.{
  ℕ, ◌≡◌, refl, ap, ◌≢◌, ◌⊎◌, false, not, List, [], ◌∷◌, ◌++◌, arith, All, keep, inl, inr,
}
use firebase_rs_sdk.Common.Ord.{nat_ord}
use firebase_rs_sdk.Common.Text.{
  Text, codes, is_whitespace, is_blank, Lacks, split, join, split-join, split_from-Lacks,
}
use firebase_rs_sdk.Firestore.Error.{ok}
use firebase_rs_sdk.Firestore.Model.ResourcePath.{
  ResourcePath, new, root, is_empty, has_double_slash, from_string, canonical_string,
}

-- A segment that can stand in a path string: not empty, and without a slash.
abbrev pub IsSegment : Text → Type 0
IsSegment s = (s ≢ []) × Lacks b'/' s

keep-IsSegment :
    (ss : List Text) → All (Lacks b'/') ss → All IsSegment (keep (λ s. not (is_empty s)) ss)
keep-IsSegment [] h = tt
keep-IsSegment ([] ∷ ss) h = keep-IsSegment ss h.1
keep-IsSegment ((c ∷ s) ∷ ss) h = ((λ e. cc e, h.0), keep-IsSegment ss h.1)

from_string-eq-ok :
    (path : Text) (p : ResourcePath)
    → from_string path ≡ ok p
    → (p ≡ root) ⊎ (p ≡ new (keep (λ s. not (is_empty s)) (split b'/' path)))
unfolding from_string
from_string-eq-ok path p h = ground arith

-- Every segment of a parsed path is non-empty and holds no slash.
pub from_string-IsSegment :
    (path : Text) (p : ResourcePath) → from_string path ≡ ok p → All IsSegment p.segments
from_string-IsSegment path p h = elim (from_string-eq-ok path p h) [
  | inl e ↦ rw e tt
  | inr e ↦ rw e (keep-IsSegment (split b'/' path) (split_from-Lacks b'/' [] path tt))
]

keep-All : (ss : List Text) → All IsSegment ss → keep (λ s. not (is_empty s)) ss ≡ ss
keep-All [] h = refl
keep-All ([] ∷ ss) h = absurd (h.0.0 refl)
keep-All ((c ∷ s) ∷ ss) h = ap (λ l. (c ∷ s) ∷ l) (keep-All ss h.1)

has_double_slash-eq-false : (s : Text) → Lacks b'/' s → has_double_slash s ≡ false
unfolding has_double_slash
has_double_slash-eq-false [] h = refl
has_double_slash-eq-false (c ∷ []) h = refl
has_double_slash-eq-false (c ∷ d ∷ s) h = ground (arith, has_double_slash-eq-false (d ∷ s) h.1)

has_double_slash-append :
    (c : ℕ) (s : Text) (d : ℕ) (r : Text)
    → Lacks b'/' (c ∷ s)
    → d ≢ b'/'
    → has_double_slash (d ∷ r) ≡ false
    → has_double_slash ((c ∷ s) ++ (b'/' ∷ d ∷ r)) ≡ false
unfolding has_double_slash
has_double_slash-append c [] d r h ne e = ground arith
has_double_slash-append c (b ∷ s) d r h ne e =
    ground (arith, has_double_slash-append b s d r h.1 ne e)

has_double_slash-join :
    (ss : List Text) → All IsSegment ss → has_double_slash (join b'/' ss) ≡ false
unfolding join
has_double_slash-join [] h = unfold has_double_slash in refl
has_double_slash-join (s ∷ []) h = has_double_slash-eq-false s h.0.1
has_double_slash-join ([] ∷ t ∷ ss) h = absurd (h.0.0 refl)
has_double_slash-join (s ∷ [] ∷ ss) h = absurd (h.1.0.0 refl)
has_double_slash-join ((c ∷ s) ∷ (d ∷ t) ∷ []) h =
    has_double_slash-append c s d t h.0.1 h.1.0.1.0 (has_double_slash-join ((d ∷ t) ∷ []) h.1)
has_double_slash-join ((c ∷ s) ∷ (d ∷ t) ∷ u ∷ ss) h =
    has_double_slash-append c s d (t ++ (b'/' ∷ join b'/' (u ∷ ss))) h.0.1 h.1.0.1.0
      (has_double_slash-join ((d ∷ t) ∷ u ∷ ss) h.1)

Lacks-of-IsSegment : (ss : List Text) → All IsSegment ss → All (Lacks b'/') ss
Lacks-of-IsSegment [] h = tt
Lacks-of-IsSegment (s ∷ ss) h = (h.0.1, Lacks-of-IsSegment ss h.1)

from_string-join :
    (ss : List Text)
    → All IsSegment ss
    → is_blank (join b'/' ss) ≡ false
    → from_string (join b'/' ss) ≡ ok (new ss)
unfolding from_string
from_string-join [] h b = unfold join in cc
from_string-join (s ∷ ss) h b =
    rw (b, has_double_slash-join (s ∷ ss) h, split-join b'/' s ss (Lacks-of-IsSegment (s ∷ ss) h))
      (ap (λ l. ok (new l)) (keep-All (s ∷ ss) h))

-- Parsing the canonical string of a path gives the path back, if its segments are non-empty and
-- slash-free and the string is not all white space. The root's string is empty and parses to the root.
pub from_string-canonical_string :
    (p : ResourcePath)
    → All IsSegment p.segments
    → (p ≡ root) ⊎ (is_blank (canonical_string p) ≡ false)
    → from_string (canonical_string p) ≡ ok p
unfolding canonical_string
from_string-canonical_string p h (inl e) = rw e (unfold from_string join in refl)
from_string-canonical_string p h (inr b) = from_string-join p.segments h b

-- A path of one blank segment is well formed, and its canonical string parses to the root.
from_string-blank : from_string (canonical_string (new (codes " " ∷ []))) ≡ ok root
unfolding from_string canonical_string join is_whitespace
from_string-blank = refl
