-- ===== src/Common/Text.antt =====
-- Text as its code points. Rust orders strings by their UTF-8 bytes, which is the order of their
-- code points, and the routines modelled here split and test strings at single characters.
use Prim.Native.Char.{code}
use Prim.Native.String.{String}
use Prim.Native.Nat.{ℕ}
use mathlib.Core.Path.{◌≡◌, refl, sym, ap, ◌∙◌}
use mathlib.Core.Logic.{◌≢◌, inl, inr}
use mathlib.Core.Bool.{Bool, ◌&&◌, ◌||◌}
use mathlib.Core.List.{List, [], ◌∷◌, ◌++◌, append_assoc, append-nil}
use native.Mathlib.Omega.{arith}
use firebase_rs_sdk.Common.Tests.{leb, if◌then◌else◌, Bool-cases}
use firebase_rs_sdk.Common.Lists.{all, All, All-append}
use firebase_rs_sdk.Common.Ord.{◌==◌, nat_ord, eq_iff}

abbrev pub Text : Type 0
Text = List ℕ

abbrev pub codes : String → Text
codes String.[] = []
codes (String.◌∷◌ c s) = code c ∷ codes s

-- char::is_whitespace: the code points with the Unicode property White_Space
unfoldable pub is_whitespace : ℕ → Bool
is_whitespace c =
    (leb 9 c && leb c 13)
    || c == 32
    || c == 0x85
    || c == 0xA0
    || c == 0x1680
    || (leb 0x2000 c && leb c 0x200A)
    || c == 0x2028
    || c == 0x2029
    || c == 0x202F
    || c == 0x205F
    || c == 0x3000

-- s.trim().is_empty()
abbrev pub is_blank : Text → Bool
is_blank s = all is_whitespace s

-- the pieces of s.split(c), `cur` being the piece that is open
unfoldable pub split_from : ℕ → Text → Text → List Text
split_from c cur [] = cur ∷ []
split_from c cur (d ∷ s) =
    let closed = split_from c [] s in
    let longer = split_from c (cur ++ d ∷ []) s in if d == c then cur ∷ closed else longer

abbrev pub split : ℕ → Text → List Text
split c s = split_from c [] s

-- segments.join(c)
unfoldable pub join : ℕ → List Text → Text
join c [] = []
join c (s ∷ []) = s
join c (s ∷ t ∷ ss) = s ++ (c ∷ join c (t ∷ ss))

abbrev pub Lacks : ℕ → Text → Type 0
Lacks c s = All (λ d. d ≢ c) s

-- A piece that lacks the separator is cut off whole.
pub split_from-append :
    (c : ℕ) (cur s rest : Text)
    → Lacks c s
    → split_from c cur (s ++ (c ∷ rest)) ≡ (cur ++ s) ∷ split_from c [] rest
unfolding split_from
split_from-append c cur [] rest h = ground (arith, append-nil cur)
split_from-append c cur (d ∷ s) rest h =
    ground (arith, split_from-append c (cur ++ d ∷ []) s rest h.1, append_assoc cur (d ∷ []) s)

pub split_from-last : (c : ℕ) (cur s : Text) → Lacks c s → split_from c cur s ≡ (cur ++ s) ∷ []
unfolding split_from
split_from-last c cur [] h = ground (arith, append-nil cur)
split_from-last c cur (d ∷ s) h =
    ground (arith, split_from-last c (cur ++ d ∷ []) s h.1, append_assoc cur (d ∷ []) s)

-- Splitting at the separator undoes joining by it.
pub split-join :
    (c : ℕ) (s : Text) (ss : List Text)
    → All (Lacks c) (s ∷ ss)
    → split c (join c (s ∷ ss)) ≡ s ∷ ss
unfolding join
split-join c s [] h = split_from-last c [] s h.0
split-join c s (t ∷ ss) h =
    split_from-append c [] s (join c (t ∷ ss)) h.0 ∙ ap (λ l. s ∷ l) (split-join c t ss h.1)

-- No piece of a split holds the separator.
pub split_from-Lacks : (c : ℕ) (cur s : Text) → Lacks c cur → All (Lacks c) (split_from c cur s)
unfolding split_from
split_from-Lacks c cur [] h = (h, tt)
split_from-Lacks c cur (d ∷ s) h = elim (Bool-cases (d == c)) [
  | inl e ↦ rw e (h, split_from-Lacks c [] s tt)
  | inr e ↦ rw e (
      split_from-Lacks c (cur ++ d ∷ []) s
        (All-append (λ b. b ≢ c) cur (d ∷ []) h (ground arith, tt)))
]

split_from-ne-nil : (c : ℕ) (cur s : Text) → split_from c cur s ≢ []
unfolding split_from
split_from-ne-nil c cur [] e = cc
split_from-ne-nil c cur (d ∷ s) e = ground (arith, split_from-ne-nil c (cur ++ d ∷ []) s)

join-cons : (c : ℕ) (s : Text) (ss : List Text) → ss ≢ [] → join c (s ∷ ss) ≡ s ++ (c ∷ join c ss)
unfolding join
join-cons c s [] h = absurd (h refl)
join-cons c s (t ∷ ss) h = refl

-- Joining by the separator undoes splitting at it.
pub join-split_from : (c : ℕ) (cur s : Text) → join c (split_from c cur s) ≡ cur ++ s
unfolding split_from
join-split_from c cur [] = unfold join in sym (append-nil cur)
join-split_from c cur (d ∷ s) = elim (Bool-cases (d == c)) [
  | inl e ↦
      rw (e, (eq_iff d c).0 e)
        (join-cons c cur (split_from c [] s) (split_from-ne-nil c [] s)
          ∙ ap (λ l. cur ++ (c ∷ l)) (join-split_from c [] s))
  | inr e ↦ rw e (join-split_from c (cur ++ d ∷ []) s ∙ append_assoc cur (d ∷ []) s)
]
