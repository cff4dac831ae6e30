-- ===== src/Firestore/Model/FieldPath/Canonical.antt =====
-- `canonical_string` of field_path.rs tells field paths apart: its quoting can be undone.
use firebase_rs_sdk.Common.{
  ℕ, ◌≡◌, refl, sym, ap, ◌∙◌, ◌≢◌, Bool, true, false, ◌||◌, Option, none, some, List, [], ◌∷◌, ◌++◌,
  arith, if◌then◌else◌, all, append-nil, append_assoc, inl, inr, Bool-cases,
}
use firebase_rs_sdk.Common.Ord.{◌==◌, nat_ord}
use firebase_rs_sdk.Common.Text.{Text, join}
use firebase_rs_sdk.Firestore.Model.FieldPath.{
  FieldPath, replace, is_simple_identifier, is_ascii_alphanumeric, escape, quote, quote_all,
  canonical_string,
}

prepend : ℕ → Option (Text × Text) → Option (Text × Text)
prepend c none = none
prepend c (some (s, rest)) = some (c ∷ s, rest)

-- Reads a quoted segment up to its closing back quote; the flag says that a backslash came before.
unquote : Bool → Text → Option (Text × Text)
unquote escaped [] = none
unquote true (c ∷ s) = prepend c (unquote false s)
unquote false (c ∷ s) =
    let after = unquote true s in
    let more = unquote false s in
    if c == b'\\' then after else if c == b'`' then some ([], s) else prepend c more

-- Reads up to the next dot.
bare : Text → Text × Text
bare [] = ([], [])
bare (c ∷ s) = let rest = bare s in if c == b'.' then ([], c ∷ s) else (c ∷ rest.0, rest.1)

read_segment : Text → Option (Text × Text)
read_segment [] = none
read_segment (c ∷ s) = if c == b'`' then unquote false s else some (bare (c ∷ s))

unquote-escape : (s rest : Text) → unquote false (escape s ++ (b'`' ∷ rest)) ≡ some (s, rest)
unfolding unquote prepend replace
unquote-escape [] rest = refl
unquote-escape (c ∷ s) rest = ground (arith, unquote-escape s rest)

abbrev is_word : ℕ → Bool
is_word c = c == b'_' || is_ascii_alphanumeric c

escape-of-words : (s : Text) → all is_word s ≡ true → escape s ≡ s
unfolding replace is_ascii_alphanumeric
escape-of-words [] h = refl
escape-of-words (c ∷ s) h = ground (arith, escape-of-words s)

-- What may follow a segment: nothing, or a dot.
abbrev IsTail : Text → Type 0
IsTail [] = Unit
IsTail (c ∷ s) = c ≡ b'.'

bare-of-words : (s rest : Text) → all is_word s ≡ true → IsTail rest → bare (s ++ rest) ≡ (s, rest)
unfolding bare is_ascii_alphanumeric
bare-of-words [] [] h t = refl
bare-of-words [] (c ∷ rest) h t = ground arith
bare-of-words (c ∷ s) rest h t = ground (arith, bare-of-words s rest)

words-of-simple : (s : Text) → is_simple_identifier s ≡ true → all is_word s ≡ true
unfolding is_simple_identifier is_ascii_alphanumeric
words-of-simple [] h = cc
words-of-simple (c ∷ s) h = ground arith

read_segment-of-simple :
    (s rest : Text)
    → is_simple_identifier s ≡ true
    → IsTail rest
    → read_segment (s ++ rest) ≡ some (s, rest)
unfolding read_segment is_simple_identifier
read_segment-of-simple [] rest h t = cc
read_segment-of-simple (c ∷ s) rest h t =
    ground (arith, bare-of-words (c ∷ s) rest (words-of-simple (c ∷ s) h) t)

read_segment-quote : (s rest : Text) → IsTail rest → read_segment (quote s ++ rest) ≡ some (s, rest)
unfolding quote
read_segment-quote s rest t = elim (Bool-cases (is_simple_identifier s)) [
  | inl e ↦ rw (e, escape-of-words s (words-of-simple s e)) (read_segment-of-simple s rest e t)
  | inr e ↦ rw (e, append_assoc) (unfold read_segment in unquote-escape s rest)
]

-- What follows the first segment in a canonical string.
tail_of : List Text → Text
tail_of [] = []
tail_of (s ∷ ss) = b'.' ∷ join b'.' (quote_all (s ∷ ss))

tail_of-IsTail : (ss : List Text) → IsTail (tail_of ss)
unfolding tail_of
tail_of-IsTail [] = tt
tail_of-IsTail (s ∷ ss) = refl

join-quote_all :
    (s : Text) (ss : List Text) → join b'.' (quote_all (s ∷ ss)) ≡ quote s ++ tail_of ss
unfolding join quote_all tail_of
join-quote_all s [] = sym (append-nil _)
join-quote_all s (t ∷ ss) = refl

read_segment-join :
    (s : Text) (ss : List Text)
    → read_segment (join b'.' (quote_all (s ∷ ss))) ≡ some (s, tail_of ss)
read_segment-join s ss = rw join-quote_all (read_segment-quote s (tail_of ss) (tail_of-IsTail ss))

tail_of_inj : (ss ts : List Text) → tail_of ss ≡ tail_of ts → ss ≡ ts
unfolding tail_of
tail_of_inj [] [] e = refl
tail_of_inj [] (t ∷ ts) e = cc
tail_of_inj (s ∷ ss) [] e = cc
tail_of_inj (s ∷ ss) (t ∷ ts) e =
    let joined : join b'.' (quote_all (s ∷ ss)) ≡ join b'.' (quote_all (t ∷ ts)) = cc in
    let read : some (s, tail_of ss) ≡ some (t, tail_of ts) =
      sym (read_segment-join s ss) ∙ ap read_segment joined ∙ read_segment-join t ts in
    cc (tail_of_inj ss ts (ground arith), read)

join-quote_all_inj :
    (ss ts : List Text)
    → ss ≢ []
    → ts ≢ []
    → join b'.' (quote_all ss) ≡ join b'.' (quote_all ts)
    → ss ≡ ts
join-quote_all_inj [] ts hs ht e = absurd (hs refl)
join-quote_all_inj (s ∷ ss) [] hs ht e = absurd (ht refl)
join-quote_all_inj (s ∷ ss) (t ∷ ts) hs ht e =
    tail_of_inj (s ∷ ss) (t ∷ ts) (unfold tail_of in ap (λ l. b'.' ∷ l) e)

-- Two non-empty field paths with the same canonical string are the same path, whatever characters
-- their segments hold.
pub canonical_string_inj :
    (p q : FieldPath)
    → p.segments ≢ []
    → q.segments ≢ []
    → canonical_string p ≡ canonical_string q
    → p ≡ q
unfolding canonical_string
canonical_string_inj p q hp hq e =
    ap (λ ss. record { segments = ss }) (join-quote_all_inj p.segments q.segments hp hq e)
