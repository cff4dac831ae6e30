-- ===== src/Database/PushId/Order.antt =====
-- The order of the ids of push_id.rs.
use firebase_rs_sdk.Common.{
  ℕ, zero, suc, ◌/◌, ◌%◌, ◌^◌, ◌<◌, ◌≤◌, ◌≡◌, ◌∙◌, refl, sym, arith, lt, compare, ◌⊎◌, inl, inr,
  Bool, true, false, ◌&&◌, some, List, [], ◌∷◌, ◌++◌, append_assoc, length, All, All-append, all,
  ltb, get_elem?, unwrap_or, Bool-cases, Option-cases,
}
use firebase_rs_sdk.Common.Ord.{◌==◌, nat_ord, list_ord, cmp_list, compare_refl, eq_iff}
use firebase_rs_sdk.Database.PushId.{
  push_chars, PushState, chars, timestamp_digits, all_zero, carry, bump, next_push_id,
}

-- Each element is below all that follow.
abbrev increasing : List ℕ → Bool
increasing [] = true
increasing (c ∷ cs) = all (ltb c) cs && increasing cs

push_chars-increasing : increasing push_chars ≡ true
push_chars-increasing = refl

abbrev at : List ℕ → ℕ → ℕ
at cs i = unwrap_or 0 (get_elem? cs i)

above : (c : ℕ) (cs : List ℕ) (i : ℕ) → all (ltb c) cs ≡ true → i < length cs → c < at cs i
above c [] i h b = absurd (omega (arith, b))
above c (d ∷ cs) zero h b = ground (arith, h)
above c (d ∷ cs) (suc i) h b = above c cs i (ground (arith, h)) (omega (arith, b))

-- The characters stand in the order of their digits.
compare-at :
    (cs : List ℕ) (i j : ℕ)
    → increasing cs ≡ true
    → i < length cs
    → j < length cs
    → compare (at cs i) (at cs j) ≡ compare i j
compare-at [] i j h b b' = absurd (omega (arith, b))
compare-at (c ∷ cs) zero zero h b b' = ground arith
compare-at (c ∷ cs) zero (suc j) h b b' =
    ground (arith, above c cs j (ground (arith, h)) (omega (arith, b')))
compare-at (c ∷ cs) (suc i) zero h b b' =
    ground (arith, above c cs i (ground (arith, h)) (omega (arith, b)))
compare-at (c ∷ cs) (suc i) (suc j) h b b' =
    compare-at cs i j (ground (arith, h)) (omega (arith, b)) (omega (arith, b')) ∙ ground arith

abbrev pub IsDigit : ℕ → Type 0
IsDigit d = d < 64

cmp-chars :
    (ds es : List ℕ)
    → All IsDigit ds
    → All IsDigit es
    → cmp_list (chars ds) (chars es) ≡ cmp_list ds es
unfolding chars cmp_list
cmp-chars [] [] h g = refl
cmp-chars [] (e ∷ es) h g = refl
cmp-chars (d ∷ ds) [] h g = refl
cmp-chars (d ∷ ds) (e ∷ es) h g =
    ground (arith, compare-at push_chars d e push_chars-increasing h.0 g.0, cmp-chars ds es h.1 g.1)

cmp-append : (ds es fs : List ℕ) → cmp_list (ds ++ es) (ds ++ fs) ≡ cmp_list es fs
unfolding cmp_list
cmp-append [] es fs = refl
cmp-append (d ∷ ds) es fs = ground (arith, compare_refl d, cmp-append ds es fs)

same_quotient : (t u : ℕ) → t < u → ltb (t / 64) (u / 64) ≡ false → u / 64 ≡ t / 64
same_quotient t u h e = let q : u / 64 ≤ t / 64 = ground (arith, e) in omega (arith, h, q)

lower_remainder : (t u : ℕ) → t < u → ltb (t / 64) (u / 64) ≡ false → t % 64 < u % 64
lower_remainder t u h e = omega (arith, h, same_quotient t u h e)

-- The digits of a later time are above those of an earlier one, whatever follows.
cmp-timestamp_digits :
    (n t u : ℕ) (es fs : List ℕ)
    → t < u
    → u < 64 ^ n
    → cmp_list (timestamp_digits n t ++ es) (timestamp_digits n u ++ fs) ≡ lt
unfolding timestamp_digits cmp_list
cmp-timestamp_digits zero t u es fs h b = absurd (omega (arith, h, b))
cmp-timestamp_digits (suc n) t u es fs h b =
    rw
      (
        append_assoc (timestamp_digits n (t / 64)) (t % 64 ∷ []) es,
        append_assoc (timestamp_digits n (u / 64)) (u % 64 ∷ []) fs,
      )
      (elim (Bool-cases (ltb (t / 64) (u / 64))) [
        | inl e ↦
            cmp-timestamp_digits n (t / 64) (u / 64) (t % 64 ∷ es) (u % 64 ∷ fs) (ground (arith, e))
              (omega (arith, b))
        | inr e ↦ rw (same_quotient t u h e) (
            cmp-append (timestamp_digits n (t / 64)) (t % 64 ∷ es) (u % 64 ∷ fs)
            ∙ ground (arith, lower_remainder t u h e))
      ])

all_zero-IsDigit : (ds : List ℕ) → All IsDigit (all_zero ds)
unfolding all_zero
all_zero-IsDigit [] = tt
all_zero-IsDigit (d ∷ ds) = (omega arith, all_zero-IsDigit ds)

some_inj {ℓ} : {A : Type ℓ} {a b : A} → some a ≡ some b → a ≡ b
some_inj e = cc

-- either a later digit was raised, or this one, with zeros after it
carry-cons :
    (d : ℕ) (ds next : List ℕ)
    → carry (d ∷ ds) ≡ some next
    → ((later : List ℕ) × (carry ds ≡ some later) × (d ∷ later ≡ next))
      ⊎ (((d == 63) ≡ false) × (suc d ∷ all_zero ds ≡ next))
unfolding carry
carry-cons d ds next h = elim (Option-cases (carry ds)) [
  | inl e ↦ (elim (Bool-cases (d == 63)) [
    | inl f ↦ absurd (ground (arith, e, f, h))
    | inr f ↦ inr ((f, some_inj (sym (rw (carry, e, f) refl) ∙ h)))
  ])
  | inr (later, e) ↦ inl (later, e, some_inj (sym (rw (carry, e) refl) ∙ h))
]

-- An increment that does not overflow gives a higher list of digits.
cmp-carry : (ds next : List ℕ) → carry ds ≡ some next → cmp_list ds next ≡ lt
unfolding carry cmp_list
cmp-carry [] next h = cc h
cmp-carry (d ∷ ds) next h = elim (carry-cons d ds next h) [
  | inl (later, e, f) ↦ rw (← f) (ground (arith, compare_refl d, cmp-carry ds later e))
  | inr (n, f) ↦ rw (← f) (ground arith)
]

carry-IsDigit : (ds next : List ℕ) → All IsDigit ds → carry ds ≡ some next → All IsDigit next
unfolding carry
carry-IsDigit [] next g h = cc h
carry-IsDigit (d ∷ ds) next g h = elim (carry-cons d ds next h) [
  | inl (later, e, f) ↦ rw (← f) ((g.0, carry-IsDigit ds later g.1 e))
  | inr (n, f) ↦ rw (← f) ((ground (arith, n, g.0), all_zero-IsDigit ds))
]

bump-IsDigit : (ds : List ℕ) → All IsDigit ds → All IsDigit (bump ds)
bump-IsDigit ds g = elim (Option-cases (carry ds)) [
  | inl e ↦ rw e (all_zero-IsDigit ds)
  | inr (next, e) ↦ rw e (carry-IsDigit ds next g e)
]

timestamp_digits-IsDigit : (n t : ℕ) → All IsDigit (timestamp_digits n t)
unfolding timestamp_digits
timestamp_digits-IsDigit zero t = tt
timestamp_digits-IsDigit (suc n) t =
    All-append IsDigit (timestamp_digits n (t / 64)) (t % 64 ∷ [])
      (timestamp_digits-IsDigit n (t / 64)) ((omega arith, tt))

-- the random digits that a call leaves behind
digits_after :
    (random : List ℕ) (now : ℕ) (s : PushState)
    → All IsDigit random
    → All IsDigit s.last_rand_chars
    → All IsDigit (next_push_id random now s).1.last_rand_chars
unfolding next_push_id
digits_after random now s r g = elim (Bool-cases (now == s.last_push_time)) [
  | inl e ↦ rw e (bump-IsDigit s.last_rand_chars g)
  | inr e ↦ rw e r
]

id_of :
    (random : List ℕ) (now : ℕ) (s : PushState)
    → (next_push_id random now s).0
      ≡ chars (timestamp_digits 8 now ++ (next_push_id random now s).1.last_rand_chars)
unfolding next_push_id
id_of random now s = refl

-- what is after one call the state of the next: at the same time the digits are raised, if they can be
abbrev pub Follows : ℕ → ℕ → List ℕ → Type 0
Follows t u digits = (t < u) ⊎ ((t ≡ u) × ((next : List ℕ) × (carry digits ≡ some next)))

cmp-Follows :
    (t u : ℕ) (ds es : List ℕ)
    → u < 64 ^ 8
    → Follows t u ds
    → ((next : List ℕ) → t ≡ u → carry ds ≡ some next → es ≡ next)
    → cmp_list (timestamp_digits 8 t ++ ds) (timestamp_digits 8 u ++ es) ≡ lt
cmp-Follows t u ds es b (inl h) raised = cmp-timestamp_digits 8 t u ds es h b
cmp-Follows t u ds es b (inr (e, (next, c))) raised =
    rw (← e) (cmp-append (timestamp_digits 8 t) ds es ∙ rw (raised next e c) (cmp-carry ds next c))

last_push_time-next_push_id :
    (random : List ℕ) (t : ℕ) (s : PushState) → (next_push_id random t s).1.last_push_time ≡ t
unfolding next_push_id
last_push_time-next_push_id random t s = refl

raised_digits :
    (random : List ℕ) (u : ℕ) (s : PushState) (next : List ℕ)
    → s.last_push_time ≡ u
    → carry s.last_rand_chars ≡ some next
    → (next_push_id random u s).1.last_rand_chars ≡ next
unfolding next_push_id
raised_digits random u s next e c = rw ((eq_iff u s.last_push_time).1 (sym e), c) refl

-- Push ids are ordered by the time of the call: of two calls one after the other, the second returns a
-- greater id, if its time is later, or if it is the same and the digits of the first can be raised (they
-- are not all 63). The times are below 64 ^ 8 ms, and the random digits below 64.
pub next_push_id-increasing :
    (first second : List ℕ) (t u : ℕ) (s : PushState)
    → All IsDigit first
    → All IsDigit second
    → All IsDigit s.last_rand_chars
    → u < 64 ^ 8
    → Follows t u (next_push_id first t s).1.last_rand_chars
    → cmp_list (next_push_id first t s).0 (next_push_id second u (next_push_id first t s).1).0 ≡ lt
next_push_id-increasing first second t u s f g h b follows =
    let s' = (next_push_id first t s).1 in
    let ds = digits_after first t s f h in
    let es = digits_after second u s' g ds in
    rw (id_of first t s, id_of second u s')
      (cmp-chars (timestamp_digits 8 t ++ s'.last_rand_chars)
          (timestamp_digits 8 u ++ (next_push_id second u s').1.last_rand_chars)
          (All-append IsDigit (timestamp_digits 8 t) s'.last_rand_chars
            (timestamp_digits-IsDigit 8 t) ds)
          (All-append IsDigit (timestamp_digits 8 u) (next_push_id second u s').1.last_rand_chars
            (timestamp_digits-IsDigit 8 u) es)
        ∙ cmp-Follows t u s'.last_rand_chars (next_push_id second u s').1.last_rand_chars b follows
            (λ next e c.
              raised_digits second u s' next (last_push_time-next_push_id first t s ∙ e) c))
