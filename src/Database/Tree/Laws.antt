-- ===== src/Database/Tree/Laws.antt =====
-- Reading a tree after a write, at the path written and at others.
use mathlib.Core.Path.{subst}
use firebase_rs_sdk.Common.{
  ℕ, unwrap_or, ◌≡◌, ◌≢◌, ◌∙◌, refl, sym, ap, arith, inl, inr, true, false, Option, none, some,
  List, [], ◌∷◌, Bool-cases, Option-cases, if◌then◌else◌,
}
use firebase_rs_sdk.Common.Ord.{
  ◌==◌, nat_ord, list_ord, eq_iff, ==_refl, eq_of_cmp_list, cmp_list_refl,
}
use firebase_rs_sdk.Common.Text.{Text}
use firebase_rs_sdk.Database.Events.{value_key, child_at, walk, get_value_at_path, value_at_path}
use firebase_rs_sdk.Database.{
  Value, null, boolean, number, string, array, object, Members, end, member, get, insert, remove,
}
use firebase_rs_sdk.Database.Tree.{
  members, remove_member, or_object, is_null, apply_realtime_value, zip_all_eq, is_prefix,
  paths_related,
}

pub get-insert :
    (j k : Text) (v : Value) (m : Members)
    → get j (insert k v m) ≡ (if j == k then some v else get j m)
unfolding get insert
get-insert j k v end = refl
get-insert j k v (member i w m) = ground (
  arith,
  get-insert j k v m,
  eq_of_cmp_list k i,
  eq_of_cmp_list j i,
  eq_of_cmp_list j k,
  cmp_list_refl j,
)

pub get-remove :
    (j k : Text) (m : Members) → get j (remove k m) ≡ (if j == k then none else get j m)
unfolding get remove
get-remove j k end = ground arith
get-remove j k (member i w m) = ground (
  arith,
  get-remove j k m,
  eq_of_cmp_list k i,
  eq_of_cmp_list j i,
  eq_of_cmp_list j k,
  cmp_list_refl j,
)

-- a value whose children are its members: neither an array nor the wrapper of a value
abbrev pub IsHeadPlain : Value → Type 0
IsHeadPlain (array _) = ⊥
IsHeadPlain (object m) = get value_key m ≡ none
IsHeadPlain _ = Unit

-- what a write meets on its way is plain, and no segment of its path names a wrapped value
abbrev pub IsPlain : List Text → Value → Type 0
IsPlain [] root = Unit
IsPlain (s ∷ ss) root =
    ((value_key == s) ≡ false) × (IsHeadPlain root × IsPlain ss (or_object (get s (members root))))

is_prefix-nil : (p : List Text) → is_prefix [] p ≡ true
unfolding is_prefix zip_all_eq
is_prefix-nil p = ground arith

is_prefix-cons :
    (x y : Text) (a p : List Text)
    → is_prefix (x ∷ a) (y ∷ p) ≡ (if x == y then is_prefix a p else false)
unfolding is_prefix zip_all_eq
is_prefix-cons x y a p = ground arith

paths_related-nil : (a : List Text) → paths_related a [] ≡ true
unfolding paths_related
paths_related-nil a = ground (arith, is_prefix-nil a)

paths_related-cons :
    (x y : Text) (a p : List Text) → x ≡ y → paths_related (x ∷ a) (y ∷ p) ≡ paths_related a p
unfolding paths_related
paths_related-cons x y a p e = ground (
  arith,
  is_prefix-cons x y a p,
  is_prefix-cons y x p a,
  (eq_iff x y).1 e,
  (eq_iff y x).1 (sym e),
)

-- what a write at a path of one segment, and at a longer one, puts below its first segment
members-apply_one :
    (x y : Text) (v root : Value)
    → x ≢ y
    → get x (members (apply_realtime_value (y ∷ []) v root)) ≡ get x (members root)
unfolding apply_realtime_value get
members-apply_one x y v (object m) ne =
    ground (arith, get-insert x y v m, get-remove x y m, (eq_iff x y).0)
members-apply_one x y v root ne = ground (arith, get-insert x y v end, (eq_iff x y).0)

members-apply_more :
    (x y t : Text) (ss : List Text) (v root : Value)
    → get x (members (apply_realtime_value (y ∷ t ∷ ss) v root)) ≡ (
        if x == y
        then some (apply_realtime_value (t ∷ ss) v (or_object (get y (members root))))
        else get x (members root))
unfolding apply_realtime_value
members-apply_more x y t ss v root =
    get-insert x y (apply_realtime_value (t ∷ ss) v (or_object (get y (members root))))
      (members root)

members-apply_other :
    (x y : Text) (p : List Text) (v root : Value)
    → (x == y) ≡ false
    → get x (members (apply_realtime_value (y ∷ p) v root)) ≡ get x (members root)
members-apply_other x y [] v root n = members-apply_one x y v root (λ e. cc (n, (eq_iff x y).1 e))
members-apply_other x y (t ∷ ss) v root n = members-apply_more x y t ss v root ∙ ground (arith, n)

members-IsHeadPlain : (root : Value) → IsHeadPlain root → get value_key (members root) ≡ none
unfolding get
members-IsHeadPlain (array _) h = absurd h
members-IsHeadPlain (object m) h = h
members-IsHeadPlain null h = refl
members-IsHeadPlain (boolean _) h = refl
members-IsHeadPlain (number _) h = refl
members-IsHeadPlain (string _) h = refl

insert-IsHeadPlain :
    (y : Text) (v root : Value)
    → (value_key == y) ≡ false
    → IsHeadPlain root
    → get value_key (insert y v (members root)) ≡ none
insert-IsHeadPlain y v root n h =
    get-insert value_key y v (members root) ∙ ground (arith, n) ∙ members-IsHeadPlain root h

remove-IsHeadPlain :
    (y : Text) (root : Value)
    → (value_key == y) ≡ false
    → IsHeadPlain root
    → IsHeadPlain (remove_member y root)
remove-IsHeadPlain y (array _) n h = absurd h
remove-IsHeadPlain y (object m) n h = get-remove value_key y m ∙ ground (arith, n) ∙ h
remove-IsHeadPlain y null n h = tt
remove-IsHeadPlain y (boolean _) n h = tt
remove-IsHeadPlain y (number _) n h = tt
remove-IsHeadPlain y (string _) n h = tt

-- a write whose path names no wrapped value leaves a plain value plain
apply-IsHeadPlain :
    (y : Text) (p : List Text) (v root : Value)
    → (value_key == y) ≡ false
    → IsHeadPlain root
    → IsHeadPlain (apply_realtime_value (y ∷ p) v root)
unfolding apply_realtime_value get insert remove
apply-IsHeadPlain y [] v root n h = elim (Bool-cases (is_null v)) [
  | inl e ↦
      subst
        (λ b. IsHeadPlain (if b then remove_member y root else object (insert y v (members root))))
        (sym e) (remove-IsHeadPlain y root n h)
  | inr e ↦
      subst
        (λ b. IsHeadPlain (if b then remove_member y root else object (insert y v (members root))))
        (sym e) (insert-IsHeadPlain y v root n h)
]
apply-IsHeadPlain y (t ∷ p) v root n h =
    insert-IsHeadPlain y (apply_realtime_value (t ∷ p) v (or_object (get y (members root)))) root n
      h

members-apply_self :
    (s : Text) (v root : Value)
    → get s (members (apply_realtime_value (s ∷ []) v root)) ≡ (if is_null v then none else some v)
unfolding apply_realtime_value get
members-apply_self s v (object m) = ground (arith, get-insert s s v m, get-remove s s m, ==_refl s)
members-apply_self s v root = ground (arith, get-insert s s v end, ==_refl s)

module _ (parse_usize : Text → Option ℕ) where
  -- a read below a child that may be missing
  abbrev walk_below : List Text → Option Value → Option Value
  walk_below ss none = none
  walk_below ss (some child) = walk parse_usize ss child

  child_at-plain :
      (s : Text) (root : Value)
      → IsHeadPlain root
      → child_at parse_usize s root ≡ get s (members root)
  unfolding child_at get
  child_at-plain s (array _) h = absurd h
  child_at-plain s (object m) h = elim (Option-cases (get s m)) [
    | inl n ↦ rw (child_at, n, h) refl
    | inr (child, n) ↦ rw (child_at, n) refl
  ]
  child_at-plain s null h = refl
  child_at-plain s (boolean _) h = refl
  child_at-plain s (number _) h = refl
  child_at-plain s (string _) h = refl

  walk-step :
      (s : Text) (ss : List Text) (root : Value)
      → IsHeadPlain root
      → walk parse_usize (s ∷ ss) root ≡ walk_below ss (get s (members root))
  unfolding walk
  walk-step s ss root h = ap (walk_below ss) (child_at-plain s root h)

  walk_below-or_object :
      (s : Text) (ss : List Text) (child : Option Value)
      → walk parse_usize (s ∷ ss) (or_object child) ≡ walk_below (s ∷ ss) child
  unfolding walk child_at get
  walk_below-or_object s ss none = refl
  walk_below-or_object s ss (some v) = refl

  walk_congr :
      (s : Text) (ss : List Text) (r t : Value)
      → IsHeadPlain r
      → IsHeadPlain t
      → get s (members r) ≡ get s (members t)
      → walk parse_usize (s ∷ ss) r ≡ walk parse_usize (s ∷ ss) t
  walk_congr s ss r t hr ht e =
      walk-step s ss r hr ∙ ap (walk_below ss) e ∙ sym (walk-step s ss t ht)

  -- a read and a write that share their first segment go on below it
  walk-apply_same :
      (x y u t : Text) (a p : List Text) (v root : Value)
      → IsPlain (y ∷ t ∷ p) root
      → x ≡ y
      → walk parse_usize (x ∷ u ∷ a) (apply_realtime_value (y ∷ t ∷ p) v root)
        ≡ walk parse_usize
            (u ∷ a)
            (apply_realtime_value (t ∷ p) v (or_object (get y (members root))))
  walk-apply_same x y u t a p v root h e =
      let at_x : get x (members (apply_realtime_value (y ∷ t ∷ p) v root))
          ≡ some (apply_realtime_value (t ∷ p) v (or_object (get y (members root)))) =
        members-apply_more x y t p v root ∙ ground (arith, (eq_iff x y).1 e) in
      walk-step x (u ∷ a) (apply_realtime_value (y ∷ t ∷ p) v root)
        (apply-IsHeadPlain y (t ∷ p) v root h.0 h.1.0)
      ∙ ap (walk_below (u ∷ a)) at_x

  unrelated_below :
      (x y : Text) (a p : List Text) (v root : Value)
      → IsPlain (y ∷ p) root
      → x ≡ y
      → paths_related a p ≡ false
      → (paths_related a p ≡ false
          → walk parse_usize a (apply_realtime_value p v (or_object (get y (members root))))
            ≡ walk parse_usize a (or_object (get y (members root))))
      → walk parse_usize (x ∷ a) (apply_realtime_value (y ∷ p) v root)
        ≡ walk parse_usize (x ∷ a) root
  unrelated_below x y a [] v root pl e h below = absurd (ground (arith, h, paths_related-nil a))
  unrelated_below x y [] (t ∷ p) v root pl e h below =
      absurd (unfold paths_related in ground (arith, h, is_prefix-nil (t ∷ p)))
  unrelated_below x y (u ∷ a) (t ∷ p) v root pl e h below =
      walk-apply_same x y u t a p v root pl e
      ∙ below h
      ∙ walk_below-or_object u a (get y (members root))
      ∙ ap (λ k. walk_below (u ∷ a) (get k (members root))) (sym e)
      ∙ sym (walk-step x (u ∷ a) root pl.1.0)

  walk-unrelated :
      (a p : List Text) (v root : Value)
      → IsPlain p root
      → paths_related a p ≡ false
      → walk parse_usize a (apply_realtime_value p v root) ≡ walk parse_usize a root
  walk-unrelated a [] v root pl h = absurd (ground (arith, h, paths_related-nil a))
  walk-unrelated [] (y ∷ p) v root pl h =
      absurd (unfold paths_related in ground (arith, h, is_prefix-nil (y ∷ p)))
  walk-unrelated (x ∷ a) (y ∷ p) v root pl h = elim (Bool-cases (x == y)) [
    | inl e ↦
        unrelated_below x y a p v root pl ((eq_iff x y).0 e)
          (sym (paths_related-cons x y a p ((eq_iff x y).0 e)) ∙ h)
          (walk-unrelated a p v (or_object (get y (members root))) pl.1.1)
    | inr e ↦
        walk_congr x a _ root (apply-IsHeadPlain y p v root pl.0 pl.1.0) pl.1.0
          (members-apply_other x y p v root e)
  ]

  -- A listener that is not told of a write has nothing to be told, if the write's path has no segment
  -- `.value` and meets no array and no object with that key on its way in the mirror: what the mirror's
  -- readers find at the listener's path is the same before and after, whatever was written, removed or
  -- replaced.
  pub apply_realtime_value-unrelated :
      (a p : List Text) (v root : Value)
      → IsPlain p root
      → paths_related a p ≡ false
      → (get_value_at_path parse_usize (apply_realtime_value p v root) a
          ≡ get_value_at_path parse_usize root a)
        × (value_at_path parse_usize (apply_realtime_value p v root) a
            ≡ value_at_path parse_usize root a)
  unfolding get_value_at_path value_at_path
  apply_realtime_value-unrelated [] p v root pl h =
      absurd (unfold paths_related in ground (arith, h, is_prefix-nil p))
  apply_realtime_value-unrelated (x ∷ a) p v root pl h =
      let e = walk-unrelated (x ∷ a) p v root pl h in (e, ap (unwrap_or null) e)

  walk_below-nil : (child : Option Value) → walk_below [] child ≡ child
  unfolding walk
  walk_below-nil none = refl
  walk_below-nil (some v) = refl

  walk-apply_self :
      (s : Text) (ss : List Text) (v root : Value)
      → IsPlain (s ∷ ss) root
      → walk parse_usize (s ∷ ss) (apply_realtime_value (s ∷ ss) v root)
        ≡ (if is_null v then none else some v)
  walk-apply_self s [] v root pl =
      walk-step s [] (apply_realtime_value (s ∷ []) v root)
        (apply-IsHeadPlain s [] v root pl.0 pl.1.0)
      ∙ ap (walk_below []) (members-apply_self s v root)
      ∙ walk_below-nil (if is_null v then none else some v)
  walk-apply_self s (t ∷ ss) v root pl =
      walk-apply_same s s t t ss ss v root pl refl
      ∙ walk-apply_self t ss v (or_object (get s (members root))) pl.1.1

  -- A write below the root is read back by the mirror's reader, if its path has no segment `.value` and
  -- meets no array and no object with that key on its way in the mirror: the value written is found at its
  -- path, and after a removal nothing is.
  pub get-apply_realtime_value :
      (s : Text) (ss : List Text) (v root : Value)
      → IsPlain (s ∷ ss) root
      → get_value_at_path parse_usize (apply_realtime_value (s ∷ ss) v root) (s ∷ ss)
        ≡ (if is_null v then none else some v)
  unfolding get_value_at_path
  get-apply_realtime_value s ss v root pl = walk-apply_self s ss v root pl
