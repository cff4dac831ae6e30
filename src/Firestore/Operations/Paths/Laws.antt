-- ===== src/Firestore/Operations/Paths/Laws.antt =====
-- Reading after writing and removing along a field path.
use firebase_rs_sdk.Common.{
  ◌≡◌, refl, sym, ◌∙◌, ◌≢◌, ◌⊎◌, inl, inr, List, [], ◌∷◌, none, some, Bool-cases, arith,
}
use firebase_rs_sdk.Common.Ord.{◌==◌, nat_ord, list_ord, eq_iff, ==_refl}
use firebase_rs_sdk.Common.Text.{Text}
use firebase_rs_sdk.Firestore.Value.{Value, map, Fields, end}
use firebase_rs_sdk.Firestore.Value.MapValue.{get, insert, remove, get_from_segments}
use firebase_rs_sdk.Firestore.Value.MapValue.Laws.{get-insert, get-remove}
use firebase_rs_sdk.Firestore.Operations.Paths.{nested, set_value_at_segments, remove_segments}

get-insert_self : (k : Text) (v : Value) (m : Fields) → get k (insert k v m) ≡ some v
get-insert_self k v m = rw (get-insert, ==_refl k) refl

get-remove_self : (k : Text) (m : Fields) → get k (remove k m) ≡ none
get-remove_self k m = rw (get-remove, ==_refl k) refl

get-insert_ne : (j k : Text) (v : Value) (m : Fields) → j ≢ k → get j (insert k v m) ≡ get j m
get-insert_ne j k v m ne = ground (arith, get-insert j k v m, (eq_iff j k).0)

get-remove_ne : (j k : Text) (m : Fields) → j ≢ k → get j (remove k m) ≡ get j m
get-remove_ne j k m ne = ground (arith, get-remove j k m, (eq_iff j k).0)

get_from-end : (s : Text) (ss : List Text) → get_from_segments (s ∷ ss) end ≡ none
unfolding get_from_segments
get_from-end s [] = refl
get_from-end s (t ∷ ss) = refl

-- One step of a look-up goes into the map at the first segment.
get_from-step :
    (s t : Text) (ss : List Text) (m : Fields)
    → get_from_segments (s ∷ t ∷ ss) m ≡ get_from_segments (t ∷ ss) (nested (get s m))
unfolding get_from_segments
get_from-step s t ss m = ground (arith, get_from-end t ss)

-- A look-up depends on the entry at its first segment only.
get_from_congr :
    (s : Text) (ss : List Text) (m n : Fields)
    → get s m ≡ get s n
    → get_from_segments (s ∷ ss) m ≡ get_from_segments (s ∷ ss) n
get_from_congr s [] m n e = unfold get_from_segments in e
get_from_congr s (t ∷ ss) m n e = rw (get_from-step s t ss m, get_from-step s t ss n, e) refl

-- A value written at a non-empty path is read back at that path, whatever stood there or on the way.
pub get-set_value :
    (s : Text) (ss : List Text) (v : Value) (m : Fields)
    → get_from_segments (s ∷ ss) (set_value_at_segments (s ∷ ss) v m) ≡ some v
unfolding set_value_at_segments
get-set_value s [] v m = unfold get_from_segments in get-insert_self s v m
get-set_value s (t ∷ ss) v m =
    rw (get_from-step, get-insert_self) (get-set_value t ss v (nested (get s m)))

remove_segments-end : (s : Text) (ss : List Text) → remove_segments (s ∷ ss) end ≡ end
unfolding remove_segments remove get
remove_segments-end s [] = refl
remove_segments-end s (t ∷ ss) = refl

-- What a removal does to the map at the first of two segments.
nested-remove :
    (s t : Text) (ss : List Text) (m : Fields)
    → nested (get s (remove_segments (s ∷ t ∷ ss) m)) ≡ remove_segments (t ∷ ss) (nested (get s m))
unfolding remove_segments
nested-remove s t ss m = ground (
  arith,
  get-insert_self s (map (remove_segments (t ∷ ss) (nested (get s m)))) m,
  remove_segments-end t ss,
)

-- Nothing is read at a non-empty path after its removal.
pub get-remove_segments :
    (s : Text) (ss : List Text) (m : Fields)
    → get_from_segments (s ∷ ss) (remove_segments (s ∷ ss) m) ≡ none
get-remove_segments s [] m = unfold get_from_segments remove_segments in get-remove_self s m
get-remove_segments s (t ∷ ss) m =
    rw (get_from-step, nested-remove s t ss m) (get-remove_segments t ss (nested (get s m)))

-- Two paths that part at some segment: neither leads through the other.
abbrev pub Part : List Text → List Text → Type 0
Part [] q = ⊥
Part (s ∷ ss) [] = ⊥
Part (s ∷ ss) (t ∷ ts) = (s ≢ t) ⊎ Part ss ts

get-set_value_ne :
    (s t : Text) (ss : List Text) (v : Value) (m : Fields)
    → s ≢ t
    → get t (set_value_at_segments (s ∷ ss) v m) ≡ get t m
unfolding set_value_at_segments
get-set_value_ne s t [] v m ne = get-insert_ne t s _ m (λ e. ne (sym e))
get-set_value_ne s t (u ∷ ss) v m ne = get-insert_ne t s _ m (λ e. ne (sym e))

get-remove_segments_ne :
    (s t : Text) (ss : List Text) (m : Fields)
    → s ≢ t
    → get t (remove_segments (s ∷ ss) m) ≡ get t m
unfolding remove_segments
get-remove_segments_ne s t [] m ne = get-remove_ne t s m (λ e. ne (sym e))
get-remove_segments_ne s t (u ∷ ss) m ne =
    ground (arith, get-insert_ne t s (map (remove_segments (u ∷ ss) (nested (get s m)))) m)

get-set_value_under :
    (s r u : Text) (ss ts : List Text) (v : Value) (m : Fields)
    → get_from_segments (u ∷ ts) (set_value_at_segments (r ∷ ss) v (nested (get s m)))
      ≡ get_from_segments (u ∷ ts) (nested (get s m))
    → get_from_segments (s ∷ u ∷ ts) (set_value_at_segments (s ∷ r ∷ ss) v m)
      ≡ get_from_segments (s ∷ u ∷ ts) m
unfolding set_value_at_segments
get-set_value_under s r u ss ts v m h = simp (get_from-step, get-insert_self) h

get-remove_segments_under :
    (s r u : Text) (ss ts : List Text) (m : Fields)
    → get_from_segments (u ∷ ts) (remove_segments (r ∷ ss) (nested (get s m)))
      ≡ get_from_segments (u ∷ ts) (nested (get s m))
    → get_from_segments (s ∷ u ∷ ts) (remove_segments (s ∷ r ∷ ss) m)
      ≡ get_from_segments (s ∷ u ∷ ts) m
get-remove_segments_under s r u ss ts m h =
    get_from-step s u ts (remove_segments (s ∷ r ∷ ss) m)
    ∙ (rw (nested-remove s r ss m) h)
    ∙ sym (get_from-step s u ts m)

-- Writing at one path leaves what is read at a path that parts from it.
pub get-set_value_other :
    (p q : List Text) (v : Value) (m : Fields)
    → Part p q
    → get_from_segments q (set_value_at_segments p v m) ≡ get_from_segments q m
get-set_value_other [] q v m h = absurd h
get-set_value_other (s ∷ ss) [] v m h = absurd h
get-set_value_other (s ∷ ss) (t ∷ ts) v m (inl ne) =
    get_from_congr t ts _ m (get-set_value_ne s t ss v m ne)
get-set_value_other (s ∷ []) (t ∷ ts) v m (inr h) = absurd h
get-set_value_other (s ∷ r ∷ ss) (t ∷ []) v m (inr h) = absurd h
get-set_value_other (s ∷ r ∷ ss) (t ∷ u ∷ ts) v m (inr h) = elim (Bool-cases (s == t)) [
  | inl e ↦ rw (← (eq_iff s t).0 e) (
      get-set_value_under s r u ss ts v m
        (get-set_value_other (r ∷ ss) (u ∷ ts) v (nested (get s m)) h))
  | inr e ↦
      get_from_congr t (u ∷ ts) _ m
        (get-set_value_ne s t (r ∷ ss) v m (λ eq. cc ((eq_iff s t).1 eq)))
]

-- Removing at one path leaves what is read at a path that parts from it.
pub get-remove_segments_other :
    (p q : List Text) (m : Fields)
    → Part p q
    → get_from_segments q (remove_segments p m) ≡ get_from_segments q m
get-remove_segments_other [] q m h = absurd h
get-remove_segments_other (s ∷ ss) [] m h = absurd h
get-remove_segments_other (s ∷ ss) (t ∷ ts) m (inl ne) =
    get_from_congr t ts _ m (get-remove_segments_ne s t ss m ne)
get-remove_segments_other (s ∷ []) (t ∷ ts) m (inr h) = absurd h
get-remove_segments_other (s ∷ r ∷ ss) (t ∷ []) m (inr h) = absurd h
get-remove_segments_other (s ∷ r ∷ ss) (t ∷ u ∷ ts) m (inr h) = elim (Bool-cases (s == t)) [
  | inl e ↦ rw (← (eq_iff s t).0 e) (
      get-remove_segments_under s r u ss ts m
        (get-remove_segments_other (r ∷ ss) (u ∷ ts) (nested (get s m)) h))
  | inr e ↦
      get_from_congr t (u ∷ ts) _ m
        (get-remove_segments_ne s t (r ∷ ss) m (λ eq. cc ((eq_iff s t).1 eq)))
]

-- What was written at a path is read there again, and what is read at any path that parts from it is
-- as before.
pub set_value_at_segments_lem :
    (s : Text) (ss q : List Text) (v : Value) (m : Fields)
    → Part (s ∷ ss) q
    → (get_from_segments (s ∷ ss) (set_value_at_segments (s ∷ ss) v m) ≡ some v)
      × (get_from_segments q (set_value_at_segments (s ∷ ss) v m) ≡ get_from_segments q m)
set_value_at_segments_lem s ss q v m h =
    (get-set_value s ss v m, get-set_value_other (s ∷ ss) q v m h)

-- After a removal nothing is read at its path, and what is read at any path that parts from it is as
-- before.
pub remove_segments_lem :
    (s : Text) (ss q : List Text) (m : Fields)
    → Part (s ∷ ss) q
    → (get_from_segments (s ∷ ss) (remove_segments (s ∷ ss) m) ≡ none)
      × (get_from_segments q (remove_segments (s ∷ ss) m) ≡ get_from_segments q m)
remove_segments_lem s ss q m h =
    (get-remove_segments s ss m, get-remove_segments_other (s ∷ ss) q m h)
