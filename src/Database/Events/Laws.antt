-- ===== src/Database/Events/Laws.antt =====
-- Which children the events of a listener tell of.
use mathlib.Core.Path.{subst}
use firebase_rs_sdk.Common.{
  ◌≡◌, ◌∙◌, ◌↔◌, refl, sym, ap, arith, inl, inr, Bool, true, false, not, Option, none, some,
  unwrap_or, Option-cases, All, List, [], ◌∷◌, ◌++◌, Has, Bool-cases,
}
use firebase_rs_sdk.Common.BTreeMap
use firebase_rs_sdk.Common.BTreeMap.{BTreeMap}
use firebase_rs_sdk.Common.Ord.{◌==◌, nat_ord, list_ord, eq_iff}
use firebase_rs_sdk.Common.Text.{Text}
use firebase_rs_sdk.Database.{Value, null}
use firebase_rs_sdk.Database.Events.{
  Children, ChildEventType, added, changed, removed, ChildEvent, keys, previous_from, events_from,
  differs, emit_child_events,
}

-- a key among some keys
abbrev Among : Text → List Text → Type 0
Among k ks = Has (λ j. j ≡ k) ks

Among-keys : (k : Text) (m : Children) → Among k (keys m) ↔ (BTreeMap.contains_key k m ≡ true)
unfolding keys BTreeMap.get
Among-keys k [] = (λ h. absurd h, λ h. cc h)
Among-keys k ((j, v) ∷ m) = elim (Bool-cases (k == j)) [
  | inl e ↦ (λ _. ground (arith, e), λ _. inl (sym ((eq_iff k j).0 e)))
  | inr e ↦ (
    λ h. elim h [
      | inl same ↦ absurd (ground (arith, e, (eq_iff k j).1 (sym same)))
      | inr later ↦ ground (arith, e, (Among-keys k m).0 later)
    ],
    λ h. inr ((Among-keys k m).1 (ground (arith, e, h))),
  )
]

-- the last of some keys, or what came before them
abbrev last_from : Option Text → List Text → Option Text
last_from previous [] = previous
last_from previous (k ∷ ks) = last_from (some k) ks

-- the key before a key among others
abbrev pub Precedes : Option Text → Option Text → Text → List Text → Type 0
Precedes first previous k ks =
    (before : List Text) × (after : List Text) × (ks ≡ before ++ k ∷ after)
    × (previous ≡ last_from first before)

previous_from-found :
    (previous : Option Text) (k j : Text) (ks : List Text)
    → (j == k) ≡ true
    → previous_from previous (j ∷ ks) k ≡ previous
unfolding previous_from
previous_from-found previous k j ks e = rw (previous_from, e) refl

previous_from-later :
    (previous : Option Text) (k j : Text) (ks : List Text)
    → (j == k) ≡ false
    → previous_from previous (j ∷ ks) k ≡ previous_from (some j) ks k
unfolding previous_from
previous_from-later previous k j ks e = rw (previous_from, e) refl

previous_from-Precedes :
    (previous : Option Text) (ks : List Text) (k : Text)
    → Among k ks
    → Precedes previous (previous_from previous ks k) k ks
previous_from-Precedes previous [] k h = absurd h
previous_from-Precedes previous (j ∷ ks) k h = elim (Bool-cases (j == k)) [
  | inl e ↦ ([], ks, ap (λ x. x ∷ ks) ((eq_iff j k).0 e), previous_from-found previous k j ks e)
  | inr e ↦
      (let (before, after, split, last) = previous_from-Precedes (some j) ks k (elim h [
        | inl same ↦ absurd (ground (arith, e, (eq_iff j k).1 same))
        | inr later ↦ later
      ]) in
        (j ∷ before, after, ap (λ x. j ∷ x) split, previous_from-later previous k j ks e ∙ last))
]

module _ (eq_value : Value → Value → Bool) (parent_path : List Text) where
  -- the event of a child
  abbrev pub Tells : Text → List ChildEvent → Type 0
  Tells k events = Has (λ e. e.path ≡ parent_path ++ k ∷ []) events

  last_inj : (ss : List Text) (j k : Text) → ss ++ j ∷ [] ≡ ss ++ k ∷ [] → j ≡ k
  last_inj [] j k e = cc e
  last_inj (s ∷ ss) j k e = last_inj ss j k (cc e)

  picked : (picks : Text → Bool) (j k : Text) → j ≡ k → picks j ≡ false → picks k ≡ true → ⊥
  picked picks j k e p q = cc (ap picks e, p, q)

  Tells-events_from :
      (event : ChildEventType) (picks : Text → Bool) (children : Children) (ks : List Text)
      (k : Text)
      → Tells k (events_from eq_value parent_path event picks children ks)
        ↔ (Among k ks × (picks k ≡ true))
  unfolding events_from
  Tells-events_from event picks children [] k = (λ h. absurd h, λ h. absurd h.0)
  Tells-events_from event picks children (j ∷ ks) k =
      let (to, from) = Tells-events_from event picks children ks k in
      elim (Bool-cases (picks j)) [
        | inl p ↦ rw p (
            (
              λ h. elim h [
                | inl same ↦
                    (let e = last_inj parent_path j k same in
                      (inl e, subst (λ x. picks x ≡ true) e p))
                | inr later ↦ (let r = to later in (inr r.0, r.1))
              ],
              λ h. elim h.0 [
                | inl e ↦ inl (ap (λ x. parent_path ++ x ∷ []) e)
                | inr m ↦ inr (from (m, h.1))
              ],
            ))
        | inr p ↦ rw p (
            (
              λ h. (let r = to h in (inr r.0, r.1)),
              λ h. elim h.0 [ inl e ↦ absurd (picked picks j k e p h.1) | inr m ↦ from (m, h.1) ],
            ))
      ]

  -- which children the events tell of
  told_keys :
      (old fresh : Children) (k : Text)
      → (Tells k (emit_child_events eq_value parent_path added old fresh)
          ↔ ((BTreeMap.contains_key k fresh ≡ true) × (BTreeMap.contains_key k old ≡ false)))
        × ((Tells k (emit_child_events eq_value parent_path removed old fresh)
              ↔ ((BTreeMap.contains_key k old ≡ true) × (BTreeMap.contains_key k fresh ≡ false)))
            × (Tells k (emit_child_events eq_value parent_path changed old fresh) ↔ (
                differs eq_value parent_path (BTreeMap.get k old) (BTreeMap.get k fresh) ≡ true)))
  unfolding emit_child_events
  told_keys old fresh k =
      let (to, from) =
        Tells-events_from added (λ key. not (BTreeMap.contains_key key old)) fresh (keys fresh) k in
      let (to', from') =
        Tells-events_from removed (λ key. not (BTreeMap.contains_key key fresh)) old (keys old) k in
      let (to'', from'') =
        Tells-events_from changed
          (λ key. differs eq_value parent_path (BTreeMap.get key old) (BTreeMap.get key fresh))
          fresh (keys fresh) k in
      (
        (
          λ h. ((Among-keys k fresh).0 (to h).0, ground (arith, (to h).1)),
          λ h. from ((Among-keys k fresh).1 h.0, ground (arith, h.1)),
        ),
        (
          (
            λ h. ((Among-keys k old).0 (to' h).0, ground (arith, (to' h).1)),
            λ h. from' ((Among-keys k old).1 h.0, ground (arith, h.1)),
          ),
          (λ h. (to'' h).1, λ h. from'' ((Among-keys k fresh).1 (ground (arith, h)), h)),
        ),
      )

  -- An event of a child: of its kind, with the child's reference, its value, and the key before it.
  pub record IsEventOf (event : ChildEventType) (children : Children) (e : ChildEvent)
      : Type 0 where
    pub key : Text
    pub same_event : e.event ≡ event
    pub same_path : e.path ≡ parent_path ++ key ∷ []
    pub same_value : BTreeMap.get key children ≡ some e.value
    pub precedes : Precedes none e.previous_name key (keys children)

  abbrev event_of : ChildEventType → Children → Text → ChildEvent
  event_of event children key = record {
    event = event;
    path = parent_path ++ key ∷ [];
    value = unwrap_or null (BTreeMap.get key children);
    previous_name = previous_from none (keys children) key;
  }

  event_of-IsEventOf :
      (event : ChildEventType) (children : Children) (key : Text)
      → Among key (keys children)
      → IsEventOf event children (event_of event children key)
  event_of-IsEventOf event children key h =
      let held = (Among-keys key children).0 h in
      record {
        key = key;
        same_event = refl;
        same_path = refl;
        same_value = elim (Option-cases (BTreeMap.get key children)) [
          | inl n ↦ absurd (ground (arith, held, n))
          | inr (v, n) ↦ n ∙ ap (λ x. some (unwrap_or null x)) (sym n)
        ];
        precedes = previous_from-Precedes none (keys children) key h;
      }

  events_from-IsEventOf :
      (event : ChildEventType) (picks : Text → Bool) (children : Children) (ks : List Text)
      → ((k : Text) → Among k ks → Among k (keys children))
      → All (IsEventOf event children) (events_from eq_value parent_path event picks children ks)
  unfolding events_from
  events_from-IsEventOf event picks children [] sub = tt
  events_from-IsEventOf event picks children (j ∷ ks) sub =
      let rest = events_from-IsEventOf event picks children ks (λ k h. sub k (inr h)) in
      elim (Bool-cases (picks j)) [
        | inl p ↦ rw p ((event_of-IsEventOf event children j (sub j (inl refl)), rest))
        | inr p ↦ rw p rest
      ]

  -- The child events of a change tell of just the children that changed: an added event of each key that
  -- is new, a removed event of each that is gone, a changed event of each whose two values differ. Each
  -- event has its kind, the reference of its child, the child's value (of a removed child the old one) and,
  -- as the previous name, the key before it in the order of the keys.
  pub emit_child_events_lem :
      (old fresh : Children) (k : Text)
      → ((Tells k (emit_child_events eq_value parent_path added old fresh)
            ↔ ((BTreeMap.contains_key k fresh ≡ true) × (BTreeMap.contains_key k old ≡ false)))
          × All (IsEventOf added fresh) (emit_child_events eq_value parent_path added old fresh))
        × (((Tells k (emit_child_events eq_value parent_path removed old fresh)
                ↔ ((BTreeMap.contains_key k old ≡ true) × (BTreeMap.contains_key k fresh ≡ false)))
              × All
                  (IsEventOf removed old)
                  (emit_child_events eq_value parent_path removed old fresh))
            × ((Tells k (emit_child_events eq_value parent_path changed old fresh) ↔ (
                  differs eq_value parent_path (BTreeMap.get k old) (BTreeMap.get k fresh) ≡ true))
                × All
                    (IsEventOf changed fresh)
                    (emit_child_events eq_value parent_path changed old fresh)))
  unfolding emit_child_events
  emit_child_events_lem old fresh k =
      let (a, (r, c)) = told_keys old fresh k in
      (
        (
          a,
          events_from-IsEventOf added (λ key. not (BTreeMap.contains_key key old)) fresh
              (keys fresh) (λ _ h. h),
        ),
        (
          (
            r,
            events_from-IsEventOf removed (λ key. not (BTreeMap.contains_key key fresh)) old
                (keys old) (λ _ h. h),
          ),
          (
            c,
            events_from-IsEventOf changed
                (λ key.
                  differs eq_value parent_path (BTreeMap.get key old) (BTreeMap.get key fresh))
                fresh (keys fresh) (λ _ h. h),
          ),
        ),
      )
