-- ===== src/Firestore/Watch/View/InStep.antt =====
-- What a change that the aggregator handles keeps between the view and the target.
use mathlib.Core.Path.{subst}
use firebase_rs_sdk.Common.{
  ◌≡◌, ◌≢◌, ◌∙◌, refl, sym, ap, arith, true, none, some, List, [], ◌∷◌, length, Option, false,
  unwrap_or, Bool-cases, Option-cases, ◌⊎◌, inl, inr, if◌then◌else◌,
}
use firebase_rs_sdk.Common.BTreeMap
use firebase_rs_sdk.Common.BTreeMap.{BTreeMap, BTreeSet, get-insert, get-remove}
use firebase_rs_sdk.Common.Ord.{◌==◌, nat_ord}
use firebase_rs_sdk.Common.Ordered.{insert-IsOrdered}
use firebase_rs_sdk.Common.Int.{ℤ, int_ord, pos_part}
use firebase_rs_sdk.Firestore.Error.{FirestoreErrorCode, ok, err, ok_inj, err-ne-ok}
use firebase_rs_sdk.Firestore.Model.DocumentKey.{DocumentKey, key_ord}
use firebase_rs_sdk.Firestore.Watch.{
  TargetChangeState, WatchTargetChange, WatchDocument, ExistenceFilterChange, WatchChange,
}
use firebase_rs_sdk.Firestore.Watch.TargetState
use firebase_rs_sdk.Firestore.Watch.TargetState.{
  TargetState, update_resume_token, answered, mark_dirty, reset,
}
use firebase_rs_sdk.Firestore.Watch.Aggregator.{
  WatchChangeAggregator, state_of, affected, documents_of, set_target, change_target,
  change_targets, handle_target_change, apply_doc_update, apply_doc_updates, handle_document_change,
  remove_document, handle_existence_filter, handle_watch_change, update_document,
}
use firebase_rs_sdk.Firestore.Watch.View.{Documents, listen_target_id}
use firebase_rs_sdk.Firestore.Watch.View.Session.{
  no_remote_keys, held, lost, Target, assign, NoneLost, Tells, tells_target, tells_updated,
  tells_left, tells_gone, tells_delete, tells_remove, tells_filter, InStep,
}

-- the removals that wait still do
abbrev Retains : WatchChangeAggregator → WatchChangeAggregator → Type 0
Retains a b =
    (k : DocumentKey)
    → BTreeMap.contains_key k (lost b) ≡ false
    → BTreeMap.contains_key k (lost a) ≡ false

held-set_target :
    (t : ℤ) (s : TargetState) (documents : BTreeSet DocumentKey) (a : WatchChangeAggregator)
    → held (set_target t s documents a) ≡ (if listen_target_id == t then documents else held a)
held-set_target t s documents a =
    rw (get-insert listen_target_id t documents a.target_documents) (ground arith)

lost-set_target :
    (t : ℤ) (s : TargetState) (documents : BTreeSet DocumentKey) (a : WatchChangeAggregator)
    → lost (set_target t s documents a) ≡ (if listen_target_id == t then s.removed else lost a)
lost-set_target t s documents a =
    ap (λ o. (unwrap_or TargetState.new o).removed)
      (get-insert listen_target_id t s a.target_states)
    ∙ ground arith

-- A change of a target's state alone.
set_state-InStep :
    (t : ℤ) (s : TargetState) (docs : Documents) (a : WatchChangeAggregator) (target : Target)
    → Retains a (set_target t s (documents_of no_remote_keys t a) a)
    → InStep docs a target
    → InStep docs (set_target t s (documents_of no_remote_keys t a) a) target
set_state-InStep t s docs a target kept i = record {
  ordered_states = insert-IsOrdered t s a.target_states i.ordered_states;
  ordered_updates = i.ordered_updates;
  no_reset = i.no_reset;
  holds = λ k.
      ap (BTreeMap.contains_key k) (
        held-set_target t s (documents_of no_remote_keys t a) a
        ∙ ground (arith, int_ord.eq_of_cmp listen_target_id t))
      ∙ i.holds k;
  agrees = λ k n. i.agrees k (kept k n);
}

state-cases :
    (x : TargetChangeState)
    → x ≢ TargetChangeState.reset
    → x ≢ TargetChangeState.remove
    → (x ≡ TargetChangeState.no_change)
      ⊎ ((x ≡ TargetChangeState.add) ⊎ (x ≡ TargetChangeState.current))
state-cases TargetChangeState.no_change h g = inl refl
state-cases TargetChangeState.add h g = inr (inl refl)
state-cases TargetChangeState.current h g = inr (inr refl)
state-cases TargetChangeState.remove h g = absurd (g refl)
state-cases TargetChangeState.reset h g = absurd (h refl)

change_target-set_target :
    (c : WatchTargetChange) (t : ℤ) (a : WatchChangeAggregator)
    → c.state ≢ TargetChangeState.reset
    → c.state ≢ TargetChangeState.remove
    → (s : TargetState) × (change_target no_remote_keys c t a
        ≡ set_target t s (documents_of no_remote_keys t a) a)
      × ((s.removed ≡ (state_of t a).removed)
          ⊎ ((c.state ≡ TargetChangeState.add) × (s.removed ≡ [])))
unfolding change_target
change_target-set_target c t a h g = elim (state-cases c.state h g) [
  | inl e ↦ (
    update_resume_token c.resume_token (state_of t a),
    rw (change_target, e) refl,
    inl (ground arith),
  )
  | inr (inl e) ↦ (
    answered (update_resume_token c.resume_token (reset (state_of t a))),
    rw (change_target, e) refl,
    inr (e, ground arith),
  )
  | inr (inr e) ↦ (
    mark_dirty (update_resume_token c.resume_token (record (state_of t a) { current = true })),
    rw (change_target, e) refl,
    inl (ground arith),
  )
]

-- what a change of a target's state leaves of the removals that wait
lost_same :
    (t : ℤ) (s : TargetState) (documents : BTreeSet DocumentKey) (a : WatchChangeAggregator)
    → s.removed ≡ (state_of t a).removed
    → lost (set_target t s documents a) ≡ lost a
lost_same t s documents a e =
    lost-set_target t s documents a ∙ elim (Bool-cases (listen_target_id == t)) [
      | inl same ↦ rw same (
          e
          ∙ ap (λ x. (state_of x a).removed)
              (sym (int_ord.eq_of_cmp listen_target_id t (ground (arith, same)))))
      | inr other ↦ rw other refl
    ]

lost_none :
    (t : ℤ) (s : TargetState) (documents : BTreeSet DocumentKey) (a : WatchChangeAggregator)
    → s.removed ≡ []
    → NoneLost a
    → NoneLost (set_target t s documents a)
unfolding BTreeMap.get
lost_none t s documents a e n k =
    ap (BTreeMap.contains_key k) (lost-set_target t s documents a)
    ∙ elim (Bool-cases (listen_target_id == t)) [
      | inl same ↦ rw (same, e) refl
      | inr other ↦ rw other (n k)
    ]

change_target-InStep :
    (c : WatchTargetChange) (t : ℤ) (docs : Documents) (a : WatchChangeAggregator) (target : Target)
    → c.state ≢ TargetChangeState.reset
    → c.state ≢ TargetChangeState.remove
    → (c.state ≡ TargetChangeState.add → NoneLost a)
    → InStep docs a target
    → InStep docs (change_target no_remote_keys c t a) target
      × (c.state ≡ TargetChangeState.add → NoneLost (change_target no_remote_keys c t a))
change_target-InStep c t docs a target h g n i =
    let (s, e, removed) = change_target-set_target c t a h g in
    let documents = documents_of no_remote_keys t a in
    subst (λ b. InStep docs b target × (c.state ≡ TargetChangeState.add → NoneLost b)) (sym e)
      (elim removed [
        | inl same ↦
            (let kept = lost_same t s documents a same in
              (
                set_state-InStep t s docs a target
                    (λ k x. ap (BTreeMap.contains_key k) (sym kept) ∙ x) i,
                λ f k. ap (BTreeMap.contains_key k) kept ∙ n f k,
              ))
        | inr (f, none_left) ↦ (
          set_state-InStep t s docs a target (λ k x. n f k) i,
          λ f'. lost_none t s documents a none_left (n f'),
        )
      ])

change_targets-InStep :
    (c : WatchTargetChange) (ts : List ℤ) (docs : Documents) (a : WatchChangeAggregator)
    (target : Target)
    → c.state ≢ TargetChangeState.reset
    → c.state ≢ TargetChangeState.remove
    → (c.state ≡ TargetChangeState.add → NoneLost a)
    → InStep docs a target
    → InStep docs (change_targets no_remote_keys c ts a) target
unfolding change_targets
change_targets-InStep c [] docs a target h g n i = i
change_targets-InStep c (t ∷ ts) docs a target h g n i =
    let (i', n') = change_target-InStep c t docs a target h g n i in
    change_targets-InStep c ts docs (change_target no_remote_keys c t a) target h g n' i'

handle_target_change-none :
    (c : WatchTargetChange) (a : WatchChangeAggregator)
    → c.cause ≡ none
    → handle_target_change no_remote_keys c a
      ≡ ok (change_targets no_remote_keys c (affected c a) a)
unfolding handle_target_change
handle_target_change-none c a n = rw (handle_target_change, n) refl

handle_target_change-some :
    (c : WatchTargetChange) (x : FirestoreErrorCode) (a : WatchChangeAggregator)
    → c.cause ≡ some x
    → handle_target_change no_remote_keys c a ≡ err x
unfolding handle_target_change
handle_target_change-some c x a n = rw (handle_target_change, n) refl

handle_target_change-InStep :
    (c : WatchTargetChange) (docs : Documents) (a b : WatchChangeAggregator) (target : Target)
    → c.state ≢ TargetChangeState.reset
    → c.state ≢ TargetChangeState.remove
    → (c.state ≡ TargetChangeState.add → NoneLost a)
    → handle_target_change no_remote_keys c a ≡ ok b
    → InStep docs a target
    → InStep docs b target
unfolding handle_target_change
handle_target_change-InStep c docs a b target h g n e i = elim (Option-cases c.cause) [
  | inl m ↦
      subst (λ x. InStep docs x target) (ok_inj (sym (handle_target_change-none c a m) ∙ e))
        (change_targets-InStep c (affected c a) docs a target h g n i)
  | inr (x, m) ↦ absurd (err-ne-ok {c = x} (sym (handle_target_change-some c x a m) ∙ e))
]

updated_after :
    (k j : DocumentKey) (d : WatchDocument) (a : WatchChangeAggregator)
    → BTreeMap.contains_key j (lost (apply_doc_update no_remote_keys listen_target_id k (some d) a))
      ≡ BTreeMap.contains_key j (lost a)
unfolding apply_doc_update
updated_after k j d a =
    ap (BTreeMap.contains_key j)
      (lost-set_target listen_target_id _ (BTreeMap.insert k tt (held a)) a)
    ∙ ground (arith, int_ord.cmp_refl listen_target_id)

-- A document that the target gains or loses, and its update.
updated-InStep :
    (k : DocumentKey) (d : WatchDocument) (docs : Documents) (a : WatchChangeAggregator)
    (target : Target)
    → InStep docs a target
    → InStep docs
        (update_document k (some d) (apply_doc_update no_remote_keys listen_target_id k (some d) a))
        (assign k (some d) target)
unfolding apply_doc_update
updated-InStep k d docs a target i = record {
  ordered_states = insert-IsOrdered listen_target_id _ a.target_states i.ordered_states;
  ordered_updates = insert-IsOrdered k (some d) a.pending_document_updates i.ordered_updates;
  no_reset = i.no_reset;
  holds = λ j. ground (
    arith,
    get-insert listen_target_id listen_target_id (BTreeMap.insert k tt (held a)) a.target_documents,
    get-insert j k tt (held a),
    int_ord.cmp_refl listen_target_id,
    i.holds j,
  );
  agrees = λ j n. ground (
    arith,
    get-insert j k (some d) a.pending_document_updates,
    i.agrees j (sym (updated_after k j d a) ∙ n),
  );
}

removed_after :
    (k j : DocumentKey) (a : WatchChangeAggregator)
    → BTreeMap.contains_key j (lost (apply_doc_update no_remote_keys listen_target_id k none a)) ≡ (
        if BTreeMap.contains_key k (held a)
        then (if j == k then true else BTreeMap.contains_key j (lost a))
        else BTreeMap.contains_key j (lost a))
unfolding apply_doc_update
removed_after k j a =
    ap (BTreeMap.contains_key j) (lost-set_target listen_target_id _ (BTreeMap.remove k (held a)) a)
    ∙ ground (arith, int_ord.cmp_refl listen_target_id, get-insert j k tt (lost a))

removed-InStep :
    (k : DocumentKey) (document : Option WatchDocument) (docs : Documents)
    (a : WatchChangeAggregator) (target : Target)
    → (document ≡ none) ⊎ (BTreeMap.contains_key k (held a) ≡ true)
    → InStep docs a target
    → InStep docs
        (update_document k document (apply_doc_update no_remote_keys listen_target_id k none a))
        (assign k none target)
unfolding apply_doc_update
removed-InStep k document docs a target fits i = record {
  ordered_states = insert-IsOrdered listen_target_id _ a.target_states i.ordered_states;
  ordered_updates = insert-IsOrdered k document a.pending_document_updates i.ordered_updates;
  no_reset = i.no_reset;
  holds = λ j. ground (
    arith,
    get-insert listen_target_id listen_target_id (BTreeMap.remove k (held a)) a.target_documents,
    get-remove j k (held a),
    int_ord.cmp_refl listen_target_id,
    i.holds j,
  );
  agrees = λ j n. elim (Bool-cases (j == k)) [
    | inl e ↦ (elim fits [
      | inl z ↦ ground (arith, get-insert j k document a.pending_document_updates, e, z)
      | inr there ↦ absurd (ground (arith, removed_after k j a, n, e, there))
    ])
    | inr e ↦ ground (
      arith,
      get-insert j k document a.pending_document_updates,
      e,
      i.agrees j (ground (arith, removed_after k j a, n, e)),
    )
  ];
}

handle_existence_filter-same :
    (f : ExistenceFilterChange) (a : WatchChangeAggregator)
    → f.target_id ≡ listen_target_id
    → length (held a) ≡ pos_part f.count
    → handle_existence_filter no_remote_keys f a ≡ a
unfolding handle_existence_filter
handle_existence_filter-same f a t h = ground (arith, t, h)

pub handle_watch_change-InStep :
    (change : WatchChange) (docs : Documents) (a b : WatchChangeAggregator) (target after : Target)
    → Tells a target change after
    → handle_watch_change no_remote_keys change a ≡ ok b
    → InStep docs a target
    → InStep docs b after
unfolding handle_watch_change handle_document_change remove_document apply_doc_updates
handle_watch_change-InStep _ docs a b target _ (tells_target c h g n) e i =
    handle_target_change-InStep c docs a b target h g n e i
handle_watch_change-InStep _ docs a b target _ (tells_updated k d) e i =
    subst (λ x. InStep docs x (assign k (some d) target)) (ok_inj e)
      (updated-InStep k d docs a target i)
handle_watch_change-InStep _ docs a b target _ (tells_left k d h) e i =
    subst (λ x. InStep docs x (assign k none target)) (ok_inj e)
      (removed-InStep k (some d) docs a target (inr (i.holds k ∙ h)) i)
handle_watch_change-InStep _ docs a b target _ (tells_gone k) e i =
    subst (λ x. InStep docs x (assign k none target)) (ok_inj e)
      (removed-InStep k none docs a target (inl refl) i)
handle_watch_change-InStep _ docs a b target _ (tells_delete d t) e i =
    subst (λ x. InStep docs x (assign d.key none target))
      (subst (λ ts. remove_document no_remote_keys d.key ts a ≡ b) t (ok_inj e))
      (removed-InStep d.key none docs a target (inl refl) i)
handle_watch_change-InStep _ docs a b target _ (tells_remove r t) e i =
    subst (λ x. InStep docs x (assign r.key none target))
      (subst (λ ts. remove_document no_remote_keys r.key ts a ≡ b) t (ok_inj e))
      (removed-InStep r.key none docs a target (inl refl) i)
handle_watch_change-InStep _ docs a b target _ (tells_filter f t h) e i =
    subst (λ x. InStep docs x target) (sym (handle_existence_filter-same f a t h) ∙ ok_inj e) i
