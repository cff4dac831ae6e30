-- ===== src/Storage/Upload/States.antt =====
-- What a call of an upload task of upload.rs keeps: its end state, and the size of its chunks.
use mathlib.Core.Path.{subst}
use firebase_rs_sdk.Common.{
  ◌≡◌, ◌∙◌, refl, sym, ap, arith, inl, inr, true, Option-cases, none, some, List, [], ◌∷◌,
}
use firebase_rs_sdk.Common.Ord.{nat_ord}
use firebase_rs_sdk.Common.Text.{Text}
use firebase_rs_sdk.Storage.Upload.{
  UploadTaskState, is_terminal, Control, pause, resume, cancel, controlled, TaskState, Server,
  UploadTask, Outcome, ok, err, ResumableUploadStatus, control, controls, refreshed, refresh_status,
  upload_next, upload_in,
}

controlled-terminal :
    (c : Control) (s : UploadTaskState) → is_terminal s ≡ true → controlled c s ≡ s
controlled-terminal pause s h = ground (arith, h)
controlled-terminal resume s h = ground (arith, h)
controlled-terminal cancel s h = ground (arith, h)

module _ {M E : Type 0} where
  controls-terminal :
      (cs : List Control) (s : TaskState M E) → is_terminal s.state ≡ true → controls cs s ≡ s
  unfolding controls
  controls-terminal [] s h = refl
  controls-terminal (c ∷ cs) s h =
      ap (λ x. controls cs (record s { state = x })) (controlled-terminal c s.state h)
      ∙ controls-terminal cs s h

  module _ (canceled_error internal_error : E) where
    -- What whole calls of a task, and calls of its handles between them, lead to, whatever the server does. A
    -- call holds the task alone; the handles' calls within it are part of the server's answer.
    pub data Moves (t : UploadTask M E) : UploadTask M E → Type 0 where
      moves_none : Moves t t
      moves_upload :
          {u : UploadTask M E} (server : Server M E)
          → Moves t u
          → Moves t (upload_next canceled_error internal_error server u).0
      moves_refresh :
          {u : UploadTask M E} (server : Server M E)
          → Moves t u
          → Moves t (refresh_status server u).0
      moves_control :
          {u : UploadTask M E} (c : Control)
          → Moves t u
          → Moves t (record u { shared = control c u.shared })

    -- what a task that has ended keeps
    pub record IsKept (t u : UploadTask M E) : Type 0 where
      pub state : u.shared.state ≡ t.shared.state
      pub metadata : u.shared.metadata ≡ t.shared.metadata

    unasked :
        (server : Server M E) (t : UploadTask M E)
        → t.shared.upload_url ≡ none
        → refresh_status server t ≡ (t, ok t.shared.transferred)
    unfolding refresh_status
    unasked server t n = simp (refresh_status, n)

    asked :
        (server : Server M E) (t : UploadTask M E) (address : Text)
        → t.shared.upload_url ≡ some address
        → refresh_status server t
          ≡ refreshed server.get_status.1
              (record t { shared = controls server.get_status.0 t.shared })
    unfolding refresh_status
    asked server t address n = simp (refresh_status, n)

    upload_next-IsKept :
        (server : Server M E) (t : UploadTask M E)
        → is_terminal t.shared.state ≡ true
        → IsKept t (upload_next canceled_error internal_error server t).0
    unfolding upload_next upload_in
    upload_next-IsKept server t h = record {
      state = ground (arith, h);
      metadata = ground (arith, h);
    }

    control-IsKept :
        (c : Control) (t : UploadTask M E)
        → is_terminal t.shared.state ≡ true
        → IsKept t (record t { shared = control c t.shared })
    control-IsKept c t h = record {
      state = controlled-terminal c t.shared.state h;
      metadata = refl;
    }

    refreshed-IsKept :
        (answer : Outcome E (ResumableUploadStatus M)) (cs : List Control) (t : UploadTask M E)
        → is_terminal t.shared.state ≡ true
        → IsKept t (refreshed answer (record t { shared = controls cs t.shared })).0
    unfolding refreshed
    refreshed-IsKept (err e) cs t h = record {
      state = ap (λ s. s.state) (controls-terminal cs t.shared h);
      metadata = ap (λ s. s.metadata) (controls-terminal cs t.shared h);
    }
    refreshed-IsKept (ok status) cs t h = record {
      state = ap (λ s. s.state) (controls-terminal cs t.shared h);
      metadata = ap (λ s. s.metadata) (controls-terminal cs t.shared h);
    }

    refresh_status-IsKept :
        (server : Server M E) (t : UploadTask M E)
        → is_terminal t.shared.state ≡ true
        → IsKept t (refresh_status server t).0
    unfolding refresh_status
    refresh_status-IsKept server t h = elim (Option-cases t.shared.upload_url) [
      | inl n ↦
          subst (IsKept t) (sym (ap (λ r. r.0) (unasked server t n)))
            (record { state = refl; metadata = refl })
      | inr (address, n) ↦
          subst (IsKept t) (sym (ap (λ r. r.0) (asked server t address n)))
            (refreshed-IsKept server.get_status.1 server.get_status.0 t h)
    ]

    IsKept-trans : (t u v : UploadTask M E) → IsKept t u → IsKept u v → IsKept t v
    IsKept-trans t u v a b = record {
      state = b.state ∙ a.state;
      metadata = b.metadata ∙ a.metadata;
    }

    -- The end of an upload is final: once a task is completed, failed or canceled and no call of
    -- `upload_next` or `refresh_status` is under way, no such call that follows and no call of its handles
    -- changes its state or its metadata, whatever the server answers. (A cancel that arrives within a call
    -- is not such an end: the call may still fail the task.)
    pub Moves-IsKept :
        (t u : UploadTask M E) → is_terminal t.shared.state ≡ true → Moves t u → IsKept t u
    Moves-IsKept t u h moves_none = record { state = refl; metadata = refl }
    Moves-IsKept t u h (moves_upload {u = v} server m) =
        let kept = Moves-IsKept t v h m in
        IsKept-trans t v u kept (upload_next-IsKept server v (ap is_terminal kept.state ∙ h))
    Moves-IsKept t u h (moves_refresh {u = v} server m) =
        let kept = Moves-IsKept t v h m in
        IsKept-trans t v (refresh_status server v).0 kept
          (refresh_status-IsKept server v (ap is_terminal kept.state ∙ h))
    Moves-IsKept t u h (moves_control {u = v} c m) =
        let kept = Moves-IsKept t v h m in
        IsKept-trans t v u kept (control-IsKept c v (ap is_terminal kept.state ∙ h))
