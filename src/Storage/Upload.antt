-- ===== src/Storage/Upload.antt =====
-- crates/firebase-storage/src/upload.rs. The server is a parameter: each request has an answer, and
-- brings the control calls that other holders of a handle make while it is in flight. `M` is the type of
-- object metadata, `E` that of errors. Observers are left out, and so are control calls that they make
-- themselves.
pub mod States
pub mod Complete
use firebase_rs_sdk.Common.{
  ℕ, zero, suc, ◌+◌, ◌*◌, ◌-◌, Bool, true, false, not, ◌||◌, ◌&&◌, Option, none, some, List, [],
  ◌∷◌, length, take, drop, leb, ltb, unwrap_or, if◌then◌else◌,
}
use firebase_rs_sdk.Common.Ord.{◌==◌, nat_ord}
use firebase_rs_sdk.Common.Text.{Text}

pub data UploadTaskState : Type 0 where
  pending running paused completed errored canceled : UploadTaskState

abbrev pub is_terminal : UploadTaskState → Bool
is_terminal completed = true
is_terminal errored = true
is_terminal canceled = true
is_terminal _ = false

pub record TaskState (M E : Type 0) : Type 0 where
  pub state : UploadTaskState
  pub transferred : ℕ
  pub total_bytes : ℕ
  pub metadata : Option M
  pub error : Option E
  pub upload_url : Option Text

pub data Outcome (E A : Type 0) : Type 0 where
  ok : A → Outcome E A
  err : E → Outcome E A

-- the calls of a handle
pub data Control : Type 0 where
  pause resume cancel : Control

pub record ResumableUploadStatus (M : Type 0) : Type 0 where
  pub current : ℕ
  pub finalized : Bool
  pub metadata : Option M

abbrev pub Bytes : Type 0
Bytes = List ℕ

-- `continue_upload` is given the offset, the chunk and whether it is the last
pub record Server (M E : Type 0) : Type 0 where
  pub create_session : ℕ → List Control × Outcome E Text
  pub continue_upload : ℕ → Bytes → Bool → List Control × Outcome E (ResumableUploadStatus M)
  pub multipart_upload : Bytes → List Control × Outcome E M
  pub get_status : List Control × Outcome E (ResumableUploadStatus M)

abbrev pub resumable_upload_chunk_size : ℕ
resumable_upload_chunk_size = 262144

abbrev pub max_resumable_chunk_size : ℕ
max_resumable_chunk_size = 33554432

abbrev pub min : ℕ → ℕ → ℕ
min a b = if leb a b then a else b

-- what a transition makes of the state that it finds
abbrev pub controlled : Control → UploadTaskState → UploadTaskState
controlled pause pending = paused
controlled pause running = paused
controlled resume paused = running
controlled cancel pending = canceled
controlled cancel running = canceled
controlled cancel paused = canceled
controlled _ s = s

pub record UploadTask (M E : Type 0) : Type 0 where
  pub data' : Bytes
  pub resumable : Bool
  pub chunk_multiplier : ℕ
  pub cancel_notified : Bool
  pub shared : TaskState M E

-- One round of the loop: the control calls while a paused task sleeps, and the server otherwise.
pub record Round (M E : Type 0) : Type 0 where
  pub asleep : List Control
  pub server : Server M E

abbrev pub is_paused : UploadTaskState → Bool
is_paused paused = true
is_paused _ = false

abbrev pub Next : Type 0 → Type 0 → Type 0
Next M E = UploadTask M E × Outcome E (Option M)

-- the slice of the data, empty out of range
abbrev pub slice : ℕ → ℕ → Bytes → Bytes
slice start end bytes =
    if leb start end && leb end (length bytes) then take (end - start) (drop start bytes) else []

module _ {M E : Type 0} where
  abbrev pub new : Bytes → UploadTask M E
  new bytes = record {
    data' = bytes;
    resumable = ltb resumable_upload_chunk_size (length bytes);
    chunk_multiplier = 1;
    cancel_notified = false;
    shared = record {
      state = pending;
      transferred = 0;
      total_bytes = length bytes;
      metadata = none;
      error = none;
      upload_url = none;
    };
  }

  abbrev pub control : Control → TaskState M E → TaskState M E
  control c s = record s { state = controlled c s.state }

  unfoldable pub controls : List Control → TaskState M E → TaskState M E
  controls [] s = s
  controls (c ∷ cs) s = controls cs (control c s)

  -- transition(&[Pending], Running)
  abbrev pub begin : TaskState M E → TaskState M E
  begin s = elim s.state [ pending ↦ record s { state = running } | _ ↦ s ]

  abbrev pub complete : M → TaskState M E → TaskState M E
  complete m s = record s { transferred = s.total_bytes; metadata = some m; state = completed }

  abbrev pub fail : E → TaskState M E → TaskState M E
  fail e s = record s { error = some e; state = errored }

  abbrev pub record_cancellation : E → TaskState M E → TaskState M E
  record_cancellation e s = elim s.error [ some _ ↦ s | none ↦ record s { error = some e } ]

  abbrev pub current_chunk_size : UploadTask M E → ℕ
  current_chunk_size t =
      min (resumable_upload_chunk_size * t.chunk_multiplier) max_resumable_chunk_size

  abbrev pub bump_multiplier : UploadTask M E → UploadTask M E
  bump_multiplier t =
      let next = t.chunk_multiplier * 2 in
      if leb (next * resumable_upload_chunk_size) max_resumable_chunk_size
      then record t { chunk_multiplier = next }
      else t

  abbrev pub reset_multiplier : UploadTask M E → UploadTask M E
  reset_multiplier t = record t { chunk_multiplier = 1 }

  abbrev pub end_offset : UploadTask M E → ℕ
  end_offset t = min t.shared.total_bytes (t.shared.transferred + current_chunk_size t)

  -- a failure of the task, and one of the call alone
  abbrev pub failed : E → UploadTask M E → Next M E
  failed e t = (record t { shared = fail e t.shared }, err e)

  -- the outcome of asking the server for its count of bytes
  unfoldable pub refreshed :
      Outcome E (ResumableUploadStatus M) → UploadTask M E → UploadTask M E × Outcome E ℕ
  refreshed (err e) t = (t, err e)
  refreshed (ok status) t =
      (record t { shared = record t.shared { transferred = status.current } }, ok status.current)

  unfoldable pub refresh_status : Server M E → UploadTask M E → UploadTask M E × Outcome E ℕ
  unfolding refreshed controls
  refresh_status server t = elim t.shared.upload_url [
    | none ↦ (t, ok t.shared.transferred)
    | some _ ↦
        (let (cs, answer) = server.get_status in
          refreshed answer (record t { shared = controls cs t.shared }))
  ]

  module _ (canceled_error internal_error : E) where
    -- the request that discards the session changes nothing here
    abbrev pub finish_cancellation : UploadTask M E → Next M E
    finish_cancellation t = (
      record t { cancel_notified = true; shared = record_cancellation canceled_error t.shared },
      err canceled_error,
    )

    -- what follows the answer to a chunk, once the control calls made meanwhile are in
    unfoldable pub answered : Outcome E (ResumableUploadStatus M) → UploadTask M E → Next M E
    answered (err e) t = elim t.shared.state [
      | canceled ↦ finish_cancellation (reset_multiplier t)
      | _ ↦ failed e (reset_multiplier t)
    ]
    answered (ok status) t =
        let synced : UploadTask M E = record t {
          shared = record t.shared { transferred = status.current };
        } in
        let done : Next M E = elim status.metadata [
          | none ↦ (synced, err internal_error)
          | some m ↦ (record synced { shared = complete m synced.shared }, ok (some m))
        ] in
        elim t.shared.state [
          | canceled ↦ finish_cancellation t
          | _ ↦ if status.finalized then done else (bump_multiplier synced, ok none)
        ]

    abbrev pub with_controls : List Control → UploadTask M E → UploadTask M E
    with_controls cs t = record t { shared = controls cs t.shared }

    unfoldable pub upload_chunk : Server M E → UploadTask M E → Next M E
    unfolding controls answered
    upload_chunk server t =
        let (cs, answer) =
          server.continue_upload t.shared.transferred
            (slice t.shared.transferred (end_offset t) t.data')
            (end_offset t == t.shared.total_bytes) in
        answered answer (with_controls cs t)

    -- the state is looked at again once the session is open
    abbrev pub with_session : Server M E → UploadTask M E → Next M E
    with_session server t = elim t.shared.state [
      | canceled ↦ finish_cancellation t
      | paused ↦ (t, ok none)
      | _ ↦ upload_chunk server t
    ]

    -- what became of `create_session`
    unfoldable pub created : Server M E → Outcome E Text → UploadTask M E → Next M E
    unfolding upload_chunk
    created server (err e) t = failed e t
    created server (ok url) t =
        with_session server (record t { shared = record t.shared { upload_url = some url } })

    unfoldable pub upload_resumable : Server M E → UploadTask M E → Next M E
    unfolding created controls
    upload_resumable server t = elim t.shared.upload_url [
      | some _ ↦ with_session server t
      | none ↦
          (let (cs, answer) = server.create_session t.shared.total_bytes in
            created server answer (with_controls cs t))
    ]

    unfoldable pub multipart_answered : Outcome E M → UploadTask M E → Next M E
    multipart_answered (err e) t = failed e t
    multipart_answered (ok m) t = elim t.shared.state [
      | canceled ↦ finish_cancellation t
      | _ ↦ (record t { shared = complete m t.shared }, ok (some m))
    ]

    unfoldable pub upload_multipart : Server M E → UploadTask M E → Next M E
    unfolding multipart_answered controls
    upload_multipart server t =
        let (cs, answer) = server.multipart_upload t.data' in
        multipart_answered answer (with_controls cs t)

    -- a task that is pending or running
    abbrev pub proceed : Server M E → UploadTask M E → Next M E
    proceed server t = if t.resumable then upload_resumable server t else upload_multipart server t

    -- `upload_next` on a task in a state
    unfoldable pub upload_in : UploadTaskState → Server M E → UploadTask M E → Next M E
    unfolding upload_resumable upload_multipart
    upload_in completed server t = (t, ok t.shared.metadata)
    upload_in errored server t = (t, err (unwrap_or internal_error t.shared.error))
    upload_in canceled server t = finish_cancellation t
    upload_in paused server t = (t, ok none)
    upload_in _ server t = proceed server (record t { shared = begin t.shared })

    unfoldable pub upload_next : Server M E → UploadTask M E → Next M E
    unfolding upload_in
    upload_next server t = upload_in t.shared.state server t

    -- The loop of `run_to_completion`; `none`: it still runs when the rounds are used up. A canceled task
    -- is finished by `upload_next` just as by the loop.
    unfoldable pub run_to_completion :
        List (Round M E) → UploadTask M E → Option (UploadTask M E × Outcome E M)
    unfolding upload_next controls
    run_to_completion [] t = none
    run_to_completion (r ∷ rs) t =
        let slept = run_to_completion rs (with_controls r.asleep t) in
        let next = upload_next r.server t in
        let rest = run_to_completion rs next.0 in
        if is_paused t.shared.state then slept else (elim next.1 [
          | err e ↦ some (next.0, err e)
          | ok none ↦ rest
          | ok (some m) ↦ some (next.0, ok m)
        ])
