-- ===== src/Storage/Upload/Complete.antt =====
-- An upload that nobody hinders comes to its end.
use mathlib.Core.Path.{subst}
use firebase_rs_sdk.Common.{
  ℕ, zero, suc, ◌≡◌, ◌∙◌, ◌≤◌, ◌<◌, ◌+◌, ◌-◌, refl, sym, ap, arith, ◌⊎◌, inl, inr, true, false,
  Option, none, some, List, [], ◌∷◌, length, take, drop, ltb, Bool-cases, Option-cases,
  if◌then◌else◌,
}
use firebase_rs_sdk.Common.Keep.{length-drop}
use firebase_rs_sdk.Common.Ord.{nat_ord, ◌==◌}
use firebase_rs_sdk.Common.Text.{Text}
use firebase_rs_sdk.Storage.Upload.{
  pending, running, completed, TaskState, Server, Outcome, ok, UploadTask, new, begin, complete,
  Bytes, slice, end_offset, bump_multiplier, controls, answered, upload_chunk, upload_next,
  upload_in, upload_resumable, upload_multipart, multipart_answered, created, run_to_completion,
  Round, is_paused, resumable_upload_chunk_size,
}

length-take_exact : (n : ℕ) (xs : Bytes) → n ≤ length xs → length (take n xs) ≡ n
length-take_exact zero xs h = refl
length-take_exact (suc n) [] h = absurd (omega (arith, h))
length-take_exact (suc n) (x ∷ xs) h = omega (arith, length-take_exact n xs (omega (arith, h)))

length-slice :
    (start end : ℕ) (bytes : Bytes)
    → start ≤ end
    → end ≤ length bytes
    → length (slice start end bytes) ≡ end - start
length-slice start end bytes h b = ground (
  arith,
  h,
  b,
  length-take_exact (end - start) (drop start bytes)
      (rw (length-drop start bytes) (omega (arith, h, b))),
)

module _ {M E : Type 0} (canceled_error internal_error : E) (url : Text) (metadata : M) where
  -- a server that stores each chunk and takes the last as the end; nobody controls the task
  abbrev pub accepting : Server M E
  accepting = record {
    create_session = λ _. ([], ok url);
    continue_upload = λ offset chunk finalize. (
      [],
      ok (record {
        current = offset + length chunk;
        finalized = finalize;
        metadata = if finalize then some metadata else none;
      }),
    );
    multipart_upload = λ _. ([], ok metadata);
    get_status = ([], ok (record { current = 0; finalized = false; metadata = none }));
  }

  -- a resumable task between two chunks
  record IsUnderWay (t : UploadTask M E) : Type 0 where
    resumable : t.resumable ≡ true
    going : (t.shared.state ≡ pending) ⊎ (t.shared.state ≡ running)
    total : t.shared.total_bytes ≡ length t.data'
    left : t.shared.transferred < t.shared.total_bytes
    multiplier : 1 ≤ t.chunk_multiplier

  -- what a chunk comes to
  abbrev Chunked : UploadTask M E → UploadTask M E × Outcome E (Option M) → Type 0
  Chunked t r =
      ((r.1 ≡ ok (some metadata))
        × ((r.0.shared.state ≡ completed) × (r.0.shared.transferred ≡ r.0.shared.total_bytes)))
      ⊎ ((r.1 ≡ ok none)
          × (IsUnderWay r.0
              × ((t.shared.transferred < r.0.shared.transferred)
                  × (r.0.shared.total_bytes ≡ t.shared.total_bytes))))

  end_above : (t : UploadTask M E) → IsUnderWay t → t.shared.transferred < end_offset t
  end_above t w = ground (arith, w.left, w.multiplier)

  end_below : (t : UploadTask M E) → end_offset t ≤ t.shared.total_bytes
  end_below t = ground arith

  abbrev synced : UploadTask M E → UploadTask M E
  synced t = bump_multiplier (record t { shared = record t.shared { transferred = end_offset t } })

  synced-IsUnderWay :
      (t : UploadTask M E)
      → t.shared.state ≡ running
      → (end_offset t == t.shared.total_bytes) ≡ false
      → IsUnderWay t
      → IsUnderWay (synced t)
  synced-IsUnderWay t s e w = record {
    resumable = ground (arith, w.resumable);
    going = inr (ground (arith, s));
    total = ground (arith, w.total);
    left = ground (arith, e, end_below t);
    multiplier = ground (arith, w.multiplier);
  }

  upload_chunk-synced :
      (t : UploadTask M E)
      → t.shared.state ≡ running
      → (end_offset t == t.shared.total_bytes) ≡ false
      → IsUnderWay t
      → upload_chunk canceled_error internal_error accepting t ≡ (synced t, ok none)
  unfolding upload_chunk answered controls
  upload_chunk-synced t s e w =
      let sent : t.shared.transferred + length (slice t.shared.transferred (end_offset t) t.data')
          ≡ end_offset t =
        omega (
          arith,
          end_above t w,
          length-slice t.shared.transferred (end_offset t) t.data' (omega (arith, end_above t w))
              (omega (arith, end_below t, w.total)),
        ) in
      rw (upload_chunk, answered, s, e, sent) (cc s)

  upload_chunk-Chunked :
      (t : UploadTask M E)
      → t.shared.state ≡ running
      → IsUnderWay t
      → Chunked t (upload_chunk canceled_error internal_error accepting t)
  unfolding upload_chunk answered controls
  upload_chunk-Chunked t s w = elim (Bool-cases (end_offset t == t.shared.total_bytes)) [
    | inl e ↦ inl (ground (arith, s, e), (ground (arith, s, e), ground (arith, s, e)))
    | inr e ↦
        subst (Chunked t) (sym (upload_chunk-synced t s e w))
          (inr (refl, (synced-IsUnderWay t s e w, (ground (arith, end_above t w), ground arith))))
  ]

  abbrev started : Option Text → UploadTask M E → UploadTask M E
  started address t = record t {
    shared = record t.shared { state = running; upload_url = address };
  }

  begin-running :
      (s : TaskState M E)
      → (s.state ≡ pending) ⊎ (s.state ≡ running)
      → begin s ≡ record s { state = running }
  begin-running s (inl h) = rw h refl
  begin-running s (inr h) =
      subst
        (λ x.
          elim x [ pending ↦ record s { state = running } | _ ↦ s ] ≡ record s { state = running })
        (sym h) (ap (λ x. record s { state = x }) h)

  -- a call on a task under way sets it running
  upload_next-begin :
      (t : UploadTask M E)
      → IsUnderWay t
      → upload_next canceled_error internal_error accepting t
        ≡ upload_resumable canceled_error internal_error accepting
            (record t { shared = begin t.shared })
  unfolding upload_next upload_in
  upload_next-begin t w = elim w.going [
    | inl s ↦
        ap (λ x. upload_in canceled_error internal_error x accepting t) s ∙ rw w.resumable refl
    | inr s ↦
        ap (λ x. upload_in canceled_error internal_error x accepting t) s ∙ rw w.resumable refl
  ]

  -- and then uploads a chunk, with its session open
  upload_resumable-chunk :
      (t : UploadTask M E)
      → (address : Text) × (upload_resumable canceled_error internal_error accepting
            (started t.shared.upload_url t)
          ≡ upload_chunk canceled_error internal_error accepting (started (some address) t))
  unfolding upload_resumable created controls
  upload_resumable-chunk t = elim (Option-cases t.shared.upload_url) [
    | inl n ↦ (url, rw (upload_resumable, n) refl)
    | inr (address, n) ↦ (
      address,
      subst
          (λ x.
            upload_resumable canceled_error internal_error accepting (started x t)
            ≡ upload_chunk canceled_error internal_error accepting (started (some address) t))
          (sym n) refl,
    )
  ]

  started-IsUnderWay :
      (address : Option Text) (t : UploadTask M E) → IsUnderWay t → IsUnderWay (started address t)
  started-IsUnderWay address t w = record {
    resumable = w.resumable;
    going = inr refl;
    total = w.total;
    left = w.left;
    multiplier = w.multiplier;
  }

  upload_next-Chunked :
      (t : UploadTask M E)
      → IsUnderWay t
      → Chunked t (upload_next canceled_error internal_error accepting t)
  upload_next-Chunked t w =
      let (address, e) = upload_resumable-chunk t in
      let running_first : upload_next canceled_error internal_error accepting t
          ≡ upload_resumable canceled_error internal_error accepting
              (started t.shared.upload_url t) =
        upload_next-begin t w
        ∙ ap
            (λ s.
              upload_resumable canceled_error internal_error accepting (record t { shared = s }))
            (begin-running t.shared w.going) in
      subst (Chunked t) (sym (running_first ∙ e)) (
        upload_chunk-Chunked (started (some address) t) refl
          (started-IsUnderWay (some address) t w))

  -- as many rounds with that server
  abbrev round : Round M E
  round = record { asleep = []; server = accepting }

  abbrev pub accepting_rounds : ℕ → List (Round M E)
  accepting_rounds zero = []
  accepting_rounds (suc n) = round ∷ accepting_rounds n

  -- what an upload that has ended well is
  abbrev pub IsUploaded : Option (UploadTask M E × Outcome E M) → Type 0
  IsUploaded r =
      (u : UploadTask M E) × (r ≡ some (u, ok metadata))
      × (u.shared.state ≡ completed)
      × (u.shared.transferred ≡ u.shared.total_bytes)

  module _ (r : Round M E) (rs : List (Round M E)) (t : UploadTask M E) where
    abbrev called : UploadTask M E × Outcome E (Option M)
    called = upload_next canceled_error internal_error r.server t

    run-last :
        (m : M)
        → is_paused t.shared.state ≡ false
        → called.1 ≡ ok (some m)
        → run_to_completion canceled_error internal_error (r ∷ rs) t ≡ some (called.0, ok m)
    unfolding run_to_completion
    run-last m p e = rw (run_to_completion, p, e) refl

    run-more :
        is_paused t.shared.state ≡ false
        → called.1 ≡ ok none
        → run_to_completion canceled_error internal_error (r ∷ rs) t
          ≡ run_to_completion canceled_error internal_error rs called.0
    unfolding run_to_completion
    run-more p e = rw (run_to_completion, p, e) refl

  unpaused : (t : UploadTask M E) → IsUnderWay t → is_paused t.shared.state ≡ false
  unpaused t w = elim w.going [ inl s ↦ ap is_paused s | inr s ↦ ap is_paused s ]

  uploads_rest :
      (n : ℕ) (t : UploadTask M E)
      → IsUnderWay t
      → t.shared.total_bytes - t.shared.transferred ≤ n
      → IsUploaded (run_to_completion canceled_error internal_error (accepting_rounds n) t)
  unfolding run_to_completion
  uploads_rest zero t w h = absurd (omega (arith, w.left, h))
  uploads_rest (suc n) t w h = elim (upload_next-Chunked t w) [
    | inl (e, (s, f)) ↦ (
      (upload_next canceled_error internal_error accepting t).0,
      run-last round (accepting_rounds n) t metadata (unpaused t w) e,
      s,
      f,
    )
    | inr (e, (w', (up, same))) ↦
        subst IsUploaded (sym (run-more round (accepting_rounds n) t (unpaused t w) e)) (
          uploads_rest n (upload_next canceled_error internal_error accepting t).0 w'
            (omega (arith, h, up, same, w.left)))
  ]

  abbrev uploaded_at_once : Bytes → UploadTask M E
  uploaded_at_once bytes = record (new bytes) {
    shared = complete metadata (begin (new {M = M} {E = E} bytes).shared);
  }

  one_request :
      (bytes : Bytes)
      → ltb resumable_upload_chunk_size (length bytes) ≡ false
      → upload_next canceled_error internal_error accepting (new bytes)
        ≡ (uploaded_at_once bytes, ok (some metadata))
  unfolding upload_next upload_in upload_multipart multipart_answered controls
  one_request bytes e = rw (upload_next, upload_in, e) refl

  -- An upload that nobody controls, to a server that stores every chunk, comes to its end: within one call
  -- more than there are bytes the task is completed, with the metadata that the server sent and every byte
  -- counted.
  pub run_to_completion-IsUploaded :
      (bytes : Bytes)
      → IsUploaded (
          run_to_completion canceled_error internal_error
            (accepting_rounds (suc (length bytes)))
            (new bytes))
  run_to_completion-IsUploaded bytes =
      elim (Bool-cases (ltb resumable_upload_chunk_size (length bytes))) [
        | inl e ↦
            uploads_rest (suc (length bytes)) (new bytes)
              (record {
                resumable = e;
                going = inl refl;
                total = refl;
                left = ground (arith, e);
                multiplier = omega arith;
              })
              (omega arith)
        | inr e ↦ (
          (uploaded_at_once bytes),
          run-last round (accepting_rounds (length bytes)) (new bytes) metadata refl
                (ap (λ r. r.1) (one_request bytes e))
              ∙ ap (λ r. some (r.0, ok metadata)) (one_request bytes e),
          refl,
          refl,
        )
      ]
