-- ===== src/Storage/Tests.antt =====
-- Uploads at concrete inputs. The errors and the metadata are numbers.
use firebase_rs_sdk.Common.{ℕ, ◌≡◌, refl, true, none, [], ◌∷◌}
use firebase_rs_sdk.Common.Text.{codes}
use firebase_rs_sdk.Storage.Upload.{
  UploadTask, running, errored, Server, ok, err, Bytes, new, complete, cancel, control, controls,
  upload_next, upload_multipart, multipart_answered, upload_resumable, created, upload_chunk,
  answered, upload_in, run_to_completion,
}
use firebase_rs_sdk.Storage.Upload.States.{
  Moves, moves_none, moves_upload, moves_control, IsKept, Moves-IsKept,
}
use firebase_rs_sdk.Storage.Upload.Complete.{
  accepting, accepting_rounds, IsUploaded, run_to_completion-IsUploaded,
}

abbrev canceled_error : ℕ
canceled_error = 40

abbrev internal_error : ℕ
internal_error = 50

abbrev bytes : Bytes
bytes = 7 ∷ 8 ∷ 9 ∷ []

abbrev fresh : UploadTask ℕ ℕ
fresh = new bytes

abbrev uploaded : UploadTask ℕ ℕ
uploaded = record fresh { shared = complete 12 fresh.shared }

abbrev other_server : Server ℕ ℕ
other_server = accepting canceled_error internal_error (codes "u") 13

-- the upload is asked for again, and canceled
abbrev asked_again : UploadTask ℕ ℕ
asked_again = (upload_next canceled_error internal_error other_server uploaded).0

abbrev asked_and_canceled : UploadTask ℕ ℕ
asked_and_canceled = record asked_again { shared = control cancel asked_again.shared }

abbrev moves : Moves canceled_error internal_error uploaded asked_and_canceled
moves = moves_control cancel (moves_upload other_server moves_none)

Moves-IsKept_example : IsKept canceled_error internal_error uploaded asked_and_canceled
Moves-IsKept_example =
    Moves-IsKept canceled_error internal_error uploaded asked_and_canceled refl moves

-- a cancel while the request is in flight wins
abbrev canceling : Server ℕ ℕ
canceling = record other_server { multipart_upload = λ _. (cancel ∷ [], ok 13) }

canceled_in_flight :
    (upload_next canceled_error internal_error canceling fresh).1 ≡ err canceled_error
unfolding upload_next upload_in upload_multipart multipart_answered controls
canceled_in_flight = refl

-- and one while a request that fails is in flight does not
abbrev refusing : Server ℕ ℕ
refusing = record other_server { multipart_upload = λ _. (cancel ∷ [], err 60) }

canceled_then_failed :
    (upload_next canceled_error internal_error refusing fresh).0.shared.state ≡ errored
unfolding upload_next upload_in upload_multipart multipart_answered controls
canceled_then_failed = refl

-- a last chunk that is answered without metadata
abbrev resuming : UploadTask ℕ ℕ
resuming = record fresh { resumable = true }

abbrev forgetful : Server ℕ ℕ
forgetful = record other_server {
  continue_upload = λ _ _ _. ([], ok (record { current = 3; finalized = true; metadata = none }));
}

ended_without_metadata :
    (upload_next canceled_error internal_error forgetful resuming).1 ≡ err internal_error
unfolding upload_next upload_in upload_resumable created upload_chunk answered controls
ended_without_metadata = refl

still_running :
    (upload_next canceled_error internal_error forgetful resuming).0.shared.state ≡ running
unfolding upload_next upload_in upload_resumable created upload_chunk answered controls
still_running = refl

run_to_completion-IsUploaded_example : IsUploaded canceled_error internal_error (codes "u") 12 (
    run_to_completion canceled_error internal_error
      (accepting_rounds canceled_error internal_error (codes "u") 12 4)
      fresh)
run_to_completion-IsUploaded_example =
    run_to_completion-IsUploaded canceled_error internal_error (codes "u") 12 bytes
