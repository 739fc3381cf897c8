-- ===== src/Upload/Sender/Answers.antt =====
-- The branches of the workers of src/cli.rs and src/gui/engine.rs at an answer, once for all
-- properties that each of them keeps.
use share_dash.Common.{◌≡◌, true, ◌||◌, text, ℕ, Bool-cases, inl, inr}
use share_dash.Upload.Dispatcher.{TransferChunkInfo}
use share_dash.Upload.Headers.{contains_text}
use share_dash.Upload.Sender.{
  Upload, Answer, status, network_error, is_success, is_refusal, succeed, abort, give_back, respond,
  gui_respond,
}

-- The answer is a success.
abbrev pub Succeeds : Answer → Type 0
Succeeds (status code body) = is_success code ≡ true
Succeeds network_error = ⊥

module _ (Holds : Upload → Type 0) (u : Upload) (channel : ℕ) (c : TransferChunkInfo)
    (unchanged : Holds u) (aborted : Holds (abort u)) (given : Holds (give_back u c)) where
  pub gui_respond_cases :
      (answer : Answer)
      → (Succeeds answer → Holds (succeed u channel c))
      → Holds (gui_respond u channel c answer).0
  unfolding gui_respond
  gui_respond_cases network_error h = given
  gui_respond_cases (status code body) h = elim (Bool-cases (is_success code)) [
    | inl yes_ ↦ rw yes_ (h yes_)
    | inr no_ ↦ elim (Bool-cases (is_refusal code)) [
      | inl gone ↦ rw (no_, gone) aborted
      | inr other ↦ rw (no_, other) given
    ]
  ]

  -- A chunk is given back only while the transfer goes on.
  pub respond_cases :
      (answer : Answer)
      → (Succeeds answer → Holds (succeed u channel c))
      → Holds (respond u channel c answer).0
  unfolding respond
  respond_cases network_error h = elim (Bool-cases (u.stop_flag || u.dispatcher.cancelled)) [
    | inl over ↦ rw over unchanged
    | inr going ↦ rw going given
  ]
  respond_cases (status code body) h = elim (Bool-cases (is_success code)) [
    | inl yes_ ↦ rw yes_ (h yes_)
    | inr no_ ↦ elim (Bool-cases (is_refusal code)) [
      | inl gone ↦ rw (no_, gone) aborted
      | inr other ↦
          elim (Bool-cases (
            contains_text body (text "TRANSFER_CANCELLED")
            || contains_text body (text "cancelled"))) [
              | inl says ↦ rw (no_, other, says) aborted
              | inr silent ↦ elim (Bool-cases (u.stop_flag || u.dispatcher.cancelled)) [
                | inl over ↦ rw (no_, other, silent, over) unchanged
                | inr going ↦ rw (no_, other, silent, going) given
              ]
            ]
    ]
  ]
