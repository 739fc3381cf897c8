-- ===== src/Server/Pairing/Misheard.antt =====
-- Answers that the handlers of src/server/api.rs take for something else.
use share_dash.Common.{
  ℕ, ◌≡◌, refl, ap, ◌∙◌, if◌then◌else◌, Bool, true, false, List, Option, none, some, Text, text,
  Bool-cases, inl, inr, arith,
}
use share_dash.Server.Pairing.{
  AppState, IncomingPairRequest, OutgoingPairInfo, PairConnectRequest, PairRespondRequest, Reply,
  initiator_address, is_accept, says_syn_ack, handle_incoming_pair_request, answer_pending,
  local_answer, respond_from, respond_to_pair_request, confirm_pair_session, connect_to_remote_peer,
}
use share_dash.Server.Pairing.Agreement.{
  IsLocal, respond_locally, own_version, heard_pending, accepting, accepting_lem, accepts_and_calls,
  called_back, waits,
}
use share_dash.Storage.Integrity.{is_empty}

-- A call back that comes in when this device has not asked anyone answers the request that is
-- pending, as if the user had done so: it accepts it, or else drops it and unpairs this device from
-- whom it was paired with.
stale_syn_ack_answers :
    (s : AppState) (payload : PairRespondRequest) (req : IncomingPairRequest) (sends : Bool)
    → says_syn_ack payload.step ≡ true
    → s.outgoing_pair ≡ none
    → s.pending_pair ≡ some req
    → let s' = (respond_to_pair_request s payload sends).0 in
      (s'.active_paired_peer ≡ (if is_accept payload then some req.initiator_name else none))
      × (s'.pending_pair
          ≡ (if is_accept payload then some (record req { status = text "ACCEPTED" }) else none))
unfolding respond_to_pair_request answer_pending
stale_syn_ack_answers s payload req sends calls alone at = elim (Bool-cases (is_accept payload)) [
  | inl accepts ↦ rw (alone, at, accepts) (refl, refl)
  | inr rejects ↦ rw (alone, at, rejects) (refl, refl)
]

-- A request that comes in changes neither whom a device is paired with nor whom it has asked.
incoming_keeps :
    (s : AppState) (req : IncomingPairRequest) (now : ℕ)
    → ((handle_incoming_pair_request s req now).0.active_paired_peer ≡ s.active_paired_peer)
      × ((handle_incoming_pair_request s req now).0.outgoing_pair ≡ s.outgoing_pair)
unfolding handle_incoming_pair_request
incoming_keeps s req now = (ground arith, ground arith)

-- A device has asked another one, whose user accepted, and has heard the call back: it is paired
-- with that one. Then a third device asks it. If the call back of the other one comes in once
-- more, it accepts the request of the third: the device is paired with the third, and no user of it
-- was asked. The device that accepted has a name, and its user's answer is not a call back.
pub repeated_syn_ack_accepts :
    (a b c : AppState) (connect later_connect : PairConnectRequest) (interfaces : List Text)
    (my_ip its_ip : Text) (asked_at heard_at later_at last_at : ℕ) (answer : PairRespondRequest)
    (sends later_sends last_sends : Bool)
    → is_empty b.device_name ≡ false
    → is_accept answer ≡ true
    → IsLocal answer
    → let asks = connect_to_remote_peer a connect interfaces my_ip asked_at in
      let heard = handle_incoming_pair_request b asks.2 heard_at in
      (reply : Reply) × ((respond_to_pair_request heard.0 answer sends).1 ≡ some reply)
      × (let paired = (respond_to_pair_request asks.0 reply.payload later_sends).0 in
          let third = connect_to_remote_peer c later_connect interfaces its_ip later_at in
          let asked_again = (handle_incoming_pair_request paired third.2 last_at).0 in
          let last = (respond_to_pair_request asked_again reply.payload last_sends).0 in
          (paired.active_paired_peer ≡ some b.device_name)
          × (asked_again.active_paired_peer ≡ some b.device_name)
          × (last.active_paired_peer ≡ some c.device_name))
repeated_syn_ack_accepts a b c connect later_connect interfaces my_ip its_ip asked_at heard_at
      later_at last_at answer sends later_sends last_sends named accepted local =
    let asks = connect_to_remote_peer a connect interfaces my_ip asked_at in
    let heard = handle_incoming_pair_request b asks.2 heard_at in
    let req = record asks.2 { status = text "PENDING"; timestamp_ms = heard_at } in
    let (pending, same_name) = heard_pending b a connect interfaces my_ip asked_at heard_at in
    let e = respond_locally heard.0 answer req sends local pending in
    let (_, replied, _) = accepting_lem heard.0 answer req sends accepted in
    let reply = accepting heard.0 req in
    let (paired_with, alone) =
      called_back asks.0 heard.0 req later_sends (ap is_empty same_name ∙ named)
        (waits a connect interfaces my_ip asked_at) in
    let paired = (respond_to_pair_request asks.0 reply.payload later_sends).0 in
    let third = connect_to_remote_peer c later_connect interfaces its_ip later_at in
    let asked_again = (handle_incoming_pair_request paired third.2 last_at).0 in
    let waiting = (heard_pending paired c later_connect interfaces its_ip later_at last_at).0 in
    let (still, free) = incoming_keeps paired third.2 last_at in
    let (accepts, calls) = accepts_and_calls heard.0 req in
    let final =
      stale_syn_ack_answers asked_again reply.payload _ last_sends calls (free ∙ alone) waiting in
    (
      reply,
      ap (λ x. x.1) e ∙ replied,
      (
        paired_with ∙ ap some same_name,
        still ∙ paired_with ∙ ap some same_name,
        final.0 ∙ rw accepts (unfold connect_to_remote_peer in refl),
      ),
    )

-- The reply of a device that rejects.
abbrev rejecting_reply : IncomingPairRequest → Reply
rejecting_reply req = record {
  address = initiator_address req;
  payload = record { action = text "REJECT"; target_name = none; step = none };
}

rejecting :
    (s : AppState) (answer : PairRespondRequest) (req : IncomingPairRequest) (sends : Bool)
    → is_accept answer ≡ false
    → let r = answer_pending s answer req sends in
      (r.0.active_paired_peer ≡ none)
      × (r.0.pending_pair ≡ none)
      × (r.1 ≡ some (rejecting_reply req))
unfolding answer_pending
rejecting s answer req sends no_ = rw no_ (refl, refl, refl)

-- A message that is no call back, where no request is pending.
not_heard :
    (s : AppState) (payload : PairRespondRequest) (sends : Bool)
    → IsLocal payload
    → s.pending_pair ≡ none
    → (respond_to_pair_request s payload sends).0 ≡ s
unfolding respond_to_pair_request
not_heard s payload sends local idle = from s.outgoing_pair
  where
    nothing : (o : Option IncomingPairRequest) → o ≡ none → (local_answer s payload o sends).0 ≡ s
    nothing none e = refl
    nothing (some req) e = absurd (cc e)

    from : (o : Option OutgoingPairInfo) → (respond_from s payload o sends).0 ≡ s
    from none = nothing s.pending_pair idle
    from (some out) = rw local (nothing s.pending_pair idle)

-- When the user of a device that was asked rejects, the device ends up paired with no one, whoever
-- it was paired with before; and the device that asked, if it has no request of its own pending,
-- does not hear of it: the message that reaches it leaves its state as it was, still waiting.
pub rejection_unheard :
    (a b : AppState) (connect : PairConnectRequest) (interfaces : List Text) (my_ip : Text)
    (asked_at heard_at : ℕ) (answer : PairRespondRequest) (sends later_sends : Bool)
    → is_accept answer ≡ false
    → IsLocal answer
    → a.pending_pair ≡ none
    → let asks = connect_to_remote_peer a connect interfaces my_ip asked_at in
      let heard = handle_incoming_pair_request b asks.2 heard_at in
      let b' = respond_to_pair_request heard.0 answer sends in
      (b'.0.active_paired_peer ≡ none)
      × (b'.0.pending_pair ≡ none)
      × (reply : Reply) × (b'.1 ≡ some reply)
      × ((respond_to_pair_request asks.0 reply.payload later_sends).0 ≡ asks.0)
rejection_unheard a b connect interfaces my_ip asked_at heard_at answer sends later_sends no_ local
      idle =
    let asks = connect_to_remote_peer a connect interfaces my_ip asked_at in
    let heard = handle_incoming_pair_request b asks.2 heard_at in
    let req = record asks.2 { status = text "PENDING"; timestamp_ms = heard_at } in
    let e =
      respond_locally heard.0 answer req sends local
        (heard_pending b a connect interfaces my_ip asked_at heard_at).0 in
    let (unpaired, dropped, sent) = rejecting heard.0 answer req sends no_ in
    (
      ap (λ x. x.0.active_paired_peer) e ∙ unpaired,
      ap (λ x. x.0.pending_pair) e ∙ dropped,
      rejecting_reply req,
      ap (λ x. x.1) e ∙ sent,
      not_heard asks.0 (rejecting_reply req).payload later_sends refl
          (unfold connect_to_remote_peer in idle),
    )

-- A device that has just been asked is paired by a confirmation, whoever sends it, without any
-- answer of its user.
confirmed_unasked :
    (a b : AppState) (connect : PairConnectRequest) (interfaces : List Text) (my_ip : Text)
    (asked_at heard_at : ℕ)
    → let asks = connect_to_remote_peer a connect interfaces my_ip asked_at in
      let heard = handle_incoming_pair_request b asks.2 heard_at in
      (confirm_pair_session heard.0).0.active_paired_peer ≡ some a.device_name
unfolding confirm_pair_session handle_incoming_pair_request connect_to_remote_peer
confirmed_unasked a b connect interfaces my_ip asked_at heard_at = rw own_version refl
