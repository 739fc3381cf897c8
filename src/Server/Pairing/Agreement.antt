-- ===== src/Server/Pairing/Agreement.antt =====
-- Two devices pair by the handlers of src/server/api.rs.
use share_dash.Common.{
  ℕ, ◌<◌, ◌≡◌, refl, ap, ◌∙◌, Bool, true, false, List, Option, none, some, Text, text, text_eq,
  lt→ltb,
}
use share_dash.Storage.Integrity.{is_empty, eq_ignore_ascii_case, to_ascii_lowercase}
use share_dash.Upload.Headers.{parse, parse_digits}
use share_dash.Discovery.Versions.{current_app_version, is_version_compatible, split_dots, numbers}
use share_dash.Server.Pairing.{
  AppState, IncomingPairRequest, OutgoingPairInfo, PairConnectRequest, PairRespondRequest, Reply,
  to_uppercase, is_accept, says_syn_ack, handle_incoming_pair_request, receive_syn_ack,
  answer_pending, initiator_address, respond_from, respond_to_pair_request, confirm_pair_session,
  connect_to_remote_peer,
}

-- A device accepts the version that it sends itself.
pub own_version : is_version_compatible current_app_version ≡ true
unfolding is_version_compatible split_dots numbers parse parse_digits
own_version = refl

-- A user's answer is not a call back.
abbrev pub IsLocal : PairRespondRequest → Type 0
IsLocal payload = says_syn_ack payload.step ≡ false

-- An answer by the user is one to the request that is pending, whatever is outgoing.
pub respond_locally :
    (s : AppState) (payload : PairRespondRequest) (req : IncomingPairRequest) (sends : Bool)
    → IsLocal payload
    → s.pending_pair ≡ some req
    → respond_to_pair_request s payload sends ≡ answer_pending s payload req sends
unfolding respond_to_pair_request
respond_locally s payload req sends local at = from s.outgoing_pair
  where
    from :
        (o : Option OutgoingPairInfo)
        → respond_from s payload o sends ≡ answer_pending s payload req sends
    from none = rw at refl
    from (some out) = rw (local, at) refl

-- The reply of a device that accepts.
abbrev pub accepting : AppState → IncomingPairRequest → Reply
accepting s req = record {
  address = initiator_address req;
  payload = record {
    action = text "ACCEPT";
    target_name = some s.device_name;
    step = some (text "SYN_ACK");
  };
}

pub accepts_and_calls :
    (s : AppState) (req : IncomingPairRequest)
    → (is_accept (accepting s req).payload ≡ true)
      × (says_syn_ack (accepting s req).payload.step ≡ true)
unfolding to_uppercase text_eq eq_ignore_ascii_case to_ascii_lowercase
accepts_and_calls s req = (refl, refl)

-- The device that waits hears the call back.
pub called_back :
    (s b : AppState) (req : IncomingPairRequest) (sends : Bool)
    → is_empty b.device_name ≡ false
    → (out : OutgoingPairInfo) × (s.outgoing_pair ≡ some out)
    → let s' = (respond_to_pair_request s (accepting b req).payload sends).0 in
      (s'.active_paired_peer ≡ some b.device_name) × (s'.outgoing_pair ≡ none)
unfolding respond_to_pair_request receive_syn_ack
called_back s b req sends named (out, at) =
    let (accepts, calls) = accepts_and_calls b req in rw (at, calls, accepts, named) (refl, refl)

-- The device whose user accepts.
pub accepting_lem :
    (s : AppState) (answer : PairRespondRequest) (req : IncomingPairRequest) (sends : Bool)
    → is_accept answer ≡ true
    → let r = answer_pending s answer req sends in
      (r.0.active_paired_peer ≡ some req.initiator_name)
      × (r.1 ≡ some (accepting s req))
      × (r.0.pending_pair ≡ some (record req { status = text "ACCEPTED" }))
unfolding answer_pending
accepting_lem s answer req sends accepted = rw accepted (refl, refl, refl)

confirm_lem :
    (s : AppState) (req : IncomingPairRequest)
    → s.pending_pair ≡ some req
    → ((confirm_pair_session s).0.active_paired_peer ≡ some req.initiator_name)
      × ((confirm_pair_session s).0.pending_pair ≡ none)
unfolding confirm_pair_session
confirm_lem s req at = rw at (refl, refl)

-- Where the call back goes, and who waits for it.
asker_address :
    (a : AppState) (connect : PairConnectRequest) (interfaces : List Text) (my_ip : Text)
    (asked_at heard_at : ℕ)
    → 0 < a.server_port
    → initiator_address (record (connect_to_remote_peer a connect interfaces my_ip asked_at).2 {
      status = text "PENDING";
      timestamp_ms = heard_at;
    })
      ≡ (my_ip, a.server_port)
unfolding connect_to_remote_peer
asker_address a connect interfaces my_ip asked_at heard_at port = rw (lt→ltb _ _ port) refl

pub waits :
    (a : AppState) (connect : PairConnectRequest) (interfaces : List Text) (my_ip : Text)
    (asked_at : ℕ)
    → (out : OutgoingPairInfo) × ((connect_to_remote_peer a connect interfaces my_ip
          asked_at).0.outgoing_pair
        ≡ some out)
unfolding connect_to_remote_peer
waits a connect interfaces my_ip asked_at = (_, refl)

module _ (b a : AppState) (connect : PairConnectRequest) (interfaces : List Text) (my_ip : Text)
    (asked_at heard_at : ℕ) where
  abbrev pub asked : IncomingPairRequest
  asked = (connect_to_remote_peer a connect interfaces my_ip asked_at).2

  -- The request is pending where it arrives.
  pub heard_pending :
      ((handle_incoming_pair_request b asked heard_at).0.pending_pair
        ≡ some (record asked { status = text "PENDING"; timestamp_ms = heard_at }))
      × ((handle_incoming_pair_request b asked heard_at).0.device_name ≡ b.device_name)
  unfolding handle_incoming_pair_request connect_to_remote_peer
  heard_pending = rw own_version (refl, refl)

-- One device asks another one, whose name is not empty, and whose user accepts: whatever state both
-- were in, the other device calls the first one back, under the address that it has sent, and when
-- that call arrives, each of the two is paired with the other one by its name, and the first one no
-- longer waits. The confirmation then only takes the request off.
pub pairing_agrees :
    (a b : AppState) (connect : PairConnectRequest) (interfaces : List Text) (my_ip : Text)
    (asked_at heard_at : ℕ) (answer : PairRespondRequest) (sends later_sends : Bool)
    → is_empty b.device_name ≡ false
    → is_accept answer ≡ true
    → IsLocal answer
    → 0 < a.server_port
    → let asks = connect_to_remote_peer a connect interfaces my_ip asked_at in
      let heard = handle_incoming_pair_request b asks.2 heard_at in
      let b' = respond_to_pair_request heard.0 answer sends in
      (reply : Reply) × (b'.1 ≡ some reply)
      × (reply.address ≡ (my_ip, a.server_port))
      × (let a' = respond_to_pair_request asks.0 reply.payload later_sends in
          (a'.0.active_paired_peer ≡ some b.device_name)
          × (a'.0.outgoing_pair ≡ none)
          × (b'.0.active_paired_peer ≡ some a.device_name)
          × ((confirm_pair_session b'.0).0.active_paired_peer ≡ some a.device_name)
          × ((confirm_pair_session b'.0).0.pending_pair ≡ none))
pairing_agrees a b connect interfaces my_ip asked_at heard_at answer sends later_sends named
      accepted local port =
    let asks = connect_to_remote_peer a connect interfaces my_ip asked_at in
    let heard = handle_incoming_pair_request b asks.2 heard_at in
    let req = record asks.2 { status = text "PENDING"; timestamp_ms = heard_at } in
    let (pending, same_name) = heard_pending b a connect interfaces my_ip asked_at heard_at in
    let e = respond_locally heard.0 answer req sends local pending in
    let (paired, replied, kept) = accepting_lem heard.0 answer req sends accepted in
    let named' : is_empty heard.0.device_name ≡ false = ap is_empty same_name ∙ named in
    let back =
      called_back asks.0 heard.0 req later_sends named'
        (waits a connect interfaces my_ip asked_at) in
    let b_paired = ap (λ x. x.0.active_paired_peer) e ∙ paired in
    let asker : req.initiator_name ≡ a.device_name = unfold connect_to_remote_peer in refl in
    let final =
      confirm_lem (respond_to_pair_request heard.0 answer sends).0 _
        (ap (λ x. x.0.pending_pair) e ∙ kept) in
    (
      accepting heard.0 req,
      ap (λ x. x.1) e ∙ replied,
      asker_address a connect interfaces my_ip asked_at heard_at port,
      (
        back.0 ∙ ap some same_name,
        back.1,
        b_paired ∙ ap some asker,
        final.0 ∙ ap some asker,
        final.1,
      ),
    )
