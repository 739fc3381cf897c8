-- ===== src/Server/Pairing.antt =====
-- src/server/api.rs: the handlers by which two devices pair, on the part of AppState that they
-- share. What a request that a handler sends comes to is an input; so are the network interfaces
-- and the time.
pub mod Agreement
pub mod Misheard
use share_dash.Common.{
  ℕ, ◌-◌, ltb, leb, ◌==◌, if◌then◌else◌, Bool, true, false, not, ◌&&◌, ◌||◌, List, [], ◌∷◌, Option,
  none, some, Text, text, text_eq,
}
use share_dash.Storage.Integrity.{is_empty, eq_ignore_ascii_case}
use share_dash.Upload.Headers.{starts_with}
use share_dash.Discovery.Versions.{current_app_version, is_version_compatible}

pub record IncomingPairRequest : Type 0 where
  pub initiator_device_id : Text
  pub initiator_name : Text
  pub initiator_ip : Text
  pub initiator_port : ℕ
  pub pin_code : Text
  pub app_version : Text
  pub status : Text
  pub timestamp_ms : ℕ

pub record OutgoingPairInfo : Type 0 where
  pub target_device_id : Text
  pub target_ip : Text
  pub target_port : ℕ
  pub pin : Text
  pub initiated_at : ℕ

-- The part of `AppState` that pairing uses.
pub record AppState : Type 0 where
  pub device_id : Text
  pub device_name : Text
  pub server_port : ℕ
  pub pending_pair : Option IncomingPairRequest
  pub active_paired_peer : Option Text
  pub outgoing_pair : Option OutgoingPairInfo

pub record PairConnectRequest : Type 0 where
  pub target_ip : Text
  pub target_port : Option ℕ
  pub pin_code : Text

pub record PairRespondRequest : Type 0 where
  pub action : Text
  pub target_name : Option Text
  pub step : Option Text

pub data PairResponse : Type 0 where
  version_incompatible pending accepted rejected syn_ack_sent failed no_pending syn_sent
        ack_confirmed established :
      PairResponse
  -- Whether the peer accepts.
  syn_ack_received : Bool → PairResponse

-- Where a request is sent.
abbrev pub Address : Type 0
Address = Text × ℕ

unfoldable pub handle_incoming_pair_request :
    AppState → IncomingPairRequest → ℕ → AppState × PairResponse
handle_incoming_pair_request s payload now =
    if not (is_version_compatible payload.app_version) then (s, version_incompatible) else (
      record s {
        pending_pair = some (record payload { status = text "PENDING"; timestamp_ms = now });
      },
      pending,
    )

-- `to_uppercase` on ASCII letters; no other letter becomes one of `ACCEPT`.
unfoldable pub to_uppercase : Text → Text
to_uppercase [] = []
to_uppercase (c ∷ cs) = (if leb b'a' c && leb c b'z' then c - 32 else c) ∷ to_uppercase cs

abbrev pub is_accept : PairRespondRequest → Bool
is_accept payload = text_eq (to_uppercase payload.action) (text "ACCEPT")

abbrev pub says_syn_ack : Option Text → Bool
says_syn_ack none = false
says_syn_ack (some step) = eq_ignore_ascii_case step (text "SYN_ACK")

-- The name that the peer sends, or the address that was asked.
abbrev pub peer_name : Option Text → OutgoingPairInfo → Text
peer_name none out = out.target_ip
peer_name (some name) out = if is_empty name then out.target_ip else name

-- What `respond_to_pair_request` sends to the initiator.
pub record Reply : Type 0 where
  pub address : Address
  pub payload : PairRespondRequest

-- The call back of a device that was asked, when this one has asked.
unfoldable pub receive_syn_ack :
    AppState → PairRespondRequest → OutgoingPairInfo → AppState × PairResponse
receive_syn_ack s payload out =
    if is_accept payload
    then (
      record s {
        active_paired_peer = some (peer_name payload.target_name out);
        outgoing_pair = none;
      },
      syn_ack_received true,
    )
    else (record s { outgoing_pair = none }, syn_ack_received false)

abbrev pub initiator_address : IncomingPairRequest → Address
initiator_address req =
    (req.initiator_ip, if ltb 0 req.initiator_port then req.initiator_port else 54321)

-- The answer to a request that was sent, by whether sending succeeded.
abbrev pub answered : Bool → PairResponse
answered true = syn_ack_sent
answered false = failed

-- The user of this device answers the request that is pending.
unfoldable pub answer_pending :
    AppState
    → PairRespondRequest
    → IncomingPairRequest
    → Bool
    → AppState × Option Reply × PairResponse
answer_pending s payload req sends =
    if is_accept payload
    then (
      record s {
        pending_pair = some (record req { status = text "ACCEPTED" });
        active_paired_peer = some req.initiator_name;
      },
      some (record {
        address = initiator_address req;
        payload = record {
          action = text "ACCEPT";
          target_name = some s.device_name;
          step = some (text "SYN_ACK");
        };
      }),
      answered sends,
    )
    else (
      record s { pending_pair = none; active_paired_peer = none },
      some (record {
        address = initiator_address req;
        payload = record { action = text "REJECT"; target_name = none; step = none };
      }),
      rejected,
    )

abbrev pub local_answer :
    AppState
    → PairRespondRequest
    → Option IncomingPairRequest
    → Bool
    → AppState × Option Reply × PairResponse
local_answer s payload none sends = (s, none, no_pending)
local_answer s payload (some req) sends = answer_pending s payload req sends

abbrev pub without_reply : AppState × PairResponse → AppState × Option Reply × PairResponse
without_reply r = (r.0, none, r.1)

abbrev pub respond_from :
    AppState
    → PairRespondRequest
    → Option OutgoingPairInfo
    → Bool
    → AppState × Option Reply × PairResponse
respond_from s payload none sends = local_answer s payload s.pending_pair sends
respond_from s payload (some out) sends =
    if says_syn_ack payload.step
    then without_reply (receive_syn_ack s payload out)
    else local_answer s payload s.pending_pair sends

-- The last argument is whether the request to the initiator succeeds.
unfoldable pub respond_to_pair_request :
    AppState → PairRespondRequest → Bool → AppState × Option Reply × PairResponse
unfolding receive_syn_ack answer_pending
respond_to_pair_request s payload sends = respond_from s payload s.outgoing_pair sends

abbrev confirmed : AppState → Option IncomingPairRequest → AppState × PairResponse
confirmed s none = (s, established)
confirmed s (some req) =
    (record s { active_paired_peer = some req.initiator_name; pending_pair = none }, ack_confirmed)

unfoldable pub confirm_pair_session : AppState → AppState × PairResponse
confirm_pair_session s = confirmed s s.pending_pair

-- The gateway of the first interface on a hotspot's or a Wi-Fi Direct subnet.
unfoldable pub gateway : List Text → Option Text
gateway [] = none
gateway (ip ∷ ips) =
    if starts_with ip (text "192.168.43.") && not (text_eq ip (text "192.168.43.1"))
    then some (text "192.168.43.1")
    else if starts_with ip (text "192.168.49.") && not (text_eq ip (text "192.168.49.1"))
    then some (text "192.168.49.1")
    else gateway ips

abbrev pub or_text : Option Text → Text → Text
or_text none t = t
or_text (some s) t = s

abbrev pub or_port : Option ℕ → ℕ
or_port none = 54321
or_port (some port) = port

-- `interfaces` are the addresses of this device, none if they cannot be listed.
unfoldable pub effective_target_ip : Text → List Text → Text
effective_target_ip target_ip interfaces =
    if text_eq target_ip (text "0.0.0.0") || is_empty target_ip
    then or_text (gateway interfaces) target_ip
    else target_ip

unfoldable pub connect_to_remote_peer :
    AppState → PairConnectRequest → List Text → Text → ℕ → AppState × Address × IncomingPairRequest
connect_to_remote_peer s payload interfaces my_ip now =
    let ip = effective_target_ip payload.target_ip interfaces in
    let port = or_port payload.target_port in
    (
      record s {
        outgoing_pair = some (record {
          target_device_id = [];
          target_ip = ip;
          target_port = port;
          pin = payload.pin_code;
          initiated_at = now;
        });
      },
      (ip, port),
      record {
        initiator_device_id = s.device_id;
        initiator_name = s.device_name;
        initiator_ip = my_ip;
        initiator_port = s.server_port;
        pin_code = payload.pin_code;
        app_version = current_app_version;
        status = text "PENDING";
        timestamp_ms = now;
      },
    )

-- Whether the device is paired, with whom, and the request that is pending.
unfoldable pub get_pairing_status : AppState → Bool × Option Text × Option IncomingPairRequest
get_pairing_status s = (is_some s.active_paired_peer, s.active_paired_peer, s.pending_pair)
  where
    is_some : Option Text → Bool
    is_some none = false
    is_some (some t) = true
