-- ===== src/Protocol/Handshake.antt =====
-- src/protocol/handshake.rs: `TransportHandshake`, and the messages of src/protocol/message.rs that
-- it exchanges. What the transport will answer and which sends fail is the state of the wire; the
-- JSON functions are a parameter. `HandshakeState::Failed` is never entered, and the time limit
-- only decides whether a receive times out.
pub mod Agreement
use share_dash.Common.{
  ℕ, ◌*◌, Bool, true, false, List, [], ◌∷◌, Option, none, some, Text, text, Result, ok, err,
}
use share_dash.Protocol.Frame.Types.{FrameType, hello, hello_resp, capabilities}
use share_dash.Protocol.Frame.Header.{flag_none}
use share_dash.Protocol.Frame.Codec.{Frame, nil_uuid, new_frame}

pub data TransportKind : Type 0 where
  usb lan wifi_direct internet_quic bluetooth mock_sim : TransportKind

pub record HelloMessage : Type 0 where
  pub device_id : Text
  pub friendly_name : Text
  pub os_name : Text
  pub app_version : Text
  pub protocol_version : ℕ
  pub listen_endpoints : List Text

pub record HelloRespMessage : Type 0 where
  pub peer_device_id : Text
  pub peer_name : Text
  pub session_id : List ℕ
  pub accepted : Bool

-- The link speed is a float, of the type `F`.
pub record CapabilitiesMessage (F : Type 0) : Type 0 where
  pub supported_transports : List TransportKind
  pub max_concurrent_streams : ℕ
  pub protocol_version : ℕ
  pub wifi_generation : Option Text
  pub usb_generation : Option Text
  pub link_speed_mbps : Option F
  pub frequency_bands : List Text
  pub max_chunk_size : ℕ
  pub available_storage_bytes : ℕ
  pub is_charging : Bool
  pub battery_pct : Option ℕ

pub data HandshakeState : Type 0 where
  idle syn_sent syn_received established : HandshakeState

pub record SessionInfo (F : Type 0) : Type 0 where
  pub peer_device_id : Text
  pub peer_device_name : Text
  pub peer_os : Text
  pub peer_capabilities : CapabilitiesMessage F
  pub local_capabilities : CapabilitiesMessage F

pub record Device : Type 0 where
  pub local_device_id : Text
  pub local_device_name : Text
  pub local_os : Text

pub data HandshakeError : Type 0 where
  bad_json timed_out closed transport_failed : HandshakeError

pub data Answer : Type 0 where
  frame : Frame → Answer
  late closes fails : Answer

-- `state`, the answers that are to come, whether the coming sends work, and what was sent so far.
pub record Wire : Type 0 where
  pub state : HandshakeState
  pub answers : List Answer
  pub sends : List Bool
  pub sent : List Frame

-- Steps on the wire that may fail; the first error ends the handshake.
abbrev pub Process : Type 0 → Type 0
Process A = Wire → Wire × Result HandshakeError A

abbrev pub continue :
    {A B : Type 0}
    → (A → Process B)
    → Wire × Result HandshakeError A
    → Wire × Result HandshakeError B
continue f (w, ok a) = f a w
continue f (w, err e) = (w, err e)

infixr 5 ◌>>>◌
unfoldable pub ◌>>>◌ : {A B : Type 0} → Process A → (A → Process B) → Process B
(m >>> f) w = continue f (m w)

unfoldable pub return_ : {A : Type 0} → A → Process A
return_ a w = (w, ok a)

unfoldable pub parsed : {A : Type 0} → Option A → Process A
parsed none w = (w, err bad_json)
parsed (some a) w = (w, ok a)

unfoldable pub set_state : HandshakeState → Process (Unit {0})
set_state s w = (record w { state = s }, ok tt)

-- `send_frame(…).await?`.
abbrev pub sent_as : List Bool → Frame → Process (Unit {0})
sent_as [] f w = (w, err transport_failed)
sent_as (true ∷ later) f w = (record w { sends = later; sent = f ∷ w.sent }, ok tt)
sent_as (false ∷ later) f w = (record w { sends = later }, err transport_failed)

unfoldable pub send : Frame → Process (Unit {0})
send f w = sent_as w.sends f w

-- `timeout(self.timeout, transport.recv_frame()).await`, down to the payload.
abbrev pub of_answer : Answer → Result HandshakeError (List ℕ)
of_answer (frame f) = ok f.payload
of_answer late = err timed_out
of_answer closes = err closed
of_answer fails = err transport_failed

abbrev pub taken : List Answer → Process (List ℕ)
taken [] w = (w, err timed_out)
taken (a ∷ later) w = (record w { answers = later }, of_answer a)

unfoldable pub expect : Process (List ℕ)
expect w = taken w.answers w

-- `serde_json::to_vec` and `serde_json::from_slice` at the three types.
pub record Json (F : Type 0) : Type 0 where
  pub hello_bytes : HelloMessage → Option (List ℕ)
  pub hello_of : List ℕ → Option HelloMessage
  pub resp_bytes : HelloRespMessage → Option (List ℕ)
  pub resp_of : List ℕ → Option HelloRespMessage
  pub caps_bytes : CapabilitiesMessage F → Option (List ℕ)
  pub caps_of : List ℕ → Option (CapabilitiesMessage F)

module _ {F : Type 0} where
  unfoldable pub build_local_capabilities : CapabilitiesMessage F
  build_local_capabilities = record {
    supported_transports = lan ∷ wifi_direct ∷ usb ∷ [];
    max_concurrent_streams = 4;
    protocol_version = 1;
    wifi_generation = none;
    usb_generation = none;
    link_speed_mbps = none;
    frequency_bands = [];
    max_chunk_size = 1024 * 1024;
    available_storage_bytes = 1024 * 1024 * 1024;
    is_charging = true;
    battery_pct = none;
  }

module _ {F : Type 0} (json : Json F) (crc : List ℕ → ℕ) (me : Device) where
  abbrev pub greeting : HelloMessage
  greeting = record {
    device_id = me.local_device_id;
    friendly_name = me.local_device_name;
    os_name = me.local_os;
    app_version = text "1.0.0";
    protocol_version = 1;
    listen_endpoints = [];
  }

  abbrev pub reply : List ℕ → HelloRespMessage
  reply session_id = record {
    peer_device_id = me.local_device_id;
    peer_name = me.local_device_name;
    session_id = session_id;
    accepted = true;
  }

  -- A message of the handshake.
  abbrev pub packed : FrameType → List ℕ → Frame
  packed frame_type bytes = new_frame crc frame_type nil_uuid 0 flag_none bytes

  unfoldable pub initiate : Process (SessionInfo F)
  initiate = set_state syn_sent >>> λ _. parsed (json.hello_bytes greeting) >>> λ hello_bytes.
      send (packed hello hello_bytes) >>> λ _. expect >>> λ resp.
      parsed (json.resp_of resp) >>> λ hello_resp_. set_state syn_received >>> λ _.
      parsed (json.caps_bytes build_local_capabilities) >>> λ caps_bytes.
      send (packed capabilities caps_bytes) >>> λ _. expect >>> λ peer.
      parsed (json.caps_of peer) >>> λ peer_caps. set_state established >>> λ _. return_ (record {
        peer_device_id = hello_resp_.peer_device_id;
        peer_device_name = hello_resp_.peer_name;
        peer_os = [];
        peer_capabilities = peer_caps;
        local_capabilities = build_local_capabilities;
      })

  -- `session_id` is the fresh identifier.
  unfoldable pub respond : List ℕ → Process (SessionInfo F)
  respond session_id = expect >>> λ first. parsed (json.hello_of first) >>> λ hello_.
      set_state syn_received >>> λ _. parsed (json.resp_bytes (reply session_id)) >>> λ resp_bytes.
      send (packed hello_resp resp_bytes) >>> λ _. expect >>> λ peer.
      parsed (json.caps_of peer) >>> λ peer_caps.
      parsed (json.caps_bytes build_local_capabilities) >>> λ caps_bytes.
      send (packed capabilities caps_bytes) >>> λ _. set_state established >>> λ _.
      return_ (record {
        peer_device_id = hello_.device_id;
        peer_device_name = hello_.friendly_name;
        peer_os = hello_.os_name;
        peer_capabilities = peer_caps;
        local_capabilities = build_local_capabilities;
      })
