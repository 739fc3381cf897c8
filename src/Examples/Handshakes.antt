-- ===== src/Examples/Handshakes.antt =====
-- Two devices that shake hands by src/protocol/handshake.rs.
use share_dash.Common.{true, ℕ, ◌≡◌, ◌≢◌, refl, [], ◌∷◌, some, length, text, ok}
use share_dash.Protocol.Frame.Types.{hello, hello_resp, capabilities}
use share_dash.Protocol.Frame.Codec.{nil_uuid}
use share_dash.Protocol.Handshake.{
  idle, established, Device, Wire, Json, build_local_capabilities, packed, initiate, respond,
}
use share_dash.Protocol.Handshake.Agreement.{
  IsFinal, handshake-IsFinal, wire, concluded, handshake_agrees,
}

abbrev phone : Device
phone = record {
  local_device_id = text "p";
  local_device_name = text "phone";
  local_os = text "android";
}

abbrev laptop : Device
laptop = record {
  local_device_id = text "l";
  local_device_name = text "laptop";
  local_os = text "linux";
}

-- A stand-in that knows the messages of these two devices only.
abbrev json : Json ℕ
json = record {
  hello_bytes = λ m. some (1 ∷ []);
  hello_of = λ bytes. some (record {
    device_id = phone.local_device_id;
    friendly_name = phone.local_device_name;
    os_name = phone.local_os;
    app_version = text "1.0.0";
    protocol_version = 1;
    listen_endpoints = [];
  });
  resp_bytes = λ m. some (2 ∷ []);
  resp_of = λ bytes. some (record {
    peer_device_id = laptop.local_device_id;
    peer_name = laptop.local_device_name;
    session_id = nil_uuid;
    accepted = true;
  });
  caps_bytes = λ m. some (3 ∷ []);
  caps_of = λ bytes. some build_local_capabilities;
}

abbrev quiet : Wire
quiet = record { state = idle; answers = []; sends = []; sent = [] }

not_established : quiet.state ≢ established
not_established e = cc

handshake-IsFinal_example :
    IsFinal (initiate json length phone quiet) × IsFinal (respond json length phone nil_uuid quiet)
handshake-IsFinal_example = handshake-IsFinal json length phone nil_uuid quiet not_established

handshake_agrees_example :
    let hello_ = packed json length phone hello (1 ∷ []) in
    let resp = packed json length laptop hello_resp (2 ∷ []) in
    let caps = packed json length phone capabilities (3 ∷ []) in
    (initiate json length phone (wire resp caps) ≡ (
      concluded hello_ caps,
      ok (record {
        peer_device_id = text "l";
        peer_device_name = text "laptop";
        peer_os = [];
        peer_capabilities = build_local_capabilities;
        local_capabilities = build_local_capabilities;
      }),
    ))
    × (respond json length laptop nil_uuid (wire hello_ caps) ≡ (
      concluded resp caps,
      ok (record {
        peer_device_id = text "p";
        peer_device_name = text "phone";
        peer_os = text "android";
        peer_capabilities = build_local_capabilities;
        local_capabilities = build_local_capabilities;
      }),
    ))
handshake_agrees_example =
    handshake_agrees json length phone laptop nil_uuid (1 ∷ []) (2 ∷ []) (3 ∷ []) refl refl refl
      refl refl refl
