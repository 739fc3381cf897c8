-- ===== src/Discovery/Sessions.antt =====
-- src/discovery/pairing.rs: PairingManager, whose sessions are paired by a PIN. The identifiers,
-- PINs, tokens and times that are drawn are inputs, and the drawing of a QR code is a parameter.
pub mod Tokens
use share_dash.Common.{
  ℕ, ◌-◌, ◌++◌, if◌then◌else◌, Bool, true, false, List, [], ◌∷◌, Option, none, some, Text, text,
  text_eq, length, replicate, Result, ok, err, get, put,
}
use share_dash.Upload.Headers.{to_string}

pub record PairingSession : Type 0 where
  pub session_id : Text
  pub pin_code : Text
  pub device_name : Text
  pub server_endpoint : Text
  pub qr_svg : Text
  pub created_at : ℕ
  pub is_paired : Bool
  pub auth_token : Option Text

pub record PairingManager : Type 0 where
  pub sessions : List (Text × PairingSession)
  pub device_id : Text
  pub device_name : Text

pub data PairingError : Type 0 where
  no_qr_code invalid_pin no_session : PairingError

unfoldable pub new_manager : Text → Text → PairingManager
new_manager device_id device_name = record {
  sessions = [];
  device_id = device_id;
  device_name = device_name;
}

-- `{:06}`.
unfoldable pub six_digits : ℕ → Text
six_digits n = let s = to_string n in replicate (6 - length s) b'0' ++ s

-- What the QR code says.
unfoldable pub pairing_payload : Text → Text → Text → Text → Text
pairing_payload session_id pin_code endpoint name =
    text "sharedash://pair?session="
    ++ (session_id
        ++ (text "&pin=" ++ (pin_code ++ (text "&host=" ++ (endpoint ++ (text "&name=" ++ name))))))

abbrev pub create_with :
    PairingManager
    → PairingSession
    → Option Text
    → PairingManager × Result PairingError PairingSession
create_with m s none = (m, err no_qr_code)
create_with m s (some svg) = (
  record m { sessions = put s.session_id (record s { qr_svg = svg }) m.sessions },
  ok (record s { qr_svg = svg }),
)

-- `draw` is the number from 100000 up to, but not including, 999999.
unfoldable pub create_session :
    (Text → Option Text)
    → PairingManager
    → Text
    → Text
    → ℕ
    → ℕ
    → PairingManager × Result PairingError PairingSession
create_session qr m server_endpoint session_id draw now =
    create_with m
      (record {
        session_id = session_id;
        pin_code = six_digits draw;
        device_name = m.device_name;
        server_endpoint = server_endpoint;
        qr_svg = [];
        created_at = now;
        is_paired = false;
        auth_token = none;
      })
      (qr (pairing_payload session_id (six_digits draw) server_endpoint m.device_name))

abbrev pub verify_in :
    PairingManager
    → Text
    → Text
    → Text
    → Option PairingSession
    → PairingManager × Result PairingError Text
verify_in m session_id entered_pin token none = (m, err no_session)
verify_in m session_id entered_pin token (some s) =
    if text_eq s.pin_code entered_pin
    then (
      record m {
        sessions =
            put session_id (record s { is_paired = true; auth_token = some token }) m.sessions;
      },
      ok token,
    )
    else (m, err invalid_pin)

unfoldable pub verify_pin :
    PairingManager → Text → Text → Text → PairingManager × Result PairingError Text
verify_pin m session_id entered_pin token =
    verify_in m session_id entered_pin token (get session_id m.sessions)

abbrev pub is_this : Option Text → Text → Bool
is_this none token = false
is_this (some auth) token = text_eq auth token

abbrev pub token_of : Option PairingSession → Option Text
token_of none = none
token_of (some s) = s.auth_token

unfoldable pub is_token_valid : PairingManager → Text → Text → Bool
is_token_valid m session_id token = is_this (token_of (get session_id m.sessions)) token
