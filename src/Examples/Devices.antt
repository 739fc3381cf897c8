-- ===== src/Examples/Devices.antt =====
-- Two devices that pair (src/server/api.rs, src/discovery/pairing.rs), encrypt
-- (src/protocol/crypto.rs), choose a host (src/hotspot.rs), and
-- find each other (src/discovery/mdns.rs).
use share_dash.Common.{
  ℕ, ◌≡◌, refl, true, false, not, List, [], ◌∷◌, ◌++◌, Option, none, some, arith, Text, text,
  text_eq, fixed, ok, get, keep_if,
}
use share_dash.Server.Pairing.{
  AppState, PairConnectRequest, PairRespondRequest, Reply, to_uppercase, is_accept,
  handle_incoming_pair_request, respond_to_pair_request, confirm_pair_session,
  connect_to_remote_peer,
}
use share_dash.Server.Pairing.Agreement.{pairing_agrees}
use share_dash.Server.Pairing.Misheard.{repeated_syn_ack_accepts, rejection_unheard}
use share_dash.Discovery.Sessions.{is_this, is_token_valid}
use share_dash.Discovery.Sessions.Tokens.{
  Op, create, verify, after, current_token, is_token_valid_lem,
}
use share_dash.Protocol.Crypto.{
  Aead, SessionCrypto, encrypt_payload, decrypt_payload, decrypt_payload-encrypt_payload,
}
use share_dash.Discovery.Peers.{PeerBeacon, is_recent, get_active_peers}
use share_dash.Discovery.Peers.Listing.{
  Event, beacon, list, history, last_heard, get_active_peers_lem,
}
use share_dash.Hotspot.{WifiCapsInfo, select_optimal_pc_to_pc_host}
use share_dash.Hotspot.Agreement.{hosts_agree}

abbrev laptop : AppState
laptop = record {
  device_id = text "l1";
  device_name = text "laptop";
  server_port = 54321;
  pending_pair = none;
  active_paired_peer = none;
  outgoing_pair = none;
}

abbrev phone : AppState
phone = record laptop { device_id = text "p1"; device_name = text "phone" }

abbrev to_phone : PairConnectRequest
to_phone = record { target_ip = text "10.0.0.2"; target_port = none; pin_code = text "123456" }

abbrev accept : PairRespondRequest
accept = record { action = text "accept"; target_name = none; step = none }

abbrev reject : PairRespondRequest
reject = record { action = text "reject"; target_name = none; step = none }

accept_accepts : is_accept accept ≡ true
unfolding to_uppercase text_eq
accept_accepts = refl

reject_rejects : is_accept reject ≡ false
unfolding to_uppercase text_eq
reject_rejects = refl

pairing_agrees_example :
    let asks = connect_to_remote_peer laptop to_phone [] (text "10.0.0.1") 1 in
    let heard = handle_incoming_pair_request phone asks.2 2 in
    let b' = respond_to_pair_request heard.0 accept true in
    (reply : Reply) × (b'.1 ≡ some reply)
    × (reply.address ≡ (text "10.0.0.1", 54321))
    × (let a' = respond_to_pair_request asks.0 reply.payload true in
        (a'.0.active_paired_peer ≡ some (text "phone"))
        × (a'.0.outgoing_pair ≡ none)
        × (b'.0.active_paired_peer ≡ some (text "laptop"))
        × ((confirm_pair_session b'.0).0.active_paired_peer ≡ some (text "laptop"))
        × ((confirm_pair_session b'.0).0.pending_pair ≡ none))
pairing_agrees_example =
    pairing_agrees laptop phone to_phone [] (text "10.0.0.1") 1 2 accept true true refl
      accept_accepts refl (omega arith)

rejection_unheard_example :
    let asks = connect_to_remote_peer laptop to_phone [] (text "10.0.0.1") 1 in
    let heard = handle_incoming_pair_request phone asks.2 2 in
    let b' = respond_to_pair_request heard.0 reject true in
    (b'.0.active_paired_peer ≡ none)
    × (b'.0.pending_pair ≡ none)
    × (reply : Reply) × (b'.1 ≡ some reply)
    × ((respond_to_pair_request asks.0 reply.payload true).0 ≡ asks.0)
rejection_unheard_example =
    rejection_unheard laptop phone to_phone [] (text "10.0.0.1") 1 2 reject true true reject_rejects
      refl refl

abbrev tablet : AppState
tablet = record laptop { device_id = text "t1"; device_name = text "tablet" }

abbrev to_laptop : PairConnectRequest
to_laptop = record { target_ip = text "10.0.0.1"; target_port = none; pin_code = text "654321" }

-- The laptop asks the phone, and then the tablet asks the laptop.
repeated_syn_ack_accepts_example :
    let asks = connect_to_remote_peer laptop to_phone [] (text "10.0.0.1") 1 in
    let heard = handle_incoming_pair_request phone asks.2 2 in
    (reply : Reply) × ((respond_to_pair_request heard.0 accept true).1 ≡ some reply)
    × (let paired = (respond_to_pair_request asks.0 reply.payload true).0 in
        let third = connect_to_remote_peer tablet to_laptop [] (text "10.0.0.3") 3 in
        let asked_again = (handle_incoming_pair_request paired third.2 4).0 in
        let last = (respond_to_pair_request asked_again reply.payload true).0 in
        (paired.active_paired_peer ≡ some (text "phone"))
        × (asked_again.active_paired_peer ≡ some (text "phone"))
        × (last.active_paired_peer ≡ some (text "tablet")))
repeated_syn_ack_accepts_example =
    repeated_syn_ack_accepts laptop phone tablet to_phone to_laptop [] (text "10.0.0.1")
      (text "10.0.0.3") 1 2 3 4 accept true true true refl accept_accepts refl

-- A session, a wrong PIN and the right one.
abbrev qr : Text → Option Text
qr s = some s

abbrev three_ops : List Op
three_ops =
    verify (text "s1") (text "123456") (text "token")
    ∷ verify (text "s1") (text "000000") (text "other")
    ∷ create (text "host") (text "s1") 123456 0
    ∷ []

is_token_valid_lem_example :
    is_token_valid (after qr (text "l1") (text "laptop") three_ops) (text "s1") (text "token")
    ≡ is_this (current_token qr (text "l1") (text "laptop") three_ops (text "s1")) (text "token")
is_token_valid_lem_example =
    is_token_valid_lem qr (text "l1") (text "laptop") three_ops (text "s1") (text "token")

-- A cipher that adds the key in front of the bytes, and takes it off.
abbrev strip : List ℕ → List ℕ → List ℕ → Option (List ℕ)
strip [] nonce bytes = some bytes
strip (k ∷ key) nonce [] = none
strip (k ∷ key) nonce (b ∷ bytes) = strip key nonce bytes

strip_opens :
    (key nonce plain sealed : List ℕ)
    → some (key ++ plain) ≡ some sealed
    → strip key nonce sealed ≡ some plain
strip_opens [] nonce plain sealed h = cc h
strip_opens (k ∷ key) nonce plain [] h = cc h
strip_opens (k ∷ key) nonce plain (b ∷ sealed) h = strip_opens key nonce plain sealed (tail_of h)
  where
    tail_of : some (k ∷ (key ++ plain)) ≡ some (b ∷ sealed) → some (key ++ plain) ≡ some sealed
    tail_of e = cc e

abbrev plain_aead : Aead
plain_aead = record {
  encrypt = λ key nonce plain. some (key ++ plain);
  decrypt = strip;
  opens = strip_opens;
}

abbrev one_key : SessionCrypto
one_key = record { cipher = some (9 ∷ []); session_key = 9 ∷ [] }

abbrev twelve : List ℕ
twelve = 0 ∷ 1 ∷ 2 ∷ 3 ∷ 4 ∷ 5 ∷ 6 ∷ 7 ∷ 8 ∷ 9 ∷ 10 ∷ 11 ∷ []

sealed_bytes : encrypt_payload plain_aead one_key twelve (5 ∷ []) ≡ ok (twelve ++ (9 ∷ 5 ∷ []))
unfolding encrypt_payload
sealed_bytes = refl

decrypt_payload-encrypt_payload_example :
    decrypt_payload plain_aead one_key (twelve ++ (9 ∷ 5 ∷ [])) ≡ ok (5 ∷ [])
decrypt_payload-encrypt_payload_example =
    decrypt_payload-encrypt_payload plain_aead one_key one_key twelve (5 ∷ [])
      (twelve ++ (9 ∷ 5 ∷ [])) refl refl sealed_bytes

abbrev caps : WifiCapsInfo fixed
caps = record {
  wifi_standard = text "802.11ax";
  max_frequency_ghz = 5000000000;
  max_channel_width_mhz = 80;
  max_phy_rate_mbps = 1200;
  supported_bands = [];
}

names_differ : text_eq (text "alpha") (text "beta") ≡ false
unfolding text_eq
names_differ = refl

hosts_agree_example :
    let at_a = select_optimal_pc_to_pc_host fixed caps caps (text "alpha") (text "beta") in
    let at_b = select_optimal_pc_to_pc_host fixed caps caps (text "beta") (text "alpha") in
    (at_b.0 ≡ not at_a.0) × (at_a.1 ≡ at_b.1)
hosts_agree_example = hosts_agree fixed caps caps (text "alpha") (text "beta") names_differ

-- This device is l1; the phone was heard of at 1000, and the table was listed before and after.
abbrev phone_beacon : PeerBeacon
phone_beacon = record {
  device_id = text "p1";
  friendly_name = text "phone";
  os_name = text "Android";
  server_port = 54321;
  app_version = [];
  supported_transports = [];
}

abbrev heard_events : List Event
heard_events = list 2000 ∷ beacon phone_beacon (text "10.0.0.2") 1000 ∷ list 500 ∷ []

get_active_peers_lem_example :
    get (text "p1") (get_active_peers (history (text "l1") heard_events) 3000).peers
    ≡ keep_if (is_recent 3000) (last_heard (text "l1") heard_events (text "p1"))
get_active_peers_lem_example =
    get_active_peers_lem (text "l1") heard_events 3000 (text "p1")
      (omega arith, (tt, (omega arith, tt)))
