-- ===== src/Discovery/Peers.antt =====
-- src/discovery/mdns.rs: the table of the devices that were found. A beacon and the answer to a
-- probe are inputs, already taken apart by the JSON library; times are milliseconds.
pub mod Listing
use share_dash.Common.{
  ℕ, ◌-◌, ◌%◌, ltb, ◌==◌, if◌then◌else◌, Bool, true, false, not, ◌&&◌, List, [], ◌∷◌, Option, none,
  some, Text, text, text_eq, get, put, retain,
}
use share_dash.Storage.Integrity.{is_empty}
use share_dash.Discovery.Versions.{current_app_version, is_version_compatible}

pub record PeerBeacon : Type 0 where
  pub device_id : Text
  pub friendly_name : Text
  pub os_name : Text
  pub server_port : ℕ
  pub app_version : Text
  pub supported_transports : List Text

-- The answer to a probe of /api/v1/info, with the fields that are there.
pub record ProbeInfo : Type 0 where
  pub device_id : Option Text
  pub device_name : Option Text
  pub os_name : Option Text
  pub server_port : Option ℕ
  pub app_version : Option Text

pub record DiscoveredPeer : Type 0 where
  pub device_id : Text
  pub friendly_name : Text
  pub os_name : Text
  -- The address and the port.
  pub remote_addr : Text × ℕ
  pub server_port : ℕ
  pub app_version : Text
  pub is_compatible : Bool
  pub supported_transports : List Text
  pub last_seen_epoch_ms : ℕ

pub record PeerDiscovery : Type 0 where
  pub peers : List (Text × DiscoveredPeer)
  pub device_id : Text

abbrev or_else : Text → Text → Text
or_else s fallback = if is_empty s then fallback else s

abbrev or_wifi : List Text → List Text
or_wifi [] = text "Wi-Fi" ∷ []
or_wifi (t ∷ ts) = t ∷ ts

-- The peer that a beacon from `ip` tells of.
unfoldable pub peer_of_beacon : PeerBeacon → Text → ℕ → DiscoveredPeer
peer_of_beacon b ip now = record {
  device_id = b.device_id;
  friendly_name = or_else b.friendly_name (text "Android Device");
  os_name = or_else b.os_name (text "Android");
  remote_addr = (ip, b.server_port);
  server_port = b.server_port;
  app_version = or_else b.app_version current_app_version;
  is_compatible = is_version_compatible (or_else b.app_version current_app_version);
  supported_transports = or_wifi b.supported_transports;
  last_seen_epoch_ms = now;
}

-- The body of the listener's loop.
unfoldable pub hear_beacon : PeerDiscovery → PeerBeacon → Text → ℕ → PeerDiscovery
hear_beacon d b ip now =
    if not (text_eq b.device_id d.device_id)
    then record d { peers = put b.device_id (peer_of_beacon b ip now) d.peers }
    else d

abbrev pub given : Option Text → Text → Text
given none fallback = fallback
given (some s) fallback = s

abbrev port_of : Option ℕ → ℕ
port_of none = 54321
port_of (some p) = p % 65536

unfoldable pub peer_of_probe : ProbeInfo → Text → ℕ → DiscoveredPeer
peer_of_probe info ip now = record {
  device_id = given info.device_id [];
  friendly_name = given info.device_name (text "Android Device");
  os_name = given info.os_name (text "Android");
  remote_addr = (ip, port_of info.server_port);
  server_port = port_of info.server_port;
  app_version = given info.app_version (text "0.1.0");
  is_compatible = is_version_compatible (given info.app_version (text "0.1.0"));
  -- The first name, without the picture in front of it.
  supported_transports = text "USB Tethering / Wi-Fi" ∷ text "Wi-Fi Direct" ∷ text "LAN" ∷ [];
  last_seen_epoch_ms = now;
}

-- A probe that was answered.
unfoldable pub hear_probe : PeerDiscovery → ProbeInfo → Text → ℕ → PeerDiscovery
hear_probe d info ip now =
    let id = given info.device_id [] in
    if not (is_empty id) && not (text_eq id d.device_id)
    then record d { peers = put id (peer_of_probe info ip now) d.peers }
    else d

-- Seen less than 30 seconds ago.
abbrev pub is_recent : ℕ → DiscoveredPeer → Bool
is_recent now p = ltb (now - p.last_seen_epoch_ms) 30000

-- The listing is what is left of the table.
unfoldable pub get_active_peers : PeerDiscovery → ℕ → PeerDiscovery
get_active_peers d now = record d { peers = retain (is_recent now) d.peers }
