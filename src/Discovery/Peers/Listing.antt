-- ===== src/Discovery/Peers/Listing.antt =====
-- Which devices get_active_peers (src/discovery/mdns.rs) lists.
use share_dash.Common.{
  ℕ, ◌≤◌, ◌≡◌, refl, ap, ◌∙◌, if◌then◌else◌, not, ◌&&◌, List, [], ◌∷◌, Option, none, some, Text,
  text_eq, arith, get, get-put, get-retain, keep_if, IsTextMap, put-IsTextMap, retain-IsTextMap,
  Bool-cases, inl, inr, All,
}
use share_dash.Storage.Integrity.{is_empty}
use share_dash.Discovery.Peers.{
  PeerBeacon, ProbeInfo, DiscoveredPeer, PeerDiscovery, peer_of_beacon, peer_of_probe, given,
  hear_beacon, hear_probe, is_recent, get_active_peers,
}

-- What happens to the table: a beacon or the answer to a probe comes in, or the table is listed.
pub data Event : Type 0 where
  beacon : PeerBeacon → Text → ℕ → Event
  probe : ProbeInfo → Text → ℕ → Event
  list : ℕ → Event

abbrev pub happen : PeerDiscovery → Event → PeerDiscovery
happen d (beacon b ip now) = hear_beacon d b ip now
happen d (probe info ip now) = hear_probe d info ip now
happen d (list now) = get_active_peers d now

module _ (own_id : Text) where
  -- The last event stands first.
  abbrev pub history : List Event → PeerDiscovery
  history [] = record { peers = []; device_id = own_id }
  history (e ∷ es) = happen (history es) e

  -- What was last heard of a device that is not this one, however long ago.
  abbrev pub last_heard : List Event → Text → Option DiscoveredPeer
  last_heard [] id = none
  last_heard (beacon b ip now ∷ es) id =
      if not (text_eq b.device_id own_id) && text_eq b.device_id id
      then some (peer_of_beacon b ip now)
      else last_heard es id
  last_heard (probe info ip now ∷ es) id =
      if not (is_empty (given info.device_id []))
        && (not (text_eq (given info.device_id []) own_id) && text_eq (given info.device_id []) id)
      then some (peer_of_probe info ip now)
      else last_heard es id
  last_heard (list now ∷ es) id = last_heard es id

-- No listing was later.
abbrev pub IsBefore : ℕ → Event → Type 0
IsBefore now (beacon b ip at) = Unit {0}
IsBefore now (probe info ip at) = Unit {0}
IsBefore now (list at) = at ≤ now

-- What is listed later was listed before.
keep_twice :
    (now at : ℕ) (o : Option DiscoveredPeer)
    → at ≤ now
    → keep_if (is_recent now) (keep_if (is_recent at) o) ≡ keep_if (is_recent now) o
keep_twice now at none h = refl
keep_twice now at (some p) h = ground (arith, h)

module _ (own_id : Text) where
  history-device_id : (es : List Event) → (history own_id es).device_id ≡ own_id
  unfolding hear_beacon hear_probe get_active_peers
  history-device_id [] = refl
  history-device_id (beacon b ip now ∷ es) = ground (arith, history-device_id es)
  history-device_id (probe info ip now ∷ es) = ground (arith, history-device_id es)
  history-device_id (list now ∷ es) = history-device_id es

  history-IsTextMap : (es : List Event) → IsTextMap (history own_id es).peers
  unfolding hear_beacon hear_probe get_active_peers
  history-IsTextMap [] = tt
  history-IsTextMap (beacon b ip now ∷ es) =
      let before = history-IsTextMap es in
      let after =
        put-IsTextMap b.device_id (peer_of_beacon b ip now) (history own_id es).peers before in
      elim (Bool-cases (not (text_eq b.device_id (history own_id es).device_id))) [
        | inl other ↦ rw other after
        | inr own ↦ rw own before
      ]
  history-IsTextMap (probe info ip now ∷ es) =
      let before = history-IsTextMap es in
      let id = given info.device_id [] in
      let after = put-IsTextMap id (peer_of_probe info ip now) (history own_id es).peers before in
      elim (Bool-cases (not (is_empty id) && not (text_eq id (history own_id es).device_id))) [
        | inl other ↦ rw other after
        | inr own ↦ rw own before
      ]
  history-IsTextMap (list now ∷ es) =
      retain-IsTextMap (is_recent now) (history own_id es).peers (history-IsTextMap es)

  -- What the table has of a device, up to what a later listing drops anyway.
  table_lem :
      (es : List Event) (now : ℕ) (id : Text)
      → All (IsBefore now) es
      → keep_if (is_recent now) (get id (history own_id es).peers)
        ≡ keep_if (is_recent now) (last_heard own_id es id)
  unfolding hear_beacon hear_probe get_active_peers get
  table_lem [] now id h = refl
  table_lem (beacon b ip at ∷ es) now id h =
      let before = table_lem es now id h.1 in
      let table = get-put b.device_id id (peer_of_beacon b ip at) (history own_id es).peers in
      rw (history-device_id es) (elim (Bool-cases (text_eq b.device_id own_id)) [
        | inl own ↦ rw own before
        | inr other ↦
            rw (other, table)
              (elim (Bool-cases (text_eq b.device_id id)) [
                | inl this ↦ rw this refl
                | inr that ↦ rw that before
              ])
      ])
  table_lem (probe info ip at ∷ es) now id h =
      let before = table_lem es now id h.1 in
      let found = given info.device_id [] in
      let table = get-put found id (peer_of_probe info ip at) (history own_id es).peers in
      rw (history-device_id es) (elim (Bool-cases (is_empty found)) [
        | inl nobody ↦ rw nobody before
        | inr somebody ↦ elim (Bool-cases (text_eq found own_id)) [
          | inl own ↦ rw (somebody, own) before
          | inr other ↦
              rw (somebody, other, table)
                (elim (Bool-cases (text_eq found id)) [
                  | inl this ↦ rw this refl
                  | inr that ↦ rw that before
                ])
        ]
      ])
  table_lem (list at ∷ es) now id h =
      let kept = get-retain (is_recent at) id (history own_id es).peers (history-IsTextMap es) in
      ap (keep_if (is_recent now)) kept
      ∙ keep_twice now at (get id (history own_id es).peers) h.0
      ∙ table_lem es now id h.1

-- After any beacons, answers to probes and listings, none of them later than now, the listing has
-- of each device what was last heard of it, if that was less than 30 seconds ago, and nothing
-- otherwise; of this device itself it has nothing.
pub get_active_peers_lem :
    (own_id : Text) (es : List Event) (now : ℕ) (id : Text)
    → All (IsBefore now) es
    → get id (get_active_peers (history own_id es) now).peers
      ≡ keep_if (is_recent now) (last_heard own_id es id)
unfolding get_active_peers
get_active_peers_lem own_id es now id h =
    get-retain (is_recent now) id (history own_id es).peers (history-IsTextMap own_id es)
    ∙ table_lem own_id es now id h
