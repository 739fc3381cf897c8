-- ===== src/Transport/Metrics.antt =====
-- src/transport/trait.rs: `TransportMetrics` and `BandwidthTracker`. Instants are nanoseconds.
use share_dash.Common.{
  ℕ, ◌-◌, ◌≡◌, refl, if◌then◌else◌, Bool, true, false, Text, Bool-cases, inl, inr, Floats,
  FloatOrder,
}
use share_dash.Protocol.Handshake.{TransportKind}

pub data TransportState : Type 0 where
  disconnected connecting connected benchmarking active degraded closed : TransportState

module _ (fl : Floats) where
  open fl use {F64, decimal, of_nat, add, mul, div, lt, eq, as_secs}

  pub record TransportMetrics : Type 0 where
    pub transport_id : Text
    pub transport_kind : TransportKind
    pub state : TransportState
    pub current_mbps : F64
    pub peak_mbps : F64
    pub average_mbps : F64
    pub rtt_ms : F64
    pub total_bytes_sent : ℕ
    pub total_bytes_recv : ℕ
    pub in_flight_chunks : ℕ
    pub completed_chunks : ℕ
    pub failed_chunks : ℕ
    pub is_enabled : Bool

  unfoldable pub new_metrics : Text → TransportKind → TransportMetrics
  new_metrics transport_id transport_kind = record {
    transport_id = transport_id;
    transport_kind = transport_kind;
    state = disconnected;
    current_mbps = decimal 0 0;
    peak_mbps = decimal 0 0;
    average_mbps = decimal 0 0;
    rtt_ms = decimal 0 0;
    total_bytes_sent = 0;
    total_bytes_recv = 0;
    in_flight_chunks = 0;
    completed_chunks = 0;
    failed_chunks = 0;
    is_enabled = true;
  }

  pub record BandwidthTracker : Type 0 where
    pub last_check_time : ℕ
    pub last_bytes_count : ℕ
    pub current_rate_bps : F64
    pub ewma_mbps : F64
    pub peak_mbps : F64

  unfoldable pub new_tracker : ℕ → BandwidthTracker
  new_tracker now = record {
    last_check_time = now;
    last_bytes_count = 0;
    current_rate_bps = decimal 0 0;
    ewma_mbps = decimal 0 0;
    peak_mbps = decimal 0 0;
  }

  -- What the tracker makes of a rate in bytes per second.
  unfoldable pub observe : BandwidthTracker → F64 → ℕ → ℕ → BandwidthTracker
  observe tr instant_bps total_bytes now =
      let instant_mbps = div (mul instant_bps (decimal 80 1)) (decimal 10000000 1) in
      record {
        last_check_time = now;
        last_bytes_count = total_bytes;
        current_rate_bps = instant_bps;
        ewma_mbps =
            if eq tr.ewma_mbps (decimal 0 0)
            then instant_mbps
            else add (mul (decimal 35 2) instant_mbps) (mul (decimal 65 2) tr.ewma_mbps);
        peak_mbps = if lt tr.peak_mbps instant_mbps then instant_mbps else tr.peak_mbps;
      }

  -- `record_bytes`. The elapsed seconds are a number, so that `>=` is the negation of `<`.
  unfoldable pub record_bytes : BandwidthTracker → ℕ → ℕ → BandwidthTracker
  unfolding observe
  record_bytes tr total_bytes now =
      let elapsed = as_secs (now - tr.last_check_time) in
      if lt elapsed (decimal 25 2)
      then tr
      else observe tr (div (of_nat (total_bytes - tr.last_bytes_count)) elapsed) total_bytes now

module _ (fl : Floats) (order : FloatOrder fl) where
  open fl use {F64, lt}
  open order use {lt_irrefl, lt_trans}

  lt_asym : (a b : F64) → lt a b ≡ true → lt b a ≡ false
  lt_asym a b h = elim (Bool-cases (lt b a)) [
    | inr e ↦ e
    | inl e ↦ absurd (cc (lt_trans a b a h e, lt_irrefl a))
  ]

  higher : (peak rate : F64) → lt (if lt peak rate then rate else peak) peak ≡ false
  higher peak rate = elim (Bool-cases (lt peak rate)) [
    | inl e ↦ rw e (lt_asym peak rate e)
    | inr e ↦ rw e (lt_irrefl peak)
  ]

  -- Within a quarter of a second of the last observation nothing changes; after that the count and
  -- the instant are the new ones. The peak never falls, where `<` is irreflexive and transitive.
  pub record_bytes_lem :
      (tr : BandwidthTracker fl) (total_bytes now : ℕ)
      → let after = record_bytes fl tr total_bytes now in
        let early = lt (fl.as_secs (now - tr.last_check_time)) (fl.decimal 25 2) in
        (early ≡ true → after ≡ tr)
        × (early ≡ false → (after.last_check_time ≡ now) × (after.last_bytes_count ≡ total_bytes))
        × (lt after.peak_mbps tr.peak_mbps ≡ false)
  unfolding record_bytes
  record_bytes_lem tr total_bytes now =
      elim (Bool-cases (lt (fl.as_secs (now - tr.last_check_time)) (fl.decimal 25 2))) [
        | inl early ↦ rw early (λ e. refl, λ e. absurd (cc), lt_irrefl tr.peak_mbps)
        | inr late ↦ rw late (λ e. absurd (cc), λ e. (refl, refl), higher tr.peak_mbps _)
      ]
