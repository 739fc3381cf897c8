-- ===== src/Transport/Lan/Traffic.antt =====
-- What the counters of src/transport/lan.rs say after any history of a transport.
use share_dash.Common.{
  ℕ, ◌+◌, ◌%◌, ◌^◌, ◌≡◌, Bool, List, [], ◌∷◌, none, some, length, arith, ok, err, Floats,
}
use share_dash.Protocol.Frame.Codec.{Frame}
use share_dash.Transport.Lan.{
  Next, arrives, undecodable, ends, LanTransport, send_frame, receive_next, recv_frame, set_enabled,
  close,
}

-- A call on the transport, with what the connection and the clock answer to it.
pub data Call : Type 0 where
  sends : Frame → Bool → ℕ → Call
  receives : Next → ℕ → Call
  enables : Bool → Call
  closes : Call

module _ (fl : Floats) where
  abbrev pub after : LanTransport fl → Call → LanTransport fl
  after t (sends f works now) = (send_frame fl t f works now).0
  after t (receives answer now) = (recv_frame fl t answer now).0
  after t (enables b) = set_enabled fl t b
  after t closes = close fl t

  abbrev pub history : LanTransport fl → List Call → LanTransport fl
  history t [] = t
  history t (c ∷ cs) = history (after t c) cs

  -- The payload bytes of the frames that calls sent and returned.
  abbrev pub sent_in : LanTransport fl → Call → ℕ
  sent_in t (sends f works now) = elim (send_frame fl t f works now).1 [
    | ok u ↦ length f.payload
    | err e ↦ 0
  ]
  sent_in t _ = 0

  abbrev pub received_in : LanTransport fl → Call → ℕ
  received_in t (receives answer now) = elim (recv_frame fl t answer now).1 [
    | ok o ↦ elim o [ none ↦ 0 | some f ↦ length f.payload ]
    | err e ↦ 0
  ]
  received_in t _ = 0

  abbrev pub sent_over : LanTransport fl → List Call → ℕ
  sent_over t [] = 0
  sent_over t (c ∷ cs) = sent_in t c + sent_over (after t c) cs

  abbrev pub received_over : LanTransport fl → List Call → ℕ
  received_over t [] = 0
  received_over t (c ∷ cs) = received_in t c + received_over (after t c) cs

  call_counts :
      (t : LanTransport fl) (c : Call)
      → ((after t c).metrics.total_bytes_sent % 2 ^ 64
          ≡ (t.metrics.total_bytes_sent + sent_in t c) % 2 ^ 64)
        × ((after t c).metrics.total_bytes_recv % 2 ^ 64
            ≡ (t.metrics.total_bytes_recv + received_in t c) % 2 ^ 64)
  unfolding send_frame recv_frame receive_next set_enabled close
  call_counts t (sends f works now) = ground arith
  call_counts t (receives (arrives f) now) = ground arith
  call_counts t (receives undecodable now) = ground arith
  call_counts t (receives ends now) = ground arith
  call_counts t (enables b) = (omega arith, omega arith)
  call_counts t closes = (omega arith, omega arith)

  -- After any history of calls, the counters of a transport are, modulo 2 ^ 64, those that it began
  -- with and the payload bytes of the frames that were sent and received without an error.
  pub history_counts :
      (t : LanTransport fl) (cs : List Call)
      → ((history t cs).metrics.total_bytes_sent % 2 ^ 64
          ≡ (t.metrics.total_bytes_sent + sent_over t cs) % 2 ^ 64)
        × ((history t cs).metrics.total_bytes_recv % 2 ^ 64
            ≡ (t.metrics.total_bytes_recv + received_over t cs) % 2 ^ 64)
  history_counts t [] = (omega arith, omega arith)
  history_counts t (c ∷ cs) =
      let (s, r) = call_counts t c in
      let (s', r') = history_counts (after t c) cs in (omega (arith, s, s'), omega (arith, r, r'))
