-- ===== src/Transport/Lan.antt =====
-- src/transport/lan.rs: `LanTransport`. What the connection does with a frame, and the clock, are
-- inputs; of the connection itself only matters whether it is there.
pub mod Traffic
use share_dash.Common.{
  ℕ, ◌+◌, ◌%◌, ◌^◌, if◌then◌else◌, Bool, true, false, not, ◌&&◌, List, [], ◌∷◌, Option, none, some,
  length, Text, Result, ok, err, Floats,
}
use share_dash.Protocol.Frame.Codec.{Frame}
use share_dash.Protocol.Handshake.{lan}
use share_dash.Transport.Metrics.{
  TransportState, disconnected, connected, degraded, closed, TransportMetrics, new_metrics,
  BandwidthTracker, new_tracker, record_bytes,
}

pub data LanError : Type 0 where
  disabled not_connected send_failed decode_failed : LanError

-- What the connection yields when a frame is read.
pub data Next : Type 0 where
  arrives : Frame → Next
  undecodable ends : Next

abbrev pub add_u64 : ℕ → ℕ → ℕ
add_u64 a b = (a + b) % 2 ^ 64

abbrev pub is_open : TransportState → Bool
is_open disconnected = false
is_open _ = true

module _ (fl : Floats) where
  pub record LanTransport : Type 0 where
    pub id : Text
    pub framed : Bool
    pub metrics : TransportMetrics fl
    pub tracker : BandwidthTracker fl

  unfoldable pub new : Text → ℕ → LanTransport
  unfolding new_metrics new_tracker
  new id now = record {
    id = id;
    framed = false;
    metrics = new_metrics fl id lan;
    tracker = new_tracker fl now;
  }

  -- `from_stream`, and `connect` once the connection is there.
  unfoldable pub from_stream : Text → ℕ → LanTransport
  unfolding new
  from_stream id now =
      let t = new id now in
      record t { framed = true; metrics = record t.metrics { state = connected } }

  -- After the counters have changed: the tracker sees the sum of both.
  unfoldable pub measure : LanTransport → TransportMetrics fl → ℕ → LanTransport
  measure t m now =
      let tr = record_bytes fl t.tracker (add_u64 m.total_bytes_sent m.total_bytes_recv) now in
      record t {
        metrics = record m { current_mbps = tr.ewma_mbps; peak_mbps = tr.peak_mbps };
        tracker = tr;
      }

  unfoldable pub send_frame :
      LanTransport → Frame → Bool → ℕ → LanTransport × Result LanError (Unit {0})
  unfolding measure
  send_frame t f works now =
      if not t.metrics.is_enabled
      then (t, err disabled)
      else if not t.framed
      then (t, err not_connected)
      else if not works
      then (t, err send_failed)
      else (
        measure t
            (record t.metrics {
              total_bytes_sent = add_u64 t.metrics.total_bytes_sent (length f.payload);
            })
            now,
        ok tt,
      )

  unfoldable pub receive_next :
      LanTransport → Next → ℕ → LanTransport × Result LanError (Option Frame)
  unfolding measure
  receive_next t (arrives f) now = (
    measure t
        (record t.metrics {
          total_bytes_recv = add_u64 t.metrics.total_bytes_recv (length f.payload);
        })
        now,
    ok (some f),
  )
  receive_next t undecodable now = (
    record t {
      metrics = record t.metrics {
        state = degraded;
        failed_chunks = add_u64 t.metrics.failed_chunks 1;
      };
    },
    err decode_failed,
  )
  receive_next t ends now =
      (record t { metrics = record t.metrics { state = disconnected } }, ok none)

  unfoldable pub recv_frame :
      LanTransport → Next → ℕ → LanTransport × Result LanError (Option Frame)
  recv_frame t answer now = if t.framed then receive_next t answer now else (t, err not_connected)

  unfoldable pub is_connected : LanTransport → Bool
  is_connected t = t.framed && is_open t.metrics.state

  unfoldable pub set_enabled : LanTransport → Bool → LanTransport
  set_enabled t enabled = record t { metrics = record t.metrics { is_enabled = enabled } }

  unfoldable pub close : LanTransport → LanTransport
  close t = record t { framed = false; metrics = record t.metrics { state = closed } }
