-- ===== src/Examples/Links.antt =====
-- A connection of src/transport/lan.rs that sends one frame, is switched off and receives another.
use share_dash.Common.{◌+◌, ◌%◌, ◌^◌, ◌≡◌, true, false, List, [], ◌∷◌, length, text, fixed}
use share_dash.Protocol.Frame.Types.{ping, pong}
use share_dash.Protocol.Frame.Codec.{Frame, nil_uuid, new_frame}
use share_dash.Transport.Lan.{LanTransport, arrives, from_stream}
use share_dash.Transport.Lan.Traffic.{
  Call, sends, receives, enables, history, sent_over, received_over, history_counts,
}

abbrev question : Frame
question = new_frame length ping nil_uuid 0 0 (1 ∷ 2 ∷ [])

abbrev answer : Frame
answer = new_frame length pong nil_uuid 0 0 (3 ∷ [])

abbrev link : LanTransport fixed
link = from_stream fixed (text "lan") 0

abbrev calls : List Call
calls =
    sends question true 300000000
    ∷ enables false
    ∷ sends question true 400000000
    ∷ receives (arrives answer) 900000000
    ∷ []

history_counts_example :
    ((history fixed link calls).metrics.total_bytes_sent % 2 ^ 64
      ≡ (link.metrics.total_bytes_sent + sent_over fixed link calls) % 2 ^ 64)
    × ((history fixed link calls).metrics.total_bytes_recv % 2 ^ 64
        ≡ (link.metrics.total_bytes_recv + received_over fixed link calls) % 2 ^ 64)
history_counts_example = history_counts fixed link calls
