-- ===== src/Protocol/Frame/Types.antt =====
-- src/protocol/frame.rs: `FrameType` and its byte.
use share_dash.Common.{ℕ, ◌≡◌, refl, ◌==◌, if◌then◌else◌, Option, none, some, arith, ◌↔◌, ◌<◌}

pub data FrameType : Type 0 where
  hello hello_resp capabilities pair_req pair_resp transfer_offer transfer_accept transfer_reject :
      FrameType
  manifest chunk_req chunk_data chunk_ack chunk_reject benchmark_probe benchmark_resp : FrameType
  transport_add transport_remove transfer_pause transfer_resume transfer_complete : FrameType
  transfer_cancel ping pong error : FrameType

-- `frame_type as u8`.
unfoldable pub to_u8 : FrameType → ℕ
to_u8 hello = 0x01
to_u8 hello_resp = 0x02
to_u8 capabilities = 0x03
to_u8 pair_req = 0x04
to_u8 pair_resp = 0x05
to_u8 transfer_offer = 0x06
to_u8 transfer_accept = 0x07
to_u8 transfer_reject = 0x08
to_u8 manifest = 0x09
to_u8 chunk_req = 0x0A
to_u8 chunk_data = 0x0B
to_u8 chunk_ack = 0x0C
to_u8 chunk_reject = 0x0D
to_u8 benchmark_probe = 0x0E
to_u8 benchmark_resp = 0x0F
to_u8 transport_add = 0x10
to_u8 transport_remove = 0x11
to_u8 transfer_pause = 0x12
to_u8 transfer_resume = 0x13
to_u8 transfer_complete = 0x14
to_u8 transfer_cancel = 0x15
to_u8 ping = 0x16
to_u8 pong = 0x17
to_u8 error = 0xFF

unfoldable pub from_u8 : ℕ → Option FrameType
from_u8 val =
    if val == 0x01
    then some hello
    else if val == 0x02
    then some hello_resp
    else if val == 0x03
    then some capabilities
    else if val == 0x04
    then some pair_req
    else if val == 0x05
    then some pair_resp
    else if val == 0x06
    then some transfer_offer
    else if val == 0x07
    then some transfer_accept
    else if val == 0x08
    then some transfer_reject
    else if val == 0x09
    then some manifest
    else if val == 0x0A
    then some chunk_req
    else if val == 0x0B
    then some chunk_data
    else if val == 0x0C
    then some chunk_ack
    else if val == 0x0D
    then some chunk_reject
    else if val == 0x0E
    then some benchmark_probe
    else if val == 0x0F
    then some benchmark_resp
    else if val == 0x10
    then some transport_add
    else if val == 0x11
    then some transport_remove
    else if val == 0x12
    then some transfer_pause
    else if val == 0x13
    then some transfer_resume
    else if val == 0x14
    then some transfer_complete
    else if val == 0x15
    then some transfer_cancel
    else if val == 0x16
    then some ping
    else if val == 0x17
    then some pong
    else if val == 0xFF
    then some error
    else none

from_u8-to_u8 : (t : FrameType) → from_u8 (to_u8 t) ≡ some t
unfolding from_u8 to_u8
from_u8-to_u8 hello = refl
from_u8-to_u8 _ = refl

to_u8-from_u8 : (b : ℕ) (t : FrameType) → from_u8 b ≡ some t → to_u8 t ≡ b
unfolding from_u8 to_u8
to_u8-from_u8 b t h = ground arith

-- `from_u8` accepts exactly the bytes that `as u8` gives, each as the type that it came from.
pub from_u8_iff : (b : ℕ) (t : FrameType) → (from_u8 b ≡ some t) ↔ (to_u8 t ≡ b)
from_u8_iff b t = (to_u8-from_u8 b t, λ e. rw (← e) (from_u8-to_u8 t))

to_u8-lt : (t : FrameType) → to_u8 t < 256
unfolding to_u8
to_u8-lt hello = omega arith
to_u8-lt _ = omega arith
