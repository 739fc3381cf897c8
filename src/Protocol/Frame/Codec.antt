-- ===== src/Protocol/Frame/Codec.antt =====
-- src/protocol/frame.rs: `Frame`, and `FrameCodec`, which cuts a byte stream into frames. The
-- checksum function is a parameter. `reserve` only asks for memory and is left out.
pub mod RoundTrip
pub mod Streaming
use share_dash.Common.{
  ℕ, ◌+◌, ◌%◌, ◌^◌, ◌==◌, ltb, if◌then◌else◌, Bool, true, false, not, List, [], ◌∷◌, ◌++◌, Option,
  none, some, length, take, drop, replicate, Result, ok, err,
}
use share_dash.Protocol.Frame.Types.{FrameType, chunk_data, benchmark_probe}
use share_dash.Protocol.Frame.Header.{
  Error, crc_mismatch, FrameHeader, new_header, compute_crc32, encode_header, decode_header,
  flag_none,
}

pub record Frame : Type 0 where
  pub header : FrameHeader
  pub payload : List ℕ

-- `Uuid::nil()`.
abbrev pub nil_uuid : List ℕ
nil_uuid = replicate 16 0

-- `FrameCodec` is its one field, the header that waits for its payload.
abbrev pub FrameCodec : Type 0
FrameCodec = Option FrameHeader

unfoldable pub is_control : Frame → Bool
is_control f = elim f.header.frame_type [ chunk_data ↦ false | benchmark_probe ↦ false | _ ↦ true ]

-- `Encoder::encode`: what it appends to the buffer.
unfoldable pub encode : Frame → List ℕ
encode f = encode_header f.header ++ f.payload

module _ (crc : List ℕ → ℕ) where
  unfoldable pub new_frame : FrameType → List ℕ → ℕ → ℕ → List ℕ → Frame
  unfolding new_header compute_crc32
  new_frame frame_type transfer_id chunk_id flags payload =
      let header = new_header frame_type flags transfer_id chunk_id (length payload % 2 ^ 32) in
      record {
        header = record header { crc32 = compute_crc32 crc header payload };
        payload = payload;
      }

  unfoldable pub control : FrameType → List ℕ → Frame
  control frame_type payload = new_frame frame_type nil_uuid 0 flag_none payload

  unfoldable pub chunk : List ℕ → ℕ → List ℕ → Frame
  chunk transfer_id chunk_id payload = new_frame chunk_data transfer_id chunk_id flag_none payload

  -- The second half of `decode`, with the header in hand.
  unfoldable pub decode_payload :
      FrameHeader → List ℕ → FrameCodec × List ℕ × Result Error (Option Frame)
  decode_payload header src =
      if ltb (length src) header.payload_len
      then (some header, src, ok none)
      else (let payload = take header.payload_len src in
          let rest = drop header.payload_len src in
          let calculated = compute_crc32 crc header payload in
          if not (calculated == header.crc32)
          then (none, rest, err (crc_mismatch header.crc32 calculated))
          else (none, rest, ok (some (record { header = header; payload = payload }))))

  -- What `decode` does with the outcome of `FrameHeader::decode`.
  unfoldable pub decode_rest :
      List ℕ × Result Error (Option FrameHeader) → FrameCodec × List ℕ × Result Error (Option Frame)
  decode_rest (src, err e) = (none, src, err e)
  decode_rest (src, ok none) = (none, src, ok none)
  decode_rest (src, ok (some header)) = decode_payload header src

  -- `Decoder::decode`.
  unfoldable pub decode : FrameCodec → List ℕ → FrameCodec × List ℕ × Result Error (Option Frame)
  decode none src = decode_rest (decode_header src)
  decode (some header) src = decode_payload header src
