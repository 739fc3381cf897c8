-- ===== src/Protocol/Frame/Header.antt =====
-- src/protocol/frame.rs: `FrameHeader`, and how it is written and read.
pub mod RoundTrip
pub mod Exact
use share_dash.Common.{
  ℕ, suc, ◌+◌, ◌*◌, ◌^◌, ◌≤◌, ◌<◌, ◌≡◌, ◌==◌, ltb, if◌then◌else◌, Bool, true, false, not, ◌||◌,
  List, [], ◌∷◌, ◌++◌, Option, none, some, length, take, drop, replicate, All, Result, ok, err,
  IsByte, be16, be32, from_be16, from_be32, byte_at, arith,
}
use share_dash.Protocol.Frame.Types.{FrameType, to_u8, from_u8}

abbrev pub protocol_version : ℕ
protocol_version = 1

abbrev pub frame_header_len : ℕ
frame_header_len = 34

abbrev pub max_payload_size : ℕ
max_payload_size = 64 * 1024 * 1024

abbrev pub flag_none : ℕ
flag_none = 0

-- The errors of `decode`, each with the values that its message shows.
pub data Error : Type 0 where
  invalid_magic : ℕ → ℕ → Error
  unsupported_version : ℕ → Error
  unknown_frame_type : ℕ → Error
  payload_too_long : ℕ → Error
  crc_mismatch : ℕ → ℕ → Error

pub record FrameHeader : Type 0 where
  pub magic0 : ℕ
  pub magic1 : ℕ
  pub version : ℕ
  pub frame_type : FrameType
  pub flags : ℕ
  pub transfer_id : List ℕ
  pub chunk_id : ℕ
  pub payload_len : ℕ
  pub crc32 : ℕ

unfoldable pub new_header : FrameType → ℕ → List ℕ → ℕ → ℕ → FrameHeader
new_header frame_type flags transfer_id chunk_id payload_len = record {
  magic0 = 0x53;
  magic1 = 0x44;
  version = protocol_version;
  frame_type = frame_type;
  flags = flags;
  transfer_id = transfer_id;
  chunk_id = chunk_id;
  payload_len = payload_len;
  crc32 = 0;
}

-- The bytes that `compute_crc32` feeds to the hasher before the payload, in their order.
unfoldable pub crc_input : FrameHeader → List ℕ → List ℕ
crc_input h payload =
    h.magic0
    ∷ h.magic1
    ∷ h.version
    ∷ to_u8 h.frame_type
    ∷ (be16 h.flags ++ (h.transfer_id ++ (be32 h.chunk_id ++ (be32 h.payload_len ++ payload))))

unfoldable pub compute_crc32 : (List ℕ → ℕ) → FrameHeader → List ℕ → ℕ
unfolding crc_input
compute_crc32 crc h payload = crc (crc_input h payload)

-- What `encode` appends to the buffer.
unfoldable pub encode_header : FrameHeader → List ℕ
encode_header h =
    h.magic0
    ∷ h.magic1
    ∷ h.version
    ∷ to_u8 h.frame_type
    ∷ (be16 h.flags ++ (h.transfer_id ++ (be32 h.chunk_id ++ (be32 h.payload_len ++ be32 h.crc32))))

-- `u32::from_be_bytes` of the four bytes at a position.
abbrev pub u32_at : List ℕ → ℕ → ℕ
u32_at src i =
    from_be32 (byte_at src i) (byte_at src (i + 1)) (byte_at src (i + 2)) (byte_at src (i + 3))

-- The header that `decode` builds from the first 34 bytes.
abbrev pub header_at : List ℕ → FrameType → FrameHeader
header_at src frame_type = record {
  magic0 = byte_at src 0;
  magic1 = byte_at src 1;
  version = byte_at src 2;
  frame_type = frame_type;
  flags = from_be16 (byte_at src 4) (byte_at src 5);
  transfer_id = take 16 (drop 6 src);
  chunk_id = u32_at src 22;
  payload_len = u32_at src 26;
  crc32 = u32_at src 30;
}

unfoldable pub decode_header : List ℕ → List ℕ × Result Error (Option FrameHeader)
decode_header src =
    if ltb (length src) frame_header_len
    then (src, ok none)
    else if not (byte_at src 0 == 0x53) || not (byte_at src 1 == 0x44)
    then (src, err (invalid_magic (byte_at src 0) (byte_at src 1)))
    else if not (byte_at src 2 == protocol_version)
    then (src, err (unsupported_version (byte_at src 2)))
    else elim (from_u8 (byte_at src 3)) [
      | none ↦ (src, err (unknown_frame_type (byte_at src 3)))
      | some frame_type ↦
          if ltb max_payload_size (u32_at src 26)
          then (src, err (payload_too_long (u32_at src 26)))
          else (drop frame_header_len src, ok (some (header_at src frame_type)))
    ]

-- A header as `new_header` makes them, with every field in the range of its type and a payload
-- that the reader accepts.
pub record IsHeader (h : FrameHeader) : Type 0 where
  pub magic : (h.magic0 ≡ 0x53) × (h.magic1 ≡ 0x44)
  pub version : h.version ≡ protocol_version
  pub flags : h.flags < 2 ^ 16
  pub transfer_id : length h.transfer_id ≡ 16
  pub chunk_id : h.chunk_id < 2 ^ 32
  pub payload_len : h.payload_len ≤ max_payload_size
  pub crc32 : h.crc32 < 2 ^ 32

-- The same for any payload whose length fits its field.
pub record IsWritable (h : FrameHeader) : Type 0 where
  pub magic : (h.magic0 ≡ 0x53) × (h.magic1 ≡ 0x44)
  pub version : h.version ≡ protocol_version
  pub flags : h.flags < 2 ^ 16
  pub transfer_id : length h.transfer_id ≡ 16
  pub chunk_id : h.chunk_id < 2 ^ 32
  pub payload_len : h.payload_len < 2 ^ 32
  pub crc32 : h.crc32 < 2 ^ 32

pub IsHeader-IsWritable : {h : FrameHeader} → IsHeader h → IsWritable h
IsHeader-IsWritable v = record {
  magic = v.magic;
  version = v.version;
  flags = v.flags;
  transfer_id = v.transfer_id;
  chunk_id = v.chunk_id;
  payload_len = omega (arith, v.payload_len);
  crc32 = v.crc32;
}
