-- ===== src/Protocol/Frame/Header/RoundTrip.antt =====
-- src/protocol/frame.rs: reading back a written header.
use share_dash.Common.{
  err, ◌<◌, ℕ, ◌+◌, ◌≤◌, ◌≡◌, refl, ap, List, ◌∷◌, ◌++◌, some, length, take, drop, ok, be16, be32,
  byte_at, arith, length-append, byte_at-append, take-append, drop-append, ◌∙◌, ap₂, from_be16, sym,
  drop-drop,
}
use mathlib.Core.List.{append_assoc}
use share_dash.Protocol.Frame.Types.{FrameType, to_u8, from_u8, from_u8_iff}
use share_dash.Protocol.Frame.Header.{
  FrameHeader, IsHeader, IsWritable, IsHeader-IsWritable, payload_too_long, protocol_version,
  max_payload_size, encode_header, decode_header, header_at, u32_at,
}

pub length-encode_header :
    (h : FrameHeader) → length h.transfer_id ≡ 16 → length (encode_header h) ≡ 34
unfolding encode_header be16 be32
length-encode_header h e =
    omega
      (arith, length-append h.transfer_id (be32 h.chunk_id ++ (be32 h.payload_len ++ be32 h.crc32)))

decode_accepts :
    (src : List ℕ) (frame_type : FrameType)
    → 34 ≤ length src
    → byte_at src 0 ≡ 0x53
    → byte_at src 1 ≡ 0x44
    → byte_at src 2 ≡ protocol_version
    → from_u8 (byte_at src 3) ≡ some frame_type
    → u32_at src 26 ≤ max_payload_size
    → decode_header src ≡ (drop 34 src, ok (some (header_at src frame_type)))
unfolding decode_header
decode_accepts src frame_type len m0 m1 ver ty fits = ground arith

decode_refuses :
    (src : List ℕ) (frame_type : FrameType)
    → 34 ≤ length src
    → byte_at src 0 ≡ 0x53
    → byte_at src 1 ≡ 0x44
    → byte_at src 2 ≡ protocol_version
    → from_u8 (byte_at src 3) ≡ some frame_type
    → max_payload_size < u32_at src 26
    → decode_header src ≡ (src, err (payload_too_long (u32_at src 26)))
unfolding decode_header
decode_refuses src frame_type len m0 m1 ver ty long = ground arith

module _ (h : FrameHeader) (v : IsWritable h) (rest : List ℕ) where
  -- The bytes behind the transfer identifier, and the buffer as a whole.
  behind : List ℕ
  behind = be32 h.chunk_id ++ (be32 h.payload_len ++ (be32 h.crc32 ++ rest))

  whole : List ℕ
  whole =
      h.magic0
      ∷ h.magic1
      ∷ h.version
      ∷ to_u8 h.frame_type
      ∷ (be16 h.flags ++ (h.transfer_id ++ behind))

  encode-whole : encode_header h ++ rest ≡ whole
  unfolding encode_header whole behind
  encode-whole = simp append_assoc

  behind_at : (i : ℕ) → byte_at (h.transfer_id ++ behind) (16 + i) ≡ byte_at behind i
  behind_at i = rw v.transfer_id at (byte_at-append h.transfer_id behind i)

  heads :
      (byte_at whole 0 ≡ h.magic0)
      × (byte_at whole 1 ≡ h.magic1)
      × (byte_at whole 2 ≡ h.version)
      × (byte_at whole 3 ≡ to_u8 h.frame_type)
  unfolding whole
  heads = (refl, refl, refl, refl)

  flags_at : from_be16 (byte_at whole 4) (byte_at whole 5) ≡ h.flags
  unfolding whole be16
  flags_at = omega (arith, v.flags)

  chunk_id_at : u32_at whole 22 ≡ h.chunk_id
  unfolding whole be16 be32 behind
  chunk_id_at = omega (arith, v.chunk_id, behind_at 0, behind_at 1, behind_at 2, behind_at 3)

  payload_len_at : u32_at whole 26 ≡ h.payload_len
  unfolding whole be16 be32 behind
  payload_len_at = omega (arith, v.payload_len, behind_at 4, behind_at 5, behind_at 6, behind_at 7)

  crc32_at : u32_at whole 30 ≡ h.crc32
  unfolding whole be16 be32 behind
  crc32_at = omega (arith, v.crc32, behind_at 8, behind_at 9, behind_at 10, behind_at 11)

  transfer_id_at : take 16 (drop 6 whole) ≡ h.transfer_id
  unfolding whole be16
  transfer_id_at = rw v.transfer_id at (take-append h.transfer_id behind)

  left_over : drop 34 whole ≡ rest
  unfolding whole be16 be32 behind
  left_over =
      let skip : drop 16 (h.transfer_id ++ behind) ≡ behind =
        rw v.transfer_id at (drop-append h.transfer_id behind) in
      sym (drop-drop 12 16 (h.transfer_id ++ behind)) ∙ ap (drop 12) skip

  long_enough : 34 ≤ length whole
  unfolding whole be16 be32 behind
  long_enough = omega (arith, length-append h.transfer_id behind, v.transfer_id)

  header_at-whole : header_at whole h.frame_type ≡ h
  header_at-whole = ground (
    arith, v.magic, v.version, flags_at, transfer_id_at, chunk_id_at, payload_len_at, crc32_at,
    heads,
  )

  decode-whole : h.payload_len ≤ max_payload_size → decode_header whole ≡ (rest, ok (some h))
  decode-whole fits =
      decode_accepts whole h.frame_type long_enough (heads.0 ∙ v.magic.0) (heads.1 ∙ v.magic.1)
        (heads.2 ∙ v.version) (ap from_u8 heads.3 ∙ (from_u8_iff _ _).1 refl)
        (omega (arith, payload_len_at, fits))
      ∙ ap₂ (λ left read. (left, ok (some read))) left_over header_at-whole

  refuse-whole :
      max_payload_size < h.payload_len
      → decode_header whole ≡ (whole, err (payload_too_long h.payload_len))
  refuse-whole long =
      decode_refuses whole h.frame_type long_enough (heads.0 ∙ v.magic.0) (heads.1 ∙ v.magic.1)
        (heads.2 ∙ v.version) (ap from_u8 heads.3 ∙ (from_u8_iff _ _).1 refl)
        (omega (arith, payload_len_at, long))
      ∙ ap (λ n. (whole, err (payload_too_long n))) payload_len_at

pub refuse_header-encode_header :
    (h : FrameHeader) (rest : List ℕ)
    → IsWritable h
    → max_payload_size < h.payload_len
    → decode_header (encode_header h ++ rest)
      ≡ (encode_header h ++ rest, err (payload_too_long h.payload_len))
refuse_header-encode_header h rest w long = rw (encode-whole h w rest) (refuse-whole h w rest long)

-- A header whose fields are in range is read back from its bytes, whatever follows it, and exactly
-- its bytes are taken off the buffer.
pub decode_header-encode_header :
    (h : FrameHeader) (rest : List ℕ)
    → IsHeader h
    → decode_header (encode_header h ++ rest) ≡ (rest, ok (some h))
decode_header-encode_header h rest v =
    let w = IsHeader-IsWritable v in
    rw (encode-whole h w rest) (decode-whole h w rest v.payload_len)
