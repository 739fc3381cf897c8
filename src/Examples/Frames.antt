-- ===== src/Examples/Frames.antt =====
-- A small frame of src/protocol/frame.rs, with the sum of the bytes in the place of the checksum.
use share_dash.Common.{
  ℕ, ◌+◌, ◌%◌, ◌^◌, ◌<◌, ◌≡◌, ◌≢◌, refl, ltb, Bool, true, ◌&&◌, List, [], ◌∷◌, ◌++◌, none, some,
  replicate, All, IsByte, ok, err, be16, be32, arith,
}
use share_dash.Protocol.Frame.Types.{ping, to_u8}
use share_dash.Protocol.Frame.Header.{
  crc_mismatch, new_header, compute_crc32, crc_input, encode_header, decode_header,
}
use share_dash.Protocol.Frame.Header.Exact.{Outcome, decode_header-Outcome}
use share_dash.Protocol.Frame.Codec.{
  Frame, FrameCodec, nil_uuid, new_frame, encode, decode, decode_rest,
}
use share_dash.Protocol.Frame.Codec.RoundTrip.{
  IsFrame, new_frame-IsFrame, decode-encode, decode_corrupted, encode-decode,
}
use share_dash.Protocol.Frame.Codec.Streaming.{
  decode_resumes, decode_frames, encode_frames, decode_frames-encode_frames,
}

abbrev checksum : List ℕ → ℕ
checksum [] = 0
checksum (b ∷ bs) = (b + checksum bs) % 2 ^ 32

checksum-lt : (bytes : List ℕ) → checksum bytes < 2 ^ 32
checksum-lt [] = omega arith
checksum-lt (b ∷ bs) = omega arith

abbrev all_bytes : List ℕ → Bool
all_bytes [] = true
all_bytes (b ∷ bs) = ltb b 256 && all_bytes bs

all_bytes-All : (bs : List ℕ) → all_bytes bs ≡ true → All IsByte bs
all_bytes-All [] h = tt
all_bytes-All (b ∷ bs) h = (ground arith, all_bytes-All bs (ground arith))

abbrev ping_frame : Frame
ping_frame = new_frame checksum ping nil_uuid 0 0 (1 ∷ 2 ∷ [])

ping_frame-IsFrame : IsFrame checksum ping_frame
ping_frame-IsFrame =
    new_frame-IsFrame checksum ping nil_uuid 0 0 (1 ∷ 2 ∷ []) checksum-lt refl (omega arith)
      (omega arith) (omega arith)

decode_header-Outcome_example :
    Outcome (0x53 ∷ 0x45 ∷ replicate 32 0) (decode_header (0x53 ∷ 0x45 ∷ replicate 32 0))
decode_header-Outcome_example = decode_header-Outcome (0x53 ∷ 0x45 ∷ replicate 32 0)

decode-encode_example :
    decode checksum none (encode ping_frame ++ (9 ∷ [])) ≡ (none, 9 ∷ [], ok (some ping_frame))
decode-encode_example = decode-encode checksum ping_frame (9 ∷ []) ping_frame-IsFrame

sum_differs : compute_crc32 checksum ping_frame.header (1 ∷ 3 ∷ []) ≢ ping_frame.header.crc32
unfolding new_frame new_header compute_crc32 crc_input to_u8 be16 be32
sum_differs e = let other : 180 ≡ 179 = e in omega arith

decode_corrupted_example :
    decode checksum none (encode_header ping_frame.header ++ ((1 ∷ 3 ∷ []) ++ (9 ∷ []))) ≡ (
      none,
      9 ∷ [],
      err (
          crc_mismatch ping_frame.header.crc32
            (compute_crc32 checksum ping_frame.header (1 ∷ 3 ∷ []))),
    )
decode_corrupted_example =
    decode_corrupted checksum ping_frame (1 ∷ 3 ∷ []) (9 ∷ []) ping_frame-IsFrame
      (unfold new_frame in refl) sum_differs

-- So many bytes that they are better not computed.
unfoldable zeros : ℕ → List ℕ
zeros n = replicate n 0

abbrev no_header : FrameCodec
no_header = none

frame_bytes : All IsByte (encode ping_frame ++ [])
frame_bytes = all_bytes-All _ (
    unfold encode encode_header new_frame new_header to_u8 compute_crc32 crc_input be16 be32 in
    refl)

encode-decode_example :
    (encode ping_frame ++ [] ≡ encode ping_frame ++ [])
    × IsFrame checksum ping_frame
    × (no_header ≡ none)
encode-decode_example =
    encode-decode checksum (encode ping_frame ++ []) [] no_header ping_frame frame_bytes
      (decode-encode checksum ping_frame [] ping_frame-IsFrame)

one_byte_waits : decode checksum none (0x53 ∷ []) ≡ (none, 0x53 ∷ [], ok none)
unfolding decode decode_header decode_rest
one_byte_waits = refl

decode_resumes_example :
    decode checksum none ((0x53 ∷ []) ++ (0x44 ∷ []))
    ≡ decode checksum none ((0x53 ∷ []) ++ (0x44 ∷ []))
decode_resumes_example =
    decode_resumes checksum none none (0x53 ∷ []) (0x53 ∷ []) (0x44 ∷ [])
      (all_bytes-All (0x53 ∷ []) refl) one_byte_waits

decode_frames-encode_frames_example :
    decode_frames checksum 2 none (encode_frames (ping_frame ∷ ping_frame ∷ []) ++ (9 ∷ []))
    ≡ some (ping_frame ∷ ping_frame ∷ [], none, 9 ∷ [])
decode_frames-encode_frames_example =
    decode_frames-encode_frames checksum (ping_frame ∷ ping_frame ∷ []) (9 ∷ [])
      (ping_frame-IsFrame, (ping_frame-IsFrame, tt))
