-- ===== src/Protocol/Frame/Codec/Streaming.antt =====
-- src/protocol/frame.rs: `FrameCodec` on a stream that arrives in pieces.
use mathlib.Core.Option
use share_dash.Common.{
  lt→ltb, ℕ, suc, zero, ◌≤◌, ◌≡◌, ◌≢◌, refl, sym, ap, ap₂, ◌∙◌, ltb, true, List, [], ◌∷◌, ◌++◌,
  Option, none, some, length, take, drop, Result, ok, err, arith, length-append, take-append, All,
  IsByte, inl, inr, take-append_drop, take-append_le, length-drop,
}
use mathlib.Core.List.{append_assoc}
use share_dash.Protocol.Frame.Header.{Error, FrameHeader, encode_header, decode_header}
use share_dash.Protocol.Frame.Header.RoundTrip.{decode_header-encode_header, length-encode_header}
use share_dash.Protocol.Frame.Header.Exact.{encode_header-decode_header, decode_header-Outcome}
use share_dash.Protocol.Frame.Codec.{Frame, FrameCodec, encode, decode_payload, decode_rest, decode}
use share_dash.Protocol.Frame.Codec.RoundTrip.{IsFrame, decode-encode, decode-header, decode_of}

module _ (crc : List ℕ → ℕ) where
  decode_payload_waits :
      (h : FrameHeader) (src left : List ℕ) (c : FrameCodec)
      → decode_payload crc h src ≡ (c, left, ok none)
      → (c ≡ some h) × (left ≡ src)
  unfolding decode_payload
  decode_payload_waits h src left c e = ground arith

  resume_payload :
      (h : FrameHeader) (src left more : List ℕ) (c : FrameCodec)
      → decode_payload crc h src ≡ (c, left, ok none)
      → decode crc c (left ++ more) ≡ decode_payload crc h (src ++ more)
  resume_payload h src left more c e =
      let (c_h, same) = decode_payload_waits h src left c e in
      rw (c_h, same) (unfold decode in refl)

  -- Reading a header does not look past it.
  decode_header-append :
      (src left more : List ℕ) (h : FrameHeader)
      → All IsByte src
      → decode_header src ≡ (left, ok (some h))
      → decode_header (src ++ more) ≡ (left ++ more, ok (some h))
  decode_header-append src left more h bytes e =
      let (written, v) = encode_header-decode_header src left h bytes e in
      rw (← written) (
        ap decode_header (append_assoc (encode_header h) left more)
        ∙ decode_header-encode_header h (left ++ more) v)

  rest_waits_none :
      (src left more : List ℕ) (c : FrameCodec)
      → decode_rest crc (src, ok none) ≡ (c, left, ok none)
      → decode crc c (left ++ more) ≡ decode crc none (src ++ more)
  unfolding decode_rest
  rest_waits_none src left more c e =
      ap₂ (λ d l. decode crc d (l ++ more)) (ap (λ r. r.0) (sym e)) (ap (λ r. r.1) (sym e))

  rest_err_not :
      (src left : List ℕ) (x : Error) (c : FrameCodec)
      → decode_rest crc (src, err x) ≢ (c, left, ok none)
  unfolding decode_rest
  rest_err_not src left x c e = cc

  resume_none :
      (src left more : List ℕ) (c : FrameCodec)
      → All IsByte src
      → decode crc none src ≡ (c, left, ok none)
      → decode crc c (left ++ more) ≡ decode crc none (src ++ more)
  resume_none src left more c bytes e = elim (decode_header-Outcome src) [
    | inl (_, waits) ↦ rest_waits_none src left more c (sym (decode_of crc src _ waits) ∙ e)
    | inr (inl (_, (x, fails))) ↦
        absurd (rest_err_not src left x c (sym (decode_of crc src _ fails) ∙ e))
    | inr (inr (_, (h, reads))) ↦
        resume_payload h (drop 34 src) left more c
          (unfold decode_rest in (sym (decode_of crc src _ reads) ∙ e))
        ∙ sym (
            decode_of crc (src ++ more) _ (decode_header-append src _ more h bytes reads)
            ∙ unfold decode_rest in refl)
  ]

  -- Where the stream is cut into pieces does not matter: if the codec asks for more, then after any
  -- further bytes have been appended to what it left it does what it would have done had they been
  -- there from the start.
  pub decode_resumes :
      (c c' : FrameCodec) (src left more : List ℕ)
      → All IsByte src
      → decode crc c src ≡ (c', left, ok none)
      → decode crc c' (left ++ more) ≡ decode crc c (src ++ more)
  decode_resumes none c' src left more bytes e = resume_none src left more c' bytes e
  decode_resumes (some h) c' src left more bytes e =
      resume_payload h src left more c' (unfold decode in e) ∙ unfold decode in refl

  -- A proper prefix that holds the whole header.
  module _ (f : Frame) (front back : List ℕ) (x : ℕ) (v : IsFrame crc f) where
    header_in_front :
        34 ≤ length front
        → front ++ (x ∷ back) ≡ encode f
        → encode_header f.header ++ drop 34 front ≡ front
    header_in_front long e =
        let size = length-encode_header f.header v.header.transfer_id in
        let same : take 34 front ≡ encode_header f.header =
          sym (take-append_le 34 front (x ∷ back) long)
          ∙ ap (take 34) e
          ∙ unfold encode in (rw size at (take-append (encode_header f.header) f.payload)) in
        ap (λ h. h ++ drop 34 front) (sym same) ∙ take-append_drop 34 front

    too_short :
        front ++ (x ∷ back) ≡ encode f
        → 34 ≤ length front
        → ltb (length (drop 34 front)) f.header.payload_len ≡ true
    unfolding encode
    too_short e long = lt→ltb _ _ (
        omega (
          arith,
          v.payload_len,
          length-drop 34 front,
          ap length e,
          length-append front (x ∷ back),
          length-append (encode_header f.header) f.payload,
          length-encode_header f.header v.header.transfer_id,
        ))

    long_prefix :
        front ++ (x ∷ back) ≡ encode f
        → 34 ≤ length front
        → decode crc none front ≡ (some f.header, drop 34 front, ok none)
    long_prefix e long =
        ap (decode crc none) (sym (header_in_front long e))
        ∙ decode-header crc f.header (drop 34 front) v.header
        ∙ unfold decode_payload in rw (too_short e long, decode_payload)

  -- On a proper prefix of the bytes of a frame in order, the codec asks for more.
  pub decode_prefix :
      (f : Frame) (front back : List ℕ) (x : ℕ)
      → IsFrame crc f
      → front ++ (x ∷ back) ≡ encode f
      → (c : FrameCodec) × (left : List ℕ) × (decode crc none front ≡ (c, left, ok none))
  decode_prefix f front back x v e = elim (decode_header-Outcome front) [
    | inl (_, waits) ↦ (none, front, decode_of crc front _ waits ∙ unfold decode_rest in refl)
    | inr (inl (long, _)) ↦ (some f.header, drop 34 front, long_prefix f front back x v e long)
    | inr (inr (long, _)) ↦ (some f.header, drop 34 front, long_prefix f front back x v e long)
  ]

-- The frame that a call returned, and what the later calls make of the rest.
abbrev and_then :
    (FrameCodec → List ℕ → Option (List Frame × FrameCodec × List ℕ))
    → FrameCodec × List ℕ × Result Error (Option Frame)
    → Option (List Frame × FrameCodec × List ℕ)
and_then later (c, src, ok (some f)) =
    Option.map (λ (fs, c', left). (f ∷ fs, c', left)) (later c src)
and_then later (c, src, ok none) = none
and_then later (c, src, err e) = none

-- `n` calls of `decode` on one buffer, each of which has to return a frame.
pub decode_frames :
    (List ℕ → ℕ) → ℕ → FrameCodec → List ℕ → Option (List Frame × FrameCodec × List ℕ)
decode_frames crc zero c src = some ([], c, src)
decode_frames crc (suc n) c src = and_then (decode_frames crc n) (decode crc c src)

-- What an encoder writes for several frames, one after the other.
abbrev pub encode_frames : List Frame → List ℕ
encode_frames [] = []
encode_frames (f ∷ fs) = encode f ++ encode_frames fs

-- Frames in order that are written one after the other are read back, all of them and in their
-- order, and the codec stands at the byte behind the last one.
pub decode_frames-encode_frames :
    (crc : List ℕ → ℕ) (fs : List Frame) (rest : List ℕ)
    → All (IsFrame crc) fs
    → decode_frames crc (length fs) none (encode_frames fs ++ rest) ≡ some (fs, none, rest)
unfolding decode_frames
decode_frames-encode_frames crc [] rest v = refl
decode_frames-encode_frames crc (f ∷ fs) rest v =
    let first =
      ap (decode crc none) (append_assoc (encode f) (encode_frames fs) rest)
      ∙ decode-encode crc f (encode_frames fs ++ rest) v.0 in
    let later = decode_frames-encode_frames crc fs rest v.1 in rw (first, later)
