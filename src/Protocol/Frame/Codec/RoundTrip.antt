-- ===== src/Protocol/Frame/Codec/RoundTrip.antt =====
-- src/protocol/frame.rs: what `FrameCodec` reads of a stream that an encoder wrote.
use share_dash.Common.{
  ap₂, subst, take-append_drop, length-take, inl, inr, ℕ, ◌^◌, ◌≤◌, ◌<◌, ◌≡◌, ◌≢◌, refl, sym, ap,
  ◌∙◌, ◌==◌, ltb, if◌then◌else◌, true, false, not, List, ◌++◌, Option, none, some, length, take,
  drop, Result, ok, err, arith, length-append, take-append, drop-append, All, IsByte,
}
use mathlib.Core.List.{append_assoc}
use share_dash.Protocol.Frame.Types.{FrameType}
use share_dash.Protocol.Frame.Header.{
  Error, crc_mismatch, payload_too_long, FrameHeader, IsHeader, IsWritable, compute_crc32,
  encode_header, decode_header, max_payload_size,
}
use share_dash.Protocol.Frame.Header.RoundTrip.{
  decode_header-encode_header, refuse_header-encode_header,
}
use share_dash.Protocol.Frame.Header.Exact.{encode_header-decode_header, decode_header-Outcome}
use share_dash.Protocol.Frame.Codec.{
  Frame, FrameCodec, encode, new_frame, decode_payload, decode_rest, decode,
}

-- A frame whose header is in order, tells the length of its payload, and has its checksum.
pub record IsFrame (crc : List ℕ → ℕ) (f : Frame) : Type 0 where
  pub header : IsHeader f.header
  pub payload_len : f.header.payload_len ≡ length f.payload
  pub crc32 : f.header.crc32 ≡ compute_crc32 crc f.header f.payload

module _ (crc : List ℕ → ℕ) where
  pub decode-header :
      (h : FrameHeader) (src : List ℕ)
      → IsHeader h
      → decode crc none (encode_header h ++ src) ≡ decode_payload crc h src
  unfolding decode
  decode-header h src v =
      ap (decode_rest crc) (decode_header-encode_header h src v) ∙ unfold decode_rest in refl

  decode_payload-append :
      (h : FrameHeader) (payload rest : List ℕ)
      → h.payload_len ≡ length payload
      → decode_payload crc h (payload ++ rest) ≡ (
          if not (compute_crc32 crc h payload == h.crc32)
          then (none, rest, err (crc_mismatch h.crc32 (compute_crc32 crc h payload)))
          else (none, rest, ok (some (record { header = h; payload = payload }))))
  unfolding decode_payload
  decode_payload-append h payload rest e = rw (enough, decode_payload, front, back)
    where
      enough : ltb (length (payload ++ rest)) h.payload_len ≡ false
      enough = ground (arith, length-append payload rest)

      front : take h.payload_len (payload ++ rest) ≡ payload
      front = rw e (take-append payload rest)

      back : drop h.payload_len (payload ++ rest) ≡ rest
      back = rw e (drop-append payload rest)

  pub encode-split :
      (f : Frame) (rest : List ℕ) → encode f ++ rest ≡ encode_header f.header ++ (f.payload ++ rest)
  encode-split f rest = unfold encode in append_assoc (encode_header f.header) f.payload rest

  -- A frame in order is read back from its bytes, whatever follows them; the codec is then ready
  -- for the next frame, at the byte behind this one.
  pub decode-encode :
      (f : Frame) (rest : List ℕ)
      → IsFrame crc f
      → decode crc none (encode f ++ rest) ≡ (none, rest, ok (some f))
  decode-encode f rest v =
      ap (decode crc none) (encode-split f rest)
      ∙ decode-header f.header (f.payload ++ rest) v.header
      ∙ decode_payload-append f.header f.payload rest v.payload_len
      ∙ rw (sum_checks) refl
    where
      sum_checks : (compute_crc32 crc f.header f.payload == f.header.crc32) ≡ true
      sum_checks = ground (arith, v.crc32)

  -- If a payload of the same length arrives in the place of a frame's own, and its checksum under
  -- the frame's header is another, the codec reports both checksums, and goes on at the byte behind
  -- the damaged frame.
  pub decode_corrupted :
      (f : Frame) (payload rest : List ℕ)
      → IsFrame crc f
      → length payload ≡ length f.payload
      → compute_crc32 crc f.header payload ≢ f.header.crc32
      → decode crc none (encode_header f.header ++ (payload ++ rest))
        ≡ (none, rest, err (crc_mismatch f.header.crc32 (compute_crc32 crc f.header payload)))
  decode_corrupted f payload rest v len differs =
      decode-header f.header (payload ++ rest) v.header
      ∙ decode_payload-append f.header payload rest (v.payload_len ∙ sym len)
      ∙ rw sum_differs refl
    where
      sum_differs : (compute_crc32 crc f.header payload == f.header.crc32) ≡ false
      sum_differs = ground arith

  -- `Frame::new` makes such a frame from fields in range and a payload that the reader accepts, if
  -- the checksum is a u32.
  pub new_frame-IsFrame :
      (frame_type : FrameType) (transfer_id : List ℕ) (chunk_id flags : ℕ) (payload : List ℕ)
      → ((bytes : List ℕ) → crc bytes < 2 ^ 32)
      → length transfer_id ≡ 16
      → chunk_id < 2 ^ 32
      → flags < 2 ^ 16
      → length payload ≤ max_payload_size
      → IsFrame crc (new_frame crc frame_type transfer_id chunk_id flags payload)
  unfolding new_frame
  new_frame-IsFrame frame_type transfer_id chunk_id flags payload small id c f p = record {
    header = record {
      magic = (refl, refl);
      version = refl;
      flags = f;
      transfer_id = id;
      chunk_id = c;
      payload_len = omega arith;
      crc32 = small _;
    };
    payload_len = omega arith;
    crc32 = refl;
  }

  new_frame-IsWritable :
      (frame_type : FrameType) (transfer_id : List ℕ) (chunk_id flags : ℕ) (payload : List ℕ)
      → ((bytes : List ℕ) → crc bytes < 2 ^ 32)
      → length transfer_id ≡ 16
      → chunk_id < 2 ^ 32
      → flags < 2 ^ 16
      → IsWritable (new_frame crc frame_type transfer_id chunk_id flags payload).header
  unfolding new_frame
  new_frame-IsWritable frame_type transfer_id chunk_id flags payload small id c f = record {
    magic = (refl, refl);
    version = refl;
    flags = f;
    transfer_id = id;
    chunk_id = c;
    payload_len = omega arith;
    crc32 = small _;
  }

  -- A frame whose payload is longer than the limit is written like any other, and its reader
  -- refuses the header, without taking a byte off the buffer.
  pub decode_oversized :
      (frame_type : FrameType) (transfer_id : List ℕ) (chunk_id flags : ℕ) (payload rest : List ℕ)
      → ((bytes : List ℕ) → crc bytes < 2 ^ 32)
      → length transfer_id ≡ 16
      → chunk_id < 2 ^ 32
      → flags < 2 ^ 16
      → max_payload_size < length payload
      → length payload < 2 ^ 32
      → let src = encode (new_frame crc frame_type transfer_id chunk_id flags payload) ++ rest in
        decode crc none src ≡ (none, src, err (payload_too_long (length payload)))
  decode_oversized frame_type transfer_id chunk_id flags payload rest small id c f long fits =
      let frame = new_frame crc frame_type transfer_id chunk_id flags payload in
      let w = new_frame-IsWritable frame_type transfer_id chunk_id flags payload small id c f in
      let says : frame.header.payload_len ≡ length payload = unfold new_frame in omega arith in
      rw (encode-split frame rest) (
        unfold decode in
        ap (decode_rest crc)
          (refuse_header-encode_header frame.header (frame.payload ++ rest) w (omega arith))
        ∙ unfold decode_rest in rw says)

  decode_payload-eq :
      (h : FrameHeader) (src left : List ℕ) (c : FrameCodec) (f : Frame)
      → decode_payload crc h src ≡ (c, left, ok (some f))
      → (c ≡ none)
        × (f.header ≡ h)
        × (h.payload_len ≤ length src)
        × (f.payload ≡ take h.payload_len src)
        × (left ≡ drop h.payload_len src)
        × (h.crc32 ≡ compute_crc32 crc h f.payload)
  unfolding decode_payload
  decode_payload-eq h src left c f e = ground arith

  pub decode_of :
      (src : List ℕ) (r : List ℕ × Result Error (Option FrameHeader))
      → decode_header src ≡ r
      → decode crc none src ≡ decode_rest crc r
  decode_of src r e = unfold decode in ap (decode_rest crc) e

  not_read_none :
      (src left : List ℕ) (c : FrameCodec) (f : Frame)
      → decode_rest crc (src, ok none) ≢ (c, left, ok (some f))
  unfolding decode_rest
  not_read_none src left c f e = cc

  not_read_err :
      (src left : List ℕ) (x : Error) (c : FrameCodec) (f : Frame)
      → decode_rest crc (src, err x) ≢ (c, left, ok (some f))
  unfolding decode_rest
  not_read_err src left x c f e = cc

  payload_back :
      (src behind left : List ℕ) (h : FrameHeader) (c : FrameCodec) (f : Frame)
      → (encode_header h ++ behind ≡ src) × IsHeader h
      → decode_rest crc (behind, ok (some h)) ≡ (c, left, ok (some f))
      → (encode f ++ left ≡ src) × IsFrame crc f × (c ≡ none)
  payload_back src behind left h c f (written, v) e =
      let (c_none, header, enough, payload, left_over, sum_ok) =
        decode_payload-eq h behind left c f (unfold decode_rest in e) in
      let joined : f.payload ++ left ≡ behind =
        ap₂ (◌++◌) payload left_over ∙ take-append_drop h.payload_len behind in
      (
        encode-split f left ∙ ap₂ (λ g r. encode_header g ++ r) header joined ∙ written,
        record {
          header = subst IsHeader (sym header) v;
          payload_len =
              ap (λ g. g.payload_len) header
              ∙ sym (ap length payload ∙ length-take h.payload_len behind enough);
          crc32 =
              ap (λ g. g.crc32) header
              ∙ sum_ok
              ∙ ap (λ g. compute_crc32 crc g f.payload) (sym header);
        },
        c_none,
      )

  -- What a codec reads as a frame from a buffer of bytes is in order, and is what an encoder would
  -- have written there: the bytes taken are exactly those of the frame.
  pub encode-decode :
      (src left : List ℕ) (c : FrameCodec) (f : Frame)
      → All IsByte src
      → decode crc none src ≡ (c, left, ok (some f))
      → (encode f ++ left ≡ src) × IsFrame crc f × (c ≡ none)
  encode-decode src left c f bytes e = elim (decode_header-Outcome src) [
    | inl (_, waits) ↦ absurd (not_read_none src left c f (sym (decode_of src _ waits) ∙ e))
    | inr (inl (_, (x, fails))) ↦
        absurd (not_read_err src left x c f (sym (decode_of src _ fails) ∙ e))
    | inr (inr (_, (h, reads))) ↦
        payload_back src (drop 34 src) left h c f
          (encode_header-decode_header src (drop 34 src) h bytes reads)
          (sym (decode_of src _ reads) ∙ e)
  ]
