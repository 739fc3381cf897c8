-- ===== src/Protocol/Frame/Header/Exact.antt =====
-- src/protocol/frame.rs: what `FrameHeader::decode` accepts.
use share_dash.Common.{
  ℕ, suc, ◌≤◌, ◌<◌, ◌≡◌, ◌==◌, ap, ltb, not, ◌||◌, List, ◌∷◌, ◌++◌, Option, none, some, length,
  take, drop, ok, err, Result, be16, be32, byte_at, arith, IsByte, All, ◌∙◌, sym, subst, ap₂,
  be16-from_be16, be32-from_be32, from_be16, from_be32, byte_at-IsByte, drop-cons, drop-drop,
  take-append_drop, length-take, length-drop, ◌⊎◌, inl, inr, Bool-cases, Option-cases,
}
use mathlib.Core.List.{append_assoc}
use share_dash.Protocol.Frame.Types.{FrameType, to_u8, from_u8, from_u8_iff}
use share_dash.Protocol.Frame.Header.{
  Error, invalid_magic, unsupported_version, unknown_frame_type, payload_too_long, FrameHeader,
  IsHeader, encode_header, decode_header, header_at, u32_at, protocol_version, max_payload_size,
}

-- What a successful read has checked.
record Accepted (src left : List ℕ) (h : FrameHeader) : Type 0 where
  long_enough : 34 ≤ length src
  magic0 : byte_at src 0 ≡ 0x53
  magic1 : byte_at src 1 ≡ 0x44
  version : byte_at src 2 ≡ protocol_version
  frame_type : from_u8 (byte_at src 3) ≡ some h.frame_type
  fits : u32_at src 26 ≤ max_payload_size
  header : h ≡ header_at src h.frame_type
  left_over : left ≡ drop 34 src

decode_header-Accepted :
    (src left : List ℕ) (h : FrameHeader)
    → decode_header src ≡ (left, ok (some h))
    → Accepted src left h
unfolding decode_header
decode_header-Accepted src left h e = ground arith

-- The bytes of a number that was read are the bytes that stood there.
module _ (src : List ℕ) (bytes : All IsByte src) where
  two_back :
      (k : ℕ)
      → suc k < length src
      → be16 (from_be16 (byte_at src k) (byte_at src (suc k))) ++ drop (suc (suc k)) src
        ≡ drop k src
  two_back k h =
      let byte = λ (i : ℕ). byte_at-IsByte src i bytes in
      rw (be16-from_be16 _ _ (byte k) (byte (suc k)))
        (sym (drop-cons src k (omega arith) ∙ ap (◌∷◌ (byte_at src k)) (drop-cons src (suc k) h)))

  four_back :
      (k : ℕ)
      → suc (suc (suc k)) < length src
      → be32 (
            from_be32
              (byte_at src k)
              (byte_at src (suc k))
              (byte_at src (suc (suc k)))
              (byte_at src (suc (suc (suc k)))))
          ++ drop (suc (suc (suc (suc k)))) src
        ≡ drop k src
  four_back k h =
      let byte = λ (i : ℕ). byte_at-IsByte src i bytes in
      let l = suc k in
      let m = suc l in
      let n = suc m in
      let read =
        be32-from_be32 (byte_at src k) (byte_at src l) (byte_at src m) (byte_at src n) (byte k)
          (byte l) (byte m) (byte n) in
      let last = ap (◌∷◌ (byte_at src m)) (drop-cons src n h) in
      let later = drop-cons src m (omega arith) ∙ last in
      let then_ = drop-cons src l (omega arith) ∙ ap (◌∷◌ (byte_at src l)) later in
      rw read (sym (drop-cons src k (omega arith) ∙ ap (◌∷◌ (byte_at src k)) then_))

  module _ (long : 34 ≤ length src) where
    tail_back :
        be32 (u32_at src 22) ++ (be32 (u32_at src 26) ++ (be32 (u32_at src 30) ++ drop 34 src))
        ≡ drop 22 src
    tail_back =
        rw (four_back 30 (omega arith), four_back 26 (omega arith), four_back 22 (omega arith))

    middle_back :
        be16 (from_be16 (byte_at src 4) (byte_at src 5)) ++ (take 16 (drop 6 src) ++ drop 22 src)
        ≡ drop 4 src
    middle_back =
        ap (λ r. be16 (from_be16 (byte_at src 4) (byte_at src 5)) ++ (take 16 (drop 6 src) ++ r))
          (sym (drop-drop 16 6 src))
        ∙ ap (◌++◌ (be16 (from_be16 (byte_at src 4) (byte_at src 5))))
            (take-append_drop 16 (drop 6 src))
        ∙ two_back 4 (omega arith)

    head_back : byte_at src 0 ∷ byte_at src 1 ∷ byte_at src 2 ∷ byte_at src 3 ∷ drop 4 src ≡ src
    head_back =
        let last = ap (◌∷◌ (byte_at src 2)) (sym (drop-cons src 3 (omega arith))) in
        let later = last ∙ sym (drop-cons src 2 (omega arith)) in
        let most = ap (◌∷◌ (byte_at src 1)) later ∙ sym (drop-cons src 1 (omega arith)) in
        ap (◌∷◌ (byte_at src 0)) most ∙ sym (drop-cons src 0 (omega arith))

    -- Writing the header that stands at the front of a buffer gives the front of the buffer.
    header_back :
        (t : FrameType)
        → to_u8 t ≡ byte_at src 3
        → encode_header (header_at src t) ++ drop 34 src ≡ src
    header_back t e =
        unfold encode_header in simp append_assoc (rw (tail_back, middle_back, e) head_back)

    header_at-IsHeader :
        (t : FrameType)
        → byte_at src 0 ≡ 0x53
        → byte_at src 1 ≡ 0x44
        → byte_at src 2 ≡ protocol_version
        → u32_at src 26 ≤ max_payload_size
        → IsHeader (header_at src t)
    header_at-IsHeader t m0 m1 ver fits =
        let byte = λ (i : ℕ). byte_at-IsByte src i bytes in
        record {
          magic = (m0, m1);
          version = ver;
          flags = omega (arith, byte 4, byte 5);
          transfer_id = length-take 16 (drop 6 src) (omega (arith, length-drop 6 src));
          chunk_id = omega (arith, byte 22, byte 23, byte 24, byte 25);
          payload_len = fits;
          crc32 = omega (arith, byte 30, byte 31, byte 32, byte 33);
        }

-- Of a buffer of bytes, what `decode_header` accepts is what `encode_header` writes: the bytes that
-- it takes off are those of the header that it returns. That header has all fields in range.
pub encode_header-decode_header :
    (src left : List ℕ) (h : FrameHeader)
    → All IsByte src
    → decode_header src ≡ (left, ok (some h))
    → (encode_header h ++ left ≡ src) × IsHeader h
encode_header-decode_header src left h bytes e =
    let a = decode_header-Accepted src left h e in
    let t = h.frame_type in
    (
      ap₂ (λ g r. encode_header g ++ r) a.header a.left_over
          ∙ header_back src bytes a.long_enough t ((from_u8_iff _ t).0 a.frame_type),
      subst IsHeader (sym a.header)
          (header_at-IsHeader src bytes a.long_enough t a.magic0 a.magic1 a.version a.fits),
    )

-- The three things that reading a header can do.
abbrev pub Outcome : List ℕ → List ℕ × Result Error (Option FrameHeader) → Type 0
Outcome src result =
    ((length src < 34) × (result ≡ (src, ok none)))
    ⊎ ((34 ≤ length src) × ((e : Error) × (result ≡ (src, err e))))
    ⊎ ((34 ≤ length src) × ((h : FrameHeader) × (result ≡ (drop 34 src, ok (some h)))))

full-Outcome : (src : List ℕ) → 34 ≤ length src → Outcome src (decode_header src)
unfolding decode_header
full-Outcome src long =
    elim (Bool-cases (not (byte_at src 0 == 0x53) || not (byte_at src 1 == 0x44))) [
      | inl e ↦ inr (inl (long, (invalid_magic (byte_at src 0) (byte_at src 1), ground arith)))
      | inr magic ↦ elim (Bool-cases (byte_at src 2 == protocol_version)) [
        | inr e ↦ inr (inl (long, (unsupported_version (byte_at src 2), ground arith)))
        | inl version ↦ elim (Option-cases (from_u8 (byte_at src 3))) [
          | inl e ↦ inr (inl (long, (unknown_frame_type (byte_at src 3), ground arith)))
          | inr (t, type_) ↦ elim (Bool-cases (ltb max_payload_size (u32_at src 26))) [
            | inl e ↦ inr (inl (long, (payload_too_long (u32_at src 26), ground arith)))
            | inr fits ↦ inr (inr (long, (header_at src t, ground arith)))
          ]
        ]
      ]
    ]

-- Reading a header asks for more exactly when fewer than 34 bytes are there, and takes bytes off
-- the buffer, 34 of them, only when it returns a header: on an error, and when it asks for more,
-- the buffer is what it was.
pub decode_header-Outcome : (src : List ℕ) → Outcome src (decode_header src)
decode_header-Outcome src = elim (Bool-cases (ltb (length src) 34)) [
  | inl short ↦ inl (ground arith, unfold decode_header in rw short)
  | inr long ↦ full-Outcome src (ground arith)
]
