-- ===== src/Storage/Chunker/Tiling.antt =====
-- src/storage/chunker.rs: the chunks of one file tile its bytes.
use share_dash.Common.{
  subst, ltb→lt, lt→ltb, ℕ, zero, suc, ◌+◌, ◌-◌, ◌%◌, ◌^◌, ◌≤◌, ◌<◌, ◌≡◌, refl, sym, ap, ◌==◌, ltb,
  false, List, [], ◌∷◌, none, some, length, take, drop, Text, arith, ◌⊎◌, inl, inr, Bool-cases,
  length-take, length-drop,
}
use share_dash.Storage.Manifest.{ChunkInfo}
use share_dash.Storage.Chunker.{to_read, add_u32, describe, chunk_loop, chunk_file}

-- The bytes of a file that a chunk stands for.
abbrev pub slice : List ℕ → ℕ → ℕ → List ℕ
slice content offset len = take len (drop offset content)

module _ (sha256 blake3 : List ℕ → Text) (chunk_size file_index : ℕ) (content : List ℕ) where
  -- The chunk is the `n`th of the transfer, and stands for the bytes from `offset` on, with their
  -- hashes. It is full, or ends where the file ends.
  pub record IsPiece (offset n : ℕ) (c : ChunkInfo) : Type 0 where
    pub chunk_id : c.chunk_id ≡ n % 2 ^ 32
    pub file_index_eq : c.file_index ≡ file_index
    pub offset_eq : c.offset ≡ offset
    pub nonempty : 0 < c.length
    pub within : offset + c.length ≤ length content
    pub full :
        (c.length ≡ chunk_size) ⊎ ((c.length < chunk_size) × (offset + c.length ≡ length content))
    pub sha256_eq : c.sha256 ≡ sha256 (slice content offset c.length)
    pub blake3_eq : c.blake3 ≡ blake3 (slice content offset c.length)

  -- The chunks stand for the bytes from `offset` to the end, in their order, with no gap and no
  -- overlap.
  abbrev pub Tiles : ℕ → ℕ → List ChunkInfo → Type 0
  Tiles offset n [] = length content ≤ offset
  Tiles offset n (c ∷ cs) = IsPiece offset n c × Tiles (offset + c.length) (suc n) cs

module _ (sha256 blake3 : List ℕ → Text) (chunk_size file_index : ℕ) (content : List ℕ) where
  -- How many bytes the round at `offset` reads.
  abbrev round : ℕ → ℕ
  round offset = to_read chunk_size (length content - offset)

  round_length :
      (offset : ℕ)
      → offset < length content
      → length (slice content offset (round offset)) ≡ round offset
  round_length offset h =
      length-take (round offset) (drop offset content) (ground (arith, length-drop offset content))

  round-IsPiece :
      (offset n : ℕ)
      → 0 < chunk_size
      → chunk_size < 2 ^ 32
      → offset < length content
      → IsPiece sha256 blake3 chunk_size file_index content offset n (
          describe sha256 blake3
            (n % 2 ^ 32)
            file_index
            offset
            (slice content offset (round offset)))
  round-IsPiece offset n pos small h =
      let len : length (slice content offset (round offset)) % 2 ^ 32 ≡ round offset =
        ground (arith, round_length offset h) in
      record {
        chunk_id = refl;
        file_index_eq = refl;
        offset_eq = refl;
        nonempty = rw len (ground arith);
        within = rw len (ground arith);
        full = rw len (ground arith);
        sha256_eq = ap (λ k. sha256 (slice content offset k)) (sym len);
        blake3_eq = ap (λ k. blake3 (slice content offset k)) (sym len);
      }

  -- One round, in front of the chunks of the later ones.
  round-Tiles :
      (fuel offset n : ℕ) (later : List ChunkInfo)
      → 0 < chunk_size
      → chunk_size < 2 ^ 32
      → offset < length content
      → chunk_loop sha256 blake3 fuel chunk_size file_index content
          (offset + round offset)
          (suc n % 2 ^ 32)
        ≡ some later
      → Tiles sha256 blake3 chunk_size file_index content (offset + round offset) (suc n) later
      → (cs : List ChunkInfo) × (chunk_loop sha256 blake3
            (suc fuel)
            chunk_size
            file_index
            content
            offset
            (n % 2 ^ 32)
          ≡ some cs)
        × Tiles sha256 blake3 chunk_size file_index content offset n cs
  unfolding chunk_loop
  round-Tiles fuel offset n later pos small h e tiles =
      let len : round offset ≡ length (slice content offset (round offset)) % 2 ^ 32 =
        ground (arith, round_length offset h) in
      let next : add_u32 (n % 2 ^ 32) 1 ≡ suc n % 2 ^ 32 = omega arith in
      (
        describe sha256 blake3 (n % 2 ^ 32) file_index offset (slice content offset (round offset))
            ∷ later,
        rw (lt→ltb _ _ h, next, e),
        (
          round-IsPiece offset n pos small h,
          subst (λ k. Tiles sha256 blake3 chunk_size file_index content (offset + k) (suc n) later)
              len tiles,
        ),
      )

  chunk_loop-Tiles :
      (fuel offset n : ℕ)
      → 0 < chunk_size
      → chunk_size < 2 ^ 32
      → length content - offset < fuel
      → (cs : List ChunkInfo) × (chunk_loop sha256 blake3 fuel chunk_size file_index content offset
            (n % 2 ^ 32)
          ≡ some cs)
        × Tiles sha256 blake3 chunk_size file_index content offset n cs
  unfolding chunk_loop
  chunk_loop-Tiles zero offset n pos small h = absurd (omega arith)
  chunk_loop-Tiles (suc fuel) offset n pos small h =
      elim (Bool-cases (ltb offset (length content))) [
        | inr done ↦ ([], rw done, ground arith)
        | inl more ↦
            let inside : offset < length content = ltb→lt _ _ more in
            let (cs, e, tiles) =
              chunk_loop-Tiles fuel (offset + round offset) (suc n) pos small (ground arith) in
            round-Tiles fuel offset n cs pos small inside e tiles
      ]

-- For a chunk size that is positive and fits a u32, the loop over the chunks of a file that is not
-- empty ends, and its chunks tile the file: in their order, without gap or overlap, each full or
-- the last one, each with its own number and the hashes of its own bytes.
pub chunk_file-Tiles :
    (sha256 blake3 : List ℕ → Text) (chunk_size file_index : ℕ) (content : List ℕ) (n : ℕ)
    → 0 < chunk_size
    → chunk_size < 2 ^ 32
    → 0 < length content
    → (cs : List ChunkInfo) × (chunk_file sha256 blake3 chunk_size file_index content (n % 2 ^ 32)
        ≡ some cs)
      × Tiles sha256 blake3 chunk_size file_index content 0 n cs
unfolding chunk_file
chunk_file-Tiles sha256 blake3 chunk_size file_index content n pos small h =
    let nonempty : (length content == 0) ≡ false = ground arith in
    let (cs, e, tiles) =
      chunk_loop-Tiles sha256 blake3 chunk_size file_index content (suc (length content)) 0 n pos
        small (omega arith) in
    (cs, rw nonempty e, tiles)

-- With a chunk size of zero the loop never ends: no amount of fuel is enough, on any file that is
-- not empty.
pub chunk_loop_endless :
    (sha256 blake3 : List ℕ → Text) (fuel file_index : ℕ) (content : List ℕ) (n : ℕ)
    → 0 < length content
    → chunk_loop sha256 blake3 fuel 0 file_index content 0 n ≡ none
unfolding chunk_loop
chunk_loop_endless sha256 blake3 zero file_index content n h = refl
chunk_loop_endless sha256 blake3 (suc fuel) file_index content n h =
    let still : to_read 0 (length content - 0) ≡ 0 = ground arith in
    let later = chunk_loop_endless sha256 blake3 fuel file_index content (add_u32 n 1) h in
    rw (lt→ltb _ _ h, still, later)
