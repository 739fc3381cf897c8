-- ===== src/Storage/Transfer.antt =====
-- The receiver's side of a transfer: the chunks of src/storage/chunker.rs written by
-- src/storage/sparse_writer.rs in the order in which they come in.
pub mod Delivery
use share_dash.Common.{
  ltb→lt, ℕ, zero, suc, ◌+◌, ◌-◌, ◌≤◌, ◌<◌, ◌==◌, ◌≡◌, ◌≢◌, refl, ap, sym, ◌∙◌, ltb, leb,
  if◌then◌else◌, Bool, true, false, not, ◌&&◌, ◌||◌, List, [], ◌∷◌, Option, none, some, length,
  take, drop, get_elem?, arith, Bool-cases, inl, inr, ◌⊎◌, get_elem?-take, get_elem?-drop,
  get_elem?_past, list_ext, All, length-take, length-drop, Result, ok, err, lookup, Text, ◌>>=◌,
}
use share_dash.Storage.Manifest.{ChunkInfo}
use share_dash.Storage.Chunker.Tiling.{slice, Tiles, IsPiece}
use share_dash.Storage.SparseWriter.{
  FilePath, Disk, path_eq, read, save, write_at, SparseWriter, write_to, write_chunk, or_empty,
  Error,
}
use share_dash.Storage.SparseWriter.Files.{
  write_at_overwrites, inside, length-write_at, get_elem?-write_at, read-save, path_eq_refl,
}

-- The chunk is one of the list.
abbrev pub Among : ChunkInfo → List ChunkInfo → Type 0
Among c [] = ⊥
Among c (d ∷ ds) = (d ≡ c) ⊎ Among c ds

-- Some chunk of the list stands for the position.
abbrev pub covered : ℕ → List ChunkInfo → Bool
covered i [] = false
covered i (c ∷ cs) = inside c.offset c.length i || covered i cs

module _ (content : List ℕ) where
  -- Writing chunks of `content` over a file, one after the other.
  abbrev pub write_pieces : List ChunkInfo → List ℕ → List ℕ
  write_pieces [] f = f
  write_pieces (c ∷ cs) f = write_pieces cs (write_at f c.offset (slice content c.offset c.length))

  abbrev pub InFile : ChunkInfo → Type 0
  InFile c = c.offset + c.length ≤ length content

  length-slice : (c : ChunkInfo) → InFile c → length (slice content c.offset c.length) ≡ c.length
  length-slice c h =
      length-take c.length (drop c.offset content) (omega (arith, length-drop c.offset content))

  slice_at :
      (c : ChunkInfo) (i : ℕ)
      → inside c.offset c.length i ≡ true
      → get_elem? (slice content c.offset c.length) (i - c.offset) ≡ get_elem? content i
  slice_at c i h =
      let back : c.offset + (i - c.offset) ≡ i = ground arith in
      get_elem?-take c.length (drop c.offset content) (i - c.offset) (ground arith)
      ∙ get_elem?-drop c.offset content (i - c.offset)
      ∙ ap (get_elem? content) back

  -- One write, position by position.
  piece_at :
      (c : ChunkInfo) (f : List ℕ) (i : ℕ)
      → InFile c
      → length f ≡ length content
      → get_elem? (write_at f c.offset (slice content c.offset c.length)) i
        ≡ (if inside c.offset c.length i then get_elem? content i else get_elem? f i)
  piece_at c f i h e =
      let size = length-slice c h in
      let here =
        get_elem?-write_at f c.offset (slice content c.offset c.length) i (omega (arith, size)) in
      elim (Bool-cases (inside c.offset c.length i)) [
        | inl in_ ↦ rw in_ (here ∙ rw (size, in_) (slice_at c i in_))
        | inr out ↦ rw out (here ∙ rw (size, out) refl)
      ]

  length-write_pieces :
      (cs : List ChunkInfo) (f : List ℕ)
      → All InFile cs
      → length f ≡ length content
      → length (write_pieces cs f) ≡ length content
  length-write_pieces [] f h e = e
  length-write_pieces (c ∷ cs) f h e = length-write_pieces cs _ h.1 (
      length-write_at f c.offset (slice content c.offset c.length)
        (omega (arith, length-slice c h.0, h.0))
      ∙ e)

  pub write_pieces_at :
      (cs : List ChunkInfo) (f : List ℕ) (i : ℕ)
      → All InFile cs
      → length f ≡ length content
      → get_elem? (write_pieces cs f) i
        ≡ (if covered i cs then get_elem? content i else get_elem? f i)
  write_pieces_at [] f i h e = refl
  write_pieces_at (c ∷ cs) f i h e =
      let g = write_at f c.offset (slice content c.offset c.length) in
      let size : length g ≡ length content =
        length-write_at f c.offset (slice content c.offset c.length)
          (omega (arith, length-slice c h.0, h.0))
        ∙ e in
      ground (arith, write_pieces_at cs g i h.1 size, piece_at c f i h.0 e)

covered-Among :
    (c : ChunkInfo) (cs : List ChunkInfo) (i : ℕ)
    → Among c cs
    → inside c.offset c.length i ≡ true
    → covered i cs ≡ true
covered-Among c [] i m h = absurd m
covered-Among c (d ∷ ds) i (inl e) h = rw e (rw h refl)
covered-Among c (d ∷ ds) i (inr m) h = ground (arith, covered-Among c ds i m h)

covered_mono :
    (cs ws : List ChunkInfo) (i : ℕ)
    → All (λ c. Among c ws) cs
    → covered i cs ≡ true
    → covered i ws ≡ true
covered_mono [] ws i h e = cc
covered_mono (c ∷ cs) ws i h e = elim (Bool-cases (inside c.offset c.length i)) [
  | inl here ↦ covered-Among c ws i h.0 here
  | inr later ↦ covered_mono cs ws i h.1 (rw later at e)
]

module _ (sha256 blake3 : List ℕ → Text) (chunk_size file_index : ℕ) (content : List ℕ) where
  Tiles-covered :
      (offset n : ℕ) (cs : List ChunkInfo) (i : ℕ)
      → Tiles sha256 blake3 chunk_size file_index content offset n cs
      → offset ≤ i
      → i < length content
      → covered i cs ≡ true
  Tiles-covered offset n [] i t lo hi = absurd (omega arith)
  Tiles-covered offset n (c ∷ cs) i t lo hi =
      ground (arith, t.0.offset_eq, Tiles-covered (offset + c.length) (suc n) cs i t.1)

  Tiles-InFile :
      (offset n : ℕ) (cs : List ChunkInfo) (c : ChunkInfo)
      → Tiles sha256 blake3 chunk_size file_index content offset n cs
      → Among c cs
      → InFile content c
  Tiles-InFile offset n [] c t m = absurd m
  Tiles-InFile offset n (d ∷ ds) c t (inl e) =
      omega (arith, t.0.offset_eq, t.0.within, ap (λ x. x.offset) e, ap (λ x. x.length) e)
  Tiles-InFile offset n (d ∷ ds) c t (inr m) = Tiles-InFile (offset + d.length) (suc n) ds c t.1 m

  All-InFile :
      (n : ℕ) (cs ws : List ChunkInfo)
      → Tiles sha256 blake3 chunk_size file_index content 0 n cs
      → All (λ c. Among c cs) ws
      → All (InFile content) ws
  All-InFile n cs [] t h = tt
  All-InFile n cs (c ∷ ws) t h = (Tiles-InFile 0 n cs c t h.0, All-InFile n cs ws t h.1)

  -- Chunks that tile a file, written in any order and as often as one likes over a file of its
  -- length, leave its bytes.
  pub write_pieces_complete :
      (n : ℕ) (cs ws : List ChunkInfo) (f : List ℕ)
      → Tiles sha256 blake3 chunk_size file_index content 0 n cs
      → All (λ c. Among c cs) ws
      → All (λ c. Among c ws) cs
      → length f ≡ length content
      → write_pieces content ws f ≡ content
  write_pieces_complete n cs ws f t only every e =
      let inside_file = All-InFile n cs ws t only in
      list_ext (write_pieces content ws f) content λ i. elim (Bool-cases (ltb i (length content))) [
        | inl lt ↦
            let all_of : covered i ws ≡ true =
              covered_mono cs ws i every (Tiles-covered 0 n cs i t (omega arith) (ltb→lt _ _ lt)) in
            write_pieces_at content ws f i inside_file e ∙ rw all_of refl
        | inr ge ↦
            let past : length content ≤ i = ground arith in
            get_elem?_past (write_pieces content ws f) i
              (omega (arith, length-write_pieces content ws f inside_file e))
            ∙ sym (get_elem?_past content i past)
      ]
