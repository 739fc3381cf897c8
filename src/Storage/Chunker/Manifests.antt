-- ===== src/Storage/Chunker/Manifests.antt =====
-- src/storage/chunker.rs: the manifest of several files.
use share_dash.Common.{
  ℕ, suc, ◌+◌, ◌%◌, ◌^◌, ◌≤◌, ◌<◌, ◌≡◌, refl, sym, ap, ◌∙◌, ◌==◌, false, List, [], ◌∷◌, ◌++◌,
  Option, none, some, length, Text, arith, ◌⊎◌, inl, inr, ok, err, subst,
}
use share_dash.Storage.Manifest.{ChunkInfo, FileMetadata, TransferManifest}
use share_dash.Storage.Chunker.{
  ScannedFile, add_u32, describe, chunk_loop, chunk_file, file_metadata, layout, sum_sizes, or_size,
  manifest_of, build_manifest, calculate_chunk_size, endless,
}
use share_dash.Storage.Chunker.Tiling.{Tiles, chunk_file-Tiles, chunk_loop_endless}
use share_dash.Storage.Chunker.Sizes.{calculate_chunk_size_bounds}

module _ (sha256 blake3 : List ℕ → Text) (chunk_size : ℕ) where
  -- The chunks of one file, the first of them with the number `n`.
  abbrev pub Owns : ℕ → ℕ → List ℕ → List ChunkInfo → Type 0
  Owns file_index n content cs =
      ((content ≡ []) × (cs ≡ describe sha256 blake3 (n % 2 ^ 32) file_index 0 [] ∷ []))
      ⊎ ((0 < length content) × Tiles sha256 blake3 chunk_size file_index content 0 n cs)

  -- The layout of files in chunks: one file after the other, the chunks numbered through.
  pub data LaidOut : ℕ → ℕ → List ScannedFile → List FileMetadata → List ChunkInfo → Type 0 where
    end : {idx n : ℕ} → LaidOut idx n [] [] []
    file :
        {idx n : ℕ} (f : ScannedFile) {fs : List ScannedFile} {m : FileMetadata}
        {ms : List FileMetadata} (own later : List ChunkInfo) {cs : List ChunkInfo}
        → Owns (idx % 2 ^ 32) n f.content own
        → m ≡ file_metadata sha256 blake3 (idx % 2 ^ 32) f (n % 2 ^ 32) own
        → cs ≡ own ++ later
        → LaidOut (suc idx) (n + length own) fs ms later
        → LaidOut idx n (f ∷ fs) (m ∷ ms) cs

module _ (sha256 blake3 : List ℕ → Text) (chunk_size : ℕ) (pos : 0 < chunk_size)
    (small : chunk_size < 2 ^ 32) where
  chunk_file-Owns :
      (file_index n : ℕ) (content : List ℕ)
      → (cs : List ChunkInfo) × (chunk_file sha256 blake3 chunk_size file_index content (n % 2 ^ 32)
          ≡ some cs)
        × Owns sha256 blake3 chunk_size file_index n content cs
  chunk_file-Owns file_index n [] = (
    describe sha256 blake3 (n % 2 ^ 32) file_index 0 [] ∷ [],
    unfold chunk_file in refl,
    inl (refl, refl),
  )
  chunk_file-Owns file_index n (b ∷ bs) =
      let (cs, e, tiles) =
        chunk_file-Tiles sha256 blake3 chunk_size file_index (b ∷ bs) n pos small (omega arith) in
      (cs, e, inr (omega arith, tiles))

  layout-LaidOut :
      (idx n : ℕ) (fs : List ScannedFile)
      → (ms : List FileMetadata) × (cs : List ChunkInfo) × (layout sha256 blake3 chunk_size idx fs
            (n % 2 ^ 32)
          ≡ some (ms, cs))
        × LaidOut sha256 blake3 chunk_size idx n fs ms cs
  unfolding layout
  layout-LaidOut idx n [] = ([], [], refl, end)
  layout-LaidOut idx n (f ∷ fs) =
      let (own, e, owns) = chunk_file-Owns (idx % 2 ^ 32) n f.content in
      let (ms, later, e', rest) = layout-LaidOut (suc idx) (n + length own) fs in
      let next : add_u32 (n % 2 ^ 32) (length own) ≡ (n + length own) % 2 ^ 32 = omega arith in
      (
        file_metadata sha256 blake3 (idx % 2 ^ 32) f (n % 2 ^ 32) own ∷ ms,
        own ++ later,
        rw (e, layout) (rw (next, e')),
        file f own later owns refl refl rest,
      )

-- The numbers of the chunks run through from `n`, as u32.
abbrev pub Numbered : ℕ → List ChunkInfo → Type 0
Numbered n [] = Unit {0}
Numbered n (c ∷ cs) = (c.chunk_id ≡ n % 2 ^ 32) × Numbered (suc n) cs

abbrev pub sum_lengths : List ChunkInfo → ℕ
sum_lengths [] = 0
sum_lengths (c ∷ cs) = c.length + sum_lengths cs

-- The bytes of the files, as a number of any size.
abbrev pub file_bytes : List ScannedFile → ℕ
file_bytes [] = 0
file_bytes (f ∷ fs) = length f.content + file_bytes fs

Numbered-append :
    (n : ℕ) (xs ys : List ChunkInfo)
    → Numbered n xs
    → Numbered (n + length xs) ys
    → Numbered n (xs ++ ys)
Numbered-append n [] ys hx hy = subst (λ k. Numbered k ys) (omega arith) hy
Numbered-append n (x ∷ xs) ys hx hy =
    (hx.0, Numbered-append (suc n) xs ys hx.1 (subst (λ k. Numbered k ys) (omega arith) hy))

sum_lengths-append :
    (xs ys : List ChunkInfo) → sum_lengths (xs ++ ys) ≡ sum_lengths xs + sum_lengths ys
sum_lengths-append [] ys = omega arith
sum_lengths-append (x ∷ xs) ys = omega (arith, sum_lengths-append xs ys)

module _ (sha256 blake3 : List ℕ → Text) (chunk_size : ℕ) where
  Tiles-Numbered :
      (file_index : ℕ) (content : List ℕ) (offset n : ℕ) (cs : List ChunkInfo)
      → Tiles sha256 blake3 chunk_size file_index content offset n cs
      → Numbered n cs
  Tiles-Numbered file_index content offset n [] t = tt
  Tiles-Numbered file_index content offset n (c ∷ cs) t =
      (t.0.chunk_id, Tiles-Numbered file_index content (offset + c.length) (suc n) cs t.1)

  Tiles-sum :
      (file_index : ℕ) (content : List ℕ) (offset n : ℕ) (cs : List ChunkInfo)
      → offset ≤ length content
      → Tiles sha256 blake3 chunk_size file_index content offset n cs
      → offset + sum_lengths cs ≡ length content
  Tiles-sum file_index content offset n [] h t = omega arith
  Tiles-sum file_index content offset n (c ∷ cs) h t =
      omega (arith, Tiles-sum file_index content (offset + c.length) (suc n) cs t.0.within t.1)

  Owns-Numbered :
      (file_index n : ℕ) (content : List ℕ) (cs : List ChunkInfo)
      → Owns sha256 blake3 chunk_size file_index n content cs
      → Numbered n cs
  Owns-Numbered file_index n content cs (inl (_, e)) = subst (Numbered n) (sym e) (refl, tt)
  Owns-Numbered file_index n content cs (inr (_, t)) = Tiles-Numbered file_index content 0 n cs t

  Owns-sum :
      (file_index n : ℕ) (content : List ℕ) (cs : List ChunkInfo)
      → Owns sha256 blake3 chunk_size file_index n content cs
      → sum_lengths cs ≡ length content
  Owns-sum file_index n content cs (inl (empty, e)) = ap sum_lengths e ∙ sym (ap length empty)
  Owns-sum file_index n content cs (inr (h, t)) =
      omega (arith, Tiles-sum file_index content 0 n cs (omega arith) t)

  pub LaidOut-Numbered :
      {idx n : ℕ} {fs : List ScannedFile} {ms : List FileMetadata} {cs : List ChunkInfo}
      → LaidOut sha256 blake3 chunk_size idx n fs ms cs
      → Numbered n cs
  LaidOut-Numbered end = tt
  LaidOut-Numbered {idx} {n} (file f own later owns m e rest) = subst (Numbered n) (sym e) (
      Numbered-append n own later (Owns-Numbered (idx % 2 ^ 32) n f.content own owns)
        (LaidOut-Numbered rest))

  LaidOut-length :
      {idx n : ℕ} {fs : List ScannedFile} {ms : List FileMetadata} {cs : List ChunkInfo}
      → LaidOut sha256 blake3 chunk_size idx n fs ms cs
      → length ms ≡ length fs
  LaidOut-length end = refl
  LaidOut-length (file f own later owns m e rest) = omega (arith, LaidOut-length rest)

  pub LaidOut-sum :
      {idx n : ℕ} {fs : List ScannedFile} {ms : List FileMetadata} {cs : List ChunkInfo}
      → LaidOut sha256 blake3 chunk_size idx n fs ms cs
      → sum_lengths cs ≡ file_bytes fs
  LaidOut-sum end = refl
  LaidOut-sum {idx} {n} (file f own later owns m e rest) =
      ap sum_lengths e
      ∙ omega (
        arith,
        sum_lengths-append own later,
        Owns-sum (idx % 2 ^ 32) n f.content own owns,
        LaidOut-sum rest,
      )

sum_sizes_eq :
    (fs : List ScannedFile) (total : ℕ)
    → sum_sizes fs (total % 2 ^ 64) ≡ (total + file_bytes fs) % 2 ^ 64
unfolding sum_sizes
sum_sizes_eq [] total = omega arith
sum_sizes_eq (f ∷ fs) total =
    ap (sum_sizes fs) (omega arith) ∙ sum_sizes_eq fs (total + length f.content) ∙ omega arith

-- What a manifest says of the files that it was built from.
pub record Describes (sha256 blake3 : List ℕ → Text) (fs : List ScannedFile) (m : TransferManifest)
    : Type 0 where
  pub chunk_size : (0 < m.chunk_size) × (m.chunk_size < 2 ^ 32)
  pub total_bytes : m.total_bytes ≡ file_bytes fs % 2 ^ 64
  pub total_files : m.total_files ≡ length fs % 2 ^ 32
  pub total_chunks : m.total_chunks ≡ length m.chunks % 2 ^ 32
  pub laid_out : LaidOut sha256 blake3 m.chunk_size 0 0 fs m.files m.chunks
  pub numbered : Numbered 0 m.chunks
  pub sum : sum_lengths m.chunks ≡ file_bytes fs

chosen_size :
    (custom : Option ℕ) (total : ℕ)
    → (custom ≡ none) ⊎ ((k : ℕ) × (custom ≡ some k) × (0 < k) × (k < 2 ^ 32))
    → (0 < or_size custom (calculate_chunk_size total))
      × (or_size custom (calculate_chunk_size total) < 2 ^ 32)
chosen_size none total h =
    let (lo, hi, _, _) = calculate_chunk_size_bounds total total (omega arith) in
    (omega arith, omega arith)
chosen_size (some j) total (inl e) = absurd (cc)
chosen_size (some j) total (inr (k, e, lo, hi)) = ground arith

-- From at least one file, with no custom chunk size or one that is positive and fits a u32, a
-- manifest is built: it lays the files out one after the other in chunks that tile them, the
-- chunks are numbered through from 0, and their lengths add up to the bytes of the files. The
-- totals are the bytes and the number of the files, and the number of the chunks, as far as their
-- machine words go.
pub build_manifest-Describes :
    (sha256 blake3 : List ℕ → Text) (items_title : ℕ → Text) (f : ScannedFile)
    (fs : List ScannedFile) (custom : Option ℕ) (transfer_id : List ℕ)
    → (custom ≡ none) ⊎ ((k : ℕ) × (custom ≡ some k) × (0 < k) × (k < 2 ^ 32))
    → (m : TransferManifest) × (build_manifest sha256 blake3 items_title (f ∷ fs) custom transfer_id
        ≡ ok m)
      × Describes sha256 blake3 (f ∷ fs) m
unfolding build_manifest manifest_of
build_manifest-Describes sha256 blake3 items_title f fs custom transfer_id h =
    let scanned = f ∷ fs in
    let size = or_size custom (calculate_chunk_size (sum_sizes scanned 0)) in
    let (pos, small) = chosen_size custom (sum_sizes scanned 0) h in
    let (ms, cs, e, laid) = layout-LaidOut sha256 blake3 size pos small 0 0 scanned in
    (
      manifest_of sha256 blake3 items_title transfer_id scanned size ms cs,
      rw (e, build_manifest),
      record {
        chunk_size = (pos, small);
        total_bytes = sum_sizes_eq scanned 0 ∙ omega arith;
        total_files = ap (λ k. k % 2 ^ 32) (LaidOut-length sha256 blake3 size laid);
        total_chunks = refl;
        laid_out = laid;
        numbered = LaidOut-Numbered sha256 blake3 size laid;
        sum = LaidOut-sum sha256 blake3 size laid;
      },
    )

-- With a custom chunk size of zero and a first file that is not empty, the build never ends: the
-- loop over the chunks of that file is still running after any number of rounds, which is what the
-- model answers.
pub build_manifest_endless :
    (sha256 blake3 : List ℕ → Text) (items_title : ℕ → Text) (f : ScannedFile)
    (fs : List ScannedFile) (transfer_id : List ℕ) (rounds : ℕ)
    → 0 < length f.content
    → (chunk_loop sha256 blake3 rounds 0 0 f.content 0 0 ≡ none)
      × (build_manifest sha256 blake3 items_title (f ∷ fs) (some 0) transfer_id ≡ err endless)
unfolding build_manifest
build_manifest_endless sha256 blake3 items_title f fs transfer_id rounds h =
    let nonempty : (length f.content == 0) ≡ false = ground arith in
    let loops = chunk_loop_endless sha256 blake3 (suc (length f.content)) 0 f.content 0 h in
    let stuck : chunk_file sha256 blake3 0 0 f.content 0 ≡ none =
      unfold chunk_file in rw (nonempty, loops) in
    let none_laid : layout sha256 blake3 0 0 (f ∷ fs) 0 ≡ none =
      unfold layout in rw (stuck, layout) in
    (chunk_loop_endless sha256 blake3 rounds 0 f.content 0 h, rw (none_laid, build_manifest))
