-- ===== src/Storage/Transfer/Delivery.antt =====
-- Chunks of several files that come in through `write_chunk` of src/storage/sparse_writer.rs.
use share_dash.Common.{
  ℕ, ◌+◌, ◌≤◌, ◌==◌, ◌≡◌, refl, ap, ◌∙◌, if◌then◌else◌, true, false, List, [], ◌∷◌, some, length,
  arith, Bool-cases, inl, inr, All, Result, ok, lookup, Text, ◌>>=◌,
}
use share_dash.Storage.Manifest.{ChunkInfo}
use share_dash.Storage.Chunker.Tiling.{slice, Tiles}
use share_dash.Storage.SparseWriter.{
  FilePath, path_eq, read, save, write_at, SparseWriter, write_to, write_chunk, or_empty, Error,
}
use share_dash.Storage.SparseWriter.Files.{write_at_overwrites, read-save, path_eq_refl}
use share_dash.Storage.Transfer.{Among, write_pieces, write_pieces_complete}

-- The chunks of one file.
abbrev pub own : ℕ → List ChunkInfo → List ChunkInfo
own k [] = []
own k (c ∷ cs) = let later = own k cs in if c.file_index == k then c ∷ later else later

-- The calls of `write_chunk` for chunks that come in one after the other; `contents` gives the
-- bytes of each file.
unfoldable pub deliver : (ℕ → List ℕ) → SparseWriter → List ChunkInfo → Result Error SparseWriter
deliver contents w [] = ok w
deliver contents w (c ∷ cs) =
    write_chunk w c.file_index c.offset (slice (contents c.file_index) c.offset c.length) >>= λ w'.
    deliver contents w' cs

module _ (contents : ℕ → List ℕ) (k : ℕ) (p : FilePath) where
  -- Only the handle of file `k` stands for the path `p`.
  abbrev pub IsAlone : SparseWriter → Type 0
  IsAlone w =
      (lookup k w.file_handles ≡ some p)
      × ((j : ℕ) (q : FilePath) → lookup j w.file_handles ≡ some q → path_eq q p ≡ true → j ≡ k)

  abbrev pub HasHandle : SparseWriter → ChunkInfo → Type 0
  HasHandle w c = (q : FilePath) × (lookup c.file_index w.file_handles ≡ some q)

  -- The writer after one more chunk.
  abbrev written : SparseWriter → FilePath → ChunkInfo → SparseWriter
  written w q c = record w {
    disk =
        save q
          (write_at (or_empty (read q w.disk)) c.offset
            (slice (contents c.file_index) c.offset c.length))
          w.disk;
  }

  write_step :
      (w : SparseWriter) (q : FilePath) (c : ChunkInfo)
      → lookup c.file_index w.file_handles ≡ some q
      → write_chunk w c.file_index c.offset (slice (contents c.file_index) c.offset c.length)
        ≡ ok (written w q c)
  write_step w q c e = unfold write_chunk in rw (e, write_to)

  mine_read :
      (w : SparseWriter) (q : FilePath) (c : ChunkInfo) (f : List ℕ)
      → q ≡ p
      → c.file_index ≡ k
      → read p w.disk ≡ some f
      → read p (written w q c).disk
        ≡ some (write_at f c.offset (slice (contents k) c.offset c.length))
  mine_read w q c f qp ck e = rw (qp, ck, e, read-save, path_eq_refl)

  other_read :
      (w : SparseWriter) (q : FilePath) (c : ChunkInfo)
      → path_eq q p ≡ false
      → read p (written w q c).disk ≡ read p w.disk
  other_read w q c apart = rw (read-save, apart)

  not_ours :
      (w : SparseWriter) (q : FilePath) (j : ℕ)
      → IsAlone w
      → lookup j w.file_handles ≡ some q
      → (j == k) ≡ false
      → path_eq q p ≡ false
  not_ours w q j alone at other = elim (Bool-cases (path_eq q p)) [
    | inr e ↦ e
    | inl e ↦ absurd (ground (arith, alone.1 j q at e))
  ]

  deliver_file :
      (ws : List ChunkInfo) (w : SparseWriter) (f : List ℕ)
      → IsAlone w
      → All (HasHandle w) ws
      → read p w.disk ≡ some f
      → (w' : SparseWriter) × (deliver contents w ws ≡ ok w')
        × (read p w'.disk ≡ some (write_pieces (contents k) (own k ws) f))
  unfolding deliver
  deliver_file [] w f alone h e = (w, refl, e)
  deliver_file (c ∷ ws) w f alone h e =
      let (q, at) = h.0 in
      elim (Bool-cases (c.file_index == k)) [
        | inl mine ↦
            let ck : c.file_index ≡ k = ground arith in
            let qp : q ≡ p = cc (at, alone.0, ck) in
            rw (write_step w q c at, mine)
              (deliver_file ws (written w q c) _ alone h.1 (mine_read w q c f qp ck e))
        | inr other ↦
            let apart = not_ours w q c.file_index alone at other in
            rw (write_step w q c at, other)
              (deliver_file ws (written w q c) f alone h.1 (other_read w q c apart ∙ e))
      ]

-- Chunks that tile the file `k`, if each of them comes in at least once, in any order and mixed
-- with chunks of other files, leave exactly the bytes of that file under its path. The writer has a
-- handle for every chunk that comes in, no other handle stands for the path, and the file there was
-- given its length before.
pub deliver_complete :
    (sha256 blake3 : List ℕ → Text) (chunk_size n : ℕ) (contents : ℕ → List ℕ) (k : ℕ)
    (p : FilePath) (cs ws : List ChunkInfo) (w : SparseWriter) (f : List ℕ)
    → Tiles sha256 blake3 chunk_size k (contents k) 0 n cs
    → All (λ c. Among c cs) (own k ws)
    → All (λ c. Among c (own k ws)) cs
    → IsAlone contents k p w
    → All (HasHandle contents k p w) ws
    → read p w.disk ≡ some f
    → length f ≡ length (contents k)
    → (w' : SparseWriter) × (deliver contents w ws ≡ ok w') × (read p w'.disk ≡ some (contents k))
deliver_complete sha256 blake3 chunk_size n contents k p cs ws w f tiles only every alone handles e
      size =
    let (w', done, here) = deliver_file contents k p ws w f alone handles e in
    let whole =
      write_pieces_complete sha256 blake3 chunk_size k (contents k) n cs (own k ws) f tiles only
        every size in
    (w', done, here ∙ ap some whole)

write_chunk-read :
    (w : SparseWriter) (i : ℕ) (p : FilePath) (f : List ℕ) (offset : ℕ) (bs : List ℕ)
    → lookup i w.file_handles ≡ some p
    → read p w.disk ≡ some f
    → (w' : SparseWriter) × (write_chunk w i offset bs ≡ ok w')
      × (w'.file_handles ≡ w.file_handles)
      × (read p w'.disk ≡ some (write_at f offset bs))
write_chunk-read w i p f offset bs h e = (
  record w { disk = save p (write_at (or_empty (read p w.disk)) offset bs) w.disk },
  unfold write_chunk in rw (h, write_to),
  refl,
  rw (e, read-save, path_eq_refl),
)

-- Two files of a manifest whose paths are the same are one file on the disk: what is written to the
-- one at some position replaces what was written to the other one there.
same_path_collides :
    (w : SparseWriter) (i j : ℕ) (p : FilePath) (f : List ℕ) (offset : ℕ) (first second : List ℕ)
    → lookup i w.file_handles ≡ some p
    → lookup j w.file_handles ≡ some p
    → read p w.disk ≡ some f
    → length first ≡ length second
    → offset + length first ≤ length f
    → (w' : SparseWriter) × ((write_chunk w i offset first >>= λ v. write_chunk v j offset second)
        ≡ ok w')
      × (read p w'.disk ≡ some (write_at f offset second))
same_path_collides w i j p f offset first second hi hj e len fits =
    let (v, one, handles, here) = write_chunk-read w i p f offset first hi e in
    let (w', two, _, there) = write_chunk-read v j p _ offset second (rw handles hj) here in
    (w', rw (one, two), there ∙ ap some (write_at_overwrites f offset first second len fits))
