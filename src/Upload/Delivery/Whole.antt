-- ===== src/Upload/Delivery/Whole.antt =====
-- An upload that the sender (src/cli.rs, src/gui/engine.rs) reports as whole is whole on the receiver
-- (src/server/api.rs).
use share_dash.Common.{
  ℕ, suc, ◌+◌, ◌^◌, ◌≤◌, ◌<◌, ◌≡◌, refl, ap, sym, ◌∙◌, ltb, true, false, ◌||◌, List, [], ◌∷◌, none,
  some, Text, arith, contains, length, get_elem?, Bool-cases, inl, inr, Floats, get_elem?_past,
  list_ext, get, ltb→lt,
}
use share_dash.Storage.SparseWriter.{read}
use share_dash.Storage.SparseWriter.Files.{inside}
use share_dash.Upload.Dispatcher.{TransferChunkInfo, dispatcher_of, is_done}
use share_dash.Upload.Dispatcher.Layout.{Tiles}
use share_dash.Upload.Dispatcher.Histories.{dispatcher_of-IsWf, Tiles-numbered}
use share_dash.Upload.Dispatcher.Completion.{is_done_iff}
use share_dash.Upload.Receiver.{Receiver}
use share_dash.Upload.Sender.{Job, Progress, Upload, integrity_ok, outcome}
use share_dash.Upload.Delivery.Requests.{received_key}
use share_dash.Upload.Delivery.Writes.{target, Agrees}
use share_dash.Upload.Delivery.Workers.{IsChunk, get_elem?-IsId}
use share_dash.Upload.Delivery.Interleavings.{World, Reach, Inv, Reach-Inv}

module _ (fl : Floats) (crc32 : List ℕ → ℕ) (sha256 : List ℕ → Text) (job : Job)
    (cs : List TransferChunkInfo) (high : ℕ) (tiles : Tiles 1048576 high (length job.mmap) 0 0 cs)
    (nonempty : 0 < length job.mmap) where
  -- Every position lies in some chunk.
  Tiles-cover :
      (offset n : ℕ) (ds : List TransferChunkInfo) (i : ℕ)
      → Tiles 1048576 high (length job.mmap) offset n ds
      → offset ≤ i
      → i < length job.mmap
      → (k : ℕ) × (c : TransferChunkInfo) × (get_elem? ds k ≡ some c)
        × (inside c.offset c.length i ≡ true)
  Tiles-cover offset n [] i t lo hi = absurd (omega arith)
  Tiles-cover offset n (d ∷ ds) i t lo hi = elim (Bool-cases (ltb i (offset + d.length))) [
    | inl in_ ↦ (0, d, refl, ground (arith, in_, t.0.offset_eq))
    | inr out ↦
        let (k, c, at, holds) =
          Tiles-cover (offset + d.length) (suc n) ds i t.1 (ground (arith, out)) hi in
        (suc k, c, at, holds)
  ]

  all_agree :
      (w : World)
      → Inv fl crc32 sha256 job cs w
      → ((id : ℕ) → id < length cs → contains id w.acked ≡ true)
      → (i : ℕ) → i < length job.mmap
      → Agrees job w.receiver.disk i
  all_agree w inv every i h =
      let (k, c, at, holds) = Tiles-cover 0 0 cs i tiles (omega arith) h in
      let id_eq : c.chunk_id ≡ k =
        omega (arith, Tiles-numbered 1048576 high (length job.mmap) 0 0 cs k c tiles at) in
      let at_id : IsChunk cs c = ap (get_elem? cs) id_eq ∙ at in
      inv.stored c at_id (every c.chunk_id (get_elem?-IsId cs c.chunk_id c at_id)) i holds

  file_is_whole :
      (w : World)
      → ((i : ℕ) → i < length job.mmap → Agrees job w.receiver.disk i)
      → read (target job) w.receiver.disk ≡ some job.mmap
  file_is_whole w agree =
      let (f, (at, len), first) = agree 0 nonempty in
      let whole : f ≡ job.mmap = list_ext f job.mmap λ i.
        elim (Bool-cases (ltb i (length job.mmap))) [
          | inl lt ↦
              let (g, (at_g, len_g), same) = agree i (ltb→lt _ _ lt) in
              let eq : f ≡ g = cc (at, at_g) in ap (λ x. get_elem? x i) eq ∙ same
          | inr ge ↦
              get_elem?_past f i (ground (arith, ge, len))
              ∙ sym (get_elem?_past job.mmap i (ground (arith, ge)))
        ] in
      at ∙ ap some whole

-- A dispatcher without any calls yet.
abbrev pub fresh : List TransferChunkInfo → List (ℕ × Progress) → Receiver → World
fresh cs progress r = record {
  upload = record { dispatcher = dispatcher_of cs; stop_flag = false; progress = progress };
  receiver = r;
  acked = [];
}

not_given_up :
    (u : Upload)
    → outcome u ≡ integrity_ok true
    → (u.dispatcher.cancelled ≡ false) × (u.dispatcher.fatal_error ≡ false)
unfolding outcome
not_given_up u h = elim (Bool-cases (u.stop_flag || u.dispatcher.cancelled)) [
  | inl over ↦ absurd (cc (rw over at h))
  | inr going ↦ elim (Bool-cases u.dispatcher.fatal_error) [
    | inl failed ↦ absurd (cc (rw (going, failed) at h))
    | inr fine ↦ (ground (arith, going), fine)
  ]
]

fresh-Inv :
    (fl : Floats) (crc32 : List ℕ → ℕ) (sha256 : List ℕ → Text) (job : Job)
    (cs : List TransferChunkInfo) (high : ℕ) (progress : List (ℕ × Progress)) (r : Receiver)
    → Tiles 1048576 high (length job.mmap) 0 0 cs
    → get (received_key job) r.sessions ≡ none
    → Inv fl crc32 sha256 job cs (fresh cs progress r)
unfolding dispatcher_of
fresh-Inv fl crc32 sha256 job cs high progress r tiles none_yet = record {
  sane = record {
    chunks_eq = refl;
    wf = dispatcher_of-IsWf 1048576 high (length job.mmap) cs tiles;
    acknowledged = nothing_done;
  };
  session = λ s found. absurd (cc (none_yet, found));
  stored = λ c at h. cc;
}
  where
    nothing_done :
        (id : ℕ) → contains id (dispatcher_of cs).completed ≡ true → contains id [] ≡ true
    nothing_done id h = h

-- A file that is not empty is sent in chunks that tile it to a receiver that has no session of the
-- transfer yet, whatever files it has. After any interleaving of the workers' rounds with requests
-- that arrive at any time, in any order, more than once or not at all, whose responses may be lost,
-- and whose writes may fail in the middle, where opened files can be resized: if the dispatcher is
-- done, and the sender reports neither a cancelled nor a failed transfer, then the receiver's file
-- has exactly the bytes of the sender's.
pub upload_is_whole :
    (fl : Floats) (crc32 : List ℕ → ℕ) (sha256 : List ℕ → Text) (job : Job)
    (cs : List TransferChunkInfo) (high : ℕ) (progress : List (ℕ × Progress)) (r : Receiver)
    (w : World)
    → Tiles 1048576 high (length job.mmap) 0 0 cs
    → job.file_size ≡ length job.mmap
    → 0 < length job.mmap
    → length job.mmap < 2 ^ 51
    → get (received_key job) r.sessions ≡ none
    → Reach fl crc32 sha256 job cs (fresh cs progress r) w
    → is_done w.upload.dispatcher ≡ true
    → outcome w.upload ≡ integrity_ok true
    → read (target job) w.receiver.disk ≡ some job.mmap
upload_is_whole fl crc32 sha256 job cs high progress r w tiles size nonempty small none_yet steps
      done whole =
    let start = fresh-Inv fl crc32 sha256 job cs high progress r tiles none_yet in
    let inv = Reach-Inv fl crc32 sha256 job cs high tiles size nonempty small _ w steps start in
    let (on, fine) = not_given_up w.upload whole in
    let every : (id : ℕ) → id < length cs → contains id w.acked ≡ true = λ id h.
      elim ((is_done_iff w.upload.dispatcher inv.sane.wf).0 done) [
        | inl cancelled ↦ absurd (cc (cancelled, on))
        | inr (inl failed) ↦ absurd (cc (failed, fine))
        | inr (inr all_of) ↦ inv.sane.acknowledged id (all_of id (rw inv.sane.chunks_eq h))
      ] in
    file_is_whole fl crc32 sha256 job cs high tiles nonempty w
      (all_agree fl crc32 sha256 job cs high tiles nonempty w inv every)
