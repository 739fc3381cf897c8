-- ===== src/Upload/Delivery/Interleavings.antt =====
-- A whole upload: any interleaving of the workers' rounds (src/cli.rs, src/gui/engine.rs) with the
-- requests that reach the receiver (src/server/api.rs).
use share_dash.Common.{
  ℕ, zero, suc, ◌+◌, ◌%◌, ◌^◌, ◌≤◌, ◌<◌, ◌≡◌, ◌==◌, ap, sym, if◌then◌else◌, true, List, [], ◌∷◌,
  some, Text, arith, contains, length, get_elem?, Bool-cases, inl, inr, Floats, subst,
}
use share_dash.Storage.SparseWriter.Files.{inside}
use share_dash.Upload.Dispatcher.{TransferChunkInfo}
use share_dash.Upload.Dispatcher.Layout.{Tiles, Tiles-length}
use share_dash.Upload.Request.{ChunkRequest}
use share_dash.Upload.Receiver.{Receiver, Io, receive_transfer_chunk}
use share_dash.Upload.Sender.Answers.{Succeeds}
use share_dash.Upload.Sender.{Job, Upload, fetch, Answer, respond, gui_respond}
use share_dash.Upload.Delivery.Requests.{Fits, IsRequestFor}
use share_dash.Upload.Delivery.Writes.{Agrees}
use share_dash.Upload.Delivery.Chunks.{is_stored, SessionOk, receive-Delivered}
use share_dash.Upload.Delivery.Workers.{
  IsChunk, IsSane, get_elem?-IsId, fetch-IsSane, respond-IsSane, gui_respond-IsSane,
}

-- The sender, the receiver, and the chunks that the receiver has reported as stored.
pub record World : Type 0 where
  pub upload : Upload
  pub receiver : Receiver
  pub acked : List ℕ

module _ (fl : Floats) (crc32 : List ℕ → ℕ) (sha256 : List ℕ → Text) (job : Job)
    (cs : List TransferChunkInfo) where
  -- The receiver handles a request, and its response is on the way.
  abbrev pub deliver : World → TransferChunkInfo → ChunkRequest → Io → ℕ → World
  deliver w c req io now =
      let after = receive_transfer_chunk crc32 sha256 w.receiver req io now in
      record w {
        receiver = after.0;
        acked = if is_stored after.1 then c.chunk_id ∷ w.acked else w.acked;
      }

  -- A success is answered only to a chunk that was stored.
  abbrev pub Honest : World → TransferChunkInfo → Answer → Type 0
  Honest w c answer = Succeeds answer → contains c.chunk_id w.acked ≡ true

  -- A worker begins a round; a request about a chunk arrives, once or more than once; a worker
  -- learns how its request ended, perhaps by an error of the network; the user cancels.
  pub data Step (w : World) : World → Type 0 where
    begins : (t : Text) (now : ℕ) → Step w (record w { upload = (fetch fl w.upload job t now).0 })
    delivers :
        (c : TransferChunkInfo) (req : ChunkRequest) (io : Io) (now : ℕ)
        → IsChunk cs c
        → IsRequestFor crc32 job (length cs % 2 ^ 32) c req
        → io.resizes ≡ true
        → Step w (deliver w c req io now)
    learns :
        (channel : ℕ) (c : TransferChunkInfo) (answer : Answer)
        → IsChunk cs c
        → Honest w c answer
        → Step w (record w { upload = (respond w.upload channel c answer).0 })
    gui_learns :
        (channel : ℕ) (c : TransferChunkInfo) (answer : Answer)
        → IsChunk cs c
        → Honest w c answer
        → Step w (record w { upload = (gui_respond w.upload channel c answer).0 })

  pub data Reach (w : World) : World → Type 0 where
    here : Reach w w
    next : {mid v : World} → Reach w mid → Step mid v → Reach w v

  -- Every chunk that was reported as stored is in the receiver's file.
  pub record Inv (w : World) : Type 0 where
    pub sane : IsSane cs w.acked w.upload.dispatcher
    pub session : SessionOk job w.receiver
    pub stored :
        (c : TransferChunkInfo)
        → IsChunk cs c
        → contains c.chunk_id w.acked ≡ true
        → (i : ℕ) → inside c.offset c.length i ≡ true
        → Agrees job w.receiver.disk i

  module _ (high : ℕ) (tiles : Tiles 1048576 high (length job.mmap) 0 0 cs)
      (size : job.file_size ≡ length job.mmap) (nonempty : 0 < length job.mmap)
      (small : length job.mmap < 2 ^ 51) where
    Tiles-within :
        (offset n : ℕ) (ds : List TransferChunkInfo) (i : ℕ) (c : TransferChunkInfo)
        → Tiles 1048576 high (length job.mmap) offset n ds
        → get_elem? ds i ≡ some c
        → c.offset + c.length ≤ length job.mmap
    Tiles-within offset n [] i c t h = cc
    Tiles-within offset n (d ∷ ds) zero c t h =
        let same : d ≡ c = cc h in
        omega (arith, t.0.within, t.0.offset_eq, ap (λ x. x.offset) same, ap (λ x. x.length) same)
    Tiles-within offset n (d ∷ ds) (suc i) c t h =
        Tiles-within (offset + d.length) (suc n) ds i c t.1 h

    chunk-Fits : (c : TransferChunkInfo) → IsChunk cs c → Fits job (length cs % 2 ^ 32) c
    chunk-Fits c at =
        let few = Tiles-length high (length job.mmap) nonempty 0 0 cs tiles in
        let within = Tiles-within 0 0 cs c.chunk_id c tiles at in
        let known = get_elem?-IsId cs c.chunk_id c at in
        record {
          id = omega (arith, few, known);
          offset = omega (arith, within);
          total = omega arith;
          size = omega (arith, size);
        }

    same_chunk :
        (c : TransferChunkInfo)
        → IsChunk cs c
        → (d : TransferChunkInfo) → IsChunk cs d
        → c.chunk_id ≡ d.chunk_id
        → c ≡ d
    same_chunk c at_c d at_d e = cc (at_c, at_d, e)

    pub deliver-Inv :
        (w : World) (c : TransferChunkInfo) (req : ChunkRequest) (io : Io) (now : ℕ)
        → IsChunk cs c
        → IsRequestFor crc32 job (length cs % 2 ^ 32) c req
        → io.resizes ≡ true
        → Inv w
        → Inv (deliver w c req io now)
    deliver-Inv w c req io now at asks resizes v =
        let after = receive_transfer_chunk crc32 sha256 w.receiver req io now in
        let fits = Tiles-within 0 0 cs c.chunk_id c tiles at in
        let d =
          receive-Delivered crc32 sha256 job (length cs % 2 ^ 32) c req w.receiver io now fits asks
            (chunk-Fits c at) resizes size nonempty v.session in
        elim (Bool-cases (is_stored after.1)) [
          | inr lost ↦ rw lost (record {
            sane = v.sane;
            session = d.session;
            stored = λ e at_e known i in_. d.keeps i (v.stored e at_e known i in_);
          })
          | inl kept ↦ rw kept (record {
            sane = record {
              chunks_eq = v.sane.chunks_eq;
              wf = v.sane.wf;
              acknowledged = λ id h. ground (arith, v.sane.acknowledged id h);
            };
            session = d.session;
            stored = λ e at_e known i in_. elim (Bool-cases (c.chunk_id == e.chunk_id)) [
              | inl this ↦
                  let id_eq : c.chunk_id ≡ e.chunk_id = ground (arith, this) in
                  let eq : e ≡ c = same_chunk e at_e c at (sym id_eq) in
                  d.wrote kept i (subst (λ x. inside x.offset x.length i ≡ true) eq in_)
              | inr that ↦ d.keeps i (v.stored e at_e (ground (arith, rw that at known)) i in_)
            ];
          })
        ]

    Step-Inv : (w v : World) → Step w v → Inv w → Inv v
    Step-Inv w v (begins t now) inv = record {
      sane = fetch-IsSane cs w.acked fl w.upload job t now inv.sane;
      session = inv.session;
      stored = inv.stored;
    }
    Step-Inv w v (delivers c req io now at asks resizes) inv =
        deliver-Inv w c req io now at asks resizes inv
    Step-Inv w v (learns channel c answer at honest) inv = record {
      sane = respond-IsSane cs w.acked w.upload channel c at inv.sane answer honest;
      session = inv.session;
      stored = inv.stored;
    }
    Step-Inv w v (gui_learns channel c answer at honest) inv = record {
      sane = gui_respond-IsSane cs w.acked w.upload channel c at inv.sane answer honest;
      session = inv.session;
      stored = inv.stored;
    }

    pub Reach-Inv : (w v : World) → Reach w v → Inv w → Inv v
    Reach-Inv w v here inv = inv
    Reach-Inv w v (next {mid = m} before step) inv = Step-Inv m v step (Reach-Inv w m before inv)
