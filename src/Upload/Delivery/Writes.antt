-- ===== src/Upload/Delivery/Writes.antt =====
-- What the receiver (src/server/api.rs) does to the file, at opening it and at writing a chunk.
use share_dash.Common.{
  ℕ, ◌+◌, ◌≤◌, ◌<◌, ◌≡◌, refl, ap, sym, ◌∙◌, Bool, true, List, [], ◌∷◌, Option, none, some, arith,
  length, get_elem?, inl, inr, lt→ltb,
}
use share_dash.Storage.SparseWriter.{FilePath, Disk, read, save, set_len, write_at, or_empty}
use share_dash.Storage.SparseWriter.Files.{inside, length-write_at, read_saved}
use share_dash.Upload.Dispatcher.{TransferChunkInfo}
use share_dash.Upload.Request.{Fields}
use share_dash.Upload.Receiver.{
  ActiveIncomingChunkSession, Receiver, Io, opened_bytes, open_file, written_bytes, write_body,
}
use share_dash.Upload.Sender.{Job}
use share_dash.Upload.Delivery.Requests.{received_name, chunk_fields}
use share_dash.Upload.Delivery.Files.{
  set_len_same, length-set_len, IsPart, take-IsPart, write_at_part,
}

module _ (job : Job) where
  abbrev pub target : FilePath
  target = received_name job ∷ []

  -- The file is there, with the length of the one that is sent.
  abbrev pub HasFile : Disk → List ℕ → Type 0
  HasFile disk f = (read target disk ≡ some f) × (length f ≡ length job.mmap)

  -- The file is there, and has the right byte at the position.
  abbrev pub Agrees : Disk → ℕ → Type 0
  Agrees disk i = (f : List ℕ) × HasFile disk f × (get_elem? f i ≡ get_elem? job.mmap i)

  -- One disk after another one: no position comes out of agreement.
  abbrev pub Keeps : Disk → Disk → Type 0
  Keeps before after = (i : ℕ) → Agrees before i → Agrees after i

  module _ (total_chunks : ℕ) (c : TransferChunkInfo) (is_usb : Bool) (now : ℕ)
      (inside_file : c.offset + c.length ≤ length job.mmap) where
    abbrev pub fields : Fields
    fields = chunk_fields job total_chunks c is_usb

    -- The file after the first chunk has opened it.
    pub open_file_lem :
        (r : Receiver) (io : Io)
        → io.resizes ≡ true
        → job.file_size ≡ length job.mmap
        → 0 < length job.mmap
        → ((f : List ℕ) × HasFile (open_file r fields io now).disk f)
          × Keeps r.disk (open_file r fields io now).disk
    unfolding open_file
    open_file_lem r io resizes size nonempty =
        let old = or_empty (read target r.disk) in
        let disk = save target (opened_bytes old job.file_size io.resizes) r.disk in
        let now_there : read target disk ≡ some (set_len old (length job.mmap)) =
          read_saved target _ r.disk ∙ rw (size, lt→ltb _ _ nonempty, resizes) refl in
        (
          (set_len old (length job.mmap), (now_there, length-set_len old (length job.mmap))),
          λ i (f, (at, len), same).
              let back : set_len old (length job.mmap) ≡ f = rw (at, sym len) (set_len_same f) in
              (f, (now_there ∙ ap some back, len), same),
        )

    written-IsPart :
        (piece : List ℕ) (fails : Option ℕ)
        → IsPart job.mmap c.offset piece
        → IsPart job.mmap c.offset (written_bytes piece fails)
    written-IsPart piece none part = part
    written-IsPart piece (some k) part = take-IsPart job.mmap c.offset k piece part

    -- The file after the bytes that a write got through.
    pub write_body_lem :
        (r : Receiver) (s : ActiveIncomingChunkSession) (piece : List ℕ) (fails : Option ℕ)
        (f : List ℕ)
        → s.target_file_path ≡ target
        → HasFile r.disk f
        → IsPart job.mmap c.offset piece
        → ((g : List ℕ) × HasFile (write_body r s fields piece fails).disk g)
          × Keeps r.disk (write_body r s fields piece fails).disk
          × (fails ≡ none
              → (i : ℕ) → inside c.offset (length piece) i ≡ true
              → Agrees (write_body r s fields piece fails).disk i)
    unfolding write_body
    write_body_lem r s piece fails f here (at, len) part =
        let bytes = written_bytes piece fails in
        let some_of = written-IsPart piece fails part in
        let new = write_at f c.offset bytes in
        let now_there : read target (write_body r s fields piece fails).disk ≡ some new =
          rw (here, at) (read_saved target new r.disk) in
        let size : length new ≡ length job.mmap =
          length-write_at f c.offset bytes (omega (arith, some_of.fits, len)) ∙ len in
        (
          (new, (now_there, size)),
          λ i (g, (there, _), same).
              let eq : f ≡ g = cc (at, there) in
              (
                new,
                (now_there, size),
                write_at_part job.mmap f c.offset bytes i some_of len
                    (inr (ap (λ x. get_elem? x i) eq ∙ same)),
              ),
          λ whole i in_. (
            new,
            (now_there, size),
            write_at_part job.mmap f c.offset bytes i some_of len (inl (rw whole in_)),
          ),
        )
