-- ===== src/Upload/Delivery/Chunks.antt =====
-- What one request about a chunk does to the receiver (src/server/api.rs).
use share_dash.Common.{
  ℕ, ◌+◌, ◌≤◌, ◌<◌, ◌≡◌, refl, ap, sym, subst, ◌∙◌, Bool, true, false, List, Option, none, some,
  Text, arith, length, get, get-put_same, get-take_out_same, Bool-cases, inl, inr,
}
use share_dash.Storage.SparseWriter.Files.{inside}
use share_dash.Upload.Dispatcher.{TransferChunkInfo}
use share_dash.Upload.Request.{ChunkRequest, Fields, fields_of}
use share_dash.Upload.Receiver.{
  ActiveIncomingChunkSession, Receiver, Io, Response, stored, corrupt, server_error, new_session,
  open_file, session_or_new, open_session, write_body, count_bytes, note_chunk, is_all_done, settle,
  store, store_if_open, receive_transfer_chunk,
}
use share_dash.Upload.Sender.{Job}
use share_dash.Upload.Delivery.Requests.{
  received_key, Fits, IsRequestFor, request_intact, request_fields,
}
use share_dash.Upload.Delivery.Files.{IsPart, slice-IsPart}
use share_dash.Upload.Delivery.Writes.{
  target, HasFile, Agrees, Keeps, fields, open_file_lem, write_body_lem,
}

abbrev pub is_stored : Response → Bool
is_stored (stored id n total) = true
is_stored (corrupt id) = false
is_stored (server_error id) = false

module _ (job : Job) where
  -- If the transfer has a session, it is one about the file, which is there.
  abbrev pub SessionOk : Receiver → Type 0
  SessionOk r =
      (s : ActiveIncomingChunkSession)
      → get (received_key job) r.sessions ≡ some s
      → (s.target_file_path ≡ target job) × (f : List ℕ) × HasFile job r.disk f

  module _ (total_chunks : ℕ) (c : TransferChunkInfo) (is_usb : Bool) (now : ℕ)
      (inside_file : c.offset + c.length ≤ length job.mmap) where
    -- A request, from the receiver before it to the receiver and the response after it.
    pub record Delivered (before after : Receiver) (response : Response) : Type 0 where
      pub session : SessionOk after
      pub keeps : Keeps job before.disk after.disk
      pub wrote :
          is_stored response ≡ true
          → (i : ℕ) → inside c.offset c.length i ≡ true
          → Agrees job after.disk i

    note_chunk-target :
        (s : ActiveIncomingChunkSession) (f : Fields) (len : ℕ)
        → (note_chunk s f len now).target_file_path ≡ s.target_file_path
    unfolding note_chunk count_bytes
    note_chunk-target s f len = ground arith

    settle-SessionOk :
        (r : Receiver) (s : ActiveIncomingChunkSession) (f : List ℕ)
        → s.target_file_path ≡ target job
        → HasFile job r.disk f
        → SessionOk (settle r (fields job total_chunks c is_usb now inside_file) s).0
    unfolding settle
    settle-SessionOk r s f here has t found = elim (Bool-cases (is_all_done s)) [
      | inl done ↦
          let gone = get-take_out_same (received_key job) r.sessions in
          absurd (cc (rw done at found, gone))
      | inr going ↦
          let kept = get-put_same (received_key job) s r.sessions in
          let eq : s ≡ t = cc (rw going at found, kept) in
          (ap (λ x. x.target_file_path) (sym eq) ∙ here, f, has)
    ]

    module _ (body : List ℕ) (len_eq : length body ≡ c.length)
        (part : IsPart job.mmap c.offset body) where
      store-Delivered :
          (r0 r : Receiver) (s : ActiveIncomingChunkSession) (fails : Option ℕ) (f : List ℕ)
          → s.target_file_path ≡ target job
          → HasFile job r.disk f
          → SessionOk r
          → Keeps job r0.disk r.disk
          → Delivered r0
              (store (r, s) (fields job total_chunks c is_usb now inside_file) body fails now).0
              (store (r, s) (fields job total_chunks c is_usb now inside_file) body fails now).1
      unfolding store settle write_body
      store-Delivered r0 r s none f here has ok_ keeps =
          let ((g, has_g), keeps_g, wrote_g) =
            write_body_lem job total_chunks c is_usb now inside_file r s body none f here has
              part in
          let s' =
            note_chunk s (fields job total_chunks c is_usb now inside_file) (length body) now in
          record {
            session =
                unfold settle in
                settle-SessionOk
                  (write_body r s (fields job total_chunks c is_usb now inside_file) body none) s' g
                  (note_chunk-target s (fields job total_chunks c is_usb now inside_file)
                      (length body)
                    ∙ here)
                  has_g;
            keeps = λ i a. keeps_g i (keeps i a);
            wrote = λ h i in_. wrote_g refl i (rw len_eq in_);
          }
      store-Delivered r0 r s (some k) f here has ok_ keeps =
          let ((g, has_g), keeps_g, wrote_g) =
            write_body_lem job total_chunks c is_usb now inside_file r s body (some k) f here has
              part in
          record {
            session = λ t found. ((ok_ t (found)).0, g, has_g);
            keeps = λ i a. keeps_g i (keeps i a);
            wrote = λ h. cc;
          }

      -- A receiver whose session is in order, whatever the operating system does, as long as the
      -- file can be resized.
      request-Delivered :
          (r : Receiver) (io : Io) (o : Option ActiveIncomingChunkSession)
          → get (received_key job) r.sessions ≡ o
          → io.resizes ≡ true
          → job.file_size ≡ length job.mmap
          → 0 < length job.mmap
          → SessionOk r
          → let opened =
              session_or_new o r (fields job total_chunks c is_usb now inside_file) io now in
            let after =
              store_if_open r opened
                (fields job total_chunks c is_usb now inside_file)
                body
                io.write_fails
                now in
            Delivered r after.0 after.1
      unfolding open_file
      request-Delivered r io (some s) e resizes size nonempty ok_ =
          let (here, f, has) = ok_ s e in
          store-Delivered r r s io.write_fails f here has ok_ (λ i a. a)
      request-Delivered r io none e resizes size nonempty ok_ = elim (Bool-cases io.opens) [
        | inr fails ↦ rw fails (record { session = ok_; keeps = λ i a. a; wrote = λ h. cc })
        | inl opens ↦
            let ((f, has), keeps) =
              open_file_lem job total_chunks c is_usb now inside_file r io resizes size nonempty in
            let s = new_session (fields job total_chunks c is_usb now inside_file) now in
            let same : (t : ActiveIncomingChunkSession)
                → get (received_key job)
                    (open_file r (fields job total_chunks c is_usb now inside_file) io now).sessions
                  ≡ some t
                → s ≡ t =
              λ t found. cc (get-put_same (received_key job) s r.sessions, found) in
            let here : s.target_file_path ≡ target job = unfold new_session in refl in
            rw opens (
              store-Delivered r
                (open_file r (fields job total_chunks c is_usb now inside_file) io now) s
                io.write_fails f here has
                (λ t found. (ap (λ x. x.target_file_path) (sym (same t found)) ∙ here, f, has))
                keeps)
      ]

-- A request about a chunk, of either kind of worker, at a receiver whose session is in order: the
-- session stays in order, no byte that is right is made wrong, and if the chunk is reported as
-- stored, then all its bytes are right.
pub receive-Delivered :
    (crc32 : List ℕ → ℕ) (sha256 : List ℕ → Text) (job : Job) (total_chunks : ℕ)
    (c : TransferChunkInfo) (req : ChunkRequest) (r : Receiver) (io : Io) (now : ℕ)
    (inside_file : c.offset + c.length ≤ length job.mmap)
    → IsRequestFor crc32 job total_chunks c req
    → Fits job total_chunks c
    → io.resizes ≡ true
    → job.file_size ≡ length job.mmap
    → 0 < length job.mmap
    → SessionOk job r
    → let after = receive_transfer_chunk crc32 sha256 r req io now in
      Delivered job total_chunks c (fields_of req).is_usb now inside_file r after.0 after.1
unfolding receive_transfer_chunk open_session
receive-Delivered crc32 sha256 job total_chunks c req r io now inside_file asks fits resizes size
      nonempty ok_ =
    let usb = (fields_of req).is_usb in
    let (len, part) = slice-IsPart job.mmap c.offset c.length inside_file in
    let len_eq : length req.body ≡ c.length = ap length asks.body ∙ len in
    let body_part : IsPart job.mmap c.offset req.body =
      subst (IsPart job.mmap c.offset) (sym asks.body) part in
    let e = request_fields crc32 sha256 job total_chunks c req asks fits in
    rw (request_intact crc32 sha256 job total_chunks c req asks) (
      subst
        (λ f.
          let opened = session_or_new (get f.transfer r.sessions) r f io now in
          let after = store_if_open r opened f req.body io.write_fails now in
          Delivered job total_chunks c usb now inside_file r after.0 after.1)
        (sym e)
        (request-Delivered job total_chunks c usb now inside_file req.body len_eq body_part r io
          (get (received_key job) r.sessions) refl resizes size nonempty ok_))
