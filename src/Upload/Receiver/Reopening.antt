-- ===== src/Upload/Receiver/Reopening.antt =====
-- What becomes of a transfer in receive_transfer_chunk (src/server/api.rs) when a request comes after
-- the last chunk, and of a file that is there already when an empty one is sent.
use share_dash.Common.{
  ℕ, ◌+◌, ◌<◌, ◌≤◌, ◌≡◌, refl, ap, ◌∙◌, true, false, List, [], ◌∷◌, none, some, Text, arith,
  contains, length, get, get-put_same,
}
use share_dash.Storage.SparseWriter.{read, write_at}
use share_dash.Storage.SparseWriter.Files.{read_saved}
use share_dash.Upload.Request.{ChunkRequest, Fields, fields_of, is_intact}
use share_dash.Upload.Receiver.{
  ActiveIncomingChunkSession, Receiver, stored, new_session, open_file, open_session, write_body,
  note_chunk, is_all_done, settle, store, receive_transfer_chunk,
}
use share_dash.Upload.Receiver.Sessions.{works, note_chunk-received, closes_by_count}

module _ (crc32 : List ℕ → ℕ) (sha256 : List ℕ → Text) where
  settle_going :
      (r : Receiver) (f : Fields) (s : ActiveIncomingChunkSession)
      → is_all_done s ≡ false
      → (get f.transfer (settle r f s).0.sessions ≡ some s)
        × ((settle r f s).1 ≡ stored f.id (length s.received_chunks) s.total_chunks)
  unfolding settle
  settle_going r f s going = (rw going (get-put_same f.transfer s r.sessions), refl)

  -- The first chunk of a transfer of several chunks opens its session.
  opens_session :
      (r : Receiver) (req : ChunkRequest) (now : ℕ)
      → is_intact crc32 sha256 req ≡ true
      → get (fields_of req).transfer r.sessions ≡ none
      → 1 < (fields_of req).total
      → let after = receive_transfer_chunk crc32 sha256 r req works now in
        ((s : ActiveIncomingChunkSession) × (get (fields_of req).transfer after.0.sessions ≡ some s)
          × (s.received_chunks ≡ (fields_of req).id ∷ []))
        × (after.1 ≡ stored (fields_of req).id 1 (fields_of req).total)
  unfolding receive_transfer_chunk open_session store
  opens_session r req now good absent many =
      let f = fields_of req in
      let s = new_session f now in
      let s' = note_chunk s f (length req.body) now in
      let none_yet : s.received_chunks ≡ [] = unfold new_session in refl in
      let told : s.total_chunks ≡ f.total = unfold new_session in refl in
      let (chunks, total) =
        note_chunk-received s f (length req.body) now (unfold new_session in refl) in
      let one : s'.received_chunks ≡ f.id ∷ [] = chunks ∙ ap (◌∷◌ f.id) none_yet in
      let n : length s'.received_chunks ≡ 1 = ap length one in
      let in_all : s'.total_chunks ≡ f.total = total ∙ told in
      let going : is_all_done s' ≡ false = ground (arith, n, in_all, many) in
      let settled =
        settle_going (write_body (open_file r f works now) s f req.body none) f s' going in
      let counts : stored f.id (length s'.received_chunks) s'.total_chunks ≡ stored f.id 1 f.total =
        cc (n, in_all) in
      rw (good, absent) ((s', settled.0, one), settled.1 ∙ counts)

  -- When the chunk that completes a transfer of several chunks comes in once more, as after a lost
  -- response, the closed session is opened again: it has one chunk, and the transfer counts as
  -- unfinished from then on, although all its chunks are there.
  pub late_duplicate_reopens :
      (r : Receiver) (req : ChunkRequest) (s : ActiveIncomingChunkSession) (now later : ℕ)
      → is_intact crc32 sha256 req ≡ true
      → get (fields_of req).transfer r.sessions ≡ some s
      → contains (fields_of req).id s.received_chunks ≡ false
      → s.total_chunks ≤ length s.received_chunks + 1
      → 1 < (fields_of req).total
      → let first = receive_transfer_chunk crc32 sha256 r req works now in
        let second = receive_transfer_chunk crc32 sha256 first.0 req works later in
        (get (fields_of req).transfer first.0.sessions ≡ none)
        × (t : ActiveIncomingChunkSession) × (get (fields_of req).transfer second.0.sessions
            ≡ some t)
        × (t.received_chunks ≡ (fields_of req).id ∷ [])
        × (second.1 ≡ stored (fields_of req).id 1 (fields_of req).total)
  late_duplicate_reopens r req s now later good found new last many =
      let closed = closes_by_count crc32 sha256 r req s now good found new last in
      let first = (receive_transfer_chunk crc32 sha256 r req works now).0 in
      let ((t, at, one), answer) = opens_session first req later good closed.0 many in
      (closed.0, t, at, one, answer)

  -- An empty file that is sent, in its one chunk without bytes, leaves a file of the same name that
  -- is there already as it was, and is reported as complete.
  pub empty_file_keeps_old :
      (r : Receiver) (req : ChunkRequest) (old : List ℕ) (now : ℕ)
      → is_intact crc32 sha256 req ≡ true
      → get (fields_of req).transfer r.sessions ≡ none
      → (fields_of req).total ≡ 1
      → (fields_of req).size ≡ 0
      → req.body ≡ []
      → read ((fields_of req).name ∷ []) r.disk ≡ some old
      → let after = receive_transfer_chunk crc32 sha256 r req works now in
        (read ((fields_of req).name ∷ []) after.0.disk ≡ some old)
        × (after.1 ≡ stored (fields_of req).id 1 1)
  unfolding receive_transfer_chunk open_session store settle write_body open_file write_at
      new_session
  empty_file_keeps_old r req old now good absent one_chunk no_bytes empty there =
      let f = fields_of req in
      let s = new_session f now in
      let s' = note_chunk s f (length req.body) now in
      let (chunks, total) = note_chunk-received s f (length req.body) now refl in
      let n : length s'.received_chunks ≡ 1 = ap length chunks in
      let in_all : s'.total_chunks ≡ 1 = total ∙ one_chunk in
      let counts : stored f.id (length s'.received_chunks) s'.total_chunks ≡ stored f.id 1 1 =
        cc (n, in_all) in
      let p = f.name ∷ [] in
      let opened = open_file r f works now in
      let as_it_was : read p opened.disk ≡ some old =
        rw (no_bytes, there) (read_saved p old r.disk) in
      let nothing_written : read p (write_body opened s f [] none).disk ≡ some old =
        rw as_it_was (read_saved p old opened.disk) in
      (
        rw (good, absent)
            (ap (λ b. read p (write_body opened s f b none).disk) empty ∙ nothing_written),
        rw (good, absent) counts,
      )
