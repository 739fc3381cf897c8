-- ===== src/Scheduler/Worker/Progress.antt =====
-- How a step of a worker of src/scheduler/dynamic_scheduler.rs moves a chunk from the check to the
-- disk.
use share_dash.Common.{
  ℕ, ◌≡◌, refl, ap, ◌⊎◌, inl, inr, if◌then◌else◌, Bool, true, false, List, Option, none, some, Text,
  arith, Result, ok, err, Floats,
}
use share_dash.Storage.Manifest.{ChunkInfo}
use share_dash.Storage.Integrity.{Mismatch, verify_chunk}
use share_dash.Scheduler.Worker.{
  Shared, Phase, Received, idle, ready, stealing, leaving, gone, requesting, waiting, written,
  recorded, corrupt, giving_back, checked, completed, frame, end_of_stream, failed, Input, Session,
  with_chunk, or_false, begin, take, steal_one, give_back, send_request, request, read_frame,
  receive, complete, leave, worker_step,
}

-- The payload is that of the chunk, by one of its hashes.
abbrev pub IsGenuine : Session → ChunkInfo → List ℕ → Type 0
IsGenuine session c payload =
    verify_chunk session.sha256 session.blake3 payload c.sha256 c.blake3 ≡ ok true

-- A worker that is about to write has checked the payload.
abbrev pub IsCareful : Session → Phase → Type 0
IsCareful session (checked c payload) = IsGenuine session c payload
IsCareful session _ = Unit {0}

-- The worker is about to write the chunk with this identifier.
abbrev pub IsWriting : Session → ℕ → Phase → Type 0
IsWriting session id ph =
    (c : ChunkInfo) × (payload : List ℕ) × (ph ≡ checked c payload)
    × (c.chunk_id ≡ id)
    × IsGenuine session c payload

-- The worker has written the chunk, and not yet told the pool.
abbrev pub IsBehind : ℕ → Phase → Type 0
IsBehind id (written c) = c.chunk_id ≡ id
IsBehind id (recorded c) = c.chunk_id ≡ id
IsBehind id _ = ⊥

genuine : (r : Result Mismatch Bool) → or_false r ≡ true → r ≡ ok true
genuine (ok b) e = ap ok e
genuine (err m) e = absurd (cc)

module _ (fl : Floats) (session : Session) (t : Text) where
  with_chunk-IsCareful :
      (o : Option ChunkInfo) (ph : Phase)
      → IsCareful session ph
      → IsCareful session (with_chunk o ph)
  with_chunk-IsCareful none ph h = h
  with_chunk-IsCareful (some c) ph h = tt

  with_chunk-not-IsBehind :
      (o : Option ChunkInfo) (ph : Phase) (id : ℕ) → IsBehind id (with_chunk o ph) → IsBehind id ph
  with_chunk-not-IsBehind none ph id h = h
  with_chunk-not-IsBehind (some c) ph id h = absurd h

  begin-IsCareful :
      (input : Input fl) (s : Shared) → IsCareful session (begin fl session t input s).1
  unfolding begin
  begin-IsCareful input s = ground arith

  begin-not-IsBehind :
      (input : Input fl) (s : Shared) (id : ℕ) → IsBehind id (begin fl session t input s).1 → ⊥
  unfolding begin
  begin-not-IsBehind input s id h = ground arith

  answer-IsCareful :
      (mine good : Bool) (c : ChunkInfo) (payload : List ℕ)
      → (good ≡ true → IsGenuine session c payload)
      → IsCareful session
          (if mine then (if good then checked c payload else corrupt c) else waiting c)
  answer-IsCareful true true c payload h = h refl
  answer-IsCareful true false c payload h = tt
  answer-IsCareful false good c payload h = tt

  answer-not-IsBehind :
      (mine good : Bool) (c : ChunkInfo) (payload : List ℕ) (id : ℕ)
      → IsBehind id (if mine then (if good then checked c payload else corrupt c) else waiting c)
      → ⊥
  answer-not-IsBehind true true c payload id h = h
  answer-not-IsBehind true false c payload id h = h
  answer-not-IsBehind false good c payload id h = h

  wait-IsCareful :
      (out : Bool) (c : ChunkInfo) (r : Received)
      → IsCareful session (if out then giving_back c else receive fl session t c r)
  unfolding receive read_frame
  wait-IsCareful true c r = tt
  wait-IsCareful false c end_of_stream = tt
  wait-IsCareful false c failed = tt
  wait-IsCareful false c (frame f) = answer-IsCareful _ _ c f.payload (genuine _)

  wait-not-IsBehind :
      (out : Bool) (c : ChunkInfo) (r : Received) (id : ℕ)
      → IsBehind id (if out then giving_back c else receive fl session t c r)
      → ⊥
  unfolding receive read_frame
  wait-not-IsBehind true c r id h = h
  wait-not-IsBehind false c end_of_stream id h = h
  wait-not-IsBehind false c failed id h = h
  wait-not-IsBehind false c (frame f) id h = answer-not-IsBehind _ _ c f.payload id h

  request-IsCareful :
      (fails : Bool) (c : ChunkInfo) (o : Option (List ℕ)) (s : Shared)
      → IsCareful session (send_request fl session t fails c o s).1
  unfolding send_request give_back
  request-IsCareful fails c none s = tt
  request-IsCareful true c (some payload) s = tt
  request-IsCareful false c (some payload) s = tt

  request-not-IsBehind :
      (fails : Bool) (c : ChunkInfo) (o : Option (List ℕ)) (s : Shared) (id : ℕ)
      → IsBehind id (send_request fl session t fails c o s).1
      → ⊥
  unfolding send_request give_back
  request-not-IsBehind fails c none s id h = h
  request-not-IsBehind true c (some payload) s id h = h
  request-not-IsBehind false c (some payload) s id h = h

  pub worker_step-IsCareful :
      (input : Input fl) (s : Shared) (ph : Phase)
      → IsCareful session (worker_step fl session t input s ph).1
  unfolding worker_step take steal_one request complete leave give_back
  worker_step-IsCareful input s idle = begin-IsCareful input s
  worker_step-IsCareful input s ready = with_chunk-IsCareful _ stealing tt
  worker_step-IsCareful input s stealing = with_chunk-IsCareful _ idle tt
  worker_step-IsCareful input s (requesting c) = request-IsCareful input.send_fails c _ _
  worker_step-IsCareful input s (waiting c) = wait-IsCareful input.timed_out c input.received
  worker_step-IsCareful input s _ = tt

  -- A worker that has written a chunk had written it before, or has just done so.
  pub worker_step-IsBehind :
      (input : Input fl) (s : Shared) (ph : Phase) (id : ℕ)
      → IsCareful session ph
      → IsBehind id (worker_step fl session t input s ph).1
      → IsBehind id ph ⊎ IsWriting session id ph
  unfolding worker_step take steal_one request complete leave give_back
  worker_step-IsBehind input s idle id v h = absurd (begin-not-IsBehind input s id h)
  worker_step-IsBehind input s ready id v h = absurd (with_chunk-not-IsBehind _ stealing id h)
  worker_step-IsBehind input s stealing id v h = absurd (with_chunk-not-IsBehind _ idle id h)
  worker_step-IsBehind input s (requesting c) id v h =
      absurd (request-not-IsBehind input.send_fails c _ _ id h)
  worker_step-IsBehind input s (waiting c) id v h =
      absurd (wait-not-IsBehind input.timed_out c input.received id h)
  worker_step-IsBehind input s (checked c payload) id v h = inr (c, payload, refl, h, v)
  worker_step-IsBehind input s (written c) id v h = inl h
  worker_step-IsBehind input s (recorded c) id v h = absurd h
  worker_step-IsBehind input s (completed c fresh) id v h = absurd h
  worker_step-IsBehind input s (corrupt c) id v h = absurd h
  worker_step-IsBehind input s (giving_back c) id v h = absurd h
  worker_step-IsBehind input s leaving id v h = absurd h
  worker_step-IsBehind input s gone id v h = absurd h
