-- ===== src/Scheduler/Worker/Soundness.antt =====
-- What one step of a worker of src/scheduler/dynamic_scheduler.rs does to the pool.
use share_dash.Common.{
  ℕ, ◌≡◌, refl, sym, ap, ◌∙◌, ◌⊎◌, inl, inr, if◌then◌else◌, Bool, true, false, List, [], ◌∷◌,
  Option, none, some, Text, arith, lookup, has_key-lookup, Option-cases, Floats,
}
use share_dash.Protocol.Frame.Codec.{Frame}
use share_dash.Storage.Manifest.{ChunkInfo}
use share_dash.Scheduler.Pool.{
  Pool, dispatch, take_from, take_next_unassigned, steal, find_stalled, steal_stalled_chunk,
  return_to_pool,
}
use share_dash.Scheduler.Pool.Invariant.{IsWf}
use share_dash.Scheduler.Pool.Histories.{Step, takes, steals, completes, returns, loses, Step-Kept}
use share_dash.Scheduler.Worker.{
  Shared, Phase, Received, idle, ready, stealing, leaving, gone, requesting, waiting, written,
  recorded, corrupt, giving_back, checked, completed, frame, end_of_stream, failed, Input, Session,
  with_chunk, begin, take, steal_one, give_back, send_request, request, read_frame, receive,
  complete, acknowledge, leave, worker_step,
}

-- The chunk in a worker's hand is the pool's own.
abbrev pub IsHeld : Pool → Phase → Type 0
IsHeld p (requesting c) = lookup c.chunk_id p.chunks ≡ some c
IsHeld p (waiting c) = lookup c.chunk_id p.chunks ≡ some c
IsHeld p (written c) = lookup c.chunk_id p.chunks ≡ some c
IsHeld p (recorded c) = lookup c.chunk_id p.chunks ≡ some c
IsHeld p (corrupt c) = lookup c.chunk_id p.chunks ≡ some c
IsHeld p (giving_back c) = lookup c.chunk_id p.chunks ≡ some c
IsHeld p (checked c payload) = lookup c.chunk_id p.chunks ≡ some c
IsHeld p (completed c fresh) = lookup c.chunk_id p.chunks ≡ some c
IsHeld p _ = Unit {0}

pub IsHeld-keeps : (p q : Pool) (ph : Phase) → q.chunks ≡ p.chunks → IsHeld p ph → IsHeld q ph
IsHeld-keeps p q (requesting c) e h = ap (lookup c.chunk_id) e ∙ h
IsHeld-keeps p q (waiting c) e h = ap (lookup c.chunk_id) e ∙ h
IsHeld-keeps p q (written c) e h = ap (lookup c.chunk_id) e ∙ h
IsHeld-keeps p q (recorded c) e h = ap (lookup c.chunk_id) e ∙ h
IsHeld-keeps p q (corrupt c) e h = ap (lookup c.chunk_id) e ∙ h
IsHeld-keeps p q (giving_back c) e h = ap (lookup c.chunk_id) e ∙ h
IsHeld-keeps p q (checked c payload) e h = ap (lookup c.chunk_id) e ∙ h
IsHeld-keeps p q (completed c fresh) e h = ap (lookup c.chunk_id) e ∙ h
IsHeld-keeps p q idle e h = tt
IsHeld-keeps p q ready e h = tt
IsHeld-keeps p q stealing e h = tt
IsHeld-keeps p q leaving e h = tt
IsHeld-keeps p q gone e h = tt

own :
    (p : Pool) (id : ℕ) (c : ChunkInfo)
    → IsWf p
    → lookup id p.chunks ≡ some c
    → lookup c.chunk_id p.chunks ≡ some c
own p id c v e = ap (λ i. lookup i p.chunks) (v.named id c e) ∙ e

module _ (fl : Floats) where
  open fl use {F64}

  dispatch-gives :
      (p : Pool) (id : ℕ) (t : Text) (mbps rtt : F64) (now : ℕ)
      → (dispatch fl p id t mbps rtt now).1 ≡ lookup id p.chunks
  dispatch-gives p id t mbps rtt now = elim (Option-cases (lookup id p.chunks)) [
    | inl none_ ↦ unfold dispatch in rw (none_, dispatch) refl
    | inr (d, found) ↦ unfold dispatch in rw (found, dispatch) refl
  ]

  take-own :
      (p : Pool) (xs : List ℕ) (t : Text) (mbps rtt : F64) (now : ℕ) (c : ChunkInfo)
      → IsWf p
      → (take_from fl p xs t mbps rtt now).1 ≡ some c
      → lookup c.chunk_id p.chunks ≡ some c
  unfolding take_from
  take-own p [] t mbps rtt now c v e = absurd (cc)
  take-own p (id ∷ rest) t mbps rtt now c v e =
      own p id c v (sym (dispatch-gives (record p { unassigned = rest }) id t mbps rtt now) ∙ e)

  steal-own :
      (p : Pool) (t : Text) (o : Option ℕ) (c : ChunkInfo)
      → IsWf p
      → (steal fl p t o).1 ≡ some c
      → lookup c.chunk_id p.chunks ≡ some c
  unfolding steal
  steal-own p t none c v e = absurd (cc)
  steal-own p t (some id) c v e = own p id c v e

  take_next-own :
      (p : Pool) (t : Text) (mbps rtt : F64) (now : ℕ) (c : ChunkInfo)
      → IsWf p
      → (take_next_unassigned fl p t mbps rtt now).1 ≡ some c
      → lookup c.chunk_id p.chunks ≡ some c
  unfolding take_next_unassigned
  take_next-own p t mbps rtt now c v e = take-own p p.unassigned t mbps rtt now c v e

  stolen-own :
      (p : Pool) (t : Text) (now : ℕ) (c : ChunkInfo)
      → IsWf p
      → (steal_stalled_chunk fl p t now).1 ≡ some c
      → lookup c.chunk_id p.chunks ≡ some c
  unfolding steal_stalled_chunk
  stolen-own p t now c v e =
      steal-own p t (find_stalled fl now t p.in_flight none (fl.decimal 15 1)).0 c v e

  with_chunk-IsHeld :
      (p q : Pool) (o : Option ChunkInfo) (otherwise_ : Phase)
      → q.chunks ≡ p.chunks
      → IsHeld q otherwise_
      → ((c : ChunkInfo) → o ≡ some c → lookup c.chunk_id p.chunks ≡ some c)
      → IsHeld q (with_chunk o otherwise_)
  with_chunk-IsHeld p q none otherwise_ e h own_ = h
  with_chunk-IsHeld p q (some c) otherwise_ e h own_ = ap (lookup c.chunk_id) e ∙ own_ c refl

  -- What a step does to the pool: nothing, or one of its operations.
  abbrev pub Moves : Pool → Pool → Type 0
  Moves p q = (q ≡ p) ⊎ Step fl p q

  abbrev IsSound : Pool → Shared × Phase → Type 0
  IsSound p r = Moves p r.0.pool × IsHeld r.0.pool r.1

  module _ (session : Session) (t : Text) (input : Input fl) (s : Shared) (v : IsWf s.pool) where
    begin-IsSound : IsSound s.pool (begin fl session t input s)
    unfolding begin
    begin-IsSound = ground arith

    take-IsSound : IsSound s.pool (take fl session t input s)
    unfolding take
    take-IsSound =
        let step = takes t input.current_mbps input.rtt_ms input.now in
        (
          inr step,
          with_chunk-IsHeld s.pool
              (take_next_unassigned fl s.pool t input.current_mbps input.rtt_ms input.now).0 _
              stealing (Step-Kept step).chunks tt
              (λ c e. take_next-own s.pool t input.current_mbps input.rtt_ms input.now c v e),
        )

    steal_one-IsSound : IsSound s.pool (steal_one fl session t input s)
    unfolding steal_one
    steal_one-IsSound =
        let step = steals t input.now in
        (
          inr step,
          with_chunk-IsHeld s.pool (steal_stalled_chunk fl s.pool t input.now).0 _ idle
              (Step-Kept step).chunks tt (λ c e. stolen-own s.pool t input.now c v e),
        )

    module _ (c : ChunkInfo) (at : lookup c.chunk_id s.pool.chunks ≡ some c) where
      back : Step fl s.pool (return_to_pool s.pool c.chunk_id)
      back = returns c.chunk_id (has_key-lookup c.chunk_id s.pool.chunks c at)

      back_at : lookup c.chunk_id (return_to_pool s.pool c.chunk_id).chunks ≡ some c
      back_at = ap (lookup c.chunk_id) (Step-Kept back).chunks ∙ at

      give_back-IsSound :
          (later : Phase)
          → IsHeld (return_to_pool s.pool c.chunk_id) later
          → IsSound s.pool (give_back fl session t c later s)
      unfolding give_back
      give_back-IsSound later h = (inr back, h)

      send_request-IsSound :
          (fails : Bool) (o : Option (List ℕ))
          → IsSound s.pool (send_request fl session t fails c o s)
      unfolding send_request give_back
      send_request-IsSound fails none = (inr back, tt)
      send_request-IsSound true (some payload) = (inr back, tt)
      send_request-IsSound false (some payload) = (inl refl, at)

      read_frame-IsHeld : (f : Frame) → IsHeld s.pool (read_frame fl session t c f)
      unfolding read_frame
      read_frame-IsHeld f = ground (arith, at)

      receive-IsHeld : (r : Received) → IsHeld s.pool (receive fl session t c r)
      unfolding receive
      receive-IsHeld (frame f) = read_frame-IsHeld f
      receive-IsHeld end_of_stream = at
      receive-IsHeld failed = at

      wait-IsHeld :
          (out : Bool) (r : Received)
          → IsHeld s.pool (if out then giving_back c else receive fl session t c r)
      wait-IsHeld true r = at
      wait-IsHeld false r = receive-IsHeld r

      complete-IsSound : IsSound s.pool (complete fl session t c s)
      unfolding complete
      complete-IsSound =
          let step = completes c.chunk_id (has_key-lookup c.chunk_id s.pool.chunks c at) in
          (inr step, ap (lookup c.chunk_id) (Step-Kept step).chunks ∙ at)

  pub worker_step-IsSound :
      (session : Session) (t : Text) (input : Input fl) (s : Shared) (ph : Phase)
      → IsWf s.pool
      → IsHeld s.pool ph
      → IsSound s.pool (worker_step fl session t input s ph)
  unfolding worker_step request acknowledge leave give_back
  worker_step-IsSound session t input s idle v h = begin-IsSound session t input s v
  worker_step-IsSound session t input s ready v h = take-IsSound session t input s v
  worker_step-IsSound session t input s stealing v h = steal_one-IsSound session t input s v
  worker_step-IsSound session t input s leaving v h = (inr (loses t), tt)
  worker_step-IsSound session t input s gone v h = (inl refl, tt)
  worker_step-IsSound session t input s (requesting c) v h =
      send_request-IsSound session t input (record s { visual_map = _ }) v c h input.send_fails _
  worker_step-IsSound session t input s (waiting c) v h =
      (inl refl, wait-IsHeld session t input s v c h input.timed_out input.received)
  worker_step-IsSound session t input s (checked c payload) v h = (inl refl, h)
  worker_step-IsSound session t input s (written c) v h = (inl refl, h)
  worker_step-IsSound session t input s (recorded c) v h = complete-IsSound session t input s v c h
  worker_step-IsSound session t input s (completed c fresh) v h = (inl refl, tt)
  worker_step-IsSound session t input s (corrupt c) v h =
      (inr (back session t input s v c h), back_at session t input s v c h)
  worker_step-IsSound session t input s (giving_back c) v h =
      (inr (back session t input s v c h), tt)
