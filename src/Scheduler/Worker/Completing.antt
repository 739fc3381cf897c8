-- ===== src/Scheduler/Worker/Completing.antt =====
-- What a step of a worker of src/scheduler/dynamic_scheduler.rs does to the completed set of the
-- pool.
use share_dash.Common.{
  ℕ, ◌≡◌, refl, sym, ap, ◌∙◌, ◌⊎◌, inl, Bool, true, false, List, [], ◌∷◌, Option, none, some, Text,
  arith, contains, Floats,
}
use share_dash.Scheduler.Worker.Progress.{IsBehind}
use share_dash.Storage.Manifest.{ChunkInfo}
use share_dash.Scheduler.Pool.{
  Pool, dispatch, take_from, take_next_unassigned, steal, find_stalled, steal_stalled_chunk,
  mark_completed, return_all_from_transport, held_by,
}
use share_dash.Scheduler.Pool.Disconnect.{return_to_pool-completed, return_all-completed}
use share_dash.Scheduler.Worker.{
  Shared, Phase, idle, ready, stealing, leaving, gone, requesting, waiting, written, recorded,
  corrupt, giving_back, checked, completed, Input, Session, begin, take, steal_one, give_back,
  send_request, request, complete, leave, acknowledge, worker_step,
}

module _ (fl : Floats) where
  open fl use {F64}

  take-completed :
      (p : Pool) (t : Text) (mbps rtt : F64) (now : ℕ)
      → (take_next_unassigned fl p t mbps rtt now).0.completed ≡ p.completed
  unfolding take_next_unassigned take_from dispatch
  take-completed p t mbps rtt now = from_queue p.unassigned
    where
      from_queue : (xs : List ℕ) → (take_from fl p xs t mbps rtt now).0.completed ≡ p.completed
      from_queue [] = refl
      from_queue (id ∷ rest) = ground arith

  steal-completed :
      (p : Pool) (t : Text) (now : ℕ) → (steal_stalled_chunk fl p t now).0.completed ≡ p.completed
  unfolding steal_stalled_chunk steal
  steal-completed p t now =
      of_candidate (find_stalled fl now t p.in_flight none (fl.decimal 15 1)).0
    where
      of_candidate : (o : Option ℕ) → (steal fl p t o).0.completed ≡ p.completed
      of_candidate none = refl
      of_candidate (some id) = refl

  mark-completed :
      (p : Pool) (c id : ℕ)
      → contains id (mark_completed p c).0.completed ≡ true
      → (contains id p.completed ≡ true) ⊎ (c ≡ id)
  unfolding mark_completed
  mark-completed p c id h = ground arith

  -- Whether a step leaves the completed chunks as they are, or completes one that is written.
  abbrev pub Completes : ℕ → List ℕ → List ℕ → Phase → Type 0
  Completes id before after ph =
      contains id after ≡ true → (contains id before ≡ true) ⊎ IsBehind id ph

  same-Completes :
      (id : ℕ) (before after : List ℕ) (ph : Phase) → after ≡ before → Completes id before after ph
  same-Completes id before after ph e h = inl (ap (contains id) (sym e) ∙ h)

  request-Completes :
      (session : Session) (t : Text) (fails : Bool) (c : ChunkInfo) (o : Option (List ℕ))
      (s : Shared)
      → (send_request fl session t fails c o s).0.pool.completed ≡ s.pool.completed
  unfolding send_request give_back
  request-Completes session t fails c none s = return_to_pool-completed s.pool c.chunk_id
  request-Completes session t true c (some payload) s = return_to_pool-completed s.pool c.chunk_id
  request-Completes session t false c (some payload) s = refl

  begin-Completes :
      (session : Session) (t : Text) (input : Input fl) (s : Shared)
      → (begin fl session t input s).0.pool.completed ≡ s.pool.completed
  unfolding begin
  begin-Completes session t input s = ground arith

  leave-Completes :
      (session : Session) (t : Text) (s : Shared)
      → (leave fl session t s).0.pool.completed ≡ s.pool.completed
  unfolding leave return_all_from_transport
  leave-Completes session t s = return_all-completed s.pool (held_by t s.pool.in_flight)

  pub worker_step-Completes :
      (session : Session) (t : Text) (input : Input fl) (s : Shared) (ph : Phase) (id : ℕ)
      → Completes id s.pool.completed (worker_step fl session t input s ph).0.pool.completed ph
  unfolding worker_step take steal_one request complete give_back acknowledge
  worker_step-Completes session t input s idle id =
      same-Completes id _ _ idle (begin-Completes session t input s)
  worker_step-Completes session t input s ready id =
      same-Completes id _ _ ready
        (take-completed s.pool t input.current_mbps input.rtt_ms input.now)
  worker_step-Completes session t input s stealing id =
      same-Completes id _ _ stealing (steal-completed s.pool t input.now)
  worker_step-Completes session t input s (requesting c) id =
      same-Completes id _ _ (requesting c)
        (request-Completes session t input.send_fails c _ (record s { visual_map = _ }))
  worker_step-Completes session t input s (recorded c) id =
      λ h. mark-completed s.pool c.chunk_id id h
  worker_step-Completes session t input s (corrupt c) id =
      same-Completes id _ _ (corrupt c) (return_to_pool-completed s.pool c.chunk_id)
  worker_step-Completes session t input s (giving_back c) id =
      same-Completes id _ _ (giving_back c) (return_to_pool-completed s.pool c.chunk_id)
  worker_step-Completes session t input s leaving id =
      same-Completes id _ _ leaving (leave-Completes session t s)
  worker_step-Completes session t input s (waiting c) id = λ h. inl h
  worker_step-Completes session t input s (checked c payload) id = λ h. inl h
  worker_step-Completes session t input s (written c) id = λ h. inl h
  worker_step-Completes session t input s (completed c fresh) id = λ h. inl h
  worker_step-Completes session t input s gone id = λ h. inl h
