-- ===== src/Upload/Delivery/Workers.antt =====
-- The workers (src/cli.rs, src/gui/engine.rs) keep the dispatcher in order, and complete only chunks
-- that the receiver has acknowledged.
use share_dash.Common.{
  ℕ, ◌+◌, ◌<◌, ◌≡◌, refl, ap, sym, ◌∙◌, ltb, true, ◌||◌, List, [], ◌∷◌, Option, none, some, Text,
  arith, contains, length, get_elem?, Bool-cases, inl, inr, Floats, get_elem?_past, subst,
}
use share_dash.Upload.Dispatcher.{
  DynamicWorkDispatcher, TransferChunkInfo, candidate, pop_stalled, pop_from, pop_chunk,
  mark_completed, mark_cancelled, retry, return_for_retry, is_done,
}
use share_dash.Upload.Dispatcher.Invariant.{
  IsId, IsWf, pop_chunk-IsWf, mark_completed-IsWf, mark_cancelled-IsWf, return_for_retry-IsWf,
}
use share_dash.Upload.Dispatcher.Histories.{pop_chunk-Moved, return_for_retry-chunks}
use share_dash.Upload.Sender.Answers.{Succeeds, gui_respond_cases, respond_cases}
use share_dash.Upload.Sender.{
  Job, Upload, guard_chunk, fetch, Answer, succeed, abort, give_back, respond, gui_respond,
}

-- The chunk stands at its number in the dispatcher's list.
abbrev pub IsChunk : List TransferChunkInfo → TransferChunkInfo → Type 0
IsChunk cs c = get_elem? cs c.chunk_id ≡ some c

-- The dispatcher of these chunks is in order, and what it counts as completed is acknowledged.
pub record IsSane (cs : List TransferChunkInfo) (acked : List ℕ) (d : DynamicWorkDispatcher)
    : Type 0 where
  pub chunks_eq : d.chunks ≡ cs
  pub wf : IsWf d
  pub acknowledged : (id : ℕ) → contains id d.completed ≡ true → contains id acked ≡ true

-- A position at which something stands is one of the list.
pub get_elem?-IsId :
    (cs : List TransferChunkInfo) (i : ℕ) (c : TransferChunkInfo)
    → get_elem? cs i ≡ some c
    → i < length cs
get_elem?-IsId cs i c h = elim (Bool-cases (ltb i (length cs))) [
  | inl in_ ↦ ground (arith, in_)
  | inr out ↦ absurd (cc (h, get_elem?_past cs i (ground (arith, out))))
]

module _ (fl : Floats) where
  -- What `pop_chunk` hands out stands in the list.
  pop_stalled-chunk :
      (d : DynamicWorkDispatcher) (o : Option ℕ) (t : Text) (now : ℕ) (c : TransferChunkInfo)
      → (pop_stalled fl d o t now).1 ≡ some c
      → (cid : ℕ) × (get_elem? d.chunks cid ≡ some c)
  unfolding pop_stalled
  pop_stalled-chunk d none t now c h = cc
  pop_stalled-chunk d (some cid) t now c h = (cid, h)

  pop_from-chunk :
      (d : DynamicWorkDispatcher) (xs : List ℕ) (t : Text) (now : ℕ) (c : TransferChunkInfo)
      → (pop_from fl d xs t now).1 ≡ some c
      → (cid : ℕ) × (get_elem? d.chunks cid ≡ some c)
  unfolding pop_from
  pop_from-chunk d [] t now c h = pop_stalled-chunk d (candidate fl now t d.in_flight) t now c h
  pop_from-chunk d (cid ∷ rest) t now c h = (cid, h)

  pub pop_chunk-IsChunk :
      (d : DynamicWorkDispatcher) (t : Text) (now : ℕ) (c : TransferChunkInfo)
      → IsWf d
      → (pop_chunk fl d t now).1 ≡ some c
      → IsChunk d.chunks c
  unfolding pop_chunk
  pop_chunk-IsChunk d t now c v h = elim (Bool-cases (d.cancelled || d.fatal_error)) [
    | inl over ↦ absurd (cc (rw over at h))
    | inr going ↦
        let (cid, at) = pop_from-chunk d d.unassigned t now c (rw going at h) in
        ap (get_elem? d.chunks) (v.numbered cid c at) ∙ at
  ]

module _ (cs : List TransferChunkInfo) (acked : List ℕ) where
  pop_chunk-IsSane :
      (fl : Floats) (d : DynamicWorkDispatcher) (t : Text) (now : ℕ)
      → IsSane cs acked d
      → IsSane cs acked (pop_chunk fl d t now).0
  pop_chunk-IsSane fl d t now v =
      let moved = (pop_chunk-Moved fl d t now).2 in
      record {
        chunks_eq = ap (λ e. e.chunks) moved ∙ v.chunks_eq;
        wf = pop_chunk-IsWf fl d t now v.wf;
        acknowledged =
            λ id h. v.acknowledged id (ap (λ e. contains id e.completed) (sym moved) ∙ h);
      }

  return_for_retry-IsSane :
      (d : DynamicWorkDispatcher) (c : TransferChunkInfo)
      → IsChunk cs c
      → IsSane cs acked d
      → IsSane cs acked (return_for_retry d c.chunk_id)
  return_for_retry-IsSane d c at v =
      let known : IsId d c.chunk_id = rw v.chunks_eq (get_elem?-IsId cs c.chunk_id c at) in
      let same : (return_for_retry d c.chunk_id).completed ≡ d.completed =
        unfold return_for_retry retry in ground arith in
      record {
        chunks_eq = return_for_retry-chunks d c.chunk_id ∙ v.chunks_eq;
        wf = return_for_retry-IsWf d c.chunk_id known v.wf;
        acknowledged = λ id h. v.acknowledged id (ap (contains id) (sym same) ∙ h);
      }

  mark_cancelled-IsSane :
      (d : DynamicWorkDispatcher) → IsSane cs acked d → IsSane cs acked (mark_cancelled d)
  mark_cancelled-IsSane d v =
      unfold mark_cancelled in
      record {
        chunks_eq = v.chunks_eq;
        wf = mark_cancelled-IsWf d v.wf;
        acknowledged = v.acknowledged;
      }

  mark_completed-IsSane :
      (d : DynamicWorkDispatcher) (c : TransferChunkInfo)
      → IsChunk cs c
      → contains c.chunk_id acked ≡ true
      → IsSane cs acked d
      → IsSane cs acked (mark_completed d c.chunk_id).0
  mark_completed-IsSane d c at known v =
      let id_known : IsId d c.chunk_id = rw v.chunks_eq (get_elem?-IsId cs c.chunk_id c at) in
      unfold mark_completed in
      record {
        chunks_eq = v.chunks_eq;
        wf = mark_completed-IsWf d c.chunk_id id_known v.wf;
        acknowledged = λ id h. ground (arith, v.acknowledged id, known, h);
      }

  -- The rounds of both workers.
  guard_chunk-IsSane :
      (u : Upload) (job : Job) (o : Option TransferChunkInfo)
      → ((c : TransferChunkInfo) → o ≡ some c → IsChunk cs c)
      → IsSane cs acked u.dispatcher
      → IsSane cs acked (guard_chunk u job o).0.dispatcher
  unfolding guard_chunk
  guard_chunk-IsSane u job none h v = v
  guard_chunk-IsSane u job (some c) h v =
      elim (Bool-cases (u.stop_flag || u.dispatcher.cancelled)) [
        | inl stop ↦ rw stop v
        | inr going ↦ elim (Bool-cases (ltb (length job.mmap) (c.offset + c.length))) [
          | inl far ↦ rw (going, far) (return_for_retry-IsSane u.dispatcher c (h c refl) v)
          | inr fine ↦ rw (going, fine) v
        ]
      ]

  pub fetch-IsSane :
      (fl : Floats) (u : Upload) (job : Job) (t : Text) (now : ℕ)
      → IsSane cs acked u.dispatcher
      → IsSane cs acked (fetch fl u job t now).0.dispatcher
  unfolding fetch
  fetch-IsSane fl u job t now v = elim (Bool-cases (u.stop_flag || is_done u.dispatcher)) [
    | inl over ↦ rw over v
    | inr going ↦ rw going (
        guard_chunk-IsSane (record u { dispatcher = (pop_chunk fl u.dispatcher t now).0 }) job
          (pop_chunk fl u.dispatcher t now).1
          (λ c h.
            subst (λ xs. IsChunk xs c) v.chunks_eq
              (pop_chunk-IsChunk fl u.dispatcher t now c v.wf h))
          (pop_chunk-IsSane fl u.dispatcher t now v))
  ]

  module _ (u : Upload) (channel : ℕ) (c : TransferChunkInfo) (at : IsChunk cs c)
      (v : IsSane cs acked u.dispatcher) where
    succeed-IsSane :
        contains c.chunk_id acked ≡ true → IsSane cs acked (succeed u channel c).dispatcher
    unfolding succeed
    succeed-IsSane known =
        let after = mark_completed-IsSane u.dispatcher c at known v in
        elim (Bool-cases (mark_completed u.dispatcher c.chunk_id).1) [
          | inl new ↦ rw new after
          | inr old ↦ rw old after
        ]

    pub abort-IsSane : IsSane cs acked (abort u).dispatcher
    abort-IsSane = unfold abort in mark_cancelled-IsSane u.dispatcher v

    give_back-IsSane : IsSane cs acked (give_back u c).dispatcher
    give_back-IsSane = unfold give_back in return_for_retry-IsSane u.dispatcher c at v

    pub gui_respond-IsSane :
        (answer : Answer)
        → (Succeeds answer → contains c.chunk_id acked ≡ true)
        → IsSane cs acked (gui_respond u channel c answer).0.dispatcher
    gui_respond-IsSane answer h =
        gui_respond_cases (λ x. IsSane cs acked x.dispatcher) u channel c v abort-IsSane
          give_back-IsSane answer (λ k. succeed-IsSane (h k))

    pub respond-IsSane :
        (answer : Answer)
        → (Succeeds answer → contains c.chunk_id acked ≡ true)
        → IsSane cs acked (respond u channel c answer).0.dispatcher
    respond-IsSane answer h =
        respond_cases (λ x. IsSane cs acked x.dispatcher) u channel c v abort-IsSane
          give_back-IsSane answer (λ k. succeed-IsSane (h k))
