-- ===== src/Upload/Dispatcher/Histories.antt =====
-- Any sequence of the calls that the workers make on DynamicWorkDispatcher of src/cli.rs.
use share_dash.Common.{
  ℕ, zero, suc, ◌+◌, ◌≤◌, ◌<◌, ◌≡◌, ◌↔◌, refl, ap, inl, inr, true, ◌||◌, List, [], ◌∷◌, Option,
  none, some, Text, arith, contains, length, lookup, insert, get_elem?, All, Bool-cases, Floats,
}
use share_dash.Upload.Dispatcher.{
  DynamicWorkDispatcher, TransferChunkInfo, ids, dispatcher_of, candidate, pop_stalled, pop_from,
  pop_chunk, mark_completed, mark_cancelled, retry, return_for_retry,
}
use share_dash.Upload.Dispatcher.Layout.{Tiles}
use share_dash.Upload.Dispatcher.Invariant.{
  IsWf, mark_completed-IsWf, mark_cancelled-IsWf, return_for_retry-IsWf, pop_chunk-IsWf,
}

module _ (low high total : ℕ) where
  -- The chunks stand at the positions of their numbers.
  pub Tiles-numbered :
      (offset n : ℕ) (cs : List TransferChunkInfo) (i : ℕ) (c : TransferChunkInfo)
      → Tiles low high total offset n cs
      → get_elem? cs i ≡ some c
      → c.chunk_id ≡ n + i
  Tiles-numbered offset n [] i c t h = cc
  Tiles-numbered offset n (d ∷ ds) zero c t h =
      let same : d ≡ c = cc h in omega (arith, t.0.chunk_id_eq, ap (λ x. x.chunk_id) same)
  Tiles-numbered offset n (d ∷ ds) (suc i) c t h =
      omega (arith, Tiles-numbered (offset + d.length) (suc n) ds i c t.1 h)

  -- The queue holds exactly the numbers from `n` on.
  Tiles-ids :
      (offset n : ℕ) (cs : List TransferChunkInfo) (id : ℕ)
      → Tiles low high total offset n cs
      → (contains id (ids cs) ≡ true) ↔ ((n ≤ id) × (id < n + length cs))
  unfolding ids
  Tiles-ids offset n [] id t = ground arith
  Tiles-ids offset n (c ∷ cs) id t =
      let rest = Tiles-ids (offset + c.length) (suc n) cs id t.1 in
      ground (arith, rest, t.0.chunk_id_eq)

  pub dispatcher_of-IsWf :
      (cs : List TransferChunkInfo) → Tiles low high total 0 0 cs → IsWf (dispatcher_of cs)
  unfolding dispatcher_of lookup
  dispatcher_of-IsWf cs t =
      let queue = λ (id : ℕ). Tiles-ids 0 0 cs id t in
      record {
        numbered = λ i c h. omega (arith, Tiles-numbered 0 0 cs i c t h);
        known_unassigned = λ id h. ground (arith, queue id, h);
        known_in_flight = λ id h. cc;
        known_completed = λ id h. cc;
        once = tt;
        somewhere = λ id a b h. ground (arith, queue id, h);
        counted = λ id n h. cc;
        failed = λ h. cc;
      }

-- The calls that change the dispatcher.
pub data Call : Type 0 where
  pop : Text → ℕ → Call
  complete give_back : ℕ → Call
  cancel : Call

abbrev pub step : Floats → DynamicWorkDispatcher → Call → DynamicWorkDispatcher
step fl d (pop t now) = (pop_chunk fl d t now).0
step fl d (complete id) = (mark_completed d id).0
step fl d (give_back id) = return_for_retry d id
step fl d cancel = mark_cancelled d

abbrev pub run : Floats → DynamicWorkDispatcher → List Call → DynamicWorkDispatcher
run fl d [] = d
run fl d (call ∷ calls) = run fl (step fl d call) calls

-- A worker completes or gives back only chunks that the dispatcher has.
abbrev pub IsCall : ℕ → Call → Type 0
IsCall n (pop t now) = Unit {0}
IsCall n (complete id) = id < n
IsCall n (give_back id) = id < n
IsCall n cancel = Unit {0}

pub return_for_retry-chunks :
    (d : DynamicWorkDispatcher) (id : ℕ) → (return_for_retry d id).chunks ≡ d.chunks
unfolding return_for_retry retry
return_for_retry-chunks d id = ground arith

-- What `pop_chunk` changes at most.
abbrev pub Moved : DynamicWorkDispatcher → DynamicWorkDispatcher → Type 0
Moved d e =
    (queue : List ℕ) × (flying : List (ℕ × (ℕ × Text))) × (e
      ≡ record d { unassigned = queue; in_flight = flying })

pop_stalled-Moved :
    (fl : Floats) (d : DynamicWorkDispatcher) (o : Option ℕ) (t : Text) (now : ℕ)
    → Moved d (pop_stalled fl d o t now).0
unfolding pop_stalled
pop_stalled-Moved fl d none t now = (d.unassigned, d.in_flight, refl)
pop_stalled-Moved fl d (some cid) t now = (d.unassigned, insert cid (now, t) d.in_flight, refl)

pop_from-Moved :
    (fl : Floats) (d : DynamicWorkDispatcher) (xs : List ℕ) (t : Text) (now : ℕ)
    → Moved d (pop_from fl d xs t now).0
unfolding pop_from
pop_from-Moved fl d [] t now = pop_stalled-Moved fl d (candidate fl now t d.in_flight) t now
pop_from-Moved fl d (cid ∷ rest) t now = (rest, insert cid (now, t) d.in_flight, refl)

pub pop_chunk-Moved :
    (fl : Floats) (d : DynamicWorkDispatcher) (t : Text) (now : ℕ)
    → Moved d (pop_chunk fl d t now).0
pop_chunk-Moved fl d t now =
    unfold pop_chunk in
    elim (Bool-cases (d.cancelled || d.fatal_error)) [
      | inl over ↦ rw (over, pop_chunk) (d.unassigned, d.in_flight, refl)
      | inr going ↦ rw (going, pop_chunk) (pop_from-Moved fl d d.unassigned t now)
    ]

step-chunks :
    (fl : Floats) (d : DynamicWorkDispatcher) (call : Call) → (step fl d call).chunks ≡ d.chunks
step-chunks fl d (pop t now) = ap (λ e. e.chunks) (pop_chunk-Moved fl d t now).2
step-chunks fl d (complete id) = unfold mark_completed in refl
step-chunks fl d (give_back id) = return_for_retry-chunks d id
step-chunks fl d cancel = unfold mark_cancelled in refl

step-IsWf :
    (fl : Floats) (d : DynamicWorkDispatcher) (call : Call)
    → IsCall (length d.chunks) call
    → IsWf d
    → IsWf (step fl d call)
step-IsWf fl d (pop t now) h v = pop_chunk-IsWf fl d t now v
step-IsWf fl d (complete id) h v = mark_completed-IsWf d id h v
step-IsWf fl d (give_back id) h v = return_for_retry-IsWf d id h v
step-IsWf fl d cancel h v = mark_cancelled-IsWf d v

pub run-IsWf :
    (fl : Floats) (d : DynamicWorkDispatcher) (calls : List Call)
    → All (IsCall (length d.chunks)) calls
    → IsWf d
    → IsWf (run fl d calls)
run-IsWf fl d [] h v = v
run-IsWf fl d (call ∷ calls) h v =
    run-IsWf fl (step fl d call) calls (rw (step-chunks fl d call) h.1) (step-IsWf fl d call h.0 v)
