-- ===== src/Upload/Sender/Rounds.antt =====
-- A worker of src/cli.rs whose requests all succeed comes to an end.
use share_dash.Common.{
  ℕ, suc, ◌+◌, ◌≤◌, ◌<◌, ◌≡◌, refl, ap, sym, subst, ◌∙◌, ltb, true, false, ◌||◌, List, [], ◌∷◌,
  some, Text, arith, contains, length, get_elem?, insert, remove, adjust, Bool-cases, inl, inr,
  Floats,
}
use share_dash.Upload.Dispatcher.{
  DynamicWorkDispatcher, TransferChunkInfo, ids, dispatcher_of, pop_from, pop_chunk, mark_completed,
  is_done,
}
use share_dash.Upload.Dispatcher.Layout.{Tiles}
use share_dash.Upload.Sender.{
  Job, Progress, Upload, Fetched, ends, idle, gave_back, posts, guard_chunk, fetch, status, advance,
  succeed, respond, integrity_ok, outcome,
}

module _ (fl : Floats) (job : Job) (transport_name : Text) (channel : ℕ) where
  -- The request of a round is answered by 200.
  abbrev pub answered_ok : Upload → Fetched → Upload
  answered_ok u (posts c) = (respond u channel c (status 200 [])).0
  answered_ok u ends = u
  answered_ok u idle = u
  answered_ok u gave_back = u

  abbrev pub round : Upload → ℕ → Upload
  round u now =
      answered_ok (fetch fl u job transport_name now).0 (fetch fl u job transport_name now).1

  abbrev pub rounds : List ℕ → Upload → Upload
  rounds [] u = u
  rounds (now ∷ later) u = rounds later (round u now)

module _ (fl : Floats) (job : Job) (transport_name : Text) (channel : ℕ) (high : ℕ)
    (cs : List TransferChunkInfo) where
  -- The chunks before number `n` are completed; those of `ds`, from `offset` on, are queued.
  record IsHalfway (offset n : ℕ) (ds : List TransferChunkInfo) (u : Upload) : Type 0 where
    chunks : u.dispatcher.chunks ≡ cs
    queue : u.dispatcher.unassigned ≡ ids ds
    going :
        (u.stop_flag ≡ false)
        × (u.dispatcher.cancelled ≡ false)
        × (u.dispatcher.fatal_error ≡ false)
    before : (id : ℕ) → contains id u.dispatcher.completed ≡ true → id < n
    counted : length u.dispatcher.completed ≡ n
    rest : n + length ds ≡ length cs
    same : (i : ℕ) → get_elem? ds i ≡ get_elem? cs (n + i)
    tiles : Tiles 1048576 high (length job.mmap) offset n ds

  fetch_goes :
      (u : Upload) (now : ℕ)
      → (u.stop_flag || is_done u.dispatcher) ≡ false
      → fetch fl u job transport_name now
        ≡ guard_chunk
            (record u { dispatcher = (pop_chunk fl u.dispatcher transport_name now).0 })
            job
            (pop_chunk fl u.dispatcher transport_name now).1
  unfolding fetch
  fetch_goes u now open_ = rw open_ refl

  absent :
      (u : Upload) (id : ℕ)
      → (contains id u.dispatcher.completed ≡ true → ⊥)
      → contains id u.dispatcher.completed ≡ false
  absent u id h = elim (Bool-cases (contains id u.dispatcher.completed)) [
    | inl in_ ↦ absurd (h in_)
    | inr out ↦ out
  ]

  -- The dispatcher after the chunk went out, and after it came back completed.
  abbrev handed_out : DynamicWorkDispatcher → ℕ → List ℕ → ℕ → DynamicWorkDispatcher
  handed_out d cid rest now = record d {
    unassigned = rest;
    in_flight = insert cid (now, transport_name) d.in_flight;
  }

  abbrev brought_back : Upload → TransferChunkInfo → Upload
  brought_back u c = record u {
    dispatcher = record u.dispatcher {
      in_flight = remove c.chunk_id u.dispatcher.in_flight;
      completed = c.chunk_id ∷ u.dispatcher.completed;
    };
    progress = adjust channel (advance c.length) u.progress;
  }

  pop_chunk_next :
      (d : DynamicWorkDispatcher) (c : TransferChunkInfo) (rest : List ℕ) (now : ℕ)
      → (d.cancelled || d.fatal_error) ≡ false
      → d.unassigned ≡ c.chunk_id ∷ rest
      → get_elem? d.chunks c.chunk_id ≡ some c
      → pop_chunk fl d transport_name now ≡ (handed_out d c.chunk_id rest now, some c)
  unfolding pop_chunk pop_from
  pop_chunk_next d c rest now going queue at = rw going (
      ap (λ xs. pop_from fl d xs transport_name now) queue
      ∙ ap (λ o. (handed_out d c.chunk_id rest now, o)) at)

  guard_chunk_posts :
      (u : Upload) (c : TransferChunkInfo)
      → (u.stop_flag || u.dispatcher.cancelled) ≡ false
      → c.offset + c.length ≤ length job.mmap
      → guard_chunk u job (some c) ≡ (u, posts c)
  unfolding guard_chunk
  guard_chunk_posts u c going fits =
      let inside : ltb (length job.mmap) (c.offset + c.length) ≡ false = ground (arith, fits) in
      rw (going, inside) refl

  succeed_new :
      (u : Upload) (c : TransferChunkInfo)
      → contains c.chunk_id u.dispatcher.completed ≡ false
      → (respond u channel c (status 200 [])).0 ≡ brought_back u c
  unfolding respond succeed mark_completed
  succeed_new u c new = rw new refl

  -- A round takes the next chunk and completes it.
  round_next :
      (u : Upload) (c : TransferChunkInfo) (rest : List ℕ) (now : ℕ)
      → (u.stop_flag || is_done u.dispatcher) ≡ false
      → (u.dispatcher.cancelled || u.dispatcher.fatal_error) ≡ false
      → (u.stop_flag || u.dispatcher.cancelled) ≡ false
      → u.dispatcher.unassigned ≡ c.chunk_id ∷ rest
      → get_elem? u.dispatcher.chunks c.chunk_id ≡ some c
      → c.offset + c.length ≤ length job.mmap
      → contains c.chunk_id u.dispatcher.completed ≡ false
      → round fl job transport_name channel u now
        ≡ brought_back (record u { dispatcher = handed_out u.dispatcher c.chunk_id rest now }) c
  round_next u c rest now open_ going runs queue at fits new =
      let u' = record u { dispatcher = handed_out u.dispatcher c.chunk_id rest now } in
      let popped = pop_chunk_next u.dispatcher c rest now going queue at in
      let fetched : fetch fl u job transport_name now ≡ (u', posts c) =
        fetch_goes u now open_
        ∙ ap (λ r. guard_chunk (record u { dispatcher = r.0 }) job r.1) popped
        ∙ guard_chunk_posts u' c runs fits in
      ap (λ r. answered_ok fl job transport_name channel r.0 r.1) fetched ∙ succeed_new u' c new

  round-IsHalfway :
      (offset n : ℕ) (c : TransferChunkInfo) (ds : List TransferChunkInfo) (u : Upload) (now : ℕ)
      → IsHalfway offset n (c ∷ ds) u
      → IsHalfway (offset + c.length) (suc n) ds (round fl job transport_name channel u now)
  unfolding ids is_done
  round-IsHalfway offset n c ds u now h =
      let (runs, on, fine) = h.going in
      let first = h.tiles.0 in
      let id_eq = first.chunk_id_eq in
      let new : contains c.chunk_id u.dispatcher.completed ≡ false =
        absent u c.chunk_id (λ k. omega (arith, h.before c.chunk_id k, id_eq)) in
      let more : is_done u.dispatcher ≡ false =
        ground (arith, on, fine, ap length h.chunks, h.counted, h.rest) in
      let here : get_elem? u.dispatcher.chunks c.chunk_id ≡ some c =
        ap (λ xs. get_elem? xs c.chunk_id) h.chunks
        ∙ ap (get_elem? cs) (omega (arith, id_eq))
        ∙ sym (h.same 0) in
      let next =
        round_next u c (ids ds) now (ground (arith, runs, more)) (ground (arith, on, fine))
          (ground (arith, runs, on)) h.queue here (omega (arith, first.offset_eq, first.within))
          new in
      subst (IsHalfway (offset + c.length) (suc n) ds) (sym next) (record {
        chunks = h.chunks;
        queue = refl;
        going = h.going;
        before = λ id k. ground (arith, h.before id, id_eq, k);
        counted = omega (arith, h.counted);
        rest = omega (arith, h.rest);
        same = λ i. h.same (suc i) ∙ ap (get_elem? cs) (omega arith);
        tiles = h.tiles.1;
      })

  rounds-IsHalfway :
      (times : List ℕ) (offset n : ℕ) (ds : List TransferChunkInfo) (u : Upload)
      → length times ≡ length ds
      → IsHalfway offset n ds u
      → (end : ℕ) × IsHalfway end (length cs) [] (rounds fl job transport_name channel times u)
  rounds-IsHalfway [] offset n [] u e h =
      (offset, subst (λ k. IsHalfway offset k [] u) (omega (arith, h.rest)) h)
  rounds-IsHalfway [] offset n (c ∷ ds) u e h = absurd (omega (arith, e))
  rounds-IsHalfway (now ∷ times) offset n [] u e h = absurd (omega (arith, e))
  rounds-IsHalfway (now ∷ times) offset n (c ∷ ds) u e h =
      rounds-IsHalfway times (offset + c.length) (suc n) ds
        (round fl job transport_name channel u now) (omega (arith, e))
        (round-IsHalfway offset n c ds u now h)

-- A single worker whose requests are all answered by 200, with a fresh dispatcher of chunks that
-- tile the mapped file, is done after as many rounds as there are chunks, at whatever times, and the
-- transfer is reported as whole.
pub rounds_finish :
    (fl : Floats) (job : Job) (transport_name : Text) (channel high : ℕ)
    (cs : List TransferChunkInfo) (progress : List (ℕ × Progress)) (times : List ℕ)
    → Tiles 1048576 high (length job.mmap) 0 0 cs
    → length times ≡ length cs
    → let u =
        rounds fl job transport_name channel times
          (record { dispatcher = dispatcher_of cs; stop_flag = false; progress = progress }) in
      (is_done u.dispatcher ≡ true) × (outcome u ≡ integrity_ok true)
unfolding dispatcher_of is_done outcome
rounds_finish fl job transport_name channel high cs progress times tiles e =
    let start : IsHalfway fl job transport_name channel high cs 0 0 cs
        (record { dispatcher = dispatcher_of cs; stop_flag = false; progress = progress }) =
      record {
        chunks = refl;
        queue = refl;
        going = (refl, refl, refl);
        before = λ id h. cc;
        counted = refl;
        rest = omega arith;
        same = λ i. ap (get_elem? cs) (omega arith);
        tiles = tiles;
      } in
    let (_, h) = rounds-IsHalfway fl job transport_name channel high cs times 0 0 cs _ e start in
    let (runs, on, fine) = h.going in
    (ground (arith, on, fine, ap length h.chunks, h.counted), rw (runs, on, fine) refl)
