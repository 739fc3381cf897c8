-- ===== src/Scheduler/Pool/Invariant.antt =====
-- The state that the pool of src/scheduler/pool.rs is in between two calls: no chunk is lost, none
-- is made up, and the counters are the sums that they stand for.
use share_dash.Common.{
  ℕ, ◌^◌, ◌<◌, ◌≡◌, refl, inl, inr, true, not, ◌||◌, ◌&&◌, List, [], ◌∷◌, Option, none, some, Text,
  arith, contains, length, lookup, insert, has_key, IsMap, IsDistinct, Bool-cases, Floats,
  has_key-insert, has_key-remove, has_key-adjust, lookup_of_has_key,
}
use share_dash.Storage.Manifest.{ChunkInfo}
use share_dash.Scheduler.Pool.{
  Pool, InFlightInfo, dispatch, take_from, take_next_unassigned, steal, steal_stalled_chunk,
  mark_completed, return_to_pool, return_all, held_by, return_all_from_transport,
}
use share_dash.Scheduler.Pool.Accounting.{total, finished, one, bytes, finished-le, finished-cons}

pub record IsWf (p : Pool) : Type 0 where
  -- The chunk table is a map, and each chunk stands under its own identifier.
  pub keys : IsMap p.chunks
  pub named : (id : ℕ) (c : ChunkInfo) → lookup id p.chunks ≡ some c → c.chunk_id ≡ id
  -- What is queued, in flight or completed is a chunk of the table.
  pub queue : IsDistinct p.unassigned
  pub known_unassigned : (id : ℕ) → contains id p.unassigned ≡ true → has_key id p.chunks ≡ true
  pub known_in_flight : (id : ℕ) → has_key id p.in_flight ≡ true → has_key id p.chunks ≡ true
  pub known_completed : (id : ℕ) → contains id p.completed ≡ true → has_key id p.chunks ≡ true
  -- Every chunk is somewhere.
  pub covered :
      (id : ℕ)
      → has_key id p.chunks ≡ true
      → (contains id p.unassigned || (has_key id p.in_flight || contains id p.completed)) ≡ true
  -- The counters.
  pub counted : length p.completed ≡ finished one p.completed p.chunks
  pub summed : p.completed_bytes ≡ finished bytes p.completed p.chunks
  pub summed_all : p.total_bytes ≡ total bytes p.chunks
  pub fits : p.total_bytes < 2 ^ 64

-- Completing a chunk of the pool.
pub mark_completed-IsWf :
    (p : Pool) (id : ℕ) → has_key id p.chunks ≡ true → IsWf p → IsWf (mark_completed p id).0
unfolding mark_completed
mark_completed-IsWf p id known v = elim (Bool-cases (contains id p.completed)) [
  | inl old ↦ rw old v
  | inr fresh ↦
      let (c, at) = lookup_of_has_key id p.chunks known in
      rw (fresh, at)
        (record {
          keys = v.keys;
          named = v.named;
          queue = v.queue;
          known_unassigned = v.known_unassigned;
          known_in_flight =
              λ j h. ground (arith, v.known_in_flight j, has_key-remove id j p.in_flight);
          known_completed = λ j h. ground (arith, v.known_completed j);
          covered = λ j h. ground (arith, v.covered j h, has_key-remove id j p.in_flight);
          counted =
              omega (arith, v.counted, finished-cons one id c p.completed p.chunks v.keys at fresh);
          summed = omega (
            arith,
            v.summed,
            finished-cons bytes id c p.completed p.chunks v.keys at fresh,
            finished-le bytes (id ∷ p.completed) p.chunks,
          );
          summed_all = v.summed_all;
          fits = v.fits;
        })
]

pub return_to_pool-IsWf :
    (p : Pool) (id : ℕ) → has_key id p.chunks ≡ true → IsWf p → IsWf (return_to_pool p id)
unfolding return_to_pool
return_to_pool-IsWf p id known v =
    let held = λ (j : ℕ). has_key-remove id j p.in_flight in
    elim (Bool-cases (not (contains id p.completed) && not (contains id p.unassigned))) [
      | inl back ↦ rw back (record {
        keys = v.keys;
        named = v.named;
        queue = (ground arith, v.queue);
        known_unassigned = λ j h. ground (arith, v.known_unassigned j);
        known_in_flight = λ j h. ground (arith, v.known_in_flight j, held j);
        known_completed = v.known_completed;
        covered = λ j h. ground (arith, v.covered j h, held j);
        counted = v.counted;
        summed = v.summed;
        summed_all = v.summed_all;
        fits = v.fits;
      })
      | inr kept ↦ rw kept (record {
        keys = v.keys;
        named = v.named;
        queue = v.queue;
        known_unassigned = v.known_unassigned;
        known_in_flight = λ j h. ground (arith, v.known_in_flight j, held j);
        known_completed = v.known_completed;
        covered = λ j h. ground (arith, v.covered j h, held j);
        counted = v.counted;
        summed = v.summed;
        summed_all = v.summed_all;
        fits = v.fits;
      })
    ]

return_to_pool-chunks : (p : Pool) (id : ℕ) → (return_to_pool p id).chunks ≡ p.chunks
unfolding return_to_pool
return_to_pool-chunks p id = ground arith

return_all-IsWf :
    (p : Pool) (ids : List ℕ)
    → ((id : ℕ) → contains id ids ≡ true → has_key id p.chunks ≡ true)
    → IsWf p
    → IsWf (return_all p ids)
unfolding return_all
return_all-IsWf p [] h v = v
return_all-IsWf p (id ∷ ids) h v =
    return_all-IsWf (return_to_pool p id) ids
      (λ j k. rw (return_to_pool-chunks p id) (h j (ground arith)))
      (return_to_pool-IsWf p id (h id (ground arith)) v)

pub held_by-known :
    (t : Text) (m : List (ℕ × InFlightInfo)) (id : ℕ)
    → contains id (held_by t m) ≡ true
    → has_key id m ≡ true
unfolding held_by
held_by-known t [] id h = cc
held_by-known t ((j, info) ∷ m) id h = ground (arith, held_by-known t m id)

pub return_all_from_transport-IsWf :
    (p : Pool) (t : Text) → IsWf p → IsWf (return_all_from_transport p t).0
return_all_from_transport-IsWf p t v =
    unfold return_all_from_transport in
    return_all-IsWf p (held_by t p.in_flight)
      (λ id h. v.known_in_flight id (held_by-known t p.in_flight id h)) v

-- The head of the queue goes into flight.
launch-IsWf :
    (p : Pool) (id : ℕ) (rest : List ℕ) (info : InFlightInfo)
    → p.unassigned ≡ id ∷ rest
    → IsWf p
    → IsWf (record p { unassigned = rest; in_flight = insert id info p.in_flight })
launch-IsWf p id rest info e v =
    let head : has_key id p.chunks ≡ true = v.known_unassigned id (rw e (ground arith)) in
    let flying = λ (j : ℕ). has_key-insert id j info p.in_flight in
    record {
      keys = v.keys;
      named = v.named;
      queue = (rw e at v.queue).1;
      known_unassigned = λ j h. v.known_unassigned j (rw e (ground arith));
      known_in_flight = λ j h. ground (arith, v.known_in_flight j, head, flying j, h);
      known_completed = v.known_completed;
      covered = λ j h. ground (arith, rw e at (v.covered j h), flying j);
      counted = v.counted;
      summed = v.summed;
      summed_all = v.summed_all;
      fits = v.fits;
    }

module _ (fl : Floats) where
  open fl use {F64}

  dispatch-IsWf :
      (p : Pool) (id : ℕ) (rest : List ℕ) (t : Text) (mbps rtt : F64) (now : ℕ)
      → p.unassigned ≡ id ∷ rest
      → IsWf p
      → IsWf (dispatch fl (record p { unassigned = rest }) id t mbps rtt now).0
  dispatch-IsWf p id rest t mbps rtt now e v =
      let (c, at) = lookup_of_has_key id p.chunks (v.known_unassigned id (rw e (ground arith))) in
      unfold dispatch in rw (at, dispatch) (launch-IsWf p id rest _ e v)

  take_from-IsWf :
      (p : Pool) (xs : List ℕ) (t : Text) (mbps rtt : F64) (now : ℕ)
      → p.unassigned ≡ xs
      → IsWf p
      → IsWf (take_from fl p xs t mbps rtt now).0
  unfolding take_from
  take_from-IsWf p [] t mbps rtt now e v = v
  take_from-IsWf p (id ∷ rest) t mbps rtt now e v = dispatch-IsWf p id rest t mbps rtt now e v

  pub take_next_unassigned-IsWf :
      (p : Pool) (t : Text) (mbps rtt : F64) (now : ℕ)
      → IsWf p
      → IsWf (take_next_unassigned fl p t mbps rtt now).0
  take_next_unassigned-IsWf p t mbps rtt now v =
      unfold take_next_unassigned in take_from-IsWf p p.unassigned t mbps rtt now refl v

  steal-IsWf : (p : Pool) (t : Text) (o : Option ℕ) → IsWf p → IsWf (steal fl p t o).0
  unfolding steal
  steal-IsWf p t none v = v
  steal-IsWf p t (some id) v = record {
    keys = v.keys;
    named = v.named;
    queue = v.queue;
    known_unassigned = v.known_unassigned;
    known_in_flight = λ j h. v.known_in_flight j (rw has_key-adjust at h);
    known_completed = v.known_completed;
    covered = λ j h. rw has_key-adjust (v.covered j h);
    counted = v.counted;
    summed = v.summed;
    summed_all = v.summed_all;
    fits = v.fits;
  }

  pub steal_stalled_chunk-IsWf :
      (p : Pool) (t : Text) (now : ℕ) → IsWf p → IsWf (steal_stalled_chunk fl p t now).0
  steal_stalled_chunk-IsWf p t now v = unfold steal_stalled_chunk in steal-IsWf p t _ v
