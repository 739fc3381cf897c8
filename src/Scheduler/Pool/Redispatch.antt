-- ===== src/Scheduler/Pool/Redispatch.antt =====
-- Chunks that two transports fetch: what src/scheduler/pool.rs does with the second copy.
use share_dash.Common.{
  ℕ, ◌≡◌, refl, true, false, List, ◌∷◌, some, Text, arith, contains, ==_refl, lookup, has_key,
  Floats, has_key-insert,
}
use share_dash.Storage.Manifest.{ChunkInfo}
use share_dash.Scheduler.Pool.{
  Pool, mark_completed, return_to_pool, dispatch, take_from, take_next_unassigned,
}
use share_dash.Scheduler.Pool.Histories.{Reach, Reach-Kept}

pub completed_now : (p : Pool) (id : ℕ) → contains id (mark_completed p id).0.completed ≡ true
unfolding mark_completed
completed_now p id = ground arith

second_mark :
    (q : Pool) (id : ℕ) → contains id q.completed ≡ true → mark_completed q id ≡ (q, false)
second_mark q id done = unfold mark_completed in rw done

-- Once a chunk has been marked completed, a later call for it changes nothing and answers false,
-- whatever the workers did in between: a chunk that two transports deliver is counted once.
mark_completed_once :
    (fl : Floats) (p : Pool) (id : ℕ) (q : Pool)
    → Reach fl (mark_completed p id).0 q
    → mark_completed q id ≡ (q, false)
mark_completed_once fl p id q r =
    let done = (Reach-Kept fl (mark_completed p id).0 q r).completed id (completed_now p id) in
    second_mark q id done

module _ (fl : Floats) (t : Text) (mbps rtt : fl.F64) (now : ℕ) where
  dispatch-flies :
      (p : Pool) (id : ℕ) (c : ChunkInfo)
      → lookup id p.chunks ≡ some c
      → let r = dispatch fl p id t mbps rtt now in
        (r.1 ≡ some c) × (has_key id r.0.in_flight ≡ true) × (r.0.completed ≡ p.completed)
  dispatch-flies p id c at =
      unfold dispatch in rw (at, dispatch) (refl, rw (has_key-insert, ==_refl), refl)

  take_from-flies :
      (p : Pool) (xs rest : List ℕ) (id : ℕ) (c : ChunkInfo)
      → xs ≡ id ∷ rest
      → lookup id p.chunks ≡ some c
      → let r = take_from fl p xs t mbps rtt now in
        (r.1 ≡ some c) × (has_key id r.0.in_flight ≡ true) × (r.0.completed ≡ p.completed)
  take_from-flies p xs rest id c e at =
      rw e (unfold take_from in dispatch-flies (record p { unassigned = rest }) id c at)

  take-flies :
      (p : Pool) (rest : List ℕ) (id : ℕ) (c : ChunkInfo)
      → p.unassigned ≡ id ∷ rest
      → lookup id p.chunks ≡ some c
      → let r = take_next_unassigned fl p t mbps rtt now in
        (r.1 ≡ some c) × (has_key id r.0.in_flight ≡ true) × (r.0.completed ≡ p.completed)
  take-flies p rest id c e at =
      unfold take_next_unassigned in take_from-flies p p.unassigned rest id c e at

-- What is left of a chunk that one holder gave back before another one completed it.
completed_queued :
    (p : Pool) (id : ℕ)
    → contains id p.completed ≡ false
    → contains id p.unassigned ≡ false
    → let q = (mark_completed (return_to_pool p id) id).0 in
      (q.unassigned ≡ id ∷ p.unassigned) × (q.chunks ≡ p.chunks) × (contains id q.completed ≡ true)
unfolding mark_completed return_to_pool
completed_queued p id open_ gone = ground arith

-- A chunk that is in flight on two transports, when one of them gives it back and the other one
-- then completes it, stays in the queue: the next call of `take_next_unassigned` hands out the
-- completed chunk, and completing it once more leaves its entry in flight.
pub completed_is_redispatched :
    (fl : Floats) (p : Pool) (id : ℕ) (c : ChunkInfo) (t : Text) (mbps rtt : fl.F64) (now : ℕ)
    → contains id p.completed ≡ false
    → contains id p.unassigned ≡ false
    → lookup id p.chunks ≡ some c
    → let q = (mark_completed (return_to_pool p id) id).0 in
      let r = take_next_unassigned fl q t mbps rtt now in
      (contains id q.completed ≡ true)
      × (r.1 ≡ some c)
      × (has_key id (mark_completed r.0 id).0.in_flight ≡ true)
completed_is_redispatched fl p id c t mbps rtt now open_ gone at =
    let (queue, chunks, done) = completed_queued p id open_ gone in
    let q = (mark_completed (return_to_pool p id) id).0 in
    let (given, flies, same) =
      take-flies fl t mbps rtt now q p.unassigned id c queue (rw chunks at) in
    let r = (take_next_unassigned fl q t mbps rtt now).0 in
    let still : contains id r.completed ≡ true = rw same done in
    (done, given, rw (second_mark r id still) flies)
