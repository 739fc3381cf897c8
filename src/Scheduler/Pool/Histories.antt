-- ===== src/Scheduler/Pool/Histories.antt =====
-- Any interleaving of the calls that the workers make on the pool of src/scheduler/pool.rs.
use share_dash.Common.{
  ℕ, ◌^◌, ◌<◌, ◌≡◌, refl, ◌∙◌, true, List, [], ◌∷◌, none, some, Option, Text, arith, contains,
  has_key, IsDistinct, Floats,
}
use share_dash.Storage.Manifest.{ChunkInfo}
use share_dash.Scheduler.Pool.{
  Pool, new, dispatch, take_from, take_next_unassigned, steal, steal_stalled_chunk, find_stalled,
  mark_completed, return_to_pool, return_all, held_by, return_all_from_transport,
}
use share_dash.Scheduler.Pool.Invariant.{
  IsWf, mark_completed-IsWf, return_to_pool-IsWf, return_all_from_transport-IsWf,
  take_next_unassigned-IsWf, steal_stalled_chunk-IsWf,
}
use share_dash.Scheduler.Pool.Construction.{ids, sum_bytes, new-IsWf}

-- A worker completes or gives back only a chunk that the pool handed to it.
pub data Step (fl : Floats) (p : Pool) : Pool → Type 0 where
  takes :
      (t : Text) (mbps rtt : fl.F64) (now : ℕ)
      → Step fl p (take_next_unassigned fl p t mbps rtt now).0
  steals : (t : Text) (now : ℕ) → Step fl p (steal_stalled_chunk fl p t now).0
  completes : (id : ℕ) → has_key id p.chunks ≡ true → Step fl p (mark_completed p id).0
  returns : (id : ℕ) → has_key id p.chunks ≡ true → Step fl p (return_to_pool p id)
  loses : (t : Text) → Step fl p (return_all_from_transport p t).0

pub data Reach (fl : Floats) (p : Pool) : Pool → Type 0 where
  untouched : Reach fl p p
  next : {mid q : Pool} → Reach fl p mid → Step fl mid q → Reach fl p q

pub Step-IsWf : {fl : Floats} {p q : Pool} → Step fl p q → IsWf p → IsWf q
Step-IsWf {fl} {p = p} (takes t mbps rtt now) v = take_next_unassigned-IsWf fl p t mbps rtt now v
Step-IsWf {fl} {p = p} (steals t now) v = steal_stalled_chunk-IsWf fl p t now v
Step-IsWf {p = p} (completes id h) v = mark_completed-IsWf p id h v
Step-IsWf {p = p} (returns id h) v = return_to_pool-IsWf p id h v
Step-IsWf {p = p} (loses t) v = return_all_from_transport-IsWf p t v

-- The pool that `new` builds from chunks with distinct identifiers, of fewer than 2 ^ 64 bytes in
-- all, is in order after any interleaving of the workers' calls: every chunk is queued, in flight
-- or completed, nothing else is, and the counters are the sums over the completed chunks.
pub Reach-IsWf :
    (fl : Floats) (cs : List ChunkInfo) (already : List ℕ) (q : Pool)
    → IsDistinct (ids cs)
    → sum_bytes cs < 2 ^ 64
    → Reach fl (new cs already) q
    → IsWf q
Reach-IsWf fl cs already q d h untouched = new-IsWf cs already d h
Reach-IsWf fl cs already q d h (next {mid = r} before step) =
    Step-IsWf step (Reach-IsWf fl cs already r d h before)

-- What no call undoes.
pub record Kept (p q : Pool) : Type 0 where
  pub chunks : q.chunks ≡ p.chunks
  pub total_bytes : q.total_bytes ≡ p.total_bytes
  pub completed : (id : ℕ) → contains id p.completed ≡ true → contains id q.completed ≡ true

Kept-trans : {p q r : Pool} → Kept p q → Kept q r → Kept p r
Kept-trans a b = record {
  chunks = b.chunks ∙ a.chunks;
  total_bytes = b.total_bytes ∙ a.total_bytes;
  completed = λ id h. b.completed id (a.completed id h);
}

Kept-refl : (p : Pool) → Kept p p
Kept-refl p = record { chunks = refl; total_bytes = refl; completed = λ id h. h }

mark_completed-Kept : (p : Pool) (id : ℕ) → Kept p (mark_completed p id).0
unfolding mark_completed
mark_completed-Kept p id = record {
  chunks = ground arith;
  total_bytes = ground arith;
  completed = λ j h. ground arith;
}

return_to_pool-Kept : (p : Pool) (id : ℕ) → Kept p (return_to_pool p id)
unfolding return_to_pool
return_to_pool-Kept p id = record {
  chunks = ground arith;
  total_bytes = ground arith;
  completed = λ j h. ground arith;
}

return_all-Kept : (p : Pool) (xs : List ℕ) → Kept p (return_all p xs)
unfolding return_all
return_all-Kept p [] = Kept-refl p
return_all-Kept p (id ∷ xs) =
    Kept-trans (return_to_pool-Kept p id) (return_all-Kept (return_to_pool p id) xs)

module _ (fl : Floats) where
  open fl use {F64}

  dispatch-Kept :
      (p : Pool) (id : ℕ) (rest : List ℕ) (t : Text) (mbps rtt : F64) (now : ℕ)
      → Kept p (dispatch fl (record p { unassigned = rest }) id t mbps rtt now).0
  unfolding dispatch
  dispatch-Kept p id rest t mbps rtt now = record {
    chunks = ground arith;
    total_bytes = ground arith;
    completed = λ j h. ground arith;
  }

  take_from-Kept :
      (p : Pool) (xs : List ℕ) (t : Text) (mbps rtt : F64) (now : ℕ)
      → Kept p (take_from fl p xs t mbps rtt now).0
  unfolding take_from
  take_from-Kept p [] t mbps rtt now = Kept-refl p
  take_from-Kept p (id ∷ rest) t mbps rtt now = dispatch-Kept p id rest t mbps rtt now

  steal-Kept : (p : Pool) (t : Text) (o : Option ℕ) → Kept p (steal fl p t o).0
  unfolding steal
  steal-Kept p t none = Kept-refl p
  steal-Kept p t (some id) = record { chunks = refl; total_bytes = refl; completed = λ j h. h }

pub Step-Kept : {fl : Floats} {p q : Pool} → Step fl p q → Kept p q
Step-Kept {fl} {p = p} (takes t mbps rtt now) =
    unfold take_next_unassigned in take_from-Kept fl p p.unassigned t mbps rtt now
Step-Kept {fl} {p = p} (steals t now) =
    unfold steal_stalled_chunk in
    steal-Kept fl p t (find_stalled fl now t p.in_flight none (fl.decimal 15 1)).0
Step-Kept {p = p} (completes id h) = mark_completed-Kept p id
Step-Kept {p = p} (returns id h) = return_to_pool-Kept p id
Step-Kept {p = p} (loses t) =
    unfold return_all_from_transport in return_all-Kept p (held_by t p.in_flight)

-- No interleaving of calls changes the chunk table or the total, or takes a completed chunk back.
pub Reach-Kept : (fl : Floats) (p q : Pool) → Reach fl p q → Kept p q
Reach-Kept fl p q untouched = Kept-refl p
Reach-Kept fl p q (next {mid = r} before step) =
    Kept-trans (Reach-Kept fl p r before) (Step-Kept step)
