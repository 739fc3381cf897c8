-- ===== src/Scheduler/Pool.antt =====
-- src/scheduler/pool.rs: the pool of chunks that all transports draw from. Every method takes the
-- one lock for its whole body, so it is a function from the state behind the lock to the next one.
-- A hash map is an association list in its iteration order, about which the theorems assume
-- nothing; instants and durations are nanoseconds.
pub mod Accounting
pub mod Invariant
pub mod Construction
pub mod Histories
pub mod Completion
pub mod Draining
pub mod Stealing
pub mod Redispatch
pub mod Disconnect
use share_dash.Common.{
  ℕ, ◌+◌, ◌-◌, ◌%◌, ◌^◌, ◌==◌, if◌then◌else◌, Bool, true, false, not, ◌&&◌, List, [], ◌∷◌, Option,
  none, some, Text, text_eq, contains, length, lookup, insert, remove, adjust, Floats,
}
use share_dash.Storage.Manifest.{ChunkInfo}

pub record InFlightInfo : Type 0 where
  pub chunk_id : ℕ
  pub primary_transport_id : Text
  pub secondary_transport_id : Option Text
  pub dispatched_at : ℕ
  pub estimated_duration : ℕ
  pub attempt_count : ℕ

-- `ChunkPoolInner`.
pub record Pool : Type 0 where
  pub unassigned : List ℕ
  pub in_flight : List (ℕ × InFlightInfo)
  pub completed : List ℕ
  pub chunks : List (ℕ × ChunkInfo)
  pub total_bytes : ℕ
  pub completed_bytes : ℕ

-- `+=` on a u64.
abbrev pub add_u64 : ℕ → ℕ → ℕ
add_u64 a b = (a + b) % 2 ^ 64

-- `HashSet::insert`.
abbrev pub set_insert : ℕ → List ℕ → List ℕ
set_insert id ids = if contains id ids then ids else id ∷ ids

abbrev pub empty_pool : Pool
empty_pool = record {
  unassigned = [];
  in_flight = [];
  completed = [];
  chunks = [];
  total_bytes = 0;
  completed_bytes = 0;
}

-- `VecDeque::push_back`.
unfoldable pub push_back : List ℕ → ℕ → List ℕ
push_back [] id = id ∷ []
push_back (x ∷ xs) id = x ∷ push_back xs id

-- One round of the loop of `new`.
unfoldable pub add_chunk : List ℕ → Pool → ChunkInfo → Pool
add_chunk already p c =
    if contains c.chunk_id already
    then record p {
      completed = set_insert c.chunk_id p.completed;
      chunks = insert c.chunk_id c p.chunks;
      total_bytes = add_u64 p.total_bytes c.length;
      completed_bytes = add_u64 p.completed_bytes c.length;
    }
    else record p {
      unassigned = push_back p.unassigned c.chunk_id;
      chunks = insert c.chunk_id c p.chunks;
      total_bytes = add_u64 p.total_bytes c.length;
    }

unfoldable pub add_chunks : List ℕ → Pool → List ChunkInfo → Pool
add_chunks already p [] = p
add_chunks already p (c ∷ cs) = add_chunks already (add_chunk already p c) cs

unfoldable pub new : List ChunkInfo → List ℕ → Pool
unfolding add_chunks add_chunk push_back
new chunks already = add_chunks already empty_pool chunks

module _ (fl : Floats) where
  open fl use {F64, decimal, of_nat, add, mul, div, max_of, lt, as_secs, from_secs}

  -- The time that a chunk of this length is expected to take.
  unfoldable pub estimate : ℕ → F64 → F64 → ℕ
  estimate len transport_mbps rtt_ms =
      let mbps = max_of transport_mbps (decimal 10 1) in
      let bytes_per_sec = div (mul mbps (decimal 10000000 1)) (decimal 80 1) in
      let transfer_secs = div (of_nat len) bytes_per_sec in
      from_secs (add (add transfer_secs (div rtt_ms (decimal 10000 1))) (decimal 1 1))

  -- What `take_next_unassigned` does with the identifier that it took off the queue.
  unfoldable pub dispatch : Pool → ℕ → Text → F64 → F64 → ℕ → Pool × Option ChunkInfo
  dispatch p id transport mbps rtt_ms now = elim (lookup id p.chunks) [
    | none ↦ (p, none)
    | some c ↦ (
      record p {
        in_flight =
            insert id
              (record {
                chunk_id = id;
                primary_transport_id = transport;
                secondary_transport_id = none;
                dispatched_at = now;
                estimated_duration = estimate c.length mbps rtt_ms;
                attempt_count = 1;
              })
              p.in_flight;
      },
      some c,
    )
  ]

  unfoldable pub take_from : Pool → List ℕ → Text → F64 → F64 → ℕ → Pool × Option ChunkInfo
  take_from p [] transport mbps rtt_ms now = (p, none)
  take_from p (id ∷ rest) transport mbps rtt_ms now =
      dispatch (record p { unassigned = rest }) id transport mbps rtt_ms now

  unfoldable pub take_next_unassigned : Pool → Text → F64 → F64 → ℕ → Pool × Option ChunkInfo
  unfolding take_from dispatch
  take_next_unassigned p transport mbps rtt_ms now =
      take_from p p.unassigned transport mbps rtt_ms now

  unfoldable pub overdue_ratio : ℕ → InFlightInfo → F64
  overdue_ratio now info =
      div (as_secs (now - info.dispatched_at))
        (max_of (as_secs info.estimated_duration) (decimal 5 2))

abbrev pub is_none {ℓ} : {A : Type ℓ} → Option A → Bool
is_none none = true
is_none (some a) = false

-- Neither the stealer's own chunk nor one that was stolen before.
abbrev pub can_steal : Text → InFlightInfo → Bool
can_steal stealer info =
    not (text_eq info.primary_transport_id stealer) && is_none info.secondary_transport_id

-- What the thief writes into the entry.
abbrev pub stolen_by : Text → InFlightInfo → InFlightInfo
stolen_by stealer info = record info {
  secondary_transport_id = some stealer;
  attempt_count = (info.attempt_count + 1) % 2 ^ 32;
}

module _ (fl : Floats) where
  open fl use {F64, decimal, lt}

  -- The loop of `steal_stalled_chunk`: the candidate, and the ratio to beat.
  unfoldable pub find_stalled : ℕ → Text → List (ℕ × InFlightInfo) → Option ℕ → F64 → Option ℕ × F64
  find_stalled now stealer [] candidate ratio = (candidate, ratio)
  find_stalled now stealer ((id, info) ∷ m) candidate ratio =
      let better = can_steal stealer info && lt ratio (overdue_ratio fl now info) in
      find_stalled now stealer m (if better then some id else candidate)
        (if better then overdue_ratio fl now info else ratio)

  unfoldable pub steal : Pool → Text → Option ℕ → Pool × Option ChunkInfo
  steal p stealer none = (p, none)
  steal p stealer (some id) =
      (record p { in_flight = adjust id (stolen_by stealer) p.in_flight }, lookup id p.chunks)

  unfoldable pub steal_stalled_chunk : Pool → Text → ℕ → Pool × Option ChunkInfo
  unfolding steal
  steal_stalled_chunk p stealer now =
      steal p stealer (find_stalled now stealer p.in_flight none (decimal 15 1)).0

unfoldable pub mark_completed : Pool → ℕ → Pool × Bool
mark_completed p id = if contains id p.completed then (p, false) else (
  record p {
    in_flight = remove id p.in_flight;
    completed = id ∷ p.completed;
    completed_bytes = elim (lookup id p.chunks) [
      | none ↦ p.completed_bytes
      | some c ↦ add_u64 p.completed_bytes c.length
    ];
  },
  true,
)

unfoldable pub return_to_pool : Pool → ℕ → Pool
return_to_pool p id =
    if not (contains id p.completed) && not (contains id p.unassigned)
    then record p { in_flight = remove id p.in_flight; unassigned = id ∷ p.unassigned }
    else record p { in_flight = remove id p.in_flight }

-- The chunks that only this transport is fetching.
unfoldable pub held_by : Text → List (ℕ × InFlightInfo) → List ℕ
held_by transport [] = []
held_by transport ((id, info) ∷ m) =
    if text_eq info.primary_transport_id transport && is_none info.secondary_transport_id
    then id ∷ held_by transport m
    else held_by transport m

unfoldable pub return_all : Pool → List ℕ → Pool
return_all p [] = p
return_all p (id ∷ ids) = return_all (return_to_pool p id) ids

unfoldable pub return_all_from_transport : Pool → Text → Pool × List ℕ
unfolding return_all held_by return_to_pool
return_all_from_transport p transport =
    (return_all p (held_by transport p.in_flight), held_by transport p.in_flight)

unfoldable pub is_all_completed : Pool → Bool
is_all_completed p = length p.completed == length p.chunks

unfoldable pub stats : Pool → ℕ × ℕ × ℕ × ℕ × ℕ
stats p =
    (length p.unassigned, length p.in_flight, length p.completed, p.completed_bytes, p.total_bytes)

unfoldable pub get_chunk_info : Pool → ℕ → Option ChunkInfo
get_chunk_info p id = lookup id p.chunks
