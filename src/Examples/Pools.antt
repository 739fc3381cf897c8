-- ===== src/Examples/Pools.antt =====
-- Runs of the pool of src/scheduler/pool.rs with two chunks.
use share_dash.Common.{
  ℕ, ◌≤◌, ◌≡◌, ◌↔◌, none, length, IsMap, refl, ◌*◌, if◌then◌else◌, true, false, not, ◌&&◌, ◌||◌,
  List, [], ◌∷◌, some, arith, contains, lookup, insert, adjust, has_key, Text, text, text_eq, fixed,
  fixed-FloatOrder, IsDistinct,
}
use share_dash.Storage.Manifest.{ChunkInfo}
use share_dash.Scheduler.Pool.{
  Pool, InFlightInfo, estimate, new, add_chunks, add_chunk, push_back, dispatch, take_from,
  take_next_unassigned, overdue_ratio, can_steal, stolen_by, find_stalled, steal,
  steal_stalled_chunk, mark_completed, return_to_pool, return_all_from_transport, is_all_completed,
}
use share_dash.Scheduler.Pool.Invariant.{IsWf}
use share_dash.Scheduler.Pool.Construction.{ids, new-IsWf}
use share_dash.Scheduler.Pool.Histories.{Reach, takes, completes, untouched, next, Reach-IsWf}
use share_dash.Scheduler.Pool.Draining.{Turn, drain, drain_completes}
use share_dash.Scheduler.Pool.Stealing.{Entry, steal_stalled_chunk_lem}
use share_dash.Scheduler.Pool.Redispatch.{completed_is_redispatched}
use share_dash.Scheduler.Pool.Disconnect.{return_all_from_transport_lem}

abbrev piece : ℕ → ChunkInfo
piece id = record {
  chunk_id = id;
  file_index = 0;
  offset = id * 3;
  length = 3;
  sha256 = text "a";
  blake3 = text "b";
}

abbrev two_chunks : List ChunkInfo
two_chunks = piece 0 ∷ piece 1 ∷ []

abbrev lan : Text
lan = text "lan"

abbrev usb : Text
usb = text "usb"

abbrev start : Pool
start = new two_chunks []

abbrev taken : Pool
taken = (take_next_unassigned fixed start lan 1000000000 0 0).0

two-IsDistinct : IsDistinct (ids two_chunks)
two-IsDistinct = (refl, (refl, tt))

start-IsWf : IsWf start
start-IsWf = new-IsWf two_chunks [] two-IsDistinct (omega arith)

taken_known : has_key 0 taken.chunks ≡ true
unfolding new add_chunks add_chunk push_back take_next_unassigned take_from dispatch lookup insert
taken_known = refl

one_done : Reach fixed start (mark_completed taken 0).0
one_done = next (next untouched (takes lan 1000000000 0 0)) (completes 0 taken_known)

Reach-IsWf_example : IsWf (mark_completed taken 0).0
Reach-IsWf_example =
    Reach-IsWf fixed two_chunks [] (mark_completed taken 0).0 two-IsDistinct (omega arith) one_done

-- The two chunks, fetched by two transports.
abbrev turns : List (Turn fixed)
turns =
    record { transport = lan; mbps = 1000000000; rtt_ms = 0; now = 1 }
    ∷ record { transport = usb; mbps = 1000000000; rtt_ms = 0; now = 2 }
    ∷ []

start_grounded : (id : ℕ) → has_key id start.in_flight ≡ true → contains id start.completed ≡ true
unfolding new add_chunks add_chunk push_back insert
start_grounded id h = cc

two_queued : length start.unassigned ≤ 2
unfolding new add_chunks add_chunk push_back insert
two_queued = omega arith

drain_completes_example : is_all_completed (drain fixed turns start) ≡ true
drain_completes_example = drain_completes fixed turns start start-IsWf start_grounded two_queued

-- A hundred seconds after the first chunk went out on `lan`.
steal_runs : (steal_stalled_chunk fixed taken usb 100000000000).1 ≡ some (piece 0)
unfolding steal_stalled_chunk steal find_stalled overdue_ratio lookup insert text_eq adjust
    take_next_unassigned take_from dispatch new add_chunks add_chunk push_back estimate
steal_runs = refl

steal_stalled_chunk_lem_example :
    (id : ℕ) × (info : InFlightInfo) × Entry id info taken.in_flight
    × (can_steal usb info ≡ true)
    × (fixed.lt (fixed.decimal 15 1) (overdue_ratio fixed 100000000000 info) ≡ true)
    × ((j : ℕ) (other : InFlightInfo)
        → Entry j other taken.in_flight
        → can_steal usb other ≡ true
        → fixed.lt (overdue_ratio fixed 100000000000 info) (overdue_ratio fixed 100000000000 other)
          ≡ false)
    × (lookup id taken.chunks ≡ some (piece 0))
    × ((steal_stalled_chunk fixed taken usb 100000000000).0
        ≡ record taken { in_flight = adjust id (stolen_by usb) taken.in_flight })
steal_stalled_chunk_lem_example =
    steal_stalled_chunk_lem fixed fixed-FloatOrder taken usb 100000000000 (piece 0) steal_runs

abbrev stolen : Pool
stolen = (steal_stalled_chunk fixed taken usb 100000000000).0

taken-IsMap : IsMap taken.in_flight
unfolding new add_chunks add_chunk push_back take_next_unassigned take_from dispatch lookup insert
taken-IsMap = (refl, tt)

return_all_from_transport_lem_example :
    let q = (return_all_from_transport taken lan).0 in
    let returned = (return_all_from_transport taken lan).1 in
    ((contains 0 returned ≡ true) ↔ (
      (info : InFlightInfo) × (lookup 0 taken.in_flight ≡ some info)
      × (info.primary_transport_id ≡ lan)
      × (info.secondary_transport_id ≡ none)))
    × (lookup 0 q.in_flight ≡ (if contains 0 returned then none else lookup 0 taken.in_flight))
    × (contains 0 q.unassigned ≡ (
        contains 0 taken.unassigned || (contains 0 returned && not (contains 0 taken.completed))))
    × (q.completed ≡ taken.completed)
return_all_from_transport_lem_example = return_all_from_transport_lem taken lan 0 taken-IsMap

not_completed : contains 0 stolen.completed ≡ false
unfolding steal_stalled_chunk steal find_stalled overdue_ratio lookup insert text_eq adjust
    take_next_unassigned take_from dispatch new add_chunks add_chunk push_back estimate
not_completed = refl

not_queued : contains 0 stolen.unassigned ≡ false
unfolding steal_stalled_chunk steal find_stalled overdue_ratio lookup insert text_eq adjust
    take_next_unassigned take_from dispatch new add_chunks add_chunk push_back estimate
not_queued = refl

in_table : lookup 0 stolen.chunks ≡ some (piece 0)
unfolding steal_stalled_chunk steal find_stalled overdue_ratio lookup insert text_eq adjust
    take_next_unassigned take_from dispatch new add_chunks add_chunk push_back estimate
in_table = refl

completed_is_redispatched_example :
    let q = (mark_completed (return_to_pool stolen 0) 0).0 in
    let r = take_next_unassigned fixed q lan 1000000000 0 0 in
    (contains 0 q.completed ≡ true)
    × (r.1 ≡ some (piece 0))
    × (has_key 0 (mark_completed r.0 0).0.in_flight ≡ true)
completed_is_redispatched_example =
    completed_is_redispatched fixed stolen 0 (piece 0) lan 1000000000 0 0 not_completed not_queued
      in_table
