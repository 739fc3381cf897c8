-- ===== src/Scheduler/Pool/Completion.antt =====
-- When the pool of src/scheduler/pool.rs says that it is done, and what its counters say until
-- then.
use share_dash.Common.{
  ℕ, ◌≤◌, ◌≡◌, ◌↔◌, refl, true, List, [], ◌∷◌, arith, contains, length, has_key, ==_iff,
}
use share_dash.Storage.Manifest.{ChunkInfo}
use share_dash.Scheduler.Pool.{Pool, is_all_completed, stats}
use share_dash.Scheduler.Pool.Accounting.{
  total, finished, one, bytes, finished-le, finished_total, total_finished, total-one,
}
use share_dash.Scheduler.Pool.Invariant.{IsWf}

finished_all :
    (done : List ℕ) (m : List (ℕ × ChunkInfo))
    → ((id : ℕ) → has_key id m ≡ true → contains id done ≡ true)
    → finished bytes done m ≡ total bytes m
unfolding finished total
finished_all done [] h = refl
finished_all done ((j, c) ∷ m) h =
    ground (arith, h j, finished_all done m (λ id k. h id (ground arith)))

-- In a pool in order, `is_all_completed` answers true exactly when every chunk of the table is
-- completed.
pub is_all_completed_iff :
    (p : Pool)
    → IsWf p
    → (is_all_completed p ≡ true)
      ↔ ((id : ℕ) → has_key id p.chunks ≡ true → contains id p.completed ≡ true)
unfolding is_all_completed
is_all_completed_iff p v = (
  λ e id h. finished_total p.completed p.chunks id (omega (arith, v.counted, (==_iff _ _).0 e)) h,
  λ all. (==_iff _ _).1 (omega (arith, v.counted, total_finished p.completed p.chunks all v.keys)),
)

-- The figures that a pool in order reports: no more chunks are completed than there are, no more
-- bytes than in all, and when all chunks are completed, so are all bytes.
stats_bounds :
    (p : Pool)
    → IsWf p
    → ((stats p).2 ≤ length p.chunks)
      × ((stats p).3 ≤ (stats p).4)
      × (is_all_completed p ≡ true → (stats p).3 ≡ (stats p).4)
unfolding stats
stats_bounds p v = (
  omega (arith, v.counted, finished-le one p.completed p.chunks, total-one p.chunks),
  omega (arith, v.summed, v.summed_all, finished-le bytes p.completed p.chunks),
  λ e. omega (
    arith,
    v.summed,
    v.summed_all,
    finished_all p.completed p.chunks ((is_all_completed_iff p v).0 e),
  ),
)
