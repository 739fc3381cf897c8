-- ===== src/Upload/Dispatcher/Failures.antt =====
-- When DynamicWorkDispatcher of src/cli.rs gives a transfer up.
use share_dash.Common.{
  ℕ, ◌+◌, ◌≤◌, ◌==◌, ◌≡◌, refl, ap, inl, inr, if◌then◌else◌, true, List, [], ◌∷◌, arith, length,
  lookup, All, Bool-cases, Floats, lookup-insert,
}
use share_dash.Upload.Dispatcher.{
  DynamicWorkDispatcher, TransferChunkInfo, dispatcher_of, mark_completed, mark_cancelled, one_more,
  or_zero, retry, return_for_retry,
}
use share_dash.Upload.Dispatcher.Layout.{Tiles}
use share_dash.Upload.Dispatcher.Histories.{
  Call, pop, complete, give_back, cancel, step, run, IsCall, pop_chunk-Moved, run-IsWf,
  dispatcher_of-IsWf,
}

-- How often the workers have given this chunk back.
abbrev pub failures_of : ℕ → List Call → ℕ
failures_of id [] = 0
failures_of id (give_back other ∷ calls) = (if other == id then 1 else 0) + failures_of id calls
failures_of id (pop t now ∷ calls) = failures_of id calls
failures_of id (complete other ∷ calls) = failures_of id calls
failures_of id (cancel ∷ calls) = failures_of id calls

-- The retries that are counted for a chunk.
abbrev retries_of : ℕ → DynamicWorkDispatcher → ℕ
retries_of id d = or_zero (lookup id d.retries)

return_for_retry-retries_of :
    (d : DynamicWorkDispatcher) (other id : ℕ)
    → retries_of id (return_for_retry d other) ≤ (if other == id then 1 else 0) + retries_of id d
unfolding return_for_retry retry
return_for_retry-retries_of d other id =
    let table = lookup-insert other id (one_more d other) d.retries in
    elim (Bool-cases (other == id)) [
      | inl same ↦
          let eq : other ≡ id = ground (arith, same) in
          ground (arith, rw same at table, ap (λ x. or_zero (lookup x d.retries)) eq)
      | inr differ ↦ ground (arith, rw differ at table)
    ]

run-retries_of :
    (fl : Floats) (d : DynamicWorkDispatcher) (calls : List Call) (id : ℕ)
    → retries_of id (run fl d calls) ≤ failures_of id calls + retries_of id d
run-retries_of fl d [] id = omega arith
run-retries_of fl d (pop t now ∷ calls) id =
    let same = ap (λ e. retries_of id e) (pop_chunk-Moved fl d t now).2 in
    omega (arith, run-retries_of fl (step fl d (pop t now)) calls id, same)
run-retries_of fl d (complete other ∷ calls) id =
    let same : retries_of id (step fl d (complete other)) ≡ retries_of id d =
      unfold mark_completed in refl in
    omega (arith, run-retries_of fl (step fl d (complete other)) calls id, same)
run-retries_of fl d (give_back other ∷ calls) id = omega (
  arith,
  run-retries_of fl (return_for_retry d other) calls id,
  return_for_retry-retries_of d other id,
)
run-retries_of fl d (cancel ∷ calls) id =
    let same : retries_of id (step fl d cancel) ≡ retries_of id d = unfold mark_cancelled in refl in
    omega (arith, run-retries_of fl (step fl d cancel) calls id, same)

-- After any calls on the fresh dispatcher of chunks that tile a file, if the transfer has failed,
-- then some chunk was given back at least six times.
pub fails_after_six :
    (fl : Floats) (low high total : ℕ) (cs : List TransferChunkInfo) (calls : List Call)
    → Tiles low high total 0 0 cs
    → All (IsCall (length cs)) calls
    → (run fl (dispatcher_of cs) calls).fatal_error ≡ true
    → (id : ℕ) × (6 ≤ failures_of id calls)
fails_after_six fl low high total cs calls tiles valid h =
    let known : All (IsCall (length (dispatcher_of cs).chunks)) calls =
      unfold dispatcher_of in valid in
    let v =
      run-IsWf fl (dispatcher_of cs) calls known (dispatcher_of-IsWf low high total cs tiles) in
    let (id, six) = v.failed h in
    let none_yet : retries_of id (dispatcher_of cs) ≡ 0 = unfold dispatcher_of lookup in refl in
    (id, omega (arith, run-retries_of fl (dispatcher_of cs) calls id, ap or_zero six, none_yet))
