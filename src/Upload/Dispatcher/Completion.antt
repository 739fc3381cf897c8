-- ===== src/Upload/Dispatcher/Completion.antt =====
-- What `is_done` of DynamicWorkDispatcher (src/cli.rs) means, and that work remains until then.
use share_dash.Common.{
  ℕ, ◌≡◌, ◌↔◌, refl, inl, inr, ◌⊎◌, true, false, arith, contains, length, leb, has_key, Bool-cases,
}
use share_dash.Upload.Dispatcher.{DynamicWorkDispatcher, is_done}
use share_dash.Upload.Dispatcher.Counting.{
  count_below, length-count_below, count_below_full, full_count_below, missing,
}
use share_dash.Upload.Dispatcher.Invariant.{IsId, IsWf}

completed_count :
    (d : DynamicWorkDispatcher)
    → IsWf d
    → length d.completed ≡ count_below (length d.chunks) d.completed
completed_count d v = length-count_below (length d.chunks) d.completed v.once v.known_completed

-- How a transfer can be over.
abbrev pub IsOver : DynamicWorkDispatcher → Type 0
IsOver d =
    (d.cancelled ≡ true)
    ⊎ ((d.fatal_error ≡ true) ⊎ ((id : ℕ) → IsId d id → contains id d.completed ≡ true))

is_done-IsOver : (d : DynamicWorkDispatcher) → IsWf d → is_done d ≡ true → IsOver d
unfolding is_done
is_done-IsOver d v h =
    let count = completed_count d v in
    elim (Bool-cases d.cancelled) [
      | inl a ↦ inl a
      | inr a ↦ elim (Bool-cases d.fatal_error) [
        | inl b ↦ inr (inl b)
        | inr b ↦
            let full : leb (length d.chunks) (length d.completed) ≡ true = rw (a, b) at h in
            inr (
              inr (λ id.
                count_below_full (length d.chunks) d.completed id (ground (arith, count, full))))
      ]
    ]

IsOver-is_done : (d : DynamicWorkDispatcher) → IsWf d → IsOver d → is_done d ≡ true
unfolding is_done
IsOver-is_done d v (inl a) = rw a refl
IsOver-is_done d v (inr (inl b)) = ground (arith, b)
IsOver-is_done d v (inr (inr h)) =
    ground (arith, completed_count d v, full_count_below (length d.chunks) d.completed h)

-- A dispatcher in order is done exactly when the transfer was cancelled, has failed, or every chunk
-- is completed.
pub is_done_iff :
    (d : DynamicWorkDispatcher)
    → IsWf d
    → (is_done d ≡ true) ↔ (
        (d.cancelled ≡ true)
        ⊎ ((d.fatal_error ≡ true) ⊎ ((id : ℕ) → IsId d id → contains id d.completed ≡ true)))
is_done_iff d v = (is_done-IsOver d v, IsOver-is_done d v)

-- A dispatcher in order that is not done has a chunk that is not completed, and that chunk is
-- queued or in flight: some worker has it or can get it.
work_is_left :
    (d : DynamicWorkDispatcher)
    → IsWf d
    → is_done d ≡ false
    → (id : ℕ) × IsId d id
      × (contains id d.completed ≡ false)
      × ((contains id d.unassigned ≡ true) ⊎ (has_key id d.in_flight ≡ true))
unfolding is_done
work_is_left d v going =
    let count = completed_count d v in
    let (id, lt, open_) = missing (length d.chunks) d.completed (ground (arith, count, going)) in
    let place = v.somewhere id (ground (arith, going)) (ground (arith, going)) lt in
    (id, lt, open_, ground (arith, place, open_))
