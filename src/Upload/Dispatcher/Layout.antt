-- ===== src/Upload/Dispatcher/Layout.antt =====
-- The chunks that DynamicWorkDispatcher::new (src/cli.rs) and GuiWorkDispatcher::new
-- (src/gui/engine.rs) cut a file into.
use share_dash.Common.{
  ℕ, zero, suc, ◌+◌, ◌-◌, ◌*◌, ◌%◌, ◌^◌, ◌≤◌, ◌<◌, ◌≡◌, refl, ltb, List, [], ◌∷◌, some, arith,
  length, ◌⊎◌, inl, inr, Bool-cases, ltb→lt, lt→ltb, ap, ◌==◌,
}
use share_dash.Upload.Dispatcher.{
  TransferChunkInfo, min_of, gui_base_chunk_size, gui_chunk_size, layout_loop, layout,
  dispatcher_of, gui_new, or_dispatcher,
}

module _ (low high total : ℕ) where
  -- The chunk is number `n`, and starts at `offset`. It has from `low` to `high` bytes, or fewer
  -- if it ends where the file ends, and none only if the file has none.
  pub record IsPiece (offset n : ℕ) (c : TransferChunkInfo) : Type 0 where
    pub chunk_id_eq : c.chunk_id ≡ n
    pub offset_eq : c.offset ≡ offset
    pub nonempty : (0 < c.length) ⊎ (total ≡ 0)
    pub at_most : c.length ≤ high
    pub within : offset + c.length ≤ total
    pub at_least : (low ≤ c.length) ⊎ (offset + c.length ≡ total)

  -- The chunks are numbered from `n` on and cover the file from `offset` on, in their order, without
  -- gap or overlap.
  abbrev pub Tiles : ℕ → ℕ → List TransferChunkInfo → Type 0
  Tiles offset n [] = total ≤ offset
  Tiles offset n (c ∷ cs) = IsPiece offset n c × Tiles (offset + c.length) (suc n) cs

module _ (size_for : ℕ → ℕ) (high total : ℕ)
    (sizes : (r : ℕ) → (1048576 ≤ size_for r) × (size_for r ≤ high)) (small : total < 2 ^ 51) where
  abbrev Laid : ℕ → ℕ → ℕ → Type 0
  Laid fuel offset n =
      (cs : List TransferChunkInfo) × (layout_loop size_for fuel total offset n ≡ some cs)
      × Tiles 1048576 high total offset n cs

  round_Laid :
      (fuel offset n : ℕ)
      → offset < total
      → n * 1048576 ≤ offset
      → Laid fuel (offset + min_of (total - offset) (size_for (total - offset))) (suc n)
      → Laid (suc fuel) offset n
  unfolding layout_loop
  round_Laid fuel offset n h k (cs, e, tiles) =
      let len = min_of (total - offset) (size_for (total - offset)) in
      let bounds = sizes (total - offset) in
      let next : (offset + len) % 2 ^ 64 ≡ offset + len = ground (arith, bounds) in
      let after : (n + 1) % 2 ^ 32 ≡ suc n = omega arith in
      (
        record { chunk_id = n; offset = offset; length = len } ∷ cs,
        rw (lt→ltb _ _ h, next, after, e),
        (
          record {
            chunk_id_eq = refl;
            offset_eq = refl;
            nonempty = ground (arith, bounds);
            at_most = ground (arith, bounds);
            within = ground (arith, bounds);
            at_least = ground (arith, bounds);
          },
          tiles,
        ),
      )

  layout_loop-Tiles :
      (fuel offset n : ℕ)
      → total - offset < fuel
      → (offset < total → n * 1048576 ≤ offset)
      → Laid fuel offset n
  unfolding layout_loop
  layout_loop-Tiles zero offset n h k = absurd (omega arith)
  layout_loop-Tiles (suc fuel) offset n h k = elim (Bool-cases (ltb offset total)) [
    | inr done ↦ ([], rw done, ground arith)
    | inl more ↦
        let inside : offset < total = ltb→lt _ _ more in
        let bounds = sizes (total - offset) in
        round_Laid fuel offset n inside (k inside) (
          layout_loop-Tiles fuel (offset + min_of (total - offset) (size_for (total - offset)))
            (suc n) (ground (arith, bounds)) (λ i. ground (arith, bounds, k inside)))
  ]

  layout-Tiles :
      (cs : List TransferChunkInfo) × (layout size_for total ≡ some cs)
      × Tiles 1048576 high total 0 0 cs
  unfolding layout
  layout-Tiles = elim (Bool-cases (total == 0)) [
    | inl nothing ↦ (
      record { chunk_id = 0; offset = 0; length = 0 } ∷ [],
      rw nothing,
      (
        record {
          chunk_id_eq = refl;
          offset_eq = refl;
          nonempty = inr (ground arith);
          at_most = omega arith;
          within = omega arith;
          at_least = inr (ground arith);
        },
        ground arith,
      ),
    )
    | inr something ↦
        let (cs, e, tiles) = layout_loop-Tiles (suc total) 0 0 (omega arith) (λ h. omega arith) in
        (cs, rw something e, tiles)
  ]

gui_chunk_size_bounds :
    (total r : ℕ)
    → (1048576 ≤ gui_chunk_size (gui_base_chunk_size total) r)
      × (gui_chunk_size (gui_base_chunk_size total) r ≤ 4194304)
unfolding gui_chunk_size gui_base_chunk_size
gui_chunk_size_bounds total r = ground arith

-- The same of the desktop window's dispatcher, whose chunks have at most 4 MB.
gui_new-Tiles :
    (total : ℕ)
    → total < 2 ^ 51
    → (cs : List TransferChunkInfo) × (gui_new total ≡ some (dispatcher_of cs))
      × Tiles 1048576 4194304 total 0 0 cs
gui_new-Tiles total small =
    let (cs, e, tiles) =
      layout-Tiles (gui_chunk_size (gui_base_chunk_size total)) 4194304 total
        (gui_chunk_size_bounds total) small in
    (cs, unfold gui_new in ap or_dispatcher e, tiles)

-- There are few chunks, since all but the last one are large.
pub Tiles-length :
    (high total : ℕ)
    → 0 < total
    → (offset n : ℕ) (ds : List TransferChunkInfo) → Tiles 1048576 high total offset n ds
    → length ds * 1048576 ≤ (total - offset) + 1048576
Tiles-length high total h offset n [] t = omega arith
Tiles-length high total h offset n (d ∷ []) t = omega arith
Tiles-length high total h offset n (d ∷ e ∷ ds) t =
    let rest = Tiles-length high total h (offset + d.length) (suc n) (e ∷ ds) t.1 in
    ground (arith, rest, t.0.at_least, t.0.within, t.1.0.within, t.1.0.nonempty)
