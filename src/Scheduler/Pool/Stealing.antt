-- ===== src/Scheduler/Pool/Stealing.antt =====
-- Which chunk `steal_stalled_chunk` of src/scheduler/pool.rs takes over.
use share_dash.Common.{
  ℕ, ◌≡◌, refl, inl, inr, ◌⊎◌, Bool, true, false, ◌&&◌, List, [], ◌∷◌, Option, none, some, Text,
  arith, lookup, adjust, Bool-cases, Option-cases, Floats, FloatOrder, ap,
}
use share_dash.Storage.Manifest.{ChunkInfo}
use share_dash.Scheduler.Pool.{
  Pool, InFlightInfo, overdue_ratio, can_steal, stolen_by, find_stalled, steal, steal_stalled_chunk,
}

-- The entry is in the table.
abbrev pub Entry : ℕ → InFlightInfo → List (ℕ × InFlightInfo) → Type 0
Entry id info [] = ⊥
Entry id info ((j, other) ∷ m) = ((j ≡ id) × (other ≡ info)) ⊎ Entry id info m

module _ (fl : Floats) where
  open fl use {F64, lt, decimal}

  -- What a scan that began with the ratio `least` has found.
  abbrev pub Finds : ℕ → Text → List (ℕ × InFlightInfo) → F64 → ℕ → Type 0
  Finds now t m least id =
      (info : InFlightInfo) × Entry id info m
      × (can_steal t info ≡ true)
      × (lt least (overdue_ratio fl now info) ≡ true)

  scan_better :
      (now : ℕ) (t : Text) (id : ℕ) (info : InFlightInfo) (m : List (ℕ × InFlightInfo))
      (cand : Option ℕ) (ratio : F64)
      → (can_steal t info && lt ratio (overdue_ratio fl now info)) ≡ true
      → find_stalled fl now t ((id, info) ∷ m) cand ratio
        ≡ find_stalled fl now t m (some id) (overdue_ratio fl now info)
  scan_better now t id info m cand ratio e = unfold find_stalled in rw (e, find_stalled)

  scan_worse :
      (now : ℕ) (t : Text) (id : ℕ) (info : InFlightInfo) (m : List (ℕ × InFlightInfo))
      (cand : Option ℕ) (ratio : F64)
      → (can_steal t info && lt ratio (overdue_ratio fl now info)) ≡ false
      → find_stalled fl now t ((id, info) ∷ m) cand ratio ≡ find_stalled fl now t m cand ratio
  scan_worse now t id info m cand ratio e = unfold find_stalled in rw (e, find_stalled)

module _ (fl : Floats) (order : FloatOrder fl) where
  open fl use {F64, lt, decimal}
  open order use {lt_irrefl, lt_trans}

  abbrev beats : ℕ → Text → F64 → InFlightInfo → Bool
  beats now t ratio info = can_steal t info && lt ratio (overdue_ratio fl now info)

  scan_grows :
      (now : ℕ) (t : Text) (m : List (ℕ × InFlightInfo)) (cand : Option ℕ) (ratio : F64)
      → ((find_stalled fl now t m cand ratio).1 ≡ ratio)
        ⊎ (lt ratio (find_stalled fl now t m cand ratio).1 ≡ true)
  scan_grows now t [] cand ratio = unfold find_stalled in inl refl
  scan_grows now t ((id, info) ∷ m) cand ratio = elim (Bool-cases (beats now t ratio info)) [
    | inr worse ↦
        rw (scan_worse fl now t id info m cand ratio worse) (scan_grows now t m cand ratio)
    | inl better ↦
        let rest = scan_grows now t m (some id) (overdue_ratio fl now info) in
        let more : lt ratio (overdue_ratio fl now info) ≡ true = ground arith in
        rw (scan_better fl now t id info m cand ratio better)
          (inr (elim rest [ inl same ↦ rw same more | inr further ↦ lt_trans _ _ _ more further ]))
  ]

  -- What does not beat the ratio of a scan does not beat the ratio that the scan ends with.
  scan_keeps :
      (now : ℕ) (t : Text) (m : List (ℕ × InFlightInfo)) (cand : Option ℕ) (ratio r : F64)
      → lt ratio r ≡ false
      → lt (find_stalled fl now t m cand ratio).1 r ≡ false
  scan_keeps now t m cand ratio r h =
      elim (Bool-cases (lt (find_stalled fl now t m cand ratio).1 r)) [
        | inr e ↦ e
        | inl e ↦ elim (scan_grows now t m cand ratio) [
          | inl same ↦ absurd (cc (rw same at e))
          | inr more ↦ absurd (cc (lt_trans _ _ _ more e))
        ]
      ]

  -- No entry that may be stolen beats the ratio that a scan ends with.
  scan_best :
      (now : ℕ) (t : Text) (m : List (ℕ × InFlightInfo)) (cand : Option ℕ) (ratio : F64) (j : ℕ)
      (other : InFlightInfo)
      → Entry j other m
      → can_steal t other ≡ true
      → lt (find_stalled fl now t m cand ratio).1 (overdue_ratio fl now other) ≡ false
  scan_best now t [] cand ratio j other e s = absurd e
  scan_best now t ((id, info) ∷ m) cand ratio j other e s =
      elim (Bool-cases (beats now t ratio info)) [
        | inr worse ↦ rw (scan_worse fl now t id info m cand ratio worse) (elim e [
          | inr later ↦ scan_best now t m cand ratio j other later s
          | inl (_, same) ↦
              scan_keeps now t m cand ratio (overdue_ratio fl now other)
                (ground (arith, ap (beats now t ratio) same))
        ])
        | inl better ↦ rw (scan_better fl now t id info m cand ratio better) (elim e [
          | inr later ↦ scan_best now t m (some id) (overdue_ratio fl now info) j other later s
          | inl (_, same) ↦
              scan_keeps now t m (some id) (overdue_ratio fl now info) (overdue_ratio fl now other)
                (rw same (lt_irrefl _))
        ])
      ]

  -- The candidate of a scan is an entry that may be stolen, at the ratio that the scan ends with.
  abbrev Winner : ℕ → Text → List (ℕ × InFlightInfo) → F64 → Option ℕ × F64 → ℕ → Type 0
  Winner now t m least result id =
      (info : InFlightInfo) × Entry id info m
      × (can_steal t info ≡ true)
      × (lt least (overdue_ratio fl now info) ≡ true)
      × (result.1 ≡ overdue_ratio fl now info)

  Winner-later :
      (now : ℕ) (t : Text) (k : ℕ) (other : InFlightInfo) (m : List (ℕ × InFlightInfo))
      (least : F64) (result : Option ℕ × F64) (id : ℕ)
      → Winner now t m least result id
      → Winner now t ((k, other) ∷ m) least result id
  Winner-later now t k other m least result id (info, e, s, l, r) = (info, inr e, s, l, r)

  scan_finds :
      (now : ℕ) (t : Text) (m : List (ℕ × InFlightInfo)) (cand : Option ℕ) (ratio : F64) (id : ℕ)
      → (find_stalled fl now t m cand ratio).0 ≡ some id
      → ((cand ≡ some id) × ((find_stalled fl now t m cand ratio).1 ≡ ratio))
        ⊎ Winner now t m ratio (find_stalled fl now t m cand ratio) id
  scan_finds now t [] cand ratio id e = inl (unfold find_stalled in (e, refl))
  scan_finds now t ((k, info) ∷ m) cand ratio id e = elim (Bool-cases (beats now t ratio info)) [
    | inr worse ↦
        let step = scan_worse fl now t k info m cand ratio worse in
        rw step (elim (scan_finds now t m cand ratio id (rw step at e)) [
          | inl same ↦ inl same
          | inr (i, a, b, c, d) ↦ inr (i, inr a, b, c, d)
        ])
    | inl better ↦
        let step = scan_better fl now t k info m cand ratio better in
        let more : lt ratio (overdue_ratio fl now info) ≡ true = ground arith in
        rw step (elim (scan_finds now t m (some k) (overdue_ratio fl now info) id (rw step at e)) [
          | inl (same, last) ↦ inr (info, inl (ground arith, refl), ground arith, more, last)
          | inr (i, a, b, c, d) ↦ inr (i, inr a, b, lt_trans _ _ _ more c, d)
        ])
  ]

  steals_nothing :
      (p : Pool) (t : Text) (now : ℕ)
      → (find_stalled fl now t p.in_flight none (decimal 15 1)).0 ≡ none
      → steal_stalled_chunk fl p t now ≡ (p, none)
  steals_nothing p t now e = unfold steal_stalled_chunk in rw (e, steal)

  steals_candidate :
      (p : Pool) (t : Text) (now id : ℕ)
      → (find_stalled fl now t p.in_flight none (decimal 15 1)).0 ≡ some id
      → steal_stalled_chunk fl p t now
        ≡ (record p { in_flight = adjust id (stolen_by t) p.in_flight }, lookup id p.chunks)
  steals_candidate p t now id e = unfold steal_stalled_chunk in rw (e, steal)

  -- Where `<` on the floats is irreflexive and transitive, the chunk that is stolen is in flight on
  -- another transport, was not stolen before, and is past 1.5 times its expected duration; no other
  -- chunk that may be stolen is overdue by a greater ratio. Its entry alone changes: the thief
  -- becomes its second transport, and the attempt is counted.
  pub steal_stalled_chunk_lem :
      (p : Pool) (t : Text) (now : ℕ) (c : ChunkInfo)
      → (steal_stalled_chunk fl p t now).1 ≡ some c
      → (id : ℕ) × (info : InFlightInfo) × Entry id info p.in_flight
        × (can_steal t info ≡ true)
        × (lt (decimal 15 1) (overdue_ratio fl now info) ≡ true)
        × ((j : ℕ) (other : InFlightInfo)
            → Entry j other p.in_flight
            → can_steal t other ≡ true
            → lt (overdue_ratio fl now info) (overdue_ratio fl now other) ≡ false)
        × (lookup id p.chunks ≡ some c)
        × ((steal_stalled_chunk fl p t now).0
            ≡ record p { in_flight = adjust id (stolen_by t) p.in_flight })
  steal_stalled_chunk_lem p t now c h =
      let scan = find_stalled fl now t p.in_flight none (decimal 15 1) in
      elim (Option-cases scan.0) [
        | inl e ↦ absurd (cc (rw (steals_nothing p t now e) at h))
        | inr (id, e) ↦ elim (scan_finds now t p.in_flight none (decimal 15 1) id e) [
          | inl (absent, _) ↦ absurd (cc absent)
          | inr (info, held, free, late, last) ↦
              let took = steals_candidate p t now id e in
              (
                id,
                info,
                held,
                free,
                late,
                λ j other m s. rw (← last) (scan_best now t p.in_flight none _ j other m s),
                rw took at h,
                rw took,
              )
        ]
      ]
