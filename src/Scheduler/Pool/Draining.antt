-- ===== src/Scheduler/Pool/Draining.antt =====
-- Transports that take chunks from the pool of src/scheduler/pool.rs, one after the other, and
-- complete them.
use share_dash.Common.{
  ℕ, ◌==◌, ◌≤◌, ◌≡◌, refl, sym, ap, subst, ◌∙◌, ◌⊎◌, inl, inr, true, ◌||◌, List, [], ◌∷◌, Option,
  none, some, Text, arith, contains, length, lookup, insert, has_key, lookup_of_has_key,
  has_key-insert, has_key-remove, Floats,
}
use share_dash.Storage.Manifest.{ChunkInfo}
use share_dash.Scheduler.Pool.{
  Pool, InFlightInfo, estimate, take_next_unassigned, take_from, dispatch, mark_completed,
  is_all_completed,
}
use share_dash.Scheduler.Pool.Invariant.{IsWf, take_next_unassigned-IsWf, mark_completed-IsWf}
use share_dash.Scheduler.Pool.Completion.{is_all_completed_iff}

-- Every chunk in flight is also completed: no one has to fetch it.
abbrev pub IsGrounded : Pool → Type 0
IsGrounded p = (id : ℕ) → has_key id p.in_flight ≡ true → contains id p.completed ≡ true

mark_completed-IsGrounded :
    (p : Pool) (id : ℕ)
    → ((j : ℕ) → has_key j p.in_flight ≡ true → (id == j || contains j p.completed) ≡ true)
    → IsGrounded (mark_completed p id).0
unfolding mark_completed
mark_completed-IsGrounded p id h j k = ground (arith, h j, has_key-remove id j p.in_flight)

mark_completed-unassigned : (p : Pool) (id : ℕ) → (mark_completed p id).0.unassigned ≡ p.unassigned
unfolding mark_completed
mark_completed-unassigned p id = ground arith

-- What a worker makes of the answer of `take_next_unassigned`, if all goes well.
abbrev pub complete_taken : Pool → Option ChunkInfo → Pool
complete_taken p none = p
complete_taken p (some c) = (mark_completed p c.chunk_id).0

module _ (fl : Floats) where
  open fl use {F64}

  pub record Turn : Type 0 where
    pub transport : Text
    pub mbps : F64
    pub rtt_ms : F64
    pub now : ℕ

  abbrev pub take_turn : Turn → Pool → Pool
  take_turn t p =
      let r = take_next_unassigned fl p t.transport t.mbps t.rtt_ms t.now in complete_taken r.0 r.1

  abbrev pub drain : List Turn → Pool → Pool
  drain [] p = p
  drain (t ∷ ts) p = drain ts (take_turn t p)

  -- The head of the queue goes into flight.
  abbrev launched : Pool → ℕ → List ℕ → InFlightInfo → Pool
  launched p id rest info = record p { unassigned = rest; in_flight = insert id info p.in_flight }

  take_head :
      (t : Turn) (p : Pool) (id : ℕ) (rest : List ℕ) (c : ChunkInfo)
      → p.unassigned ≡ id ∷ rest
      → lookup id p.chunks ≡ some c
      → (info : InFlightInfo) × (take_next_unassigned fl p t.transport t.mbps t.rtt_ms t.now
          ≡ (launched p id rest info, some c))
  unfolding take_next_unassigned take_from dispatch
  take_head t p id rest c e at = (
    record {
      chunk_id = id;
      primary_transport_id = t.transport;
      secondary_transport_id = none;
      dispatched_at = t.now;
      estimated_duration = estimate fl c.length t.mbps t.rtt_ms;
      attempt_count = 1;
    },
    ap (λ xs. take_from fl p xs t.transport t.mbps t.rtt_ms t.now) e ∙ rw (at, dispatch) refl,
  )

  -- A turn takes the head off the queue, and leaves nothing in flight that is not completed.
  take_turn_head :
      (t : Turn) (p : Pool) (id : ℕ) (rest : List ℕ)
      → p.unassigned ≡ id ∷ rest
      → IsWf p
      → IsGrounded p
      → ((take_turn t p).unassigned ≡ rest) × IsWf (take_turn t p) × IsGrounded (take_turn t p)
  take_turn_head t p id rest e v g =
      let known = v.known_unassigned id (rw e (ground arith)) in
      let (c, at) = lookup_of_has_key id p.chunks known in
      let (info, took) = take_head t p id rest c e at in
      let q = launched p id rest info in
      let wf : IsWf q =
        subst (λ r. IsWf r.0) took
          (take_next_unassigned-IsWf fl p t.transport t.mbps t.rtt_ms t.now v) in
      let marked : take_turn t p ≡ (mark_completed q id).0 =
        ap (λ r. complete_taken r.0 r.1) took
        ∙ ap (λ i. (mark_completed q i).0) (v.named id c at) in
      subst (λ r. (r.unassigned ≡ rest) × IsWf r × IsGrounded r) (sym marked)
        (
          mark_completed-unassigned q id,
          mark_completed-IsWf q id known wf,
          mark_completed-IsGrounded q id
              (λ j k. ground (arith, g j, has_key-insert id j info p.in_flight)),
        )

  take_turn_empty : (t : Turn) (p : Pool) → p.unassigned ≡ [] → take_turn t p ≡ p
  unfolding take_next_unassigned take_from
  take_turn_empty t p e = rw e refl

all_grounded : (p : Pool) → IsWf p → IsGrounded p → p.unassigned ≡ [] → is_all_completed p ≡ true
all_grounded p v g e =
    (is_all_completed_iff p v).1 λ id known. ground (arith, g id, rw e at (v.covered id known))

List-cases : (xs : List ℕ) → (xs ≡ []) ⊎ ((x : ℕ) × (rest : List ℕ) × (xs ≡ x ∷ rest))
List-cases [] = inl refl
List-cases (x ∷ rest) = inr (x, rest, refl)

-- In a pool in order in which every chunk in flight is also completed, as after its construction,
-- as many turns as there are chunks in the queue complete the whole pool, whichever transports take
-- the turns, at whatever times and speeds: in each, the transport takes the next chunk, if there
-- is one, and marks it completed.
pub drain_completes :
    (fl : Floats) (ts : List (Turn fl)) (p : Pool)
    → IsWf p
    → IsGrounded p
    → length p.unassigned ≤ length ts
    → is_all_completed (drain fl ts p) ≡ true
drain_completes fl [] p v g h = elim (List-cases p.unassigned) [
  | inl e ↦ all_grounded p v g e
  | inr (x, rest, e) ↦ absurd (omega (arith, h, ap length e))
]
drain_completes fl (t ∷ ts) p v g h = elim (List-cases p.unassigned) [
  | inl e ↦
      subst (λ q. is_all_completed (drain fl ts q) ≡ true) (sym (take_turn_empty fl t p e))
        (drain_completes fl ts p v g (omega (arith, ap length e)))
  | inr (x, rest, e) ↦
      let (queue, v', g') = take_turn_head fl t p x rest e v g in
      drain_completes fl ts (take_turn fl t p) v' g'
        (omega (arith, h, ap length e, ap length queue))
]
