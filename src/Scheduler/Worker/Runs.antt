-- ===== src/Scheduler/Worker/Runs.antt =====
-- The workers of src/scheduler/dynamic_scheduler.rs side by side, in any interleaving of their
-- steps.
use share_dash.Common.{
  ℕ, ◌==◌, ◌≡◌, sym, ap, subst, inl, inr, if◌then◌else◌, true, Text, Bool-cases, Floats,
}
use share_dash.Scheduler.Worker.Soundness.{IsHeld, IsHeld-keeps, Moves, worker_step-IsSound}
use share_dash.Scheduler.Pool.{Pool}
use share_dash.Scheduler.Pool.Invariant.{IsWf}
use share_dash.Scheduler.Pool.Histories.{Reach, untouched, next, Step-IsWf, Step-Kept}
use share_dash.Scheduler.Worker.{Shared, Phase, idle, Input, Session, worker_step}

-- The phase of one worker, replaced.
abbrev pub set_phase : ℕ → Phase → (ℕ → Phase) → ℕ → Phase
set_phase i ph phases j = if i == j then ph else phases j

-- What the workers, named by `name`, and the user can make of the shared state: every worker begins
-- at the top of its loop, they step in any order, and the user may cancel.
pub data Run (fl : Floats) (session : Session) (name : ℕ → Text) (start : Shared)
    : Shared → (ℕ → Phase) → Type 0 where
  started : Run fl session name start start (λ i. idle)
  steps :
      {s : Shared} {phases : ℕ → Phase} (i : ℕ) (input : Input fl)
      → Run fl session name start s phases
      → Run fl session name start
          (worker_step fl session (name i) input s (phases i)).0
          (set_phase i (worker_step fl session (name i) input s (phases i)).1 phases)
  cancels :
      {s : Shared} {phases : ℕ → Phase}
      → Run fl session name start s phases
      → Run fl session name start (record s { cancel = true }) phases

Moves-Reach : {fl : Floats} {p q r : Pool} → Reach fl p q → Moves fl q r → Reach fl p r
Moves-Reach {fl} {p = p} reach (inl same) = subst (Reach fl p) (sym same) reach
Moves-Reach reach (inr step) = next reach step

Moves-IsWf : {fl : Floats} {p q : Pool} → IsWf p → Moves fl p q → IsWf q
Moves-IsWf v (inl same) = subst IsWf (sym same) v
Moves-IsWf v (inr step) = Step-IsWf step v

Moves-chunks : {fl : Floats} {p q : Pool} → Moves fl p q → q.chunks ≡ p.chunks
Moves-chunks (inl same) = ap (λ r. r.chunks) same
Moves-chunks (inr step) = (Step-Kept step).chunks

set_phase-IsHeld :
    (p q : Pool) (i : ℕ) (ph : Phase) (phases : ℕ → Phase)
    → q.chunks ≡ p.chunks
    → IsHeld q ph
    → ((j : ℕ) → IsHeld p (phases j))
    → (j : ℕ) → IsHeld q (set_phase i ph phases j)
set_phase-IsHeld p q i ph phases e h others j = elim (Bool-cases (i == j)) [
  | inl same ↦ rw same h
  | inr other ↦ rw other (IsHeld-keeps p q (phases j) e (others j))
]

-- From a pool in order, in any interleaving of any number of workers, with any answers of their
-- transports and whenever the user cancels: the pool has gone through a sequence of its own
-- operations only, it is in order, and every chunk that a worker has in hand is one of its own.
pub Run-Reach :
    (fl : Floats) (session : Session) (name : ℕ → Text) (start s : Shared) (phases : ℕ → Phase)
    → IsWf start.pool
    → Run fl session name start s phases
    → Reach fl start.pool s.pool × IsWf s.pool × ((i : ℕ) → IsHeld s.pool (phases i))
Run-Reach fl session name start s phases v started = (untouched, v, λ i. tt)
Run-Reach fl session name start s phases v (cancels {s = before} run) =
    Run-Reach fl session name start before phases v run
Run-Reach fl session name start s phases v (steps {s = before} {phases = old} i input run) =
    let (reach, wf, held) = Run-Reach fl session name start before old v run in
    let (moves, hand) = worker_step-IsSound fl session (name i) input before (old i) wf (held i) in
    (
      Moves-Reach reach moves,
      Moves-IsWf wf moves,
      set_phase-IsHeld before.pool (worker_step fl session (name i) input before (old i)).0.pool i _
          old (Moves-chunks moves) hand held,
    )
