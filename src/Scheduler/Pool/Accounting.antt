-- ===== src/Scheduler/Pool/Accounting.antt =====
-- The sums over the chunk table that the counters of the pool (src/scheduler/pool.rs) stand for.
use share_dash.Common.{
  ℕ, ◌+◌, ◌≤◌, ◌==◌, ◌≡◌, refl, ap, inl, inr, if◌then◌else◌, true, false, List, [], ◌∷◌, some,
  arith, contains, length, lookup, insert, has_key, IsMap, IsDistinct, Bool-cases,
}
use share_dash.Storage.Manifest.{ChunkInfo}
use share_dash.Scheduler.Pool.{push_back}

-- The weight of all chunks, and of those whose identifier is in `done`.
unfoldable pub total : (ChunkInfo → ℕ) → List (ℕ × ChunkInfo) → ℕ
total w [] = 0
total w ((id, c) ∷ m) = w c + total w m

unfoldable pub finished : (ChunkInfo → ℕ) → List ℕ → List (ℕ × ChunkInfo) → ℕ
finished w done [] = 0
finished w done ((id, c) ∷ m) = (if contains id done then w c else 0) + finished w done m

-- The weights that the pool keeps.
abbrev pub one : ChunkInfo → ℕ
one c = 1

abbrev pub bytes : ChunkInfo → ℕ
bytes c = c.length

pub finished-le :
    (w : ChunkInfo → ℕ) (done : List ℕ) (m : List (ℕ × ChunkInfo)) → finished w done m ≤ total w m
unfolding total finished
finished-le w done [] = omega arith
finished-le w done ((id, c) ∷ m) = ground (arith, finished-le w done m)

pub finished_absent :
    (w : ChunkInfo → ℕ) (id : ℕ) (done : List ℕ) (m : List (ℕ × ChunkInfo))
    → has_key id m ≡ false
    → finished w (id ∷ done) m ≡ finished w done m
unfolding finished
finished_absent w id done [] h = refl
finished_absent w id done ((j, c) ∷ m) h = ground (arith, finished_absent w id done m)

-- One more finished chunk adds its own weight.
pub finished-cons :
    (w : ChunkInfo → ℕ) (id : ℕ) (c : ChunkInfo) (done : List ℕ) (m : List (ℕ × ChunkInfo))
    → IsMap m
    → lookup id m ≡ some c
    → contains id done ≡ false
    → finished w (id ∷ done) m ≡ finished w done m + w c
unfolding finished lookup
finished-cons w id c done [] v e h = cc
finished-cons w id c done ((j, d) ∷ m) v e h = elim (Bool-cases (j == id)) [
  | inl hit ↦ ground (arith, finished_absent w id done m, ap w (the_value (rw hit at e)))
  | inr miss ↦ ground (arith, finished-cons w id c done m v.1)
]
  where
    the_value : some d ≡ some c → d ≡ c
    the_value p = cc

pub finished-insert :
    (w : ChunkInfo → ℕ) (id : ℕ) (c : ChunkInfo) (done : List ℕ) (m : List (ℕ × ChunkInfo))
    → has_key id m ≡ false
    → finished w done (insert id c m) ≡ finished w done m + (if contains id done then w c else 0)
unfolding finished insert
finished-insert w id c done [] h = ground arith
finished-insert w id c done ((j, d) ∷ m) h = ground (arith, finished-insert w id c done m)

pub total-insert :
    (w : ChunkInfo → ℕ) (id : ℕ) (c : ChunkInfo) (m : List (ℕ × ChunkInfo))
    → has_key id m ≡ false
    → total w (insert id c m) ≡ total w m + w c
unfolding total insert
total-insert w id c [] h = omega arith
total-insert w id c ((j, d) ∷ m) h = ground (arith, total-insert w id c m)

pub total-one : (m : List (ℕ × ChunkInfo)) → total one m ≡ length m
unfolding total
total-one [] = refl
total-one ((id, c) ∷ m) = omega (arith, total-one m)

-- If the finished chunks are as many as all of them, then each one is finished.
pub finished_total :
    (done : List ℕ) (m : List (ℕ × ChunkInfo)) (id : ℕ)
    → finished one done m ≡ length m
    → has_key id m ≡ true
    → contains id done ≡ true
unfolding finished
finished_total done [] id e h = cc
finished_total done ((j, c) ∷ m) id e h =
    ground (arith, finished_total done m id, finished-le one done m, total-one m)

pub total_finished :
    (done : List ℕ) (m : List (ℕ × ChunkInfo))
    → ((id : ℕ) → has_key id m ≡ true → contains id done ≡ true)
    → IsMap m
    → finished one done m ≡ length m
unfolding finished
total_finished done [] h v = refl
total_finished done ((j, c) ∷ m) h v =
    let rest = total_finished done m (λ id k. h id (ground arith)) v.1 in ground (arith, h j, rest)

pub contains-push_back :
    (xs : List ℕ) (x a : ℕ) → contains a (push_back xs x) ≡ (if x == a then true else contains a xs)
unfolding push_back
contains-push_back [] x a = ground arith
contains-push_back (y ∷ ys) x a = ground (arith, contains-push_back ys x a)

pub push_back-IsDistinct :
    (xs : List ℕ) (x : ℕ) → IsDistinct xs → contains x xs ≡ false → IsDistinct (push_back xs x)
unfolding push_back
push_back-IsDistinct [] x h k = (refl, tt)
push_back-IsDistinct (y ∷ ys) x h k =
    ground (arith, push_back-IsDistinct ys x h.1, contains-push_back ys x y)
