-- ===== src/Scheduler/Pool/Construction.antt =====
-- `ChunkPool::new` of src/scheduler/pool.rs, and every state that its calls lead to.
use share_dash.Common.{
  ℕ, ◌+◌, ◌^◌, ◌<◌, ◌==◌, ◌≡◌, refl, inl, inr, true, false, ◌||◌, List, [], ◌∷◌, some, arith,
  contains, lookup, insert, has_key, IsDistinct, Bool-cases, has_key-insert, lookup-insert,
  insert-IsMap,
}
use share_dash.Storage.Manifest.{ChunkInfo}
use share_dash.Scheduler.Pool.{Pool, empty_pool, add_chunk, add_chunks, new}
use share_dash.Scheduler.Pool.Accounting.{
  total, finished, one, bytes, finished-le, finished_absent, finished-insert, total-insert,
  contains-push_back, push_back-IsDistinct,
}
use share_dash.Scheduler.Pool.Invariant.{IsWf}

-- The identifiers and the bytes of a list of chunks.
abbrev pub ids : List ChunkInfo → List ℕ
ids [] = []
ids (c ∷ cs) = c.chunk_id ∷ ids cs

abbrev pub sum_bytes : List ChunkInfo → ℕ
sum_bytes [] = 0
sum_bytes (c ∷ cs) = c.length + sum_bytes cs

module _ (p : Pool) (c : ChunkInfo) (v : IsWf p) (fresh : has_key c.chunk_id p.chunks ≡ false) where
  not_completed : contains c.chunk_id p.completed ≡ false
  not_completed = elim (Bool-cases (contains c.chunk_id p.completed)) [
    | inl e ↦ cc (v.known_completed c.chunk_id e)
    | inr e ↦ e
  ]

  not_queued : contains c.chunk_id p.unassigned ≡ false
  not_queued = elim (Bool-cases (contains c.chunk_id p.unassigned)) [
    | inl e ↦ cc (v.known_unassigned c.chunk_id e)
    | inr e ↦ e
  ]

  named_insert :
      (id : ℕ) (d : ChunkInfo) → lookup id (insert c.chunk_id c p.chunks) ≡ some d → d.chunk_id ≡ id
  named_insert id d h = ground (arith, rw lookup-insert at h, v.named id d)

  finished_old :
      (w : ChunkInfo → ℕ)
      → finished w p.completed (insert c.chunk_id c p.chunks) ≡ finished w p.completed p.chunks
  finished_old w =
      ground (arith, finished-insert w c.chunk_id c p.completed p.chunks fresh, not_completed)

  finished_new :
      (w : ChunkInfo → ℕ)
      → finished w (c.chunk_id ∷ p.completed) (insert c.chunk_id c p.chunks)
        ≡ finished w p.completed p.chunks + w c
  finished_new w = ground (
    arith,
    finished-insert w c.chunk_id c (c.chunk_id ∷ p.completed) p.chunks fresh,
    finished_absent w c.chunk_id p.completed p.chunks fresh,
  )

  add_chunk-IsWf :
      (already : List ℕ) → p.total_bytes + c.length < 2 ^ 64 → IsWf (add_chunk already p c)
  unfolding add_chunk
  add_chunk-IsWf already h =
      let table = λ (j : ℕ). has_key-insert c.chunk_id j c p.chunks in
      elim (Bool-cases (contains c.chunk_id already)) [
        | inl old ↦
            rw (old, not_completed)
              (record {
                keys = insert-IsMap c.chunk_id c p.chunks v.keys;
                named = named_insert;
                queue = v.queue;
                known_unassigned = λ j k. ground (arith, v.known_unassigned j k, table j);
                known_in_flight = λ j k. ground (arith, v.known_in_flight j k, table j);
                known_completed = λ j k. ground (arith, v.known_completed j, table j);
                covered = λ j k. ground (arith, v.covered j, table j);
                counted = omega (arith, v.counted, finished_new one);
                summed = omega (
                  arith,
                  v.summed,
                  v.summed_all,
                  finished_new bytes,
                  finished-le bytes p.completed p.chunks,
                );
                summed_all =
                    omega (arith, v.summed_all, total-insert bytes c.chunk_id c p.chunks fresh);
                fits = omega arith;
              })
        | inr new ↦ rw new (record {
          keys = insert-IsMap c.chunk_id c p.chunks v.keys;
          named = named_insert;
          queue = push_back-IsDistinct p.unassigned c.chunk_id v.queue not_queued;
          known_unassigned =
              λ j k. ground (arith, v.known_unassigned j, table j, rw contains-push_back at k);
          known_in_flight = λ j k. ground (arith, v.known_in_flight j k, table j);
          known_completed = λ j k. ground (arith, v.known_completed j k, table j);
          covered = λ j k.
              ground (arith, v.covered j, table j, contains-push_back p.unassigned c.chunk_id j);
          counted = omega (arith, v.counted, finished_old one);
          summed = omega (arith, v.summed, finished_old bytes);
          summed_all = omega (arith, v.summed_all, total-insert bytes c.chunk_id c p.chunks fresh);
          fits = omega arith;
        })
      ]

add_chunk-has_key :
    (already : List ℕ) (p : Pool) (c : ChunkInfo) (id : ℕ)
    → has_key id (add_chunk already p c).chunks ≡ (c.chunk_id == id || has_key id p.chunks)
unfolding add_chunk
add_chunk-has_key already p c id = ground (arith, has_key-insert c.chunk_id id c p.chunks)

add_chunk-total :
    (already : List ℕ) (p : Pool) (c : ChunkInfo)
    → p.total_bytes + c.length < 2 ^ 64
    → (add_chunk already p c).total_bytes ≡ p.total_bytes + c.length
unfolding add_chunk
add_chunk-total already p c h = ground arith

add_chunks-IsWf :
    (already : List ℕ) (p : Pool) (cs : List ChunkInfo)
    → IsDistinct (ids cs)
    → ((id : ℕ) → contains id (ids cs) ≡ true → has_key id p.chunks ≡ false)
    → p.total_bytes + sum_bytes cs < 2 ^ 64
    → IsWf p
    → IsWf (add_chunks already p cs)
unfolding add_chunks
add_chunks-IsWf already p [] d f h v = v
add_chunks-IsWf already p (c ∷ cs) d f h v =
    add_chunks-IsWf already (add_chunk already p c) cs d.1
      (λ id k. ground (arith, f id, add_chunk-has_key already p c id, d.0))
      (omega (arith, add_chunk-total already p c (omega arith)))
      (add_chunk-IsWf p c v (f c.chunk_id (ground arith)) already (omega arith))

empty_pool-IsWf : IsWf empty_pool
unfolding total finished lookup
empty_pool-IsWf = record {
  keys = tt;
  named = λ id c h. cc;
  queue = tt;
  known_unassigned = λ id h. cc;
  known_in_flight = λ id h. cc;
  known_completed = λ id h. cc;
  covered = λ id h. cc;
  counted = refl;
  summed = refl;
  summed_all = refl;
  fits = omega arith;
}

pub new-IsWf :
    (cs : List ChunkInfo) (already : List ℕ)
    → IsDistinct (ids cs)
    → sum_bytes cs < 2 ^ 64
    → IsWf (new cs already)
unfolding new
new-IsWf cs already d h =
    add_chunks-IsWf already empty_pool cs d (λ id k. refl) (omega arith) empty_pool-IsWf
