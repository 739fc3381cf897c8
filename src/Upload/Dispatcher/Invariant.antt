-- ===== src/Upload/Dispatcher/Invariant.antt =====
-- The state that DynamicWorkDispatcher of src/cli.rs is in between two calls.
use share_dash.Common.{
  ℕ, ◌+◌, ◌≤◌, ◌<◌, ◌==◌, ◌≡◌, refl, inl, inr, ◌⊎◌, true, false, ◌||◌, List, [], ◌∷◌, Option, none,
  some, Text, arith, contains, length, leb, lookup, insert, remove, has_key, get_elem?, IsDistinct,
  Bool-cases, Floats, has_key-insert, has_key-remove, lookup-insert,
}
use share_dash.Scheduler.Pool.Accounting.{contains-push_back}
use share_dash.Upload.Dispatcher.{
  DynamicWorkDispatcher, TransferChunkInfo, candidate, pop_stalled, pop_from, pop_chunk,
  mark_completed, mark_cancelled, one_more, or_zero, retry, return_for_retry,
}

-- The chunk's number is one of the dispatcher's.
abbrev pub IsId : DynamicWorkDispatcher → ℕ → Type 0
IsId d id = id < length d.chunks

pub record IsWf (d : DynamicWorkDispatcher) : Type 0 where
  -- Each chunk stands at the position of its number.
  pub numbered : (i : ℕ) (c : TransferChunkInfo) → get_elem? d.chunks i ≡ some c → c.chunk_id ≡ i
  -- What is queued, in flight or completed is a chunk.
  pub known_unassigned : (id : ℕ) → contains id d.unassigned ≡ true → IsId d id
  pub known_in_flight : (id : ℕ) → has_key id d.in_flight ≡ true → IsId d id
  pub known_completed : (id : ℕ) → contains id d.completed ≡ true → IsId d id
  pub once : IsDistinct d.completed
  -- Until the transfer is given up, every chunk is somewhere.
  pub somewhere :
      (id : ℕ)
      → d.cancelled ≡ false
      → d.fatal_error ≡ false
      → IsId d id
      → (contains id d.unassigned || (has_key id d.in_flight || contains id d.completed)) ≡ true
  -- A chunk is retried at most five times; its sixth failure is fatal, and nothing else is.
  pub counted :
      (id n : ℕ) → lookup id d.retries ≡ some n → (n ≤ 5) ⊎ ((n ≡ 6) × (d.fatal_error ≡ true))
  pub failed : d.fatal_error ≡ true → (id : ℕ) × (lookup id d.retries ≡ some 6)

pub mark_completed-IsWf :
    (d : DynamicWorkDispatcher) (id : ℕ) → IsId d id → IsWf d → IsWf (mark_completed d id).0
unfolding mark_completed
mark_completed-IsWf d id h v =
    let held = λ (j : ℕ). has_key-remove id j d.in_flight in
    record {
      numbered = v.numbered;
      known_unassigned = v.known_unassigned;
      known_in_flight = λ j k. ground (arith, v.known_in_flight j, held j);
      known_completed = λ j k. ground (arith, v.known_completed j);
      once = ground (arith, v.once);
      somewhere = λ j a b k. ground (arith, v.somewhere j a b k, held j);
      counted = v.counted;
      failed = v.failed;
    }

pub mark_cancelled-IsWf : (d : DynamicWorkDispatcher) → IsWf d → IsWf (mark_cancelled d)
unfolding mark_cancelled
mark_cancelled-IsWf d v = record {
  numbered = v.numbered;
  known_unassigned = λ j k. cc;
  known_in_flight = λ j k. cc;
  known_completed = v.known_completed;
  once = v.once;
  somewhere = λ j a b k. cc;
  counted = v.counted;
  failed = v.failed;
}

-- The retries of a chunk, before its next failure is counted.
one_more_eq :
    (d : DynamicWorkDispatcher) (id : ℕ)
    → IsWf d
    → d.fatal_error ≡ false
    → (one_more d id ≡ or_zero (lookup id d.retries) + 1) × (one_more d id ≤ 6)
one_more_eq d id v h = few (lookup id d.retries) refl
  where
    few :
        (o : Option ℕ)
        → lookup id d.retries ≡ o
        → (one_more d id ≡ or_zero (lookup id d.retries) + 1) × (one_more d id ≤ 6)
    few none e = rw e (ground arith)
    few (some n) e = rw e (ground (arith, v.counted id n e))

-- The chunk leaves the chunks in flight, and is queued again or fails.
retry-IsWf :
    (d : DynamicWorkDispatcher) (id : ℕ)
    → IsId d id
    → d.fatal_error ≡ false
    → IsWf d
    → IsWf (retry (record d { in_flight = remove id d.in_flight }) id)
unfolding retry
retry-IsWf d id h ok v =
    let held = λ (j : ℕ). has_key-remove id j d.in_flight in
    let few = one_more_eq d id v ok in
    let table = λ (j : ℕ). lookup-insert id j (one_more d id) d.retries in
    elim (Bool-cases (leb (one_more d id) 5)) [
      | inl again ↦ rw again (record {
        numbered = v.numbered;
        known_unassigned =
            λ j k. ground (arith, v.known_unassigned j, contains-push_back d.unassigned id j);
        known_in_flight = λ j k. ground (arith, v.known_in_flight j, held j);
        known_completed = v.known_completed;
        once = v.once;
        somewhere = λ j a b k.
            ground (arith, v.somewhere j a b k, held j, contains-push_back d.unassigned id j);
        counted = λ j n k. ground (arith, v.counted j n, table j, k);
        failed = λ k. absurd (cc (ok, k));
      })
      | inr last ↦ rw last (record {
        numbered = v.numbered;
        known_unassigned = v.known_unassigned;
        known_in_flight = λ j k. ground (arith, v.known_in_flight j, held j);
        known_completed = v.known_completed;
        once = v.once;
        somewhere = λ j a b k. cc;
        counted = λ j n k. ground (arith, v.counted j n, table j, k);
        failed = λ k. (id, ground (arith, table id, few.1));
      })
    ]

-- What all calls that only take a chunk out of flight keep.
drop-IsWf :
    (d : DynamicWorkDispatcher) (id : ℕ)
    → IsWf d
    → (d.cancelled ≡ false → d.fatal_error ≡ false → contains id d.completed ≡ true)
    → IsWf (record d { in_flight = remove id d.in_flight })
drop-IsWf d id v h =
    let held = λ (j : ℕ). has_key-remove id j d.in_flight in
    record {
      numbered = v.numbered;
      known_unassigned = v.known_unassigned;
      known_in_flight = λ j k. ground (arith, v.known_in_flight j, held j);
      known_completed = v.known_completed;
      once = v.once;
      somewhere = λ j a b k. ground (arith, v.somewhere j a b k, held j, h a b);
      counted = v.counted;
      failed = v.failed;
    }

pub return_for_retry-IsWf :
    (d : DynamicWorkDispatcher) (id : ℕ) → IsId d id → IsWf d → IsWf (return_for_retry d id)
unfolding return_for_retry
return_for_retry-IsWf d id h v = elim (Bool-cases (d.cancelled || d.fatal_error)) [
  | inl over ↦ rw over (drop-IsWf d id v (λ a b. absurd (ground (arith, over, a, b))))
  | inr going ↦ elim (Bool-cases (contains id d.completed)) [
    | inl done ↦ rw (going, done) (drop-IsWf d id v (λ a b. done))
    | inr left ↦ rw (going, left) (retry-IsWf d id h (ground (arith, going)) v)
  ]
]

-- A chunk that is known goes out, from the queue or from another transport.
launch-IsWf :
    (d : DynamicWorkDispatcher) (id : ℕ) (rest : List ℕ) (entry : ℕ × Text)
    → IsId d id
    → ((j : ℕ) → contains j rest ≡ true → contains j d.unassigned ≡ true)
    → ((j : ℕ) → contains j d.unassigned ≡ true → (id == j || contains j rest) ≡ true)
    → IsWf d
    → IsWf (record d { unassigned = rest; in_flight = insert id entry d.in_flight })
launch-IsWf d id rest entry h less more v =
    let flying = λ (j : ℕ). has_key-insert id j entry d.in_flight in
    record {
      numbered = v.numbered;
      known_unassigned = λ j k. v.known_unassigned j (less j k);
      known_in_flight = λ j k. ground (arith, v.known_in_flight j, flying j, k);
      known_completed = v.known_completed;
      once = v.once;
      somewhere = λ j a b k. ground (arith, v.somewhere j a b k, more j, flying j);
      counted = v.counted;
      failed = v.failed;
    }

module _ (fl : Floats) where
  pub candidate-known :
      (now : ℕ) (t : Text) (m : List (ℕ × (ℕ × Text))) (id : ℕ)
      → candidate fl now t m ≡ some id
      → has_key id m ≡ true
  unfolding candidate
  candidate-known now t [] id h = cc
  candidate-known now t ((cid, (at, owner)) ∷ rest) id h =
      ground (arith, candidate-known now t rest id, h)

  pop_stalled-IsWf :
      (d : DynamicWorkDispatcher) (o : Option ℕ) (t : Text) (now : ℕ)
      → candidate fl now t d.in_flight ≡ o
      → IsWf d
      → IsWf (pop_stalled fl d o t now).0
  unfolding pop_stalled
  pop_stalled-IsWf d none t now e v = v
  pop_stalled-IsWf d (some cid) t now e v =
      launch-IsWf d cid d.unassigned (now, t)
        (v.known_in_flight cid (candidate-known now t d.in_flight cid e)) (λ j h. h)
        (λ j h. ground (arith, h)) v

  pop_from-IsWf :
      (d : DynamicWorkDispatcher) (xs : List ℕ) (t : Text) (now : ℕ)
      → d.unassigned ≡ xs
      → IsWf d
      → IsWf (pop_from fl d xs t now).0
  unfolding pop_from
  pop_from-IsWf d [] t now e v = pop_stalled-IsWf d (candidate fl now t d.in_flight) t now refl v
  pop_from-IsWf d (cid ∷ rest) t now e v =
      launch-IsWf d cid rest (now, t) (v.known_unassigned cid (rw e (ground arith)))
        (λ j h. rw e (ground (arith, h))) (λ j h. rw e at h) v

  pub pop_chunk-IsWf :
      (d : DynamicWorkDispatcher) (t : Text) (now : ℕ) → IsWf d → IsWf (pop_chunk fl d t now).0
  pop_chunk-IsWf d t now v =
      unfold pop_chunk in
      elim (Bool-cases (d.cancelled || d.fatal_error)) [
        | inl over ↦ rw (over, pop_chunk) v
        | inr going ↦ rw (going, pop_chunk) (pop_from-IsWf d d.unassigned t now refl v)
      ]
