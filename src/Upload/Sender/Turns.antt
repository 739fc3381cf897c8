-- ===== src/Upload/Sender/Turns.antt =====
-- Any sequence of the workers' turns (src/cli.rs, src/gui/engine.rs), and the progress that is
-- reported then.
use share_dash.Common.{
  ℕ, ◌^◌, ◌≤◌, ◌<◌, ◌≡◌, refl, ap, sym, ◌∙◌, true, ◌||◌, List, [], ◌∷◌, Option, none, some, Text,
  arith, contains, get_elem?, has_key, Bool-cases, inl, inr, Floats,
}
use share_dash.Upload.Dispatcher.{
  TransferChunkInfo, dispatcher_of, pop_chunk, mark_completed, mark_cancelled, retry,
  return_for_retry, is_done,
}
use share_dash.Upload.Dispatcher.Layout.{Tiles, Tiles-length}
use share_dash.Upload.Dispatcher.Histories.{pop_chunk-Moved}
use share_dash.Upload.Sender.{
  Job, Upload, guard_chunk, fetch, Answer, advance, succeed, abort, give_back, respond, gui_respond,
}
use share_dash.Upload.Sender.Answers.{respond_cases, gui_respond_cases}
use share_dash.Upload.Sender.Accounting.{
  weigh, bytes_of, one_each, over_channels, weigh_le, weigh_all-one_each, over_channels-adjust,
  weigh-cons, Tiles-bytes,
}

-- A worker begins a round, or learns what came of a request for a chunk of the list.
pub data Turn (fl : Floats) (job : Job) (cs : List TransferChunkInfo) (u : Upload)
    : Upload → Type 0 where
  fetches : (t : Text) (now : ℕ) → Turn fl job cs u (fetch fl u job t now).0
  answers :
      (channel : ℕ) (c : TransferChunkInfo) (answer : Answer)
      → get_elem? cs c.chunk_id ≡ some c
      → has_key channel u.progress ≡ true
      → Turn fl job cs u (respond u channel c answer).0
  gui_answers :
      (channel : ℕ) (c : TransferChunkInfo) (answer : Answer)
      → get_elem? cs c.chunk_id ≡ some c
      → has_key channel u.progress ≡ true
      → Turn fl job cs u (gui_respond u channel c answer).0

pub data Turns (fl : Floats) (job : Job) (cs : List TransferChunkInfo) (u : Upload)
    : Upload → Type 0 where
  still : Turns fl job cs u u
  then_ : {mid v : Upload} → Turns fl job cs u mid → Turn fl job cs mid v → Turns fl job cs u v

-- What is reported is what is completed.
pub record IsCounted (cs : List TransferChunkInfo) (u : Upload) : Type 0 where
  pub bytes :
      over_channels (λ p. p.bytes_sent) u.progress ≡ weigh bytes_of u.dispatcher.completed cs
  pub chunks :
      over_channels (λ p. p.chunks_sent) u.progress ≡ weigh one_each u.dispatcher.completed cs

-- Neither the completed chunks nor the progress change.
record Same (u v : Upload) : Type 0 where
  completed : v.dispatcher.completed ≡ u.dispatcher.completed
  progress : v.progress ≡ u.progress

Same-IsCounted :
    (cs : List TransferChunkInfo) (u v : Upload) → Same u v → IsCounted cs u → IsCounted cs v
Same-IsCounted cs u v same counted = record {
  bytes =
      ap (over_channels (λ p. p.bytes_sent)) same.progress
      ∙ counted.bytes
      ∙ ap (λ x. weigh bytes_of x cs) (sym same.completed);
  chunks =
      ap (over_channels (λ p. p.chunks_sent)) same.progress
      ∙ counted.chunks
      ∙ ap (λ x. weigh one_each x cs) (sym same.completed);
}

give_back-Same : (u : Upload) (c : TransferChunkInfo) → Same u (give_back u c)
unfolding give_back return_for_retry retry
give_back-Same u c = record { completed = ground arith; progress = refl }

abort-Same : (u : Upload) → Same u (abort u)
unfolding abort mark_cancelled
abort-Same u = record { completed = refl; progress = refl }

guard_chunk-Same :
    (u : Upload) (job : Job) (o : Option TransferChunkInfo) → Same u (guard_chunk u job o).0
unfolding guard_chunk return_for_retry retry
guard_chunk-Same u job none = record { completed = refl; progress = refl }
guard_chunk-Same u job (some c) = record { completed = ground arith; progress = ground arith }

fetch-Same :
    (fl : Floats) (u : Upload) (job : Job) (t : Text) (now : ℕ) → Same u (fetch fl u job t now).0
unfolding fetch
fetch-Same fl u job t now = elim (Bool-cases (u.stop_flag || is_done u.dispatcher)) [
  | inl over ↦ rw over (record { completed = refl; progress = refl })
  | inr going ↦
      let popped = pop_chunk fl u.dispatcher t now in
      let guarded = guard_chunk-Same (record u { dispatcher = popped.0 }) job popped.1 in
      let moved = ap (λ e. e.completed) (pop_chunk-Moved fl u.dispatcher t now).2 in
      rw going (record { completed = guarded.completed ∙ moved; progress = guarded.progress })
]

module _ (high total : ℕ) (cs : List TransferChunkInfo) (tiles : Tiles 1048576 high total 0 0 cs)
    (nonempty : 0 < total) (small : total < 2 ^ 51) where
  succeed-IsCounted :
      (u : Upload) (channel : ℕ) (c : TransferChunkInfo)
      → get_elem? cs c.chunk_id ≡ some c
      → has_key channel u.progress ≡ true
      → IsCounted cs u
      → IsCounted cs (succeed u channel c)
  unfolding succeed mark_completed
  succeed-IsCounted u channel c at known counted =
      let done = u.dispatcher.completed in
      elim (Bool-cases (contains c.chunk_id done)) [
        | inl old ↦ rw old (record { bytes = counted.bytes; chunks = counted.chunks })
        | inr new ↦
            let bytes_more =
              weigh-cons 1048576 high total bytes_of 0 0 cs c.chunk_id c done tiles at new in
            let one_more =
              weigh-cons 1048576 high total one_each 0 0 cs c.chunk_id c done tiles at new in
            let bytes_all = Tiles-bytes 1048576 high total bytes_of 0 0 cs tiles (omega arith) in
            let few = Tiles-length high total nonempty 0 0 cs tiles in
            let bytes_le = weigh_le bytes_of (c.chunk_id ∷ done) cs in
            let one_le = weigh_le one_each (c.chunk_id ∷ done) cs in
            rw new (record {
              bytes =
                  over_channels-adjust (λ p. p.bytes_sent) (advance c.length) c.length channel
                    u.progress (λ p. refl) known
                    (omega (arith, bytes_more, bytes_all, bytes_le, counted.bytes))
                  ∙ omega (arith, bytes_more, counted.bytes);
              chunks =
                  over_channels-adjust (λ p. p.chunks_sent) (advance c.length) 1 channel u.progress
                    (λ p. refl) known
                    (omega (arith, one_more, one_le, weigh_all-one_each cs, few, counted.chunks))
                  ∙ omega (arith, one_more, counted.chunks);
            })
      ]

  Turn-IsCounted :
      (fl : Floats) (job : Job) (u v : Upload)
      → Turn fl job cs u v
      → IsCounted cs u
      → IsCounted cs v
  Turn-IsCounted fl job u v (fetches t now) h = Same-IsCounted cs u v (fetch-Same fl u job t now) h
  Turn-IsCounted fl job u v (answers channel c answer at known) h =
      respond_cases (IsCounted cs) u channel c h (Same-IsCounted cs u _ (abort-Same u) h)
        (Same-IsCounted cs u _ (give_back-Same u c) h) answer
        (λ k. succeed-IsCounted u channel c at known h)
  Turn-IsCounted fl job u v (gui_answers channel c answer at known) h =
      gui_respond_cases (IsCounted cs) u channel c h (Same-IsCounted cs u _ (abort-Same u) h)
        (Same-IsCounted cs u _ (give_back-Same u c) h) answer
        (λ k. succeed-IsCounted u channel c at known h)

  Turns-IsCounted :
      (fl : Floats) (job : Job) (u v : Upload)
      → Turns fl job cs u v
      → IsCounted cs u
      → IsCounted cs v
  Turns-IsCounted fl job u v still h = h
  Turns-IsCounted fl job u v (then_ {mid = m} before turn) h =
      Turn-IsCounted fl job m v turn (Turns-IsCounted fl job u m before h)

no_weight : (w : TransferChunkInfo → ℕ) (cs : List TransferChunkInfo) → weigh w [] cs ≡ 0
unfolding weigh
no_weight w [] = refl
no_weight w (c ∷ cs) = omega (arith, no_weight w cs)

-- Of a file that is not empty and is cut into chunks that tile it, with a fresh dispatcher and no
-- progress at first: after any turns of the workers, each for a channel that is there, the bytes
-- and the chunks that all channels report together are those of the completed chunks, each counted
-- once, however often it was sent; and the bytes are not more than the file has.
pub progress_counts :
    (fl : Floats) (job : Job) (high total : ℕ) (cs : List TransferChunkInfo) (u v : Upload)
    → Tiles 1048576 high total 0 0 cs
    → 0 < total
    → total < 2 ^ 51
    → u.dispatcher ≡ dispatcher_of cs
    → over_channels (λ p. p.bytes_sent) u.progress ≡ 0
    → over_channels (λ p. p.chunks_sent) u.progress ≡ 0
    → Turns fl job cs u v
    → (over_channels (λ p. p.bytes_sent) v.progress ≡ weigh bytes_of v.dispatcher.completed cs)
      × (over_channels (λ p. p.chunks_sent) v.progress ≡ weigh one_each v.dispatcher.completed cs)
      × (over_channels (λ p. p.bytes_sent) v.progress ≤ total)
unfolding dispatcher_of
progress_counts fl job high total cs u v tiles nonempty small e none_sent none_counted turns =
    let nothing : u.dispatcher.completed ≡ [] = ap (λ d. d.completed) e in
    let start : IsCounted cs u = record {
      bytes = rw nothing (none_sent ∙ sym (no_weight bytes_of cs));
      chunks = rw nothing (none_counted ∙ sym (no_weight one_each cs));
    } in
    let counted = Turns-IsCounted high total cs tiles nonempty small fl job u v turns start in
    let bound = weigh_le bytes_of v.dispatcher.completed cs in
    let all_bytes = Tiles-bytes 1048576 high total bytes_of 0 0 cs tiles (omega arith) in
    (counted.bytes, counted.chunks, omega (arith, counted.bytes, bound, all_bytes))
