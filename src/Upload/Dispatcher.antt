-- ===== src/Upload/Dispatcher.antt =====
-- src/cli.rs: DynamicWorkDispatcher, which hands the chunks of one file to the workers of all
-- channels. src/gui/engine.rs has the same code as GuiWorkDispatcher, with other chunk sizes. Every
-- method takes the one lock for its whole body. Instants are nanoseconds; a hash map is an
-- association list in its iteration order.
pub mod Layout
pub mod Invariant
pub mod Histories
pub mod Completion
pub mod Failures
pub mod Counting
use share_dash.Common.{
  ℕ, zero, suc, ◌+◌, ◌-◌, ◌*◌, ◌%◌, ◌^◌, ◌≤◌, ltb, leb, ◌==◌, if◌then◌else◌, Bool, true, false, not,
  ◌&&◌, ◌||◌, List, [], ◌∷◌, Option, none, some, Text, text_eq, contains, length, get_elem?, lookup,
  insert, remove, Floats,
}
use share_dash.Scheduler.Pool.{push_back, set_insert}

pub record TransferChunkInfo : Type 0 where
  pub chunk_id : ℕ
  pub offset : ℕ
  pub length : ℕ

pub record DynamicWorkDispatcher : Type 0 where
  pub unassigned : List ℕ
  -- The instant and the name of the transport.
  pub in_flight : List (ℕ × (ℕ × Text))
  pub completed : List ℕ
  pub retries : List (ℕ × ℕ)
  pub chunks : List TransferChunkInfo
  pub fatal_error : Bool
  pub cancelled : Bool

abbrev mib : ℕ → ℕ
mib n = n * 1048576

-- `base_chunk_size`, from the bytes in all.
unfoldable pub base_chunk_size : ℕ → ℕ
base_chunk_size total =
    if ltb total (mib 20)
    then mib 2
    else if ltb total (mib 100)
    then mib 4
    else if ltb total (mib 500)
    then mib 8
    else if ltb total (mib 2048)
    then mib 16
    else mib 32

-- `chunk_size`, from the base size and the bytes that remain.
unfoldable pub chunk_size : ℕ → ℕ → ℕ
chunk_size base remaining =
    if leb remaining (mib 16) && ltb (mib 4) base
    then mib 4
    else if leb remaining (mib 48) && ltb (mib 8) base
    then mib 8
    else if leb remaining (mib 96) && ltb (mib 16) base
    then mib 16
    else base

-- The same two choices of GuiWorkDispatcher.
unfoldable pub gui_base_chunk_size : ℕ → ℕ
gui_base_chunk_size total =
    if ltb total (mib 10) then mib 1 else if ltb total (mib 50) then mib 2 else mib 4

unfoldable pub gui_chunk_size : ℕ → ℕ → ℕ
gui_chunk_size base remaining =
    if leb remaining (mib 8) && ltb (mib 2) base
    then mib 2
    else if leb remaining (mib 2)
    then mib 1
    else base

abbrev pub min_of : ℕ → ℕ → ℕ
min_of a b = if ltb a b then a else b

abbrev pub and_chunk :
    TransferChunkInfo → Option (List TransferChunkInfo) → Option (List TransferChunkInfo)
and_chunk c none = none
and_chunk c (some cs) = some (c ∷ cs)

-- The loop of `new`, from `current_offset` and `chunk_id` on, with the choice of `chunk_size`.
unfoldable pub layout_loop : (ℕ → ℕ) → ℕ → ℕ → ℕ → ℕ → Option (List TransferChunkInfo)
layout_loop size_for zero total_bytes current_offset chunk_id = none
layout_loop size_for (suc fuel) total_bytes current_offset chunk_id =
    let remaining = total_bytes - current_offset in
    let len = min_of remaining (size_for remaining) in
    let later =
      layout_loop size_for fuel total_bytes ((current_offset + len) % 2 ^ 64)
        ((chunk_id + 1) % 2 ^ 32) in
    if ltb current_offset total_bytes
    then and_chunk (record { chunk_id = chunk_id; offset = current_offset; length = len }) later
    else some []

-- What every round pushes on the queue.
unfoldable pub ids : List TransferChunkInfo → List ℕ
ids [] = []
ids (c ∷ cs) = c.chunk_id ∷ ids cs

unfoldable pub dispatcher_of : List TransferChunkInfo → DynamicWorkDispatcher
dispatcher_of chunks = record {
  unassigned = ids chunks;
  in_flight = [];
  completed = [];
  retries = [];
  chunks = chunks;
  fatal_error = false;
  cancelled = false;
}

abbrev pub or_dispatcher : Option (List TransferChunkInfo) → Option DynamicWorkDispatcher
or_dispatcher none = none
or_dispatcher (some chunks) = some (dispatcher_of chunks)

-- The result is none if the loop does not end within `total_bytes` rounds.
unfoldable pub layout : (ℕ → ℕ) → ℕ → Option (List TransferChunkInfo)
layout size_for total_bytes =
    if total_bytes == 0
    then some (record { chunk_id = 0; offset = 0; length = 0 } ∷ [])
    else layout_loop size_for (suc total_bytes) total_bytes 0 0

unfoldable pub new : ℕ → Option DynamicWorkDispatcher
new total_bytes = or_dispatcher (layout (chunk_size (base_chunk_size total_bytes)) total_bytes)

-- `GuiWorkDispatcher::new`.
unfoldable pub gui_new : ℕ → Option DynamicWorkDispatcher
gui_new total_bytes =
    or_dispatcher (layout (gui_chunk_size (gui_base_chunk_size total_bytes)) total_bytes)

-- A chunk goes out, and its entry in flight becomes this transport's.
abbrev pub dispatch :
    DynamicWorkDispatcher → ℕ → Text → ℕ → DynamicWorkDispatcher × Option TransferChunkInfo
dispatch d cid transport_name now =
    (record d { in_flight = insert cid (now, transport_name) d.in_flight }, get_elem? d.chunks cid)

module _ (fl : Floats) where
  open fl use {decimal, lt, as_secs}

  -- Another transport's chunk that has been in flight for more than 2.5 s.
  abbrev pub is_stalled : ℕ → Text → ℕ → Text → Bool
  is_stalled now transport_name dispatched_at owner =
      not (text_eq owner transport_name) && lt (decimal 25 1) (as_secs (now - dispatched_at))

  -- The loop over the chunks in flight.
  unfoldable pub candidate : ℕ → Text → List (ℕ × (ℕ × Text)) → Option ℕ
  candidate now transport_name [] = none
  candidate now transport_name ((cid, (dispatched_at, owner)) ∷ rest) =
      if is_stalled now transport_name dispatched_at owner
      then some cid
      else candidate now transport_name rest

  unfoldable pub pop_stalled :
      DynamicWorkDispatcher → Option ℕ → Text → ℕ → DynamicWorkDispatcher × Option TransferChunkInfo
  pop_stalled d none transport_name now = (d, none)
  pop_stalled d (some cid) transport_name now = dispatch d cid transport_name now

  unfoldable pub pop_from :
      DynamicWorkDispatcher → List ℕ → Text → ℕ → DynamicWorkDispatcher × Option TransferChunkInfo
  pop_from d (cid ∷ rest) transport_name now =
      dispatch (record d { unassigned = rest }) cid transport_name now
  pop_from d [] transport_name now =
      pop_stalled d (candidate now transport_name d.in_flight) transport_name now

  unfoldable pub pop_chunk :
      DynamicWorkDispatcher → Text → ℕ → DynamicWorkDispatcher × Option TransferChunkInfo
  pop_chunk d transport_name now =
      if d.cancelled || d.fatal_error then (d, none) else pop_from d d.unassigned transport_name now

unfoldable pub mark_completed : DynamicWorkDispatcher → ℕ → DynamicWorkDispatcher × Bool
mark_completed d chunk_id = (
  record d { in_flight = remove chunk_id d.in_flight; completed = set_insert chunk_id d.completed },
  not (contains chunk_id d.completed),
)

unfoldable pub mark_cancelled : DynamicWorkDispatcher → DynamicWorkDispatcher
mark_cancelled d = record d { cancelled = true; unassigned = []; in_flight = [] }

abbrev pub or_zero : Option ℕ → ℕ
or_zero none = 0
or_zero (some n) = n

-- The retries of a chunk after one more.
abbrev pub one_more : DynamicWorkDispatcher → ℕ → ℕ
one_more d chunk_id = (or_zero (lookup chunk_id d.retries) + 1) % 2 ^ 32

unfoldable pub retry : DynamicWorkDispatcher → ℕ → DynamicWorkDispatcher
retry d chunk_id =
    if leb (one_more d chunk_id) 5
    then record d {
      retries = insert chunk_id (one_more d chunk_id) d.retries;
      unassigned = push_back d.unassigned chunk_id;
    }
    else record d { retries = insert chunk_id (one_more d chunk_id) d.retries; fatal_error = true }

unfoldable pub return_for_retry : DynamicWorkDispatcher → ℕ → DynamicWorkDispatcher
unfolding retry
return_for_retry d chunk_id =
    let e = record d { in_flight = remove chunk_id d.in_flight } in
    if d.cancelled || d.fatal_error
    then e
    else if contains chunk_id d.completed
    then e
    else retry e chunk_id

unfoldable pub is_done : DynamicWorkDispatcher → Bool
is_done d = d.cancelled || (d.fatal_error || leb (length d.chunks) (length d.completed))

abbrev pub is_cancelled : DynamicWorkDispatcher → Bool
is_cancelled d = d.cancelled

abbrev pub has_fatal_error : DynamicWorkDispatcher → Bool
has_fatal_error d = d.fatal_error
