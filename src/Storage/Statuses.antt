-- ===== src/Storage/Statuses.antt =====
-- The states of a transfer and of a chunk, and their names in the database
-- (src/storage/manifest_db.rs).
use share_dash.Common.{if◌then◌else◌, Text, text, text_eq}

pub data TransferStatus : Type 0 where
  pending active paused completed failed cancelled : TransferStatus

pub data ChunkState : Type 0 where
  pending in_flight completed corrupt : ChunkState

unfoldable pub status_as_str : TransferStatus → Text
status_as_str TransferStatus.pending = text "PENDING"
status_as_str active = text "ACTIVE"
status_as_str paused = text "PAUSED"
status_as_str TransferStatus.completed = text "COMPLETED"
status_as_str failed = text "FAILED"
status_as_str cancelled = text "CANCELLED"

unfoldable pub status_from_str : Text → TransferStatus
status_from_str s =
    if text_eq s (text "ACTIVE")
    then active
    else if text_eq s (text "PAUSED")
    then paused
    else if text_eq s (text "COMPLETED")
    then TransferStatus.completed
    else if text_eq s (text "FAILED")
    then failed
    else if text_eq s (text "CANCELLED")
    then cancelled
    else TransferStatus.pending

unfoldable pub state_as_str : ChunkState → Text
state_as_str ChunkState.pending = text "PENDING"
state_as_str in_flight = text "IN_FLIGHT"
state_as_str ChunkState.completed = text "COMPLETED"
state_as_str corrupt = text "CORRUPT"

unfoldable pub state_from_str : Text → ChunkState
state_from_str s =
    if text_eq s (text "IN_FLIGHT")
    then in_flight
    else if text_eq s (text "COMPLETED")
    then ChunkState.completed
    else if text_eq s (text "CORRUPT")
    then corrupt
    else ChunkState.pending
