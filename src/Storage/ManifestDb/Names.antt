-- ===== src/Storage/ManifestDb/Names.antt =====
-- src/storage/manifest_db.rs: the texts of the states.
use share_dash.Common.{◌≡◌, refl, text_eq}
use share_dash.Storage.Statuses.{
  TransferStatus, ChunkState, active, in_flight, status_as_str, status_from_str, state_as_str,
  state_from_str,
}

-- Every transfer status and every chunk state is read back from the text that it is stored as.
states_read_back :
    ((s : TransferStatus) → status_from_str (status_as_str s) ≡ s)
    × ((s : ChunkState) → state_from_str (state_as_str s) ≡ s)
unfolding status_from_str status_as_str state_from_str state_as_str text_eq
states_read_back = (
  elim [ TransferStatus.pending ↦ refl | active ↦ refl | _ ↦ refl ],
  elim [ ChunkState.pending ↦ refl | in_flight ↦ refl | _ ↦ refl ],
)
