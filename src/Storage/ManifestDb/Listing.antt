-- ===== src/Storage/ManifestDb/Listing.antt =====
-- src/storage/manifest_db.rs: the list of transfers, and what save_transfer adds to it.
use share_dash.Common.{
  Bool-cases, inl, inr, false, Bool, sort_by-IsSorted, count-sort_by, count_if, IsSorted, ℕ, ◌+◌,
  ◌≡◌, refl, ◌∙◌, ap, ap₂, if◌then◌else◌, Bool, true, List, [], ◌∷◌, ◌++◌, Option, some, map, Text,
  text_eq, text_le, text_le_total, arith,
}
use share_dash.Storage.Manifest.{TransferManifest}
use share_dash.Storage.Statuses.{active, status_as_str, status_from_str}
use share_dash.Storage.Tables.{TransferRow, without_transfer}
use share_dash.Storage.ManifestDb.{
  ManifestDb, TransferRecord, record_of, or_nil, new_row, is_newer, list_transfers, put_transfer,
  insert_transfer, all_fit, save_transfer,
}

-- The order of the list: the first is not the older one.
abbrev pub not_older : TransferRecord → TransferRecord → Bool
not_older r x = text_le x.created_at r.created_at

older_or_newer : (r x : TransferRecord) → not_older r x ≡ false → not_older x r ≡ true
older_or_newer r x = text_le_total x.created_at r.created_at

count-map_last :
    (q : TransferRecord → Bool) (parse : Text → Option (List ℕ)) (rs : List TransferRow)
    (r : TransferRow)
    → count_if q (map (record_of parse) (rs ++ (r ∷ [])))
      ≡ (if q (record_of parse r) then 1 else 0) + count_if q (map (record_of parse) rs)
count-map_last q parse [] r = refl
count-map_last q parse (x ∷ rs) r = ground (arith, count-map_last q parse rs r)

-- A transfer as it is listed when it has just been saved.
abbrev pub saved_record : TransferManifest → Bool → Text → Text → TransferRecord
saved_record m is_outgoing destination_path now = record {
  transfer_id = m.transfer_id;
  title = m.title;
  is_outgoing = is_outgoing;
  total_bytes = m.total_bytes;
  total_files = m.total_files;
  chunk_size = m.chunk_size;
  total_chunks = m.total_chunks;
  completed_chunks = 0;
  root_hash = m.root_hash;
  destination_path = destination_path;
  status = active;
  created_at = now;
  updated_at = now;
}

active_reads_back : status_from_str (status_as_str active) ≡ active
unfolding status_from_str status_as_str text_eq
active_reads_back = refl

record_of-new_row :
    (parse : Text → Option (List ℕ)) (tid : Text) (m : TransferManifest) (is_outgoing : Bool)
    (destination_path now : Text)
    → parse tid ≡ some m.transfer_id
    → record_of parse (new_row tid m is_outgoing destination_path now)
      ≡ saved_record m is_outgoing destination_path now
record_of-new_row parse tid m is_outgoing destination_path now h =
    ap₂
      (λ id status. record (saved_record m is_outgoing destination_path now) {
        transfer_id = id;
        status = status;
      })
      (ap or_nil h) active_reads_back

list_transfers-insert_transfer :
    (parse : Text → Option (List ℕ)) (uuid_text : List ℕ → Text) (db : ManifestDb)
    (m : TransferManifest) (is_outgoing : Bool) (destination_path now : Text)
    (q : TransferRecord → Bool)
    → parse (uuid_text m.transfer_id) ≡ some m.transfer_id
    → count_if q
        (list_transfers parse (insert_transfer uuid_text db m is_outgoing destination_path now))
      ≡ (if q (saved_record m is_outgoing destination_path now) then 1 else 0)
        + count_if q
            (map (record_of parse) (without_transfer (uuid_text m.transfer_id) db.transfers))
unfolding insert_transfer put_transfer
list_transfers-insert_transfer parse uuid_text db m is_outgoing destination_path now q h =
    let tid = uuid_text m.transfer_id in
    let others = without_transfer tid db.transfers in
    let after = (insert_transfer uuid_text db m is_outgoing destination_path now).transfers in
    count-sort_by is_newer q (map (record_of parse) after)
    ∙ count-map_last q parse others (new_row tid m is_outgoing destination_path now)
    ∙ ap (λ r. (if q r then 1 else 0) + count_if q (map (record_of parse) others))
        (record_of-new_row parse tid m is_outgoing destination_path now h)

-- After save_transfer the transfers are listed newest first, and they are, each as often as it was
-- in the table: the one that was saved, active and with no chunk completed, and the others, those
-- that were stored under another id; or all that were there, if the total, the size of a file or
-- the offset of a chunk is 2 ^ 63 or more. The UUIDs are read back as they were printed.
pub list_transfers-save_transfer :
    (parse : Text → Option (List ℕ)) (uuid_text : List ℕ → Text) (db : ManifestDb)
    (m : TransferManifest) (is_outgoing : Bool) (destination_path now : Text)
    (q : TransferRecord → Bool)
    → parse (uuid_text m.transfer_id) ≡ some m.transfer_id
    → let listed =
        list_transfers parse (save_transfer uuid_text db m is_outgoing destination_path now).0 in
      let others = without_transfer (uuid_text m.transfer_id) db.transfers in
      IsSorted not_older listed
      × (count_if q listed ≡ (
          if all_fit m
          then (if q (saved_record m is_outgoing destination_path now) then 1 else 0)
            + count_if q (map (record_of parse) others)
          else count_if q (map (record_of parse) db.transfers)))
unfolding save_transfer
list_transfers-save_transfer parse uuid_text db m is_outgoing destination_path now q h =
    let after = (save_transfer uuid_text db m is_outgoing destination_path now).0.transfers in
    (
      sort_by-IsSorted not_older older_or_newer (map (record_of parse) after),
      elim (Bool-cases (all_fit m)) [
        | inl fits ↦ rw fits (
            list_transfers-insert_transfer parse uuid_text db m is_outgoing destination_path now q
              h)
        | inr large ↦ rw large (count-sort_by is_newer q (map (record_of parse) db.transfers))
      ],
    )
