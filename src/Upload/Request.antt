-- ===== src/Upload/Request.antt =====
-- The request about a chunk that src/cli.rs and src/gui/engine.rs send, as receive_transfer_chunk of
-- src/server/api.rs reads it.
pub mod FileName
use share_dash.Common.{
  ℕ, ◌+◌, ◌-◌, ◌/◌, ◌%◌, ◌^◌, ltb, leb, ◌==◌, if◌then◌else◌, Bool, true, false, not, ◌&&◌, ◌||◌,
  List, [], ◌∷◌, Option, none, some, Text, text, text_eq, contains, length, take, insert, get, put,
  take_out,
}
use share_dash.Storage.Integrity.{is_empty}
use share_dash.Storage.SparseWriter.{
  Component, normal, prefix, root_dir, cur_dir, parent_dir, FilePath, Disk, components, read, save,
  set_len, write_at, or_empty,
}
use share_dash.Scheduler.Pool.{set_insert}
use share_dash.Upload.Headers.{parse, is_text, trim, to_lowercase, contains_text, hex8}

-- The headers that the handler reads, where they are there, and the body.
pub record ChunkRequest : Type 0 where
  pub file_name : Option Text
  pub transfer_id : Option Text
  pub chunk_id : Option Text
  pub chunk_offset : Option Text
  pub total_chunks : Option Text
  pub file_size : Option Text
  pub chunk_sha256 : Option Text
  pub chunk_crc32 : Option Text
  pub transport_kind : Option Text
  pub transport : Option Text
  pub body : List ℕ

-- A header that is missing and one that is no text are blank.
unfoldable pub get_header : Option Text → Text
get_header none = []
get_header (some v) = if is_text v then trim v else []

abbrev pub default_name : Text
default_name = text "received_file.bin"

-- `Path::file_name`: the last component, if it is a name.
unfoldable pub last_name : List Component → Text
last_name [] = default_name
last_name (normal s ∷ []) = s
last_name (prefix ∷ []) = default_name
last_name (root_dir ∷ []) = default_name
last_name (cur_dir ∷ []) = default_name
last_name (parent_dir ∷ []) = default_name
last_name (c ∷ d ∷ cs) = last_name (d ∷ cs)

abbrev pub forbidden : List ℕ
forbidden = b'/' ∷ b'\\' ∷ b':' ∷ b'*' ∷ b'?' ∷ b'"' ∷ b'<' ∷ b'>' ∷ b'|' ∷ []

unfoldable pub replace_forbidden : Text → Text
replace_forbidden [] = []
replace_forbidden (c ∷ cs) = (if contains c forbidden then b'_' else c) ∷ replace_forbidden cs

abbrev pub or_default_if_blank : Text → Text
or_default_if_blank s = if is_empty (trim s) then default_name else s

unfoldable pub file_name_of : Text → Text
file_name_of raw =
    let base = if is_empty raw then default_name else last_name (components raw) in
    or_default_if_blank (replace_forbidden base)

abbrev pub or_value : Option ℕ → ℕ → ℕ
or_value none n = n
or_value (some m) n = m

-- What the headers say.
pub record Fields : Type 0 where
  pub name : Text
  pub transfer : Text
  pub id : ℕ
  pub offset : ℕ
  pub total : ℕ
  pub size : ℕ
  pub is_usb : Bool

abbrev pub or_name : Text → Text → Text
or_name transfer name = if is_empty transfer then name else transfer

unfoldable pub fields_of : ChunkRequest → Fields
fields_of req =
    let name = file_name_of (get_header req.file_name) in
    record {
      name = name;
      transfer = or_name (get_header req.transfer_id) name;
      id = or_value (parse (2 ^ 32) (get_header req.chunk_id)) 0;
      offset = or_value (parse (2 ^ 64) (get_header req.chunk_offset)) 0;
      total = or_value (parse (2 ^ 32) (get_header req.total_chunks)) 1;
      size = or_value (parse (2 ^ 64) (get_header req.file_size)) 0;
      is_usb =
          text_eq (to_lowercase (get_header req.transport_kind)) (text "usb")
          || contains_text (to_lowercase (get_header req.transport)) (text "usb");
    }

module _ (crc32 : List ℕ → ℕ) (sha256 : List ℕ → Text) where
  -- The first of the two checksums that is given decides.
  unfoldable pub is_intact : ChunkRequest → Bool
  is_intact req =
      let expected_crc32 = to_lowercase (get_header req.chunk_crc32) in
      let expected_sha256 = to_lowercase (get_header req.chunk_sha256) in
      if not (is_empty expected_crc32)
      then text_eq (hex8 (crc32 req.body)) expected_crc32
      else if not (is_empty expected_sha256)
      then text_eq (sha256 req.body) expected_sha256
      else true
