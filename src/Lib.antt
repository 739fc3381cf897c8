-- ===== src/Lib.antt =====
-- ShareDash sends files between two devices over several transports at once: LAN, USB,
-- Wi-Fi Direct. The sender cuts its files into chunks and describes them in a manifest (src/storage/chunker.rs).
-- The receiver opens the files (src/storage/sparse_writer.rs), puts the chunks into a pool
-- (src/scheduler/pool.rs), and runs a worker per transport: the worker takes a chunk from the pool, asks
-- for it in a frame (src/protocol/frame.rs), checks the answer against the manifest's hashes
-- (src/storage/integrity.rs), writes it at its offset, and records it in a database
-- (src/storage/manifest_db.rs) and in the pool.
--
-- The files and the code:
--   Common           Boolean tests, lists, maps as association lists, texts as byte lists, sorting,
--                    results, big-endian numbers, and the floating-point operations as a record `Floats`.
--   Protocol/Frame   src/protocol/frame.rs: Types has `FrameType`, Header has `FrameHeader` with
--                    `new`, `compute_crc32`, `encode` and `decode`, Codec has `Frame` and the codec.
--   Storage/Manifest `ChunkInfo` and `TransferManifest` of src/storage/chunker.rs, and `FileMetadata`
--                    of src/protocol/message.rs.
--   Storage/Chunker  src/storage/chunker.rs: `calculate_chunk_size` and `build_manifest`; Scan has
--                    `scan_path` and `walk_directory`.
--   Storage/Integrity src/storage/integrity.rs.
--   Storage/SparseWriter src/storage/sparse_writer.rs, with a disk as a map from paths to bytes.
--   Storage/Transfer what the writer makes of the chunks of the chunker.
--   Storage/ManifestDb src/storage/manifest_db.rs, over the tables of Storage/Tables, which are
--                      lists of rows, with the names of Storage/Statuses.
--   Scheduler/Pool   src/scheduler/pool.rs: every method of `ChunkPool`; Histories has the
--                    interleavings of the workers' calls.
--   Protocol/Handshake src/protocol/handshake.rs, with the messages of src/protocol/message.rs.
--   Transport/Metrics src/transport/trait.rs: the metrics of a transport and the bandwidth tracker.
--   Transport/Lan    src/transport/lan.rs: the counters and the state of a TCP transport.
--   Scheduler/Worker src/scheduler/dynamic_scheduler.rs: a worker of `run_receiver` as a program counter
--                    with one call on the shared state per step; Runs has their interleavings.
--   Upload           sending by HTTP. Dispatcher has DynamicWorkDispatcher of src/cli.rs, of which
--                    GuiWorkDispatcher of src/gui/engine.rs is a copy with other sizes; Sender the
--                    workers of both; Request and Receiver have receive_transfer_chunk of
--                    src/server/api.rs; Headers the texts of the headers; Delivery all together.
--   Discovery        Versions has is_version_compatible of src/discovery/mdns.rs, Peers its table
--                    of devices, Sessions the PairingManager of src/discovery/pairing.rs.
--   Server/Pairing   the pairing handlers of src/server/api.rs.
--   Protocol/Crypto  src/protocol/crypto.rs, over a cipher `Aead`.
--   Hotspot          the host's choice and the credentials of src/hotspot.rs.
--   Examples         runs at small inputs.
--
-- A method that holds one lock for its whole body is a function from the state behind the lock to the
-- next one. Machine integers keep their wrap-around, written `% 2 ^ w`. A loop over a list is a
-- function by recursion on it. The `while` loop over the chunks of a file runs on fuel, one more than
-- the bytes of the file, which is enough whenever the chunk size is positive, since every round then
-- reads a byte; running out of it is the model of a loop that does not end.
--
-- Parameters: the checksum of crc32fast, the hashes SHA-256 and BLAKE3, the floating-point numbers, the
-- text of a UUID and of a time. Instants are arguments.
--
-- Not modelled: the sockets below the transports, the transports other than LAN, Bluetooth, the
-- commands that the hotspot runs, the handlers of the web server around the scheduler, the drawing of
-- the user interfaces, the code for Windows, and calls of the operating system that fail, other than
-- those of the chunk receiver and the reading of a directory. The calls that a worker of an upload
-- makes on the dispatcher before one request are one step.
pub mod Common
pub mod Protocol
pub mod Storage
pub mod Transport
pub mod Scheduler
pub mod Upload
pub mod Discovery
pub mod Server
pub mod Hotspot
pub mod Examples
