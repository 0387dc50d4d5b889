-- ===== src/Lib.antt =====
-- DashDrop sends files between devices on a local network. This library models the core of its
-- runtime, the Rust code under src-tauri/src, and proves what makes it correct. Names follow the
-- source: a function of the model has the name of the function or, for a part of one, of what the
-- part does.
--
-- The parts, and how they work together:
--
-- * transport/handshake.rs meets a connection: `Handshake` is `handle_incoming`, with the limiters
--   of `RateLimit` (also the one of transport/server.rs), the versions, and what a mismatch of
--   identities does to the trusted peers. Its result is an offer that is handed over, or a
--   refusal.
-- * `Trust` is the trusted peers: `AppState` in state.rs and the trust commands of
--   core_service.rs. The handshake asks it who is trusted, and freezes peers.
-- * transport/sender.rs and transport/receiver.rs move one file: `Sender` is `send_one_file`,
--   `Receiver` is `receive_one_file` on the disk of `Files` with the paths of `Paths`
--   (transport/path_validation.rs). `Local` is the state that both keep, `Delivery` joins the two,
--   and `Outcome` is what the results of the files make of a transfer (sender.rs).
-- * `Requests` is the question to the user about an incoming transfer (core_service.rs and
--   state.rs), `Endings` how a transfer ends: `update_transfer_status` of the receiver, cancel and
--   retry.
-- * persistence_progress.rs keeps what happened: `Progress` is its worker, which writes rows by
--   `save_transfer` of db.rs, in `History`. Sender and receiver give it snapshots; the endings
--   force a write.
-- * `Feed` is the feed of runtime events of state.rs with the journal of db.rs.
-- * `Checkpoints` is the cursors that the consumers of the feed save (state.rs, db.rs): they pin
--   the journal of `Feed` while they are fresh.
-- * `Discovery` is the devices and sessions of discovery/browser.rs and discovery/beacon.rs on the
--   tables of state.rs, with their maintenance, and the addresses that a connection tries. It asks
--   `Trust` whether a device is trusted.
-- * `AutoAccept` is the decision of transport/receiver.rs to take an offer without a question.
-- * `Pairing` is the links of pairing.rs and the move of a trusted peer to a new identity, on the
--   rows of `Trust`. Base64, JSON and Ed25519 are one record of functions,
--   `Pairing.Payload.Libraries`.
-- * `Grants` is the table of access tokens of the local IPC in state.rs; the random draw of a
--   token is an argument.
-- * `Types` holds the data of transport/protocol.rs and state.rs, `Base` what stands for Rust's
--   library: `HashMap` (`Base.Dict`), words (`Base.Words`), `str`, `Option` and `Result`.
--
-- State is a record that each operation takes and returns. A task with a queue is a function over
-- the list of its inputs; calls that may come in any order are the steps of a relation
-- (`Endings.Answers`, `Feed.Cursor`). What a lock, SQLite, the operating system, the network or
-- the clock decides is an argument or a record of answers, and the branches on it are modelled.
-- BLAKE3, the Unicode conversion to capitals of a path's name and the derived text of a message
-- are parameters of any value. Machine words are natural numbers with the end of their range
-- written out where the source says what happens there: `saturating_add`, `wrapping_add`. A number
-- of a chunk is not wrapped: a file would need 2^32 of them.
--
-- Bounds and fuel. Loops over data are recursion on it. The reads of a file run on fuel: one more
-- than the length of the file, and the offset of a resume, since each read yields a byte at least;
-- `Sender.Whole` shows that this is enough. The search for a free name has the 9999 tries of the
-- source. The windows of 60 seconds, the 1024 events in memory and the capacities of the journal
-- are the constants of the source.
--
-- Not modelled: `handle_offer`, `receive_files` and `send_files`, which tie the modelled parts to
-- streams and tasks; the walk over directories and the probes of a file's risk; in discovery the
-- registration of the own service, the power profile and the hotspots; Bluetooth, the daemon and
-- the messages of its IPC, certificates and keys, the start of the runtime, the commands and
-- events towards the user interface, and the interface itself. Logging leaves no trace in the
-- model. Paths are those of Unix. A poisoned lock is not modelled, nor
-- is a statement that fails inside the transaction of a migration, which the source does not roll
-- back.
mod Base
pub mod Types
pub mod History
pub mod Progress
pub mod Trust
pub mod RateLimit
pub mod Handshake
pub mod Pairing
pub mod Paths
pub mod Files
pub mod Local
pub mod Receiver
pub mod Sender
pub mod Delivery
pub mod Requests
pub mod Endings
pub mod Feed
pub mod Grants
pub mod Checkpoints
pub mod Discovery
pub mod Outcome
pub mod AutoAccept
