-- ===== src/Session.antt =====
-- The session state of src/core.rs: what `Core` keeps in memory, in `session.json` and in the
-- keyring, and the operations on it. An operation is a function of the state; what the homeserver,
-- the SDK, the keyring and the file system answer is an argument.
pub mod Types
pub mod Disk
pub mod Login
pub mod Sync
pub mod Placement
pub mod RoundTrip
pub mod Soundness
pub mod Commands
pub mod Live
pub mod Backoff
pub mod Race
pub mod Tests
