-- ===== src/Reactions.antt =====
-- Reactions and read receipts of a message (src/core.rs: `aggregate_reactions`, `read_by`).
pub mod Tally
pub mod ByKey
pub mod Tallied
pub mod Readers
pub mod Tests
