-- ===== src/Search.antt =====
-- src/core.rs: the search of messages, the lists of members, and the previews of links.
pub mod Scan
pub mod Find
pub mod Scanned
pub mod Found
pub mod Members
pub mod Listed
pub mod Tests
