-- ===== src/Timeline.antt =====
-- The timeline pages of src/core.rs: which events are lines, how far the cache is loaded, how a page
-- is cut and where the next one begins.
pub mod Events
pub mod Chunks
pub mod Page
pub mod Listing
pub mod Walk
pub mod Pages
pub mod Loading
pub mod Bounded
pub mod Thread
pub mod Replies
pub mod Tests
