-- ===== src/Messages.antt =====
-- src/core.rs: from the events of a room to the messages that clients show, and the edits,
-- quotes and notices that go with them.
pub mod Events
pub mod Quotes
pub mod Fallback
pub mod Convert
pub mod Belongs
pub mod Edits
pub mod Shown
pub mod Previews
pub mod Live
pub mod Arrivals
pub mod Bounded
pub mod Tests
