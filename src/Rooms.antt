-- ===== src/Rooms.antt =====
-- The list of rooms and what is done in one (src/core.rs: `rooms`, `room_info`, `activity_of`,
-- `notification_mode`, `set_notification_mode`, `send`, `edit`, `mark_read`).
pub mod Activity
pub mod Settings
pub mod Modes
pub mod Info
pub mod Listed
pub mod Unread
pub mod Asked
pub mod Details
pub mod Creating
pub mod Sending
pub mod Sent
pub mod Tests
