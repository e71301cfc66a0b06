-- ===== src/Community.antt =====
-- src/community.rs: the policy for direct chats, with the handler that applies it to an invite
-- (src/core.rs: `on_stripped_member`), and the rooms of the community space.
pub mod Policy
pub mod Allowed
pub mod Invites
pub mod Listing
pub mod Joining
pub mod Leaving
pub mod Pending
pub mod Cards
pub mod People
pub mod Publish
pub mod Published
pub mod Status
pub mod Spaces
pub mod Shown
pub mod Added
pub mod Tests
pub mod Preferences
pub mod StatusTests
