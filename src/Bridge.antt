-- ===== src/Bridge.antt =====
-- src/bridge.rs: recognising the users and rooms of a bridge to another network.
pub mod Names
pub mod Detect
pub mod Puppets
pub mod Members
pub mod Tests
