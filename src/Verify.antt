-- ===== src/Verify.antt =====
-- src/verify.rs: the verification of devices by emoji, and the recovery key. The SDK's requests and
-- exchanges are outside the program: the states that they go through and the answers that they give
-- are arguments, and what the program asks of them is the list of `calls`.
pub mod Flows
pub mod Commands
pub mod Recovery
pub mod Tracking
pub mod Consent
pub mod Tests
