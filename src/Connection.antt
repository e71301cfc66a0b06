-- ===== src/Connection.antt =====
-- src/main.rs, `handle_conn`: the requests of one connection, from the bytes that the socket gives
-- to the tasks that answer them.
pub mod Reader
pub mod Flight
pub mod Answered
pub mod Drained
pub mod Bounds
pub mod Tests
