-- ===== src/Media.antt =====
-- src/media.rs: the names that attachments are cached under, and the reading of a recorded WAV.
pub mod Extension
pub mod Attachment
pub mod Download
pub mod Capped
pub mod Wav
pub mod Samples
pub mod Tests
