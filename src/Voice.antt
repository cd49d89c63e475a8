-- ===== src/Voice.antt =====
-- voice/: the voice sessions of the relay. Times are UTC microseconds; UUIDs, device ids and texts are
-- texts; bytes are lists of numbers.
pub mod Models
pub mod Privacy
pub mod Tokens
pub mod Transcripts
pub mod Emitter
pub mod Session
pub mod Examples
