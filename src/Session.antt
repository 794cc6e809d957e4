-- ===== src/Session.antt =====
-- The FIX session layer.
pub mod State
pub mod Core
pub mod Replay
pub mod Recovery
