-- ===== src/Admin.antt =====
-- src/session/admin_protocol.cpp and include/public/nimblefix/session/admin_protocol.h: the FIX
-- session protocol of one session, over the session core, a store and a codec.
pub mod Keeps
pub mod Data
pub mod Validate
pub mod Stored
pub mod Frames
pub mod Replay
pub mod Timer
pub mod Logon
pub mod Dispatch
pub mod Sequence
pub mod Inbound
pub mod Calls
pub mod Numbers
pub mod Branches
pub mod Drain
pub mod Create
mod Examples
