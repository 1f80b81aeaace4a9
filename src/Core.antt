-- ===== src/Core.antt =====
-- ToxCore: the events that toxcore reports, and how they reach Java.
pub mod Messages
pub mod Callbacks
pub mod Dispatch
pub mod Iterate
