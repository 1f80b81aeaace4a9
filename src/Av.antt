-- ===== src/Av.antt =====
-- ToxAv: the library's second subsystem, audio and video calls.
pub mod Messages
pub mod Callbacks
pub mod Dispatch
pub mod Iterate
pub mod Methods
pub mod Construction
