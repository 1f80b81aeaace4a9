-- ===== src/Log.antt =====
-- util/debug_log.h and util/debug_log.cpp: the log of native calls.
pub mod Registry
pub mod Values
pub mod Store
pub mod Calls
pub mod History
