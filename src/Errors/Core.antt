-- ===== src/Errors/Core.antt =====
-- ToxCore/generated/errors.cpp: the error codes of the core methods, by what they act on.
pub mod Friend
pub mod File
pub mod Self
