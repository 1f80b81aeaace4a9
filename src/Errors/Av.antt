-- ===== src/Errors/Av.antt =====
-- ToxAv/generated/errors.cpp: the error codes of the audio and video methods.
pub mod Call
pub mod Stream
