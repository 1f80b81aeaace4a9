-- ===== src/Errors/Crypto.antt =====
-- ToxCrypto/generated/errors.cpp: the error codes of the encryption methods.
pub mod Codes
