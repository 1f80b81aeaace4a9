-- ===== src/Errors/Crypto/Codes.antt =====
-- ToxCrypto/generated/errors.cpp: DECRYPTION, ENCRYPTION, GET_SALT, KEY_DERIVATION. `other` is a code that the switch does not list.
mod Decryption
mod Encryption
mod GetSalt
mod KeyDerivation
unfoldable pub use Decryption.*
unfoldable pub use Encryption.*
unfoldable pub use GetSalt.*
unfoldable pub use KeyDerivation.*
