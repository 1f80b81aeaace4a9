-- ===== src/Errors/Core/Self.antt =====
-- ToxCore/generated/errors.cpp: BOOTSTRAP, GET_PORT, NEW, SET_INFO, SET_TYPING. `other` is a code that the switch does not list.
mod Bootstrap
mod GetPort
mod New
mod SetInfo
mod SetTyping
unfoldable pub use Bootstrap.*
unfoldable pub use GetPort.*
unfoldable pub use New.*
unfoldable pub use SetInfo.*
unfoldable pub use SetTyping.*
