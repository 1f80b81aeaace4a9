-- ===== src/Errors/Av/Call.antt =====
-- ToxAv/generated/errors.cpp: ANSWER, CALL_CONTROL, CALL, NEW. `other` is a code that the switch does not list.
mod Answer
mod CallControl
mod Call
mod New
unfoldable pub use Answer.*
unfoldable pub use CallControl.*
unfoldable pub use Call.*
unfoldable pub use New.*
