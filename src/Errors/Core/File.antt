-- ===== src/Errors/Core/File.antt =====
-- ToxCore/generated/errors.cpp: FILE_CONTROL, FILE_GET, FILE_SEEK, FILE_SEND_CHUNK, FILE_SEND. `other` is a code that the switch does not list.
mod FileControl
mod FileGet
mod FileSeek
mod FileSendChunk
mod FileSend
unfoldable pub use FileControl.*
unfoldable pub use FileGet.*
unfoldable pub use FileSeek.*
unfoldable pub use FileSendChunk.*
unfoldable pub use FileSend.*
