-- ===== src/Errors/Core/Friend.antt =====
-- ToxCore/generated/errors.cpp: FRIEND_ADD, FRIEND_BY_PUBLIC_KEY, FRIEND_CUSTOM_PACKET, FRIEND_DELETE, FRIEND_GET_PUBLIC_KEY, FRIEND_SEND_MESSAGE. `other` is a code that the switch does not list.
mod FriendAdd
mod FriendByPublicKey
mod FriendCustomPacket
mod FriendDelete
mod FriendGetPublicKey
mod FriendSendMessage
unfoldable pub use FriendAdd.*
unfoldable pub use FriendByPublicKey.*
unfoldable pub use FriendCustomPacket.*
unfoldable pub use FriendDelete.*
unfoldable pub use FriendGetPublicKey.*
unfoldable pub use FriendSendMessage.*
