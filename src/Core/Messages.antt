-- ===== src/Core/Messages.antt =====
-- ToxCore/Core.proto: the messages that collect what toxcore reported, and `core::Events`. A field
-- `data` of the schema is named for its contents.
use jvm_toxcore_c.Base.{ℕ, Bool, List, [], ◌++◌, Text}

pub data Connection : Type 0 where
  none tcp udp : Connection

pub data UserStatus : Type 0 where
  none away busy : UserStatus

pub data MessageType : Type 0 where
  normal action : MessageType

pub data FileControl : Type 0 where
  resume pause cancel : FileControl

pub record SelfConnectionStatus : Type 0 where
  pub connection_status : Connection

pub record FriendName : Type 0 where
  pub friend_number : ℕ
  pub name : Text

pub record FriendStatusMessage : Type 0 where
  pub friend_number : ℕ
  pub message : Text

pub record FriendStatus : Type 0 where
  pub friend_number : ℕ
  pub status : UserStatus

pub record FriendConnectionStatus : Type 0 where
  pub friend_number : ℕ
  pub connection_status : Connection

pub record FriendTyping : Type 0 where
  pub friend_number : ℕ
  pub is_typing : Bool

pub record FriendReadReceipt : Type 0 where
  pub friend_number : ℕ
  pub message_id : ℕ

pub record FriendRequest : Type 0 where
  pub public_key : Text
  pub time_delta : ℕ
  pub message : Text

pub record FriendMessage : Type 0 where
  pub friend_number : ℕ
  pub type : MessageType
  pub time_delta : ℕ
  pub message : Text

pub record FileRecvControl : Type 0 where
  pub friend_number : ℕ
  pub file_number : ℕ
  pub control : FileControl

pub record FileChunkRequest : Type 0 where
  pub friend_number : ℕ
  pub file_number : ℕ
  pub position : ℕ
  pub length : ℕ

pub record FileRecv : Type 0 where
  pub friend_number : ℕ
  pub file_number : ℕ
  pub kind : ℕ
  pub file_size : ℕ
  pub filename : Text

pub record FileRecvChunk : Type 0 where
  pub friend_number : ℕ
  pub file_number : ℕ
  pub position : ℕ
  pub chunk : Text

pub record FriendLossyPacket : Type 0 where
  pub friend_number : ℕ
  pub packet : Text

pub record FriendLosslessPacket : Type 0 where
  pub friend_number : ℕ
  pub packet : Text

-- `CoreEvents`, one list for each kind of message, oldest first.
pub record Events : Type 0 where
  pub self_connection_status : List SelfConnectionStatus
  pub friend_name : List FriendName
  pub friend_status_message : List FriendStatusMessage
  pub friend_status : List FriendStatus
  pub friend_connection_status : List FriendConnectionStatus
  pub friend_typing : List FriendTyping
  pub friend_read_receipt : List FriendReadReceipt
  pub friend_request : List FriendRequest
  pub friend_message : List FriendMessage
  pub file_recv_control : List FileRecvControl
  pub file_chunk_request : List FileChunkRequest
  pub file_recv : List FileRecv
  pub file_recv_chunk : List FileRecvChunk
  pub friend_lossy_packet : List FriendLossyPacket
  pub friend_lossless_packet : List FriendLosslessPacket

-- A new message object, and the state after `Clear`.
abbrev pub no_events : Events
no_events = record {
  self_connection_status = [];
  friend_name = [];
  friend_status_message = [];
  friend_status = [];
  friend_connection_status = [];
  friend_typing = [];
  friend_read_receipt = [];
  friend_request = [];
  friend_message = [];
  file_recv_control = [];
  file_chunk_request = [];
  file_recv = [];
  file_recv_chunk = [];
  friend_lossy_packet = [];
  friend_lossless_packet = [];
}

-- The messages of `a` before those of `b`, kind by kind.
infixl 65 ◌⊕◌
abbrev pub ◌⊕◌ : Events → Events → Events
a ⊕ b = record {
  self_connection_status = a.self_connection_status ++ b.self_connection_status;
  friend_name = a.friend_name ++ b.friend_name;
  friend_status_message = a.friend_status_message ++ b.friend_status_message;
  friend_status = a.friend_status ++ b.friend_status;
  friend_connection_status = a.friend_connection_status ++ b.friend_connection_status;
  friend_typing = a.friend_typing ++ b.friend_typing;
  friend_read_receipt = a.friend_read_receipt ++ b.friend_read_receipt;
  friend_request = a.friend_request ++ b.friend_request;
  friend_message = a.friend_message ++ b.friend_message;
  file_recv_control = a.file_recv_control ++ b.file_recv_control;
  file_chunk_request = a.file_chunk_request ++ b.file_chunk_request;
  file_recv = a.file_recv ++ b.file_recv;
  file_recv_chunk = a.file_recv_chunk ++ b.file_recv_chunk;
  friend_lossy_packet = a.friend_lossy_packet ++ b.friend_lossy_packet;
  friend_lossless_packet = a.friend_lossless_packet ++ b.friend_lossless_packet;
}
