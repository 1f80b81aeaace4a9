-- ===== src/Core/Callbacks.antt =====
-- ToxCore/lifecycle.cpp: the callbacks that toxcore calls while it iterates. Each adds one message
-- to the events. An enumerator that a `switch` does not list leaves the field at its default, the
-- first enumerator of the schema.
use jvm_toxcore_c.Base.{ℕ, zero, suc, ◌%◌, ◌^◌, Bool, Option, none, some, List, [], ◌∷◌, ◌++◌, Text}
use jvm_toxcore_c.Jni.{Outcome, returned, undefined}
use jvm_toxcore_c.Enums.Status.{ToxConnection, ToxUserStatus, ToxMessageType, ToxFileControl}
use jvm_toxcore_c.Core.Messages.{Connection, UserStatus, MessageType, FileControl, Events}

-- `TOX_PUBLIC_KEY_SIZE`
abbrev pub public_key_size : ℕ
public_key_size = 32

-- Reads `n` bytes from the start of a buffer: past its end the behaviour is undefined.
unfoldable pub read : {A : Type 0} → ℕ → List A → Option (List A)
read zero bytes = some []
read (suc n) [] = none
read (suc n) (b ∷ bytes) = elim (read n bytes) [ none ↦ none | some rest ↦ some (b ∷ rest) ]

-- `set_connection_status`
unfoldable pub connection_of : ToxConnection → Connection
connection_of ToxConnection.none = Connection.none
connection_of ToxConnection.tcp = Connection.tcp
connection_of ToxConnection.udp = Connection.udp
connection_of (ToxConnection.other _) = Connection.none

unfoldable pub user_status_of : ToxUserStatus → UserStatus
user_status_of ToxUserStatus.none = UserStatus.none
user_status_of ToxUserStatus.away = UserStatus.away
user_status_of ToxUserStatus.busy = UserStatus.busy
user_status_of (ToxUserStatus.other _) = UserStatus.none

unfoldable pub message_type_of : ToxMessageType → MessageType
message_type_of ToxMessageType.normal = MessageType.normal
message_type_of ToxMessageType.action = MessageType.action
message_type_of (ToxMessageType.other _) = MessageType.normal

unfoldable pub file_control_of : ToxFileControl → FileControl
file_control_of ToxFileControl.resume = FileControl.resume
file_control_of ToxFileControl.pause = FileControl.pause
file_control_of ToxFileControl.cancel = FileControl.cancel
file_control_of (ToxFileControl.other _) = FileControl.resume

unfoldable pub self_connection_status_cb : ToxConnection → Events → Events
self_connection_status_cb status e = record e {
  self_connection_status =
      e.self_connection_status ++ record { connection_status = connection_of status } ∷ [];
}

unfoldable pub friend_name_cb : ℕ → Text → Events → Events
friend_name_cb friend_number name e = record e {
  friend_name = e.friend_name ++ record { friend_number = friend_number; name = name } ∷ [];
}

unfoldable pub friend_status_message_cb : ℕ → Text → Events → Events
friend_status_message_cb friend_number message e = record e {
  friend_status_message =
      e.friend_status_message ++ record { friend_number = friend_number; message = message } ∷ [];
}

unfoldable pub friend_status_cb : ℕ → ToxUserStatus → Events → Events
friend_status_cb friend_number status e = record e {
  friend_status =
      e.friend_status
      ++ record { friend_number = friend_number; status = user_status_of status } ∷ [];
}

unfoldable pub friend_connection_status_cb : ℕ → ToxConnection → Events → Events
friend_connection_status_cb friend_number status e = record e {
  friend_connection_status =
      e.friend_connection_status
      ++ record { friend_number = friend_number; connection_status = connection_of status } ∷ [];
}

unfoldable pub friend_typing_cb : ℕ → Bool → Events → Events
friend_typing_cb friend_number is_typing e = record e {
  friend_typing =
      e.friend_typing ++ record { friend_number = friend_number; is_typing = is_typing } ∷ [];
}

unfoldable pub friend_read_receipt_cb : ℕ → ℕ → Events → Events
friend_read_receipt_cb friend_number message_id e = record e {
  friend_read_receipt =
      e.friend_read_receipt
      ++ record { friend_number = friend_number; message_id = message_id } ∷ [];
}

-- The first argument is the memory at the `public_key` pointer, of which 32 bytes are read.
unfoldable pub friend_request_cb : List ℕ → Text → Events → Outcome Events
friend_request_cb public_key message e = elim (read public_key_size public_key) [
  | none ↦ undefined
  | some key ↦ returned (record e {
    friend_request =
        e.friend_request ++ record { public_key = key; time_delta = 0; message = message } ∷ [];
  })
]

unfoldable pub friend_message_cb : ℕ → ToxMessageType → Text → Events → Events
friend_message_cb friend_number type message e = record e {
  friend_message =
      e.friend_message
      ++ record {
        friend_number = friend_number;
        type = message_type_of type;
        time_delta = 0;
        message = message;
      }
        ∷ [];
}

unfoldable pub file_recv_control_cb : ℕ → ℕ → ToxFileControl → Events → Events
file_recv_control_cb friend_number file_number control e = record e {
  file_recv_control =
      e.file_recv_control
      ++ record {
        friend_number = friend_number;
        file_number = file_number;
        control = file_control_of control;
      }
        ∷ [];
}

-- The field `length` of the schema has 32 bits.
unfoldable pub file_chunk_request_cb : ℕ → ℕ → ℕ → ℕ → Events → Events
file_chunk_request_cb friend_number file_number position length e = record e {
  file_chunk_request =
      e.file_chunk_request
      ++ record {
        friend_number = friend_number;
        file_number = file_number;
        position = position;
        length = length % 2 ^ 32;
      }
        ∷ [];
}

unfoldable pub file_recv_cb : ℕ → ℕ → ℕ → ℕ → Text → Events → Events
file_recv_cb friend_number file_number kind file_size filename e = record e {
  file_recv =
      e.file_recv
      ++ record {
        friend_number = friend_number;
        file_number = file_number;
        kind = kind;
        file_size = file_size;
        filename = filename;
      }
        ∷ [];
}

unfoldable pub file_recv_chunk_cb : ℕ → ℕ → ℕ → Text → Events → Events
file_recv_chunk_cb friend_number file_number position chunk e = record e {
  file_recv_chunk =
      e.file_recv_chunk
      ++ record {
        friend_number = friend_number;
        file_number = file_number;
        position = position;
        chunk = chunk;
      }
        ∷ [];
}

unfoldable pub friend_lossy_packet_cb : ℕ → Text → Events → Events
friend_lossy_packet_cb friend_number packet e = record e {
  friend_lossy_packet =
      e.friend_lossy_packet ++ record { friend_number = friend_number; packet = packet } ∷ [];
}

unfoldable pub friend_lossless_packet_cb : ℕ → Text → Events → Events
friend_lossless_packet_cb friend_number packet e = record e {
  friend_lossless_packet =
      e.friend_lossless_packet ++ record { friend_number = friend_number; packet = packet } ∷ [];
}
