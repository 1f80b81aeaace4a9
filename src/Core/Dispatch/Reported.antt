-- ===== src/Core/Dispatch/Reported.antt =====
-- The messages that stand for what toxcore reports, by Core.proto, and that the callbacks of
-- tox/common.h collect just these.
use jvm_toxcore_c.Base.{
  ℕ, zero, suc, ◌%◌, ◌^◌, ◌≤◌, ◌≡◌, refl, some, List, [], ◌∷◌, length, All, arith,
}
use jvm_toxcore_c.Jni.{returned}
use jvm_toxcore_c.Enums.Status.{ToxConnection, ToxUserStatus, ToxMessageType, ToxFileControl}
use jvm_toxcore_c.Core.Messages.{
  Connection, UserStatus, MessageType, FileControl, Events, no_events, ◌⊕◌,
}
use jvm_toxcore_c.Core.Callbacks.{
  read, connection_of, user_status_of, message_type_of, file_control_of,
}
use jvm_toxcore_c.Core.Dispatch.{Event, invoke, invoke_all}
use jvm_toxcore_c.Core.Dispatch.Append.{HasKey, invoke_all-append}

-- The first elements of a list.
abbrev pub take : {A : Type 0} → ℕ → List A → List A
take zero xs = []
take (suc n) [] = []
take (suc n) (x ∷ xs) = x ∷ take n xs

pub read-take : {A : Type 0} (n : ℕ) (xs : List A) → n ≤ length xs → read n xs ≡ some (take n xs)
unfolding read
read-take zero xs h = refl
read-take (suc n) [] h = absurd (omega arith)
read-take (suc n) (x ∷ xs) h = rw (read-take n xs (omega arith)) refl

-- The enumerators of the same names; a number that toxcore does not define is shown as the first.
abbrev connection : ToxConnection → Connection
connection ToxConnection.tcp = Connection.tcp
connection ToxConnection.udp = Connection.udp
connection _ = Connection.none

abbrev user_status : ToxUserStatus → UserStatus
user_status ToxUserStatus.away = UserStatus.away
user_status ToxUserStatus.busy = UserStatus.busy
user_status _ = UserStatus.none

abbrev message_type : ToxMessageType → MessageType
message_type ToxMessageType.action = MessageType.action
message_type _ = MessageType.normal

abbrev file_control : ToxFileControl → FileControl
file_control ToxFileControl.pause = FileControl.pause
file_control ToxFileControl.cancel = FileControl.cancel
file_control _ = FileControl.resume

connection-same : (c : ToxConnection) → connection_of c ≡ connection c
unfolding connection_of
connection-same ToxConnection.none = refl
connection-same ToxConnection.tcp = refl
connection-same ToxConnection.udp = refl
connection-same (ToxConnection.other _) = refl

user_status-same : (s : ToxUserStatus) → user_status_of s ≡ user_status s
unfolding user_status_of
user_status-same ToxUserStatus.none = refl
user_status-same ToxUserStatus.away = refl
user_status-same ToxUserStatus.busy = refl
user_status-same (ToxUserStatus.other _) = refl

message_type-same : (t : ToxMessageType) → message_type_of t ≡ message_type t
unfolding message_type_of
message_type-same ToxMessageType.normal = refl
message_type-same ToxMessageType.action = refl
message_type-same (ToxMessageType.other _) = refl

file_control-same : (c : ToxFileControl) → file_control_of c ≡ file_control c
unfolding file_control_of
file_control-same ToxFileControl.resume = refl
file_control-same ToxFileControl.pause = refl
file_control-same ToxFileControl.cancel = refl
file_control-same (ToxFileControl.other _) = refl

-- The one message of a report: all that toxcore said, of a public key its 32 bytes, of a length its
-- low 32 bits.
abbrev pub message_of : Event → Events
message_of (Event.self_connection_status s) = record no_events {
  self_connection_status = record { connection_status = connection s } ∷ [];
}
message_of (Event.friend_name f x) = record no_events {
  friend_name = record { friend_number = f; name = x } ∷ [];
}
message_of (Event.friend_status_message f x) = record no_events {
  friend_status_message = record { friend_number = f; message = x } ∷ [];
}
message_of (Event.friend_status f s) = record no_events {
  friend_status = record { friend_number = f; status = user_status s } ∷ [];
}
message_of (Event.friend_connection_status f s) = record no_events {
  friend_connection_status = record { friend_number = f; connection_status = connection s } ∷ [];
}
message_of (Event.friend_typing f b) = record no_events {
  friend_typing = record { friend_number = f; is_typing = b } ∷ [];
}
message_of (Event.friend_read_receipt f i) = record no_events {
  friend_read_receipt = record { friend_number = f; message_id = i } ∷ [];
}
message_of (Event.friend_request key x) = record no_events {
  friend_request = record { public_key = take 32 key; time_delta = 0; message = x } ∷ [];
}
message_of (Event.friend_message f t x) = record no_events {
  friend_message =
      record { friend_number = f; type = message_type t; time_delta = 0; message = x } ∷ [];
}
message_of (Event.file_recv_control f n c) = record no_events {
  file_recv_control = record { friend_number = f; file_number = n; control = file_control c } ∷ [];
}
message_of (Event.file_chunk_request f n p l) = record no_events {
  file_chunk_request =
      record { friend_number = f; file_number = n; position = p; length = l % 2 ^ 32 } ∷ [];
}
message_of (Event.file_recv f n k s x) = record no_events {
  file_recv =
      record { friend_number = f; file_number = n; kind = k; file_size = s; filename = x } ∷ [];
}
message_of (Event.file_recv_chunk f n p x) = record no_events {
  file_recv_chunk = record { friend_number = f; file_number = n; position = p; chunk = x } ∷ [];
}
message_of (Event.friend_lossy_packet f x) = record no_events {
  friend_lossy_packet = record { friend_number = f; packet = x } ∷ [];
}
message_of (Event.friend_lossless_packet f x) = record no_events {
  friend_lossless_packet = record { friend_number = f; packet = x } ∷ [];
}

-- The messages of several reports, the earliest first.
abbrev pub messages_of : List Event → Events
messages_of [] = no_events
messages_of (c ∷ cs) = message_of c ⊕ messages_of cs

-- Each callback collects the message of its report, and nothing else.
pub invoke-message_of : (c : Event) → HasKey c → invoke c no_events ≡ returned (message_of c)
unfolding invoke read
invoke-message_of (Event.self_connection_status s) h = rw (connection-same s) refl
invoke-message_of (Event.friend_status f s) h = rw (user_status-same s) refl
invoke-message_of (Event.friend_connection_status f s) h = rw (connection-same s) refl
invoke-message_of (Event.friend_request key x) h = rw (read-take 32 key h, invoke) refl
invoke-message_of (Event.friend_message f t x) h = rw (message_type-same t) refl
invoke-message_of (Event.file_recv_control f n c) h = rw (file_control-same c) refl
invoke-message_of _ h = refl

pub invoke_all-messages_of :
    (cs : List Event) → All HasKey cs → invoke_all cs no_events ≡ returned (messages_of cs)
unfolding invoke_all
invoke_all-messages_of [] h = refl
invoke_all-messages_of (c ∷ cs) h =
    rw (invoke-message_of c h.0)
      (rw (invoke_all-append cs (message_of c)) (rw (invoke_all-messages_of cs h.1) refl))
