-- ===== src/Core/Dispatch.antt =====
-- tox/common.h and tox/generated/core.h: which callbacks are registered, and what a run of toxcore
-- that calls them makes of the events.
pub mod Append
pub mod Reported
use jvm_toxcore_c.Base.{ℕ, Bool, List, [], ◌∷◌, Text}
use jvm_toxcore_c.Jni.{Outcome, returned, ◌>>=◌}
use jvm_toxcore_c.Enums.Status.{ToxConnection, ToxUserStatus, ToxMessageType, ToxFileControl}
use jvm_toxcore_c.Core.Messages.{Events}
use jvm_toxcore_c.Core.Callbacks.{
  self_connection_status_cb, friend_name_cb, friend_status_message_cb, friend_status_cb,
  friend_connection_status_cb, friend_typing_cb, friend_read_receipt_cb, friend_request_cb,
  friend_message_cb, file_recv_control_cb, file_chunk_request_cb, file_recv_cb, file_recv_chunk_cb,
  friend_lossy_packet_cb, friend_lossless_packet_cb,
}

-- A call of a callback by toxcore, with its arguments.
pub data Event : Type 0 where
  self_connection_status : ToxConnection → Event
  friend_name : ℕ → Text → Event
  friend_status_message : ℕ → Text → Event
  friend_status : ℕ → ToxUserStatus → Event
  friend_connection_status : ℕ → ToxConnection → Event
  friend_typing : ℕ → Bool → Event
  friend_read_receipt : ℕ → ℕ → Event
  friend_request : List ℕ → Text → Event
  friend_message : ℕ → ToxMessageType → Text → Event
  file_recv_control : ℕ → ℕ → ToxFileControl → Event
  file_chunk_request : ℕ → ℕ → ℕ → ℕ → Event
  file_recv : ℕ → ℕ → ℕ → ℕ → Text → Event
  file_recv_chunk : ℕ → ℕ → ℕ → Text → Event
  friend_lossy_packet : ℕ → Text → Event
  friend_lossless_packet : ℕ → Text → Event

-- `invoke`: the callback, on the events that were registered as its user data.
unfoldable pub invoke : Event → Events → Outcome Events
unfolding self_connection_status_cb friend_name_cb friend_status_message_cb friend_status_cb
    friend_connection_status_cb friend_typing_cb friend_read_receipt_cb friend_request_cb
    friend_message_cb file_recv_control_cb file_chunk_request_cb file_recv_cb file_recv_chunk_cb
    friend_lossy_packet_cb friend_lossless_packet_cb
invoke (self_connection_status a) events = returned (self_connection_status_cb a events)
invoke (friend_name a b) events = returned (friend_name_cb a b events)
invoke (friend_status_message a b) events = returned (friend_status_message_cb a b events)
invoke (friend_status a b) events = returned (friend_status_cb a b events)
invoke (friend_connection_status a b) events = returned (friend_connection_status_cb a b events)
invoke (friend_typing a b) events = returned (friend_typing_cb a b events)
invoke (friend_read_receipt a b) events = returned (friend_read_receipt_cb a b events)
invoke (friend_request a b) events = friend_request_cb a b events
invoke (friend_message a b c) events = returned (friend_message_cb a b c events)
invoke (file_recv_control a b c) events = returned (file_recv_control_cb a b c events)
invoke (file_chunk_request a b c d) events = returned (file_chunk_request_cb a b c d events)
invoke (file_recv a b c d e) events = returned (file_recv_cb a b c d e events)
invoke (file_recv_chunk a b c d) events = returned (file_recv_chunk_cb a b c d events)
invoke (friend_lossy_packet a b) events = returned (friend_lossy_packet_cb a b events)
invoke (friend_lossless_packet a b) events = returned (friend_lossless_packet_cb a b events)

-- The calls of one `tox_iterate`, in order.
unfoldable pub invoke_all : List Event → Events → Outcome Events
invoke_all [] e = returned e
invoke_all (c ∷ cs) e = invoke c e >>= λ e'. invoke_all cs e'

-- The callbacks of generated/core.h, in its order.
pub data Kind : Type 0 where
  file_chunk_request : Kind
  file_recv : Kind
  file_recv_chunk : Kind
  file_recv_control : Kind
  friend_connection_status : Kind
  friend_lossless_packet : Kind
  friend_lossy_packet : Kind
  friend_message : Kind
  friend_name : Kind
  friend_read_receipt : Kind
  friend_request : Kind
  friend_status : Kind
  friend_status_message : Kind
  friend_typing : Kind
  self_connection_status : Kind

abbrev pub registered : List Kind
registered =
    Kind.file_chunk_request ∷ Kind.file_recv ∷ Kind.file_recv_chunk ∷ Kind.file_recv_control
    ∷ Kind.friend_connection_status ∷ Kind.friend_lossless_packet ∷ Kind.friend_lossy_packet
    ∷ Kind.friend_message ∷ Kind.friend_name ∷ Kind.friend_read_receipt ∷ Kind.friend_request
    ∷ Kind.friend_status ∷ Kind.friend_status_message ∷ Kind.friend_typing
    ∷ Kind.self_connection_status ∷ []

-- The kind of a call.
unfoldable pub kind_of : Event → Kind
kind_of (Event.self_connection_status _) = Kind.self_connection_status
kind_of (Event.friend_name _ _) = Kind.friend_name
kind_of (Event.friend_status_message _ _) = Kind.friend_status_message
kind_of (Event.friend_status _ _) = Kind.friend_status
kind_of (Event.friend_connection_status _ _) = Kind.friend_connection_status
kind_of (Event.friend_typing _ _) = Kind.friend_typing
kind_of (Event.friend_read_receipt _ _) = Kind.friend_read_receipt
kind_of (Event.friend_request _ _) = Kind.friend_request
kind_of (Event.friend_message _ _ _) = Kind.friend_message
kind_of (Event.file_recv_control _ _ _) = Kind.file_recv_control
kind_of (Event.file_chunk_request _ _ _ _) = Kind.file_chunk_request
kind_of (Event.file_recv _ _ _ _ _) = Kind.file_recv
kind_of (Event.file_recv_chunk _ _ _ _) = Kind.file_recv_chunk
kind_of (Event.friend_lossy_packet _ _) = Kind.friend_lossy_packet
kind_of (Event.friend_lossless_packet _ _) = Kind.friend_lossless_packet

-- `set_callbacks`, where `set k` is the `tox_callback_...` of one kind: each is set once, in turn.
unfoldable pub set_callbacks : {Tox : Type 0} → (Kind → Tox → Tox) → List Kind → Tox → Tox
set_callbacks set [] tox = tox
set_callbacks set (k ∷ ks) tox = set_callbacks set ks (set k tox)
