-- ===== src/Core/Iterate.antt =====
-- `toxIterate` (ToxCore/connection.cpp), and the `invoke...` methods, which call a callback from Java
-- (ToxCore/lifecycle.cpp). The events that are pending in an instance are the user data of its
-- callbacks.
pub mod Delivery
pub mod Injected
use jvm_toxcore_c.Base.{ℕ, ◌%◌, ◌^◌, Bool, Option, none, some, List, [], ◌∷◌, ℤ, u32, u64, Text}
use jvm_toxcore_c.Jni.{Env, JavaArray, Outcome, returned, ◌>>=◌}
use jvm_toxcore_c.Instances.{Manager, with_instance}
use jvm_toxcore_c.Drain.{Protobuf, drain}
use jvm_toxcore_c.Enums.Status.{
  value_of_connection, value_of_user_status, value_of_message_type, value_of_file_control,
}
use jvm_toxcore_c.Core.Messages.{Events, no_events}
use jvm_toxcore_c.Core.Dispatch.{Event, invoke, invoke_all}

-- `data ()` with `size ()`, for a callee that copies the elements; null has none.
abbrev pub elements : {A : Type 0} → JavaArray A → List A
elements none = []
elements (some xs) = xs

-- A method that runs a function on an instance and gives the environment and the table back.
abbrev pub Method : Type 0 → Type 0 → Type 0
Method Tox A = Env → ℤ → Manager Tox Events → Outcome (A × Env × Manager Tox Events)

module _ {Tox : Type 0} where
  -- `tox_iterate` makes the callback calls of its list, in order.
  iterate_on :
      (Tox → List Event × Tox)
      → Protobuf Events
      → Tox
      → Events
      → Env
      → Outcome (Option (List ℕ) × Tox × Events × Env)
  iterate_on tox_iterate pb tox events env =
      let (calls, tox') = tox_iterate tox in
      invoke_all calls events >>= λ collected.
      let (bytes, rest) = drain pb no_events collected in returned (bytes, tox', rest, env)

  pub iterate : (Tox → List Event × Tox) → Protobuf Events → Method Tox (Option (List ℕ))
  unfolding iterate_on
  iterate tox_iterate pb env n m = with_instance (iterate_on tox_iterate pb) none env n m

  -- The body that the `invoke...` methods share: the arguments are converted, which may abort the
  -- process, and the callback runs on the pending events.
  invoke_on : Outcome Event → Tox → Events → Env → Outcome (Unit {0} × Tox × Events × Env)
  invoke_on call tox events env = do
    c ← call
    events' ← invoke c events
    returned (tt, tox, events', env)

  unfoldable pub invoke_from_java : Outcome Event → Method Tox (Unit {0})
  unfolding invoke_on
  invoke_from_java call env n m = with_instance (invoke_on call) tt env n m

  unfoldable pub invoke_self_connection_status : ℤ → Method Tox (Unit {0})
  unfolding invoke_from_java
  invoke_self_connection_status status =
      invoke_from_java
        (value_of_connection status >>= λ s. returned (Event.self_connection_status s))

  unfoldable pub invoke_file_recv_control : ℤ → ℤ → ℤ → Method Tox (Unit {0})
  unfolding invoke_from_java
  invoke_file_recv_control friend file control = invoke_from_java (
      value_of_file_control control >>= λ c.
      returned (Event.file_recv_control (u32 friend) (u32 file) c))

  unfoldable pub invoke_file_recv : ℤ → ℤ → ℤ → ℤ → JavaArray ℕ → Method Tox (Unit {0})
  unfolding invoke_from_java
  invoke_file_recv friend file kind size filename =
      invoke_from_java (
        returned
          (Event.file_recv (u32 friend) (u32 file) (u32 kind) (u64 size) (elements filename)))

  unfoldable pub invoke_file_recv_chunk : ℤ → ℤ → ℤ → JavaArray ℕ → Method Tox (Unit {0})
  unfolding invoke_from_java
  invoke_file_recv_chunk friend file position chunk =
      invoke_from_java
        (returned (Event.file_recv_chunk (u32 friend) (u32 file) (u64 position) (elements chunk)))

  unfoldable pub invoke_file_chunk_request : ℤ → ℤ → ℤ → ℤ → Method Tox (Unit {0})
  unfolding invoke_from_java
  invoke_file_chunk_request friend file position length =
      invoke_from_java
        (returned (Event.file_chunk_request (u32 friend) (u32 file) (u64 position) (u64 length)))

  unfoldable pub invoke_friend_connection_status : ℤ → ℤ → Method Tox (Unit {0})
  unfolding invoke_from_java
  invoke_friend_connection_status friend status =
      invoke_from_java (
        value_of_connection status >>= λ s.
        returned (Event.friend_connection_status (u32 friend) s))

  unfoldable pub invoke_friend_lossless_packet : ℤ → JavaArray ℕ → Method Tox (Unit {0})
  unfolding invoke_from_java
  invoke_friend_lossless_packet friend packet =
      invoke_from_java (returned (Event.friend_lossless_packet (u32 friend) (elements packet)))

  unfoldable pub invoke_friend_lossy_packet : ℤ → JavaArray ℕ → Method Tox (Unit {0})
  unfolding invoke_from_java
  invoke_friend_lossy_packet friend packet =
      invoke_from_java (returned (Event.friend_lossy_packet (u32 friend) (elements packet)))

  -- The time delta is dropped.
  unfoldable pub invoke_friend_message : ℤ → ℤ → ℤ → JavaArray ℕ → Method Tox (Unit {0})
  unfolding invoke_from_java
  invoke_friend_message friend type time_delta message = invoke_from_java (
      value_of_message_type type >>= λ t.
      returned (Event.friend_message (u32 friend) t (elements message)))

  unfoldable pub invoke_friend_name : ℤ → JavaArray ℕ → Method Tox (Unit {0})
  unfolding invoke_from_java
  invoke_friend_name friend name =
      invoke_from_java (returned (Event.friend_name (u32 friend) (elements name)))

  unfoldable pub invoke_friend_request : JavaArray ℕ → ℤ → JavaArray ℕ → Method Tox (Unit {0})
  unfolding invoke_from_java
  invoke_friend_request public_key time_delta message =
      invoke_from_java (returned (Event.friend_request (elements public_key) (elements message)))

  unfoldable pub invoke_friend_status : ℤ → ℤ → Method Tox (Unit {0})
  unfolding invoke_from_java
  invoke_friend_status friend status =
      invoke_from_java
        (value_of_user_status status >>= λ s. returned (Event.friend_status (u32 friend) s))

  unfoldable pub invoke_friend_status_message : ℤ → JavaArray ℕ → Method Tox (Unit {0})
  unfolding invoke_from_java
  invoke_friend_status_message friend message =
      invoke_from_java (returned (Event.friend_status_message (u32 friend) (elements message)))

  unfoldable pub invoke_friend_typing : ℤ → Bool → Method Tox (Unit {0})
  unfolding invoke_from_java
  invoke_friend_typing friend is_typing =
      invoke_from_java (returned (Event.friend_typing (u32 friend) is_typing))

  unfoldable pub invoke_friend_read_receipt : ℤ → ℤ → Method Tox (Unit {0})
  unfolding invoke_from_java
  invoke_friend_read_receipt friend message_id =
      invoke_from_java (returned (Event.friend_read_receipt (u32 friend) (u32 message_id)))
