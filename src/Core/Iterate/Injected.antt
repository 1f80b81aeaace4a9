-- ===== src/Core/Iterate/Injected.antt =====
-- The `invoke...` methods of ToxCore/lifecycle.cpp: what Java's arguments become in the events.
use jvm_toxcore_c.Base.{
  ℕ, zero, suc, none, ◌<◌, ◌≢◌, [], ◌∷◌, ◌≡◌, ◌≤◌, refl, Bool, false, Bool-cases, leb, length,
  arith, List, ℤ, u32, u64, ◌⊎◌, inl, inr,
}
use jvm_toxcore_c.Jni.{Env, JavaArray, Outcome, returned, fatal, undefined, Ensures, ◌>>=◌}
use jvm_toxcore_c.Instances.{Manager}
use jvm_toxcore_c.Instances.Valid.{IsValid}
use jvm_toxcore_c.Instances.View.{live, view, update}
use jvm_toxcore_c.Instances.Access.{with_instance-undefined, with_instance-fatal}
use jvm_toxcore_c.Enums.{IsEncoding-defined}
use jvm_toxcore_c.Enums.Status.{
  value_of_connection, value_of_user_status, value_of_message_type, value_of_file_control,
  connection-IsEncoding, user_status-IsEncoding, message_type-IsEncoding, file_control-IsEncoding,
}
use jvm_toxcore_c.Wrappers.Answers.{Reads}
use jvm_toxcore_c.Core.Messages.{Events, ◌⊕◌}
use jvm_toxcore_c.Core.Callbacks.{read, public_key_size}
use jvm_toxcore_c.Core.Dispatch.{Event, invoke}
use jvm_toxcore_c.Core.Dispatch.Append.{HasKey}
use jvm_toxcore_c.Core.Dispatch.Reported.{message_of}
use jvm_toxcore_c.Core.Iterate as I
use jvm_toxcore_c.Core.Iterate.{elements, invoke_on, invoke_from_java}
use jvm_toxcore_c.Core.Iterate.Delivery.{invoke_joins}

-- Fewer bytes than are asked for.
read-short : (n : ℕ) (xs : List ℕ) → leb n (length xs) ≡ false → read n xs ≡ none
unfolding read
read-short zero xs h = absurd (ground arith)
read-short (suc n) [] h = refl
read-short (suc n) (x ∷ xs) h = rw (read-short n xs (ground arith)) refl

module _ {Tox : Type 0} (env : Env) (n : ℤ) (m : Manager Tox Events) (tox : Tox)
    (pending : Events) where
  -- The message of the event stands behind the pending ones, and nothing else has changed.
  abbrev pub Joins : Event → Outcome (Unit {0} × Env × Manager Tox Events) → Type 0
  Joins c x = Ensures x λ r.
      (r.1 ≡ env)
      × ((j : ℤ) → view r.2 j ≡ update n (λ _. live tox (pending ⊕ message_of c)) (view m) j)

  -- What each of the fifteen methods does.
  abbrev pub MethodsJoin : Type 0
  MethodsJoin =
      ((status : ℤ)
        → Reads (value_of_connection status) (I.invoke_self_connection_status status env n m) (λ s.
          Joins (Event.self_connection_status s) (I.invoke_self_connection_status status env n m)))
      × ((friend file control : ℤ)
          → Reads (value_of_file_control control)
              (I.invoke_file_recv_control friend file control env n m)
              (λ c.
                Joins (Event.file_recv_control (u32 friend) (u32 file) c)
                  (I.invoke_file_recv_control friend file control env n m)))
      × ((friend file kind size : ℤ) (name : JavaArray ℕ)
          → Joins (Event.file_recv (u32 friend) (u32 file) (u32 kind) (u64 size) (elements name))
              (I.invoke_file_recv friend file kind size name env n m))
      × ((friend file position : ℤ) (chunk : JavaArray ℕ)
          → Joins (Event.file_recv_chunk (u32 friend) (u32 file) (u64 position) (elements chunk))
              (I.invoke_file_recv_chunk friend file position chunk env n m))
      × ((friend file position size : ℤ)
          → Joins (Event.file_chunk_request (u32 friend) (u32 file) (u64 position) (u64 size))
              (I.invoke_file_chunk_request friend file position size env n m))
      × ((friend status : ℤ)
          → Reads (value_of_connection status)
              (I.invoke_friend_connection_status friend status env n m)
              (λ s.
                Joins (Event.friend_connection_status (u32 friend) s)
                  (I.invoke_friend_connection_status friend status env n m)))
      × ((friend : ℤ) (packet : JavaArray ℕ)
          → Joins (Event.friend_lossless_packet (u32 friend) (elements packet))
              (I.invoke_friend_lossless_packet friend packet env n m))
      × ((friend : ℤ) (packet : JavaArray ℕ)
          → Joins (Event.friend_lossy_packet (u32 friend) (elements packet))
              (I.invoke_friend_lossy_packet friend packet env n m))
      × ((friend type time_delta : ℤ) (message : JavaArray ℕ)
          → Reads (value_of_message_type type)
              (I.invoke_friend_message friend type time_delta message env n m)
              (λ t.
                Joins (Event.friend_message (u32 friend) t (elements message))
                  (I.invoke_friend_message friend type time_delta message env n m)))
      × ((friend : ℤ) (name : JavaArray ℕ)
          → Joins (Event.friend_name (u32 friend) (elements name))
              (I.invoke_friend_name friend name env n m))
      × ((key : JavaArray ℕ) (time_delta : ℤ) (message : JavaArray ℕ)
          → ((public_key_size ≤ length (elements key))
              × Joins (Event.friend_request (elements key) (elements message))
                  (I.invoke_friend_request key time_delta message env n m))
            ⊎ ((length (elements key) < public_key_size)
                × (I.invoke_friend_request key time_delta message env n m ≡ undefined)))
      × ((friend status : ℤ)
          → Reads (value_of_user_status status) (I.invoke_friend_status friend status env n m) (λ s.
            Joins (Event.friend_status (u32 friend) s)
              (I.invoke_friend_status friend status env n m)))
      × ((friend : ℤ) (message : JavaArray ℕ)
          → Joins (Event.friend_status_message (u32 friend) (elements message))
              (I.invoke_friend_status_message friend message env n m))
      × ((friend : ℤ) (is_typing : Bool)
          → Joins (Event.friend_typing (u32 friend) is_typing)
              (I.invoke_friend_typing friend is_typing env n m))
      × ((friend message_id : ℤ)
          → Joins (Event.friend_read_receipt (u32 friend) (u32 message_id))
              (I.invoke_friend_read_receipt friend message_id env n m))

module _ {Tox : Type 0} (env : Env) (n : ℤ) (m : Manager Tox Events) (tox : Tox) (pending : Events)
    (v : IsValid m) (seen : view m n ≡ live tox pending) where
  read_Joins :
      {A : Type 0} (x : Outcome A) (event : A → Event)
      → x ≢ undefined
      → ((a : A) → HasKey (event a))
      → Reads x (invoke_from_java (x >>= λ a. returned (event a)) env n m) (λ a.
        Joins env n m tox pending
          (event a)
          (invoke_from_java (x >>= λ a. returned (event a)) env n m))
  unfolding invoke_from_java invoke_on
  read_Joins (returned a) event d key =
      inr (a, refl, invoke_joins (event a) env n m tox pending v seen (key a))
  read_Joins (fatal t) event d key =
      inl (t, refl, with_instance-fatal (invoke_on (fatal t)) tt env n m tox pending t v seen refl)
  read_Joins undefined event d key = absurd (d refl)

  request_cases :
      (key message : List ℕ)
      → ((public_key_size ≤ length key)
          × Joins env n m tox pending
              (Event.friend_request key message)
              (invoke_from_java (returned (Event.friend_request key message)) env n m))
        ⊎ ((length key < public_key_size)
            × (invoke_from_java (returned (Event.friend_request key message)) env n m ≡ undefined))
  unfolding invoke_from_java invoke_on invoke read
  request_cases key message = elim (Bool-cases (leb public_key_size (length key))) [
    | inl whole ↦ inl (
      ground (arith, whole),
      invoke_joins (Event.friend_request key message) env n m tox pending v seen
          (ground (arith, whole)),
    )
    | inr short ↦ inr (
      ground (arith, short),
      with_instance-undefined (invoke_on (returned (Event.friend_request key message))) tt env n m
          tox pending v seen (rw (read-short public_key_size key short, invoke) refl),
    )
  ]

  -- On a live instance of a valid table each of the fifteen `invoke...` methods puts a message with
  -- the contents of its arguments behind the pending ones, the numbers cast to unsigned words, and
  -- touches nothing else. It aborts the process exactly when an enumerator is wrong, and the
  -- behaviour is undefined exactly when a public key has fewer than 32 bytes.
  pub invoke_methods-Join : MethodsJoin env n m tox pending
  unfolding I.invoke_self_connection_status I.invoke_file_recv_control I.invoke_file_recv
      I.invoke_file_recv_chunk I.invoke_file_chunk_request I.invoke_friend_connection_status
      I.invoke_friend_lossless_packet I.invoke_friend_lossy_packet I.invoke_friend_message
      I.invoke_friend_name I.invoke_friend_request I.invoke_friend_status
      I.invoke_friend_status_message I.invoke_friend_typing I.invoke_friend_read_receipt
  invoke_methods-Join = (
    λ status.
        read_Joins (value_of_connection status) Event.self_connection_status
          (IsEncoding-defined connection-IsEncoding status) (λ _. tt),
    λ friend file control.
        read_Joins (value_of_file_control control) (Event.file_recv_control (u32 friend) (u32 file))
          (IsEncoding-defined file_control-IsEncoding control) (λ _. tt),
    λ friend file kind size name. joins (Event.file_recv _ _ _ _ _) tt,
    λ friend file position chunk. joins (Event.file_recv_chunk _ _ _ _) tt,
    λ friend file position size. joins (Event.file_chunk_request _ _ _ _) tt,
    λ friend status.
        read_Joins (value_of_connection status) (Event.friend_connection_status (u32 friend))
          (IsEncoding-defined connection-IsEncoding status) (λ _. tt),
    λ friend packet. joins (Event.friend_lossless_packet _ _) tt,
    λ friend packet. joins (Event.friend_lossy_packet _ _) tt,
    λ friend type time_delta message.
        read_Joins (value_of_message_type type)
          (λ t. Event.friend_message (u32 friend) t (elements message))
          (IsEncoding-defined message_type-IsEncoding type) (λ _. tt),
    λ friend name. joins (Event.friend_name _ _) tt,
    λ key time_delta message. request_cases (elements key) (elements message),
    λ friend status.
        read_Joins (value_of_user_status status) (Event.friend_status (u32 friend))
          (IsEncoding-defined user_status-IsEncoding status) (λ _. tt),
    λ friend message. joins (Event.friend_status_message _ _) tt,
    λ friend is_typing. joins (Event.friend_typing _ _) tt,
    λ friend message_id. joins (Event.friend_read_receipt _ _) tt,
  )
    where
      joins :
          (c : Event)
          → HasKey c
          → Joins env n m tox pending c (invoke_from_java (returned c) env n m)
      joins c key = invoke_joins c env n m tox pending v seen key
