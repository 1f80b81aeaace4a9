-- ===== src/Examples/Tools.antt =====
-- What the examples share: a virtual machine in which every lookup succeeds, a table, and an
-- encoding of the events.
use jvm_toxcore_c.Wrappers.{ErrCall}
use jvm_toxcore_c.Base.{
  ℕ, zero, suc, ◌+◌, ◌≡◌, refl, ap, none, some, List, [], ◌∷◌, pos, length, arith,
}
use jvm_toxcore_c.Jni.{Jvm, Env}
use jvm_toxcore_c.Instances.{InstancePointers, Manager, empty, contains}
use jvm_toxcore_c.Instances.Valid.{IsValid}
use jvm_toxcore_c.Drain.{Protobuf, IsProtobuf, zeros}
use jvm_toxcore_c.Core.Messages.{Events, no_events}

abbrev pub jvm : Jvm
jvm = record {
  find_class = λ c. none;
  static_method = λ c m s. none;
  method = λ c m s. none;
  value_of = λ c n. none;
  new_object = λ c n. none;
  killed_found = refl;
  illegal_state_found = refl;
}

abbrev pub env : Env
env = record { jvm = jvm; pending = none }

abbrev pub slot : {E : Type 0} → ℕ → E → InstancePointers ℕ E
slot o e = record { object_p = some o; events_p = some e }

-- Number 1 is live, 2 is dead, 3 is free and 4 is live.
abbrev pub table : {E : Type 0} → E → Manager ℕ E
table e = record {
  instances = slot 10 e ∷ empty ∷ empty ∷ slot 40 e ∷ [];
  locks = 4;
  freelist = pos 3 ∷ [];
}

-- The same with events that are a number.
abbrev pub numbers : Manager ℕ ℕ
numbers = table 5

pub table-IsValid : {E : Type 0} (e : E) → IsValid (table e)
unfolding contains
table-IsValid e = record {
  counted = refl;
  paired = (refl, (refl, (refl, (refl, tt))));
  freed = ((2, refl, refl), tt);
  distinct = (refl, tt);
}

-- The number of messages.
abbrev pub count : Events → ℕ
count e =
    length e.self_connection_status
    + length e.friend_name
    + length e.friend_status_message
    + length e.friend_status
    + length e.friend_connection_status
    + length e.friend_typing
    + length e.friend_read_receipt
    + length e.friend_request
    + length e.friend_message
    + length e.file_recv_control
    + length e.file_chunk_request
    + length e.file_recv
    + length e.file_recv_chunk
    + length e.friend_lossy_packet
    + length e.friend_lossless_packet

pub length-zero : {A : Type 0} (xs : List A) → length xs ≡ 0 → xs ≡ []
length-zero [] h = refl
length-zero (x ∷ xs) h = absurd (omega arith)

pub length-zeros : (n : ℕ) → n ≡ length (zeros n)
unfolding zeros
length-zeros zero = refl
length-zeros (suc n) = ap suc (length-zeros n)

-- An encoding with one byte for each message.
abbrev pub counting : Protobuf Events
counting = record { byte_size = count; serialize = λ e. zeros (count e) }

count-zero : (e : Events) → count e ≡ 0 → e ≡ no_events
count-zero e h =
    let a1 = length-zero e.self_connection_status (omega (arith, h)) in
    let a2 = length-zero e.friend_name (omega (arith, h)) in
    let a3 = length-zero e.friend_status_message (omega (arith, h)) in
    let a4 = length-zero e.friend_status (omega (arith, h)) in
    let a5 = length-zero e.friend_connection_status (omega (arith, h)) in
    let a6 = length-zero e.friend_typing (omega (arith, h)) in
    let a7 = length-zero e.friend_read_receipt (omega (arith, h)) in
    let a8 = length-zero e.friend_request (omega (arith, h)) in
    let a9 = length-zero e.friend_message (omega (arith, h)) in
    let b1 = length-zero e.file_recv_control (omega (arith, h)) in
    let b2 = length-zero e.file_chunk_request (omega (arith, h)) in
    let b3 = length-zero e.file_recv (omega (arith, h)) in
    let b4 = length-zero e.file_recv_chunk (omega (arith, h)) in
    let b5 = length-zero e.friend_lossy_packet (omega (arith, h)) in
    let b6 = length-zero e.friend_lossless_packet (omega (arith, h)) in
    rw (a1, a2, a3, a4, a5, a6, a7, a8, a9, b1, b2, b3, b4, b5, b6)

pub counting-IsProtobuf : IsProtobuf counting no_events
counting-IsProtobuf = record {
  sized = λ e. length-zeros (count e);
  cleared_size = refl;
  size_zero = count-zero;
}

-- A value with an error code, or without one, and one more call.
abbrev pub counted : {E A : Type 0} → E → A → ErrCall ℕ E A
counted e a tox = (a, e, tox + 1)

abbrev pub plain : {A : Type 0} → A → ℕ → A × ℕ
plain a tox = (a, tox + 1)

abbrev pub as_given : ℕ → List ℕ → List ℕ
as_given tox buffer = buffer
