-- ===== src/Examples/OwnCalls.antt =====
-- Examples on the methods on the own state, with a toxcore that counts the calls.
use jvm_toxcore_c.Base.{ℕ, ◌≤◌, ◌≡◌, true, Bool, none, ◌⊎◌, ℤ, pos, Text, u32, to_jint, some}
use jvm_toxcore_c.Jni.{JavaArray, fatal}
use jvm_toxcore_c.Errors.{core_subsystem}
use jvm_toxcore_c.Errors.Core.Self as Self
use jvm_toxcore_c.Core.Callbacks.{public_key_size}
use jvm_toxcore_c.Wrappers.{with_instance_ign}
use jvm_toxcore_c.Wrappers.Answers.{filled, ErrAnswer, NoErrAnswer, Reads}
use jvm_toxcore_c.Enums.Status.{value_of_user_status}
use jvm_toxcore_c.Methods.{SelfApi, has_size, address_size}
use jvm_toxcore_c.Methods.Own as Own
use jvm_toxcore_c.Methods.SelfAnswers.{self_methods-Answers}
use jvm_toxcore_c.Methods.Arguments.{IsPort, bootstrap_like-IsPort}
use jvm_toxcore_c.Examples.Tools.{env, numbers, table-IsValid, counted, plain, as_given}

abbrev self_api : SelfApi ℕ
self_api = record {
  self_get_public_key = as_given;
  self_get_secret_key = as_given;
  self_get_address = as_given;
  self_get_dht_id = as_given;
  self_set_name = λ n. counted Self.ErrSetInfo.ok true;
  self_get_name_size = λ tox. 5;
  self_get_name = as_given;
  self_set_status_message = λ n. counted Self.ErrSetInfo.ok true;
  self_get_status_message_size = λ tox. 5;
  self_get_status_message = as_given;
  self_set_status = λ s. plain tt;
  self_get_status = plain (pos 1);
  self_set_typing = λ f t. counted Self.ErrSetTyping.ok true;
  self_set_nospam = λ n. plain tt;
  self_get_nospam = plain 12;
  iteration_interval = plain 50;
  bootstrap = λ a p k. counted Self.ErrBootstrap.ok true;
  add_tcp_relay = λ a p k. counted Self.ErrBootstrap.ok true;
  self_get_udp_port = counted Self.ErrGetPort.ok 33445;
  self_get_tcp_port = counted Self.ErrGetPort.ok 0;
}

self_methods-Answers_example :
    ErrAnswer
      (pos 0)
      Self.ErrGetPort.ok
      to_jint
      (self_api.self_get_udp_port)
      env
      (pos 4)
      numbers
      (Own.self_get_udp_port self_api env (pos 4) numbers)
    × ErrAnswer
        (pos 0)
        Self.ErrGetPort.ok
        to_jint
        (self_api.self_get_tcp_port)
        env
        (pos 4)
        numbers
        (Own.self_get_tcp_port self_api env (pos 4) numbers)
    × NoErrAnswer none some
        (filled (λ _. public_key_size) self_api.self_get_dht_id)
        env
        (pos 4)
        numbers
        (Own.self_get_dht_id self_api env (pos 4) numbers)
    × NoErrAnswer none some
        (filled (λ _. public_key_size) self_api.self_get_public_key)
        env
        (pos 4)
        numbers
        (Own.self_get_public_key self_api env (pos 4) numbers)
    × NoErrAnswer none some
        (filled (λ _. public_key_size) self_api.self_get_secret_key)
        env
        (pos 4)
        numbers
        (Own.self_get_secret_key self_api env (pos 4) numbers)
    × NoErrAnswer none some
        (filled (λ _. address_size) self_api.self_get_address)
        env
        (pos 4)
        numbers
        (Own.self_get_address self_api env (pos 4) numbers)
    × NoErrAnswer none some
        (filled self_api.self_get_name_size self_api.self_get_name)
        env
        (pos 4)
        numbers
        (Own.self_get_name self_api env (pos 4) numbers)
    × NoErrAnswer none some
        (filled self_api.self_get_status_message_size self_api.self_get_status_message)
        env
        (pos 4)
        numbers
        (Own.self_get_status_message self_api env (pos 4) numbers)
    × ((name : JavaArray ℕ)
        → ErrAnswer tt Self.ErrSetInfo.ok
            (λ _. tt)
            (self_api.self_set_name name)
            env
            (pos 4)
            numbers
            (Own.self_set_name self_api name env (pos 4) numbers))
    × ((message : JavaArray ℕ)
        → ErrAnswer tt Self.ErrSetInfo.ok
            (λ _. tt)
            (self_api.self_set_status_message message)
            env
            (pos 4)
            numbers
            (Own.self_set_status_message self_api message env (pos 4) numbers))
    × ((status : ℤ)
        → Reads
            (value_of_user_status status)
            (Own.self_set_status self_api status env (pos 4) numbers)
            (λ a.
              NoErrAnswer tt
                (λ x. x)
                (self_api.self_set_status a)
                env
                (pos 4)
                numbers
                (Own.self_set_status self_api status env (pos 4) numbers)))
    × NoErrAnswer
        (pos 0)
        (λ x. x)
        (self_api.self_get_status)
        env
        (pos 4)
        numbers
        (Own.self_get_status self_api env (pos 4) numbers)
    × ((friend : ℤ) (typing : Bool)
        → ErrAnswer tt Self.ErrSetTyping.ok
            (λ _. tt)
            (self_api.self_set_typing (u32 friend) typing)
            env
            (pos 4)
            numbers
            (Own.self_set_typing self_api friend typing env (pos 4) numbers))
    × ((nospam : ℤ)
        → NoErrAnswer tt
            (λ x. x)
            (self_api.self_set_nospam (u32 nospam))
            env
            (pos 4)
            numbers
            (Own.self_set_nospam self_api nospam env (pos 4) numbers))
    × NoErrAnswer
        (pos 0)
        to_jint
        (self_api.self_get_nospam)
        env
        (pos 4)
        numbers
        (Own.self_get_nospam self_api env (pos 4) numbers)
    × NoErrAnswer
        (pos 0)
        to_jint
        (self_api.iteration_interval)
        env
        (pos 4)
        numbers
        (Own.iteration_interval self_api env (pos 4) numbers)
self_methods-Answers_example = self_methods-Answers self_api env (pos 4) numbers (table-IsValid 5)

-- The port is too large for 16 bits.
bootstrap_like-IsPort_example :
    ((t : Text) × (Own.bootstrap_like self_api.bootstrap none (pos 65536) none env (pos 4) numbers
        ≡ fatal t)
      × (IsPort (pos 65536) × (has_size public_key_size none ≡ true) → ⊥))
    ⊎ ((k : ℕ) × (k ≤ 65535)
        × (pos 65536 ≡ pos k)
        × (has_size public_key_size none ≡ true)
        × (Own.bootstrap_like self_api.bootstrap none (pos 65536) none env (pos 4) numbers
            ≡ with_instance_ign core_subsystem Self.bootstrap_error
                (self_api.bootstrap none k none)
                env
                (pos 4)
                numbers))
bootstrap_like-IsPort_example =
    bootstrap_like-IsPort self_api.bootstrap none (pos 65536) none env (pos 4) numbers
