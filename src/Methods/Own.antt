-- ===== src/Methods/Own.antt =====
-- ToxCore/clientinfo.cpp, the bootstrap and port methods of connection.cpp, `toxSelfSetTyping` of
-- interaction.cpp, and the methods of generated/impls.h on the own state.
use jvm_toxcore_c.Base.{
  ℕ, Bool, not, none, some, ℤ, pos, is_negative, leb_ℤ, u16, u32, to_jint, codes,
}
use jvm_toxcore_c.Jni.{JavaArray, tox4j_assert, ◌>>◌}
use jvm_toxcore_c.Core.Callbacks.{public_key_size}
use jvm_toxcore_c.Errors.{core_subsystem}
use jvm_toxcore_c.Errors.Core.Self.{
  ErrBootstrap, bootstrap_error, get_port_error, set_info_error, set_typing_error,
}
use jvm_toxcore_c.Enums.Status.{value_of_user_status}
use jvm_toxcore_c.Wrappers.{
  Method, ErrCall, with_instance_err, with_instance_ign, with_instance_noerr,
}
use jvm_toxcore_c.Methods.{SelfApi, address_size, has_size, get_vector, constant_size, reading}

module _ {Tox V : Type 0} where
  -- `toxBootstrapLike`, on the function of toxcore that it is given.
  unfoldable pub bootstrap_like :
      (JavaArray ℕ → ℕ → JavaArray ℕ → ErrCall Tox ErrBootstrap Bool)
      → JavaArray ℕ
      → ℤ
      → JavaArray ℕ
      → Method Tox V (Unit {0})
  bootstrap_like function address port public_key env n m =
      tox4j_assert (not (is_negative port)) (codes "port >= 0")
      >> (tox4j_assert (leb_ℤ port 65535) (codes "port <= 65535")
          >> (tox4j_assert (has_size public_key_size public_key) (codes "public key size")
              >> with_instance_ign core_subsystem bootstrap_error
                  (function address (u16 port) public_key) env n m))

module _ {Tox V : Type 0} (t : SelfApi Tox) where
  unfoldable pub bootstrap : JavaArray ℕ → ℤ → JavaArray ℕ → Method Tox V (Unit {0})
  bootstrap = bootstrap_like t.bootstrap

  unfoldable pub add_tcp_relay : JavaArray ℕ → ℤ → JavaArray ℕ → Method Tox V (Unit {0})
  add_tcp_relay = bootstrap_like t.add_tcp_relay

  unfoldable pub self_get_udp_port : Method Tox V ℤ
  self_get_udp_port =
      with_instance_err core_subsystem get_port_error to_jint (pos 0) t.self_get_udp_port

  unfoldable pub self_get_tcp_port : Method Tox V ℤ
  self_get_tcp_port =
      with_instance_err core_subsystem get_port_error to_jint (pos 0) t.self_get_tcp_port

  unfoldable pub self_get_dht_id : Method Tox V (JavaArray ℕ)
  self_get_dht_id =
      with_instance_noerr some none (get_vector (constant_size public_key_size) t.self_get_dht_id)

  unfoldable pub self_get_public_key : Method Tox V (JavaArray ℕ)
  self_get_public_key =
      with_instance_noerr some none
        (get_vector (constant_size public_key_size) t.self_get_public_key)

  -- TOX_SECRET_KEY_SIZE is TOX_PUBLIC_KEY_SIZE in value.
  unfoldable pub self_get_secret_key : Method Tox V (JavaArray ℕ)
  self_get_secret_key =
      with_instance_noerr some none
        (get_vector (constant_size public_key_size) t.self_get_secret_key)

  unfoldable pub self_get_address : Method Tox V (JavaArray ℕ)
  self_get_address =
      with_instance_noerr some none (get_vector (constant_size address_size) t.self_get_address)

  unfoldable pub self_set_name : JavaArray ℕ → Method Tox V (Unit {0})
  self_set_name name = with_instance_ign core_subsystem set_info_error (t.self_set_name name)

  unfoldable pub self_get_name : Method Tox V (JavaArray ℕ)
  self_get_name = with_instance_noerr some none (get_vector t.self_get_name_size t.self_get_name)

  unfoldable pub self_set_status_message : JavaArray ℕ → Method Tox V (Unit {0})
  self_set_status_message message =
      with_instance_ign core_subsystem set_info_error (t.self_set_status_message message)

  unfoldable pub self_get_status_message : Method Tox V (JavaArray ℕ)
  self_get_status_message =
      with_instance_noerr some none
        (get_vector t.self_get_status_message_size t.self_get_status_message)

  unfoldable pub self_set_status : ℤ → Method Tox V (Unit {0})
  self_set_status status =
      reading (value_of_user_status status)
        λ s. with_instance_noerr (λ u. u) tt (t.self_set_status s)

  unfoldable pub self_get_status : Method Tox V ℤ
  self_get_status = with_instance_noerr (λ s. s) (pos 0) t.self_get_status

  unfoldable pub self_set_typing : ℤ → Bool → Method Tox V (Unit {0})
  self_set_typing friend is_typing =
      with_instance_ign core_subsystem set_typing_error (t.self_set_typing (u32 friend) is_typing)

  unfoldable pub self_set_nospam : ℤ → Method Tox V (Unit {0})
  self_set_nospam nospam = with_instance_noerr (λ u. u) tt (t.self_set_nospam (u32 nospam))

  unfoldable pub self_get_nospam : Method Tox V ℤ
  self_get_nospam = with_instance_noerr to_jint (pos 0) t.self_get_nospam

  unfoldable pub iteration_interval : Method Tox V ℤ
  iteration_interval = with_instance_noerr to_jint (pos 0) t.iteration_interval
