-- ===== src/Methods/Friends.antt =====
-- ToxCore/friendlist.cpp, custom.cpp, `toxFriendSendMessage` of interaction.cpp, and
-- `toxFriendExists` of generated/impls.h.
use jvm_toxcore_c.Base.{ℕ, Bool, false, none, some, ℤ, pos, u32, to_jint, codes}
use jvm_toxcore_c.Jni.{JavaArray, tox4j_assert, ◌>>◌}
use jvm_toxcore_c.Core.Callbacks.{public_key_size}
use jvm_toxcore_c.Errors.{core_subsystem}
use jvm_toxcore_c.Errors.Core.Friend.{
  friend_add_error, friend_by_public_key_error, friend_custom_packet_error, friend_delete_error,
  friend_get_public_key_error, friend_send_message_error,
}
use jvm_toxcore_c.Enums.Status.{value_of_message_type}
use jvm_toxcore_c.Wrappers.{Method, with_instance_err, with_instance_ign, with_instance_noerr}
use jvm_toxcore_c.Methods.{FriendApi, address_size, has_size, get_vector, convert_vector, reading}

module _ {Tox V : Type 0} (t : FriendApi Tox) where
  unfoldable pub friend_add : JavaArray ℕ → JavaArray ℕ → Method Tox V ℤ
  friend_add address message env n m =
      tox4j_assert (has_size address_size address) (codes "address size")
      >> with_instance_err core_subsystem friend_add_error to_jint (pos 0)
          (t.friend_add address message) env n m

  unfoldable pub friend_add_norequest : JavaArray ℕ → Method Tox V ℤ
  friend_add_norequest public_key env n m =
      tox4j_assert (has_size public_key_size public_key) (codes "public key size")
      >> with_instance_err core_subsystem friend_add_error to_jint (pos 0)
          (t.friend_add_norequest public_key) env n m

  unfoldable pub friend_delete : ℤ → Method Tox V (Unit {0})
  friend_delete friend =
      with_instance_ign core_subsystem friend_delete_error (t.friend_delete (u32 friend))

  unfoldable pub friend_by_public_key : JavaArray ℕ → Method Tox V ℤ
  friend_by_public_key public_key env n m =
      tox4j_assert (has_size public_key_size public_key) (codes "public key size")
      >> with_instance_err core_subsystem friend_by_public_key_error to_jint (pos 0)
          (t.friend_by_public_key public_key) env n m

  unfoldable pub friend_get_public_key : ℤ → Method Tox V (JavaArray ℕ)
  friend_get_public_key friend =
      with_instance_err core_subsystem friend_get_public_key_error (λ a. some a.1) none
        (t.friend_get_public_key (u32 friend))

  unfoldable pub self_get_friend_list : Method Tox V (JavaArray ℤ)
  self_get_friend_list =
      with_instance_noerr (λ a. some (convert_vector a)) none
        (get_vector t.self_get_friend_list_size t.self_get_friend_list)

  unfoldable pub friend_exists : ℤ → Method Tox V Bool
  friend_exists friend = with_instance_noerr (λ b. b) false (t.friend_exists (u32 friend))

  unfoldable pub friend_send_lossy_packet : ℤ → JavaArray ℕ → Method Tox V (Unit {0})
  friend_send_lossy_packet friend packet =
      with_instance_ign core_subsystem friend_custom_packet_error
        (t.friend_send_lossy_packet (u32 friend) packet)

  unfoldable pub friend_send_lossless_packet : ℤ → JavaArray ℕ → Method Tox V (Unit {0})
  friend_send_lossless_packet friend packet =
      with_instance_ign core_subsystem friend_custom_packet_error
        (t.friend_send_lossless_packet (u32 friend) packet)

  -- The time delta is not used.
  unfoldable pub friend_send_message : ℤ → ℤ → ℤ → JavaArray ℕ → Method Tox V ℤ
  friend_send_message friend type time_delta message =
      reading (value_of_message_type type) λ message_type.
        with_instance_err core_subsystem friend_send_message_error to_jint (pos 0)
          (t.friend_send_message (u32 friend) message_type message)
