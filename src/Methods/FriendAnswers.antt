-- ===== src/Methods/FriendAnswers.antt =====
-- The outcomes of the methods of ToxCore/friendlist.cpp, custom.cpp, interaction.cpp and generated/impls.h in terms of
-- the functions of toxcore that they call.
use jvm_toxcore_c.Base.{ℕ, false, none, some, ℤ, pos, u32, to_jint}
use jvm_toxcore_c.Jni.{Env, JavaArray}
use jvm_toxcore_c.Instances.{Manager}
use jvm_toxcore_c.Instances.Valid.{IsValid}
use jvm_toxcore_c.Core.Callbacks.{public_key_size}
use jvm_toxcore_c.Errors.Core.Friend as F
use jvm_toxcore_c.Enums.{IsEncoding-defined}
use jvm_toxcore_c.Enums.Status.{value_of_message_type, message_type-IsEncoding}
use jvm_toxcore_c.Wrappers.Answers.{
  filled, ErrAnswer, NoErrAnswer, Checked, Reads, err-Answers, noerr-Answers, ign-Answers, asserted,
  reads,
}
use jvm_toxcore_c.Methods.{FriendApi, address_size, has_size, get_vector, convert_vector}
use jvm_toxcore_c.Methods.Friends as Friends

module _ {Tox V : Type 0} (t : FriendApi Tox) where
  -- Every method on friends, for any arguments and any valid table, answers as the function of toxcore of
  -- its name does, with its arguments cast to unsigned words and its enumerator read. It aborts the
  -- process exactly when the size of a key or address, or the enumerator, is wrong. Otherwise it
  -- returns and the table is valid: on a number that is not live it returns the default with an
  -- exception and changes nothing; on a live one it returns what toxcore gave when the code is OK,
  -- and the default with an exception on any other code; the object is what toxcore left, the pending
  -- events and every other instance are as before.
  pub friend_methods-Answers :
      (env : Env) (n : ℤ) (m : Manager Tox V)
      → IsValid m
      → ((address message : JavaArray ℕ)
          → Checked (has_size address_size address) (Friends.friend_add t address message env n m) (
              ErrAnswer
                (pos 0)
                F.ErrFriendAdd.ok
                to_jint
                (t.friend_add address message)
                env
                n
                m
                (Friends.friend_add t address message env n m)))
        × ((key : JavaArray ℕ)
            → Checked (has_size public_key_size key) (Friends.friend_add_norequest t key env n m) (
                ErrAnswer
                  (pos 0)
                  F.ErrFriendAdd.ok
                  to_jint
                  (t.friend_add_norequest key)
                  env
                  n
                  m
                  (Friends.friend_add_norequest t key env n m)))
        × ((friend : ℤ)
            → ErrAnswer tt F.ErrFriendDelete.ok
                (λ _. tt)
                (t.friend_delete (u32 friend))
                env
                n
                m
                (Friends.friend_delete t friend env n m))
        × ((key : JavaArray ℕ)
            → Checked (has_size public_key_size key) (Friends.friend_by_public_key t key env n m) (
                ErrAnswer
                  (pos 0)
                  F.ErrFriendByPublicKey.ok
                  to_jint
                  (t.friend_by_public_key key)
                  env
                  n
                  m
                  (Friends.friend_by_public_key t key env n m)))
        × ((friend : ℤ)
            → ErrAnswer none F.ErrFriendGetPublicKey.ok
                (λ a. some a.1)
                (t.friend_get_public_key (u32 friend))
                env
                n
                m
                (Friends.friend_get_public_key t friend env n m))
        × NoErrAnswer none
            (λ a. some (convert_vector a))
            (filled t.self_get_friend_list_size t.self_get_friend_list)
            env
            n
            m
            (Friends.self_get_friend_list t env n m)
        × ((friend : ℤ)
            → NoErrAnswer false
                (λ x. x)
                (t.friend_exists (u32 friend))
                env
                n
                m
                (Friends.friend_exists t friend env n m))
        × ((friend : ℤ) (packet : JavaArray ℕ)
            → ErrAnswer tt F.ErrFriendCustomPacket.ok
                (λ _. tt)
                (t.friend_send_lossy_packet (u32 friend) packet)
                env
                n
                m
                (Friends.friend_send_lossy_packet t friend packet env n m))
        × ((friend : ℤ) (packet : JavaArray ℕ)
            → ErrAnswer tt F.ErrFriendCustomPacket.ok
                (λ _. tt)
                (t.friend_send_lossless_packet (u32 friend) packet)
                env
                n
                m
                (Friends.friend_send_lossless_packet t friend packet env n m))
        × ((friend type delta : ℤ) (message : JavaArray ℕ)
            → Reads
                (value_of_message_type type)
                (Friends.friend_send_message t friend type delta message env n m)
                (λ a.
                  ErrAnswer
                    (pos 0)
                    F.ErrFriendSendMessage.ok
                    to_jint
                    (t.friend_send_message (u32 friend) a message)
                    env
                    n
                    m
                    (Friends.friend_send_message t friend type delta message env n m)))
  unfolding get_vector Friends.friend_add Friends.friend_add_norequest Friends.friend_delete
      Friends.friend_by_public_key Friends.friend_get_public_key Friends.self_get_friend_list
      Friends.friend_exists Friends.friend_send_lossy_packet Friends.friend_send_lossless_packet
      Friends.friend_send_message
  friend_methods-Answers env n m v = (
    λ address message.
        asserted (has_size address_size address) _ _
          (ErrAnswer (pos 0) F.ErrFriendAdd.ok to_jint (t.friend_add address message) env n m)
          (err-Answers _ to_jint (pos 0) (t.friend_add address message) env n m
            F.friend_add-IsFaithful v),
    λ key.
        asserted (has_size public_key_size key) _ _
          (ErrAnswer (pos 0) F.ErrFriendAdd.ok to_jint (t.friend_add_norequest key) env n m)
          (err-Answers _ to_jint (pos 0) (t.friend_add_norequest key) env n m
            F.friend_add-IsFaithful v),
    λ friend. ign-Answers _ (t.friend_delete (u32 friend)) env n m F.friend_delete-IsFaithful v,
    λ key.
        asserted (has_size public_key_size key) _ _
          (ErrAnswer (pos 0) F.ErrFriendByPublicKey.ok to_jint (t.friend_by_public_key key) env n m)
          (err-Answers _ to_jint (pos 0) (t.friend_by_public_key key) env n m
            F.friend_by_public_key-IsFaithful v),
    λ friend.
        err-Answers _ (λ a. some a.1) none (t.friend_get_public_key (u32 friend)) env n m
          F.friend_get_public_key-IsFaithful v,
    noerr-Answers (λ a. some (convert_vector a)) none
        (filled t.self_get_friend_list_size t.self_get_friend_list) env n m v,
    λ friend. noerr-Answers (λ x. x) false (t.friend_exists (u32 friend)) env n m v,
    λ friend packet.
        ign-Answers _ (t.friend_send_lossy_packet (u32 friend) packet) env n m
          F.friend_custom_packet-IsFaithful v,
    λ friend packet.
        ign-Answers _ (t.friend_send_lossless_packet (u32 friend) packet) env n m
          F.friend_custom_packet-IsFaithful v,
    λ friend type delta message.
        reads (value_of_message_type type) _
          (λ a.
            ErrAnswer (pos 0) F.ErrFriendSendMessage.ok to_jint
              (t.friend_send_message (u32 friend) a message) env n m)
          (IsEncoding-defined message_type-IsEncoding type)
          (λ a.
            err-Answers _ to_jint (pos 0) (t.friend_send_message (u32 friend) a message) env n m
              F.friend_send_message-IsFaithful v),
  )
