-- ===== src/Examples/FriendCalls.antt =====
-- Examples on the friend methods, with a toxcore that counts the calls.
use jvm_toxcore_c.Base.{ℕ, true, false, none, [], ℤ, pos, u32, to_jint, some}
use jvm_toxcore_c.Jni.{JavaArray}
use jvm_toxcore_c.Errors.Core.Friend as Friend
use jvm_toxcore_c.Core.Callbacks.{public_key_size}
use jvm_toxcore_c.Wrappers.Answers.{filled, ErrAnswer, NoErrAnswer, Checked, Reads}
use jvm_toxcore_c.Enums.Status.{value_of_message_type}
use jvm_toxcore_c.Methods.{FriendApi, has_size, address_size, convert_vector}
use jvm_toxcore_c.Methods.Friends as Friends
use jvm_toxcore_c.Methods.FriendAnswers.{friend_methods-Answers}
use jvm_toxcore_c.Examples.Tools.{env, numbers, table-IsValid, counted, plain, as_given}

abbrev friend_api : FriendApi ℕ
friend_api = record {
  friend_add = λ a m. counted Friend.ErrFriendAdd.ok 7;
  friend_add_norequest = λ a. counted Friend.ErrFriendAdd.own_key 0;
  friend_delete = λ f. counted Friend.ErrFriendDelete.ok true;
  friend_by_public_key = λ k. counted Friend.ErrFriendByPublicKey.ok 3;
  friend_get_public_key = λ f. counted Friend.ErrFriendGetPublicKey.ok (true, []);
  friend_exists = λ f. plain true;
  self_get_friend_list_size = λ tox. 2;
  self_get_friend_list = as_given;
  friend_send_lossy_packet = λ f p. counted Friend.ErrFriendCustomPacket.ok true;
  friend_send_lossless_packet = λ f p. counted Friend.ErrFriendCustomPacket.ok true;
  friend_send_message = λ f t m. counted Friend.ErrFriendSendMessage.ok 9;
}

friend_methods-Answers_example :
    ((address message : JavaArray ℕ)
      → Checked
          (has_size address_size address)
          (Friends.friend_add friend_api address message env (pos 4) numbers)
          (ErrAnswer
            (pos 0)
            Friend.ErrFriendAdd.ok
            to_jint
            (friend_api.friend_add address message)
            env
            (pos 4)
            numbers
            (Friends.friend_add friend_api address message env (pos 4) numbers)))
    × ((key : JavaArray ℕ)
        → Checked
            (has_size public_key_size key)
            (Friends.friend_add_norequest friend_api key env (pos 4) numbers)
            (ErrAnswer
              (pos 0)
              Friend.ErrFriendAdd.ok
              to_jint
              (friend_api.friend_add_norequest key)
              env
              (pos 4)
              numbers
              (Friends.friend_add_norequest friend_api key env (pos 4) numbers)))
    × ((friend : ℤ)
        → ErrAnswer tt Friend.ErrFriendDelete.ok
            (λ _. tt)
            (friend_api.friend_delete (u32 friend))
            env
            (pos 4)
            numbers
            (Friends.friend_delete friend_api friend env (pos 4) numbers))
    × ((key : JavaArray ℕ)
        → Checked
            (has_size public_key_size key)
            (Friends.friend_by_public_key friend_api key env (pos 4) numbers)
            (ErrAnswer
              (pos 0)
              Friend.ErrFriendByPublicKey.ok
              to_jint
              (friend_api.friend_by_public_key key)
              env
              (pos 4)
              numbers
              (Friends.friend_by_public_key friend_api key env (pos 4) numbers)))
    × ((friend : ℤ)
        → ErrAnswer none Friend.ErrFriendGetPublicKey.ok
            (λ a. some a.1)
            (friend_api.friend_get_public_key (u32 friend))
            env
            (pos 4)
            numbers
            (Friends.friend_get_public_key friend_api friend env (pos 4) numbers))
    × NoErrAnswer none
        (λ a. some (convert_vector a))
        (filled friend_api.self_get_friend_list_size friend_api.self_get_friend_list)
        env
        (pos 4)
        numbers
        (Friends.self_get_friend_list friend_api env (pos 4) numbers)
    × ((friend : ℤ)
        → NoErrAnswer false
            (λ x. x)
            (friend_api.friend_exists (u32 friend))
            env
            (pos 4)
            numbers
            (Friends.friend_exists friend_api friend env (pos 4) numbers))
    × ((friend : ℤ) (packet : JavaArray ℕ)
        → ErrAnswer tt Friend.ErrFriendCustomPacket.ok
            (λ _. tt)
            (friend_api.friend_send_lossy_packet (u32 friend) packet)
            env
            (pos 4)
            numbers
            (Friends.friend_send_lossy_packet friend_api friend packet env (pos 4) numbers))
    × ((friend : ℤ) (packet : JavaArray ℕ)
        → ErrAnswer tt Friend.ErrFriendCustomPacket.ok
            (λ _. tt)
            (friend_api.friend_send_lossless_packet (u32 friend) packet)
            env
            (pos 4)
            numbers
            (Friends.friend_send_lossless_packet friend_api friend packet env (pos 4) numbers))
    × ((friend type delta : ℤ) (message : JavaArray ℕ)
        → Reads
            (value_of_message_type type)
            (Friends.friend_send_message friend_api friend type delta message env (pos 4) numbers)
            (λ a.
              ErrAnswer
                (pos 0)
                Friend.ErrFriendSendMessage.ok
                to_jint
                (friend_api.friend_send_message (u32 friend) a message)
                env
                (pos 4)
                numbers
                (Friends.friend_send_message friend_api friend type delta message env
                  (pos 4)
                  numbers)))
friend_methods-Answers_example =
    friend_methods-Answers friend_api env (pos 4) numbers (table-IsValid 5)
