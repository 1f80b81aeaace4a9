-- ===== src/Methods.antt =====
-- The methods of ToxCore that call one function of toxcore: friendlist.cpp, custom.cpp,
-- interaction.cpp, clientinfo.cpp, filetransfer.cpp, connection.cpp, generated/impls.h, in the
-- children; here the functions of toxcore, which are not part of this repository, and what the
-- methods share.
pub mod Friends
pub mod Files
pub mod Own
pub mod FriendAnswers
pub mod FileAnswers
pub mod SelfAnswers
pub mod Arguments
use jvm_toxcore_c.Base.{ℕ, ◌==◌, Bool, true, Option, none, some, List, map, ℤ, to_jint, length, ◌≡◌}
use jvm_toxcore_c.Jni.{JavaArray, Outcome, fatal, ◌>>=◌}
use jvm_toxcore_c.Drain.{zeros}
use jvm_toxcore_c.Wrappers.{Method, ErrCall, NoErrCall}
use jvm_toxcore_c.Enums.Status.{ToxUserStatus, ToxMessageType, ToxFileControl}
use jvm_toxcore_c.Errors.Core.Friend as Friend
use jvm_toxcore_c.Errors.Core.File as File
use jvm_toxcore_c.Errors.Core.Self as Self

-- generated/constants.h asserts these values of the constants of toxcore.
abbrev pub address_size : ℕ
address_size = 38

-- The functions of toxcore: a pointer that may be null, with its size where it has one, is an
-- optional list, and a buffer that a function fills is part of its value.
pub record FriendApi (Tox : Type 0) : Type 0 where
  pub friend_add : JavaArray ℕ → JavaArray ℕ → ErrCall Tox Friend.ErrFriendAdd ℕ
  pub friend_add_norequest : JavaArray ℕ → ErrCall Tox Friend.ErrFriendAdd ℕ
  pub friend_delete : ℕ → ErrCall Tox Friend.ErrFriendDelete Bool
  pub friend_by_public_key : JavaArray ℕ → ErrCall Tox Friend.ErrFriendByPublicKey ℕ
  pub friend_get_public_key : ℕ → ErrCall Tox Friend.ErrFriendGetPublicKey (Bool × List ℕ)
  pub friend_exists : ℕ → NoErrCall Tox Bool
  pub self_get_friend_list_size : Tox → ℕ
  pub self_get_friend_list : Tox → List ℕ → List ℕ
  pub friend_send_lossy_packet : ℕ → JavaArray ℕ → ErrCall Tox Friend.ErrFriendCustomPacket Bool
  pub friend_send_lossless_packet : ℕ → JavaArray ℕ → ErrCall Tox Friend.ErrFriendCustomPacket Bool
  pub friend_send_message :
      ℕ → ToxMessageType → JavaArray ℕ → ErrCall Tox Friend.ErrFriendSendMessage ℕ

pub record FileApi (Tox : Type 0) : Type 0 where
  pub file_control : ℕ → ℕ → ToxFileControl → ErrCall Tox File.ErrFileControl Bool
  pub file_seek : ℕ → ℕ → ℕ → ErrCall Tox File.ErrFileSeek Bool
  pub file_send : ℕ → ℕ → ℕ → JavaArray ℕ → JavaArray ℕ → ErrCall Tox File.ErrFileSend ℕ
  pub file_send_chunk : ℕ → ℕ → ℕ → JavaArray ℕ → ErrCall Tox File.ErrFileSendChunk Bool
  pub file_get_file_id : ℕ → ℕ → ErrCall Tox File.ErrFileGet (Bool × List ℕ)

pub record SelfApi (Tox : Type 0) : Type 0 where
  pub self_get_public_key : Tox → List ℕ → List ℕ
  pub self_get_secret_key : Tox → List ℕ → List ℕ
  pub self_get_address : Tox → List ℕ → List ℕ
  pub self_get_dht_id : Tox → List ℕ → List ℕ
  pub self_set_name : JavaArray ℕ → ErrCall Tox Self.ErrSetInfo Bool
  pub self_get_name_size : Tox → ℕ
  pub self_get_name : Tox → List ℕ → List ℕ
  pub self_set_status_message : JavaArray ℕ → ErrCall Tox Self.ErrSetInfo Bool
  pub self_get_status_message_size : Tox → ℕ
  pub self_get_status_message : Tox → List ℕ → List ℕ
  pub self_set_status : ToxUserStatus → NoErrCall Tox (Unit {0})
  -- the enumerator as a number
  pub self_get_status : NoErrCall Tox ℤ
  pub self_set_typing : ℕ → Bool → ErrCall Tox Self.ErrSetTyping Bool
  pub self_set_nospam : ℕ → NoErrCall Tox (Unit {0})
  pub self_get_nospam : NoErrCall Tox ℕ
  pub iteration_interval : NoErrCall Tox ℕ
  pub bootstrap : JavaArray ℕ → ℕ → JavaArray ℕ → ErrCall Tox Self.ErrBootstrap Bool
  pub add_tcp_relay : JavaArray ℕ → ℕ → JavaArray ℕ → ErrCall Tox Self.ErrBootstrap Bool
  pub self_get_udp_port : ErrCall Tox Self.ErrGetPort ℕ
  pub self_get_tcp_port : ErrCall Tox Self.ErrGetPort ℕ

-- `!array || array.size () == n`
unfoldable pub has_size : ℕ → JavaArray ℕ → Bool
has_size n none = true
has_size n (some xs) = length xs == n

-- `get_vector::make`: a vector of the size that toxcore gives, which toxcore then fills.
unfoldable pub get_vector :
    {Tox : Type 0} → (Tox → ℕ) → (Tox → List ℕ → List ℕ) → NoErrCall Tox (List ℕ)
get_vector get_size get_data tox = (get_data tox (zeros (get_size tox)), tox)

-- `constant_size::make`
unfoldable pub constant_size : {Tox : Type 0} → ℕ → Tox → ℕ
constant_size n _ = n

-- `convert_vector` from `uint32_t` to `jint`
unfoldable pub convert_vector : List ℕ → List ℤ
convert_vector = map to_jint

-- A method whose argument is read from Java first, which may abort the process.
abbrev pub reading : {Tox V A B : Type 0} → Outcome A → (A → Method Tox V B) → Method Tox V B
reading argument f env n m = argument >>= λ a. f a env n m
