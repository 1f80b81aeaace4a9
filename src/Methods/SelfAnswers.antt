-- ===== src/Methods/SelfAnswers.antt =====
-- The outcomes of the methods of ToxCore/clientinfo.cpp, connection.cpp, interaction.cpp and generated/impls.h in terms of
-- the functions of toxcore that they call.
use jvm_toxcore_c.Base.{ℕ, Bool, none, some, ℤ, pos, u32, to_jint}
use jvm_toxcore_c.Jni.{Env, JavaArray}
use jvm_toxcore_c.Instances.{Manager}
use jvm_toxcore_c.Instances.Valid.{IsValid}
use jvm_toxcore_c.Core.Callbacks.{public_key_size}
use jvm_toxcore_c.Errors.Core.Self as S
use jvm_toxcore_c.Enums.{IsEncoding-defined}
use jvm_toxcore_c.Enums.Status.{value_of_user_status, user_status-IsEncoding}
use jvm_toxcore_c.Wrappers.Answers.{
  filled, ErrAnswer, NoErrAnswer, Reads, err-Answers, noerr-Answers, ign-Answers, reads,
}
use jvm_toxcore_c.Methods.{SelfApi, address_size, get_vector, constant_size}
use jvm_toxcore_c.Methods.Own as Own

module _ {Tox V : Type 0} (t : SelfApi Tox) where
  -- Every method on the own state, for any arguments and any valid table, answers as the function of
  -- toxcore of its name does; those that fetch bytes give it a buffer of the size that toxcore names.
  -- It aborts the process exactly when the enumerator is wrong. Otherwise it returns and the table is
  -- valid: on a number that is not live it returns the default with an exception and changes
  -- nothing; on a live one it returns what toxcore gave, unless there is a code that is not OK, and
  -- then the default with an exception; the object is what toxcore left, the pending events and every
  -- other instance are as before.
  pub self_methods-Answers :
      (env : Env) (n : ℤ) (m : Manager Tox V)
      → IsValid m
      → ErrAnswer
          (pos 0)
          S.ErrGetPort.ok
          to_jint
          (t.self_get_udp_port)
          env
          n
          m
          (Own.self_get_udp_port t env n m)
        × ErrAnswer
            (pos 0)
            S.ErrGetPort.ok
            to_jint
            (t.self_get_tcp_port)
            env
            n
            m
            (Own.self_get_tcp_port t env n m)
        × NoErrAnswer none some
            (filled (λ _. public_key_size) t.self_get_dht_id)
            env
            n
            m
            (Own.self_get_dht_id t env n m)
        × NoErrAnswer none some
            (filled (λ _. public_key_size) t.self_get_public_key)
            env
            n
            m
            (Own.self_get_public_key t env n m)
        × NoErrAnswer none some
            (filled (λ _. public_key_size) t.self_get_secret_key)
            env
            n
            m
            (Own.self_get_secret_key t env n m)
        × NoErrAnswer none some
            (filled (λ _. address_size) t.self_get_address)
            env
            n
            m
            (Own.self_get_address t env n m)
        × NoErrAnswer none some
            (filled t.self_get_name_size t.self_get_name)
            env
            n
            m
            (Own.self_get_name t env n m)
        × NoErrAnswer none some
            (filled t.self_get_status_message_size t.self_get_status_message)
            env
            n
            m
            (Own.self_get_status_message t env n m)
        × ((name : JavaArray ℕ)
            → ErrAnswer tt S.ErrSetInfo.ok
                (λ _. tt)
                (t.self_set_name name)
                env
                n
                m
                (Own.self_set_name t name env n m))
        × ((message : JavaArray ℕ)
            → ErrAnswer tt S.ErrSetInfo.ok
                (λ _. tt)
                (t.self_set_status_message message)
                env
                n
                m
                (Own.self_set_status_message t message env n m))
        × ((status : ℤ)
            → Reads (value_of_user_status status) (Own.self_set_status t status env n m) (λ a.
              NoErrAnswer tt
                (λ x. x)
                (t.self_set_status a)
                env
                n
                m
                (Own.self_set_status t status env n m)))
        × NoErrAnswer (pos 0) (λ x. x) (t.self_get_status) env n m (Own.self_get_status t env n m)
        × ((friend : ℤ) (typing : Bool)
            → ErrAnswer tt S.ErrSetTyping.ok
                (λ _. tt)
                (t.self_set_typing (u32 friend) typing)
                env
                n
                m
                (Own.self_set_typing t friend typing env n m))
        × ((nospam : ℤ)
            → NoErrAnswer tt
                (λ x. x)
                (t.self_set_nospam (u32 nospam))
                env
                n
                m
                (Own.self_set_nospam t nospam env n m))
        × NoErrAnswer (pos 0) to_jint (t.self_get_nospam) env n m (Own.self_get_nospam t env n m)
        × NoErrAnswer
            (pos 0)
            to_jint
            (t.iteration_interval)
            env
            n
            m
            (Own.iteration_interval t env n m)
  unfolding get_vector constant_size Own.self_get_udp_port Own.self_get_tcp_port Own.self_get_dht_id
      Own.self_get_public_key Own.self_get_secret_key Own.self_get_address Own.self_get_name
      Own.self_get_status_message Own.self_set_name Own.self_set_status_message Own.self_set_status
      Own.self_get_status Own.self_set_typing Own.self_set_nospam Own.self_get_nospam
      Own.iteration_interval
  self_methods-Answers env n m v = (
    err-Answers _ to_jint (pos 0) (t.self_get_udp_port) env n m S.get_port-IsFaithful v,
    err-Answers _ to_jint (pos 0) (t.self_get_tcp_port) env n m S.get_port-IsFaithful v,
    noerr-Answers some none (filled (λ _. public_key_size) t.self_get_dht_id) env n m v,
    noerr-Answers some none (filled (λ _. public_key_size) t.self_get_public_key) env n m v,
    noerr-Answers some none (filled (λ _. public_key_size) t.self_get_secret_key) env n m v,
    noerr-Answers some none (filled (λ _. address_size) t.self_get_address) env n m v,
    noerr-Answers some none (filled t.self_get_name_size t.self_get_name) env n m v,
    noerr-Answers some none (filled t.self_get_status_message_size t.self_get_status_message) env n
        m v,
    λ name. ign-Answers _ (t.self_set_name name) env n m S.set_info-IsFaithful v,
    λ message. ign-Answers _ (t.self_set_status_message message) env n m S.set_info-IsFaithful v,
    λ status.
        reads (value_of_user_status status) _
          (λ a. NoErrAnswer tt (λ x. x) (t.self_set_status a) env n m)
          (IsEncoding-defined user_status-IsEncoding status)
          (λ a. noerr-Answers (λ x. x) tt (t.self_set_status a) env n m v),
    noerr-Answers (λ x. x) (pos 0) (t.self_get_status) env n m v,
    λ friend typing.
        ign-Answers _ (t.self_set_typing (u32 friend) typing) env n m S.set_typing-IsFaithful v,
    λ nospam. noerr-Answers (λ x. x) tt (t.self_set_nospam (u32 nospam)) env n m v,
    noerr-Answers to_jint (pos 0) (t.self_get_nospam) env n m v,
    noerr-Answers to_jint (pos 0) (t.iteration_interval) env n m v,
  )
