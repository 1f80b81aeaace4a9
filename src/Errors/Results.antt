-- ===== src/Errors/Results.antt =====
-- How a tox call ends in Java, over every error enum of the subsystems.
use jvm_toxcore_c.Base.{◌≡◌, refl, sym, ap, ◌∙◌, ℤ, Text, codes, true, ◌⊎◌, inl, inr, ◌≢◌}
use jvm_toxcore_c.Jni.{Env, exception_check, Outcome, returned}
use jvm_toxcore_c.Jni.Exceptions.{
  throw_tox_exception-pending, throw_illegal_state_exception, throw_illegal_state_exception-pending,
}
use jvm_toxcore_c.Errors.{
  success, ErrorType, Subsystem, throw_by_name, throw_by_code, with_error_handling,
}
use jvm_toxcore_c.Errors.Faithful.{IsFaithful}
use jvm_toxcore_c.Errors.Core.Friend
use jvm_toxcore_c.Errors.Core.File
use jvm_toxcore_c.Errors.Core.Self
use jvm_toxcore_c.Errors.Av.Call
use jvm_toxcore_c.Errors.Av.Stream
use jvm_toxcore_c.Errors.Crypto.Codes

-- Every translation of core error codes is faithful: success is reported for OK alone, only a code
-- that is not in the enum is unhandled, and no two codes of a method throw under one name.
pub core-IsFaithful :
    IsFaithful Friend.friend_add_error Friend.ErrFriendAdd.ok Friend.ErrFriendAdd.other
    × IsFaithful Friend.friend_by_public_key_error Friend.ErrFriendByPublicKey.ok
        Friend.ErrFriendByPublicKey.other
    × IsFaithful Friend.friend_custom_packet_error Friend.ErrFriendCustomPacket.ok
        Friend.ErrFriendCustomPacket.other
    × IsFaithful Friend.friend_delete_error Friend.ErrFriendDelete.ok Friend.ErrFriendDelete.other
    × IsFaithful Friend.friend_get_public_key_error Friend.ErrFriendGetPublicKey.ok
        Friend.ErrFriendGetPublicKey.other
    × IsFaithful Friend.friend_send_message_error Friend.ErrFriendSendMessage.ok
        Friend.ErrFriendSendMessage.other
    × IsFaithful File.file_control_error File.ErrFileControl.ok File.ErrFileControl.other
    × IsFaithful File.file_get_error File.ErrFileGet.ok File.ErrFileGet.other
    × IsFaithful File.file_seek_error File.ErrFileSeek.ok File.ErrFileSeek.other
    × IsFaithful File.file_send_chunk_error File.ErrFileSendChunk.ok File.ErrFileSendChunk.other
    × IsFaithful File.file_send_error File.ErrFileSend.ok File.ErrFileSend.other
    × IsFaithful Self.bootstrap_error Self.ErrBootstrap.ok Self.ErrBootstrap.other
    × IsFaithful Self.get_port_error Self.ErrGetPort.ok Self.ErrGetPort.other
    × IsFaithful Self.new_error Self.ErrNew.ok Self.ErrNew.other
    × IsFaithful Self.set_info_error Self.ErrSetInfo.ok Self.ErrSetInfo.other
    × IsFaithful Self.set_typing_error Self.ErrSetTyping.ok Self.ErrSetTyping.other
core-IsFaithful = (
  Friend.friend_add-IsFaithful, Friend.friend_by_public_key-IsFaithful,
  Friend.friend_custom_packet-IsFaithful, Friend.friend_delete-IsFaithful,
  Friend.friend_get_public_key-IsFaithful, Friend.friend_send_message-IsFaithful,
  File.file_control-IsFaithful, File.file_get-IsFaithful, File.file_seek-IsFaithful,
  File.file_send_chunk-IsFaithful, File.file_send-IsFaithful, Self.bootstrap-IsFaithful,
  Self.get_port-IsFaithful, Self.new-IsFaithful, Self.set_info-IsFaithful,
  Self.set_typing-IsFaithful,
)

-- So is every translation of audio, video and encryption error codes.
pub av_crypto-IsFaithful :
    IsFaithful Call.av_answer_error Call.ErrAvAnswer.ok Call.ErrAvAnswer.other
    × IsFaithful Call.av_call_control_error Call.ErrAvCallControl.ok Call.ErrAvCallControl.other
    × IsFaithful Call.av_call_error Call.ErrAvCall.ok Call.ErrAvCall.other
    × IsFaithful Call.av_new_error Call.ErrAvNew.ok Call.ErrAvNew.other
    × IsFaithful Stream.av_bit_rate_set_error Stream.ErrAvBitRateSet.ok Stream.ErrAvBitRateSet.other
    × IsFaithful Stream.av_send_frame_error Stream.ErrAvSendFrame.ok Stream.ErrAvSendFrame.other
    × IsFaithful Codes.decryption_error Codes.ErrDecryption.ok Codes.ErrDecryption.other
    × IsFaithful Codes.encryption_error Codes.ErrEncryption.ok Codes.ErrEncryption.other
    × IsFaithful Codes.get_salt_error Codes.ErrGetSalt.ok Codes.ErrGetSalt.other
    × IsFaithful Codes.key_derivation_error Codes.ErrKeyDerivation.ok Codes.ErrKeyDerivation.other
av_crypto-IsFaithful = (
  Call.av_answer-IsFaithful, Call.av_call_control-IsFaithful, Call.av_call-IsFaithful,
  Call.av_new-IsFaithful, Stream.av_bit_rate_set-IsFaithful, Stream.av_send_frame-IsFaithful,
  Codes.decryption-IsFaithful, Codes.encryption-IsFaithful, Codes.get_salt-IsFaithful,
  Codes.key_derivation-IsFaithful,
)

pub throw_by_name-pending :
    {E : Type 0} (s : Subsystem) (t : ErrorType E) (env : Env) (name : Text)
    → exception_check (throw_by_name s t env name) ≡ true
unfolding throw_by_name
throw_by_name-pending s t env name = throw_tox_exception-pending env _ _ _ name

module _ {E : Type 0} (s : Subsystem) (t : ErrorType E) (ok : E) (other : ℤ → E) where
  -- A code other than OK that is thrown directly leaves an exception pending.
  pub throw_by_code-pending :
      (env : Env) (error : E)
      → IsFaithful t ok other
      → error ≢ ok
      → exception_check (throw_by_code s t env error) ≡ true
  unfolding throw_by_code
  throw_by_code-pending env error f wrong = elim (f.shaped error) [
    | inl won ↦ absurd (wrong (f.only_ok error won))
    | inr (inl unknown) ↦ rw unknown (throw_illegal_state_exception-pending env _ _)
    | inr (inr (name, failed)) ↦ rw failed (throw_by_name-pending s t env name)
  ]

module _ {E A R : Type 0} (s : Subsystem) (t : ErrorType E) (ok : E) (other : ℤ → E) where
  pub with_error_handling-ok :
      (success_func : A → Env → Outcome R) (default : Env → R) (env : Env) (value : A)
      → IsFaithful t ok other
      → with_error_handling s t success_func default env value ok ≡ success_func value env
  unfolding with_error_handling
  with_error_handling-ok success_func default env value f = rw f.succeeds refl

  -- With a faithful translation, a call whose error code is OK runs the success function, and a call
  -- with any other code returns the default with an exception pending.
  pub with_error_handling_lem :
      (success_func : A → Env → Outcome R) (default : Env → R) (env : Env) (value : A) (error : E)
      → IsFaithful t ok other
      → ((error ≡ ok)
          × (with_error_handling s t success_func default env value error ≡ success_func value env))
        ⊎ ((error ≢ ok)
            × ((env' : Env) × (exception_check env' ≡ true)
                × (with_error_handling s t success_func default env value error
                    ≡ returned (default env'))))
  unfolding with_error_handling
  with_error_handling_lem success_func default env value error f = elim (f.shaped error) [
    | inl won ↦ inl (f.only_ok error won, rw won)
    | inr (inl unknown) ↦ inr (
      not_ok (λ h. cc (h ∙ unknown)),
      (
        throw_illegal_state_exception env (t.value error) (codes "Unknown error code"),
        throw_illegal_state_exception-pending env _ _,
        rw unknown,
      ),
    )
    | inr (inr (name, failed)) ↦ inr (
      not_ok (λ h. cc (h ∙ failed)),
      (throw_by_name s t env name, throw_by_name-pending s t env name, rw failed),
    )
  ]
    where
      not_ok : (success ≡ t.handle_error_enum error → ⊥) → error ≢ ok
      not_ok h e = h (sym f.succeeds ∙ ap t.handle_error_enum (sym e))
