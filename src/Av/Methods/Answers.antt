-- ===== src/Av/Methods/Answers.antt =====
-- The outcomes of the methods of ToxAv/av.cpp in terms of the functions of toxav that they call.
use jvm_toxcore_c.Base.{ℤ, pos, u32, to_jint}
use jvm_toxcore_c.Jni.{Env}
use jvm_toxcore_c.Instances.{Manager}
use jvm_toxcore_c.Instances.Valid.{IsValid}
use jvm_toxcore_c.Errors.{av_subsystem}
use jvm_toxcore_c.Errors.Av.Call as C
use jvm_toxcore_c.Errors.Av.Stream as S
use jvm_toxcore_c.Enums.{IsEncoding-defined}
use jvm_toxcore_c.Enums.Calls.{value_of_call_control, call_control-IsEncoding}
use jvm_toxcore_c.Wrappers.Answers.{
  ErrAnswer, NoErrAnswer, Reads, noerr-Answers, ign-Answers, reads,
}
use jvm_toxcore_c.Av.Methods as M
use jvm_toxcore_c.Av.Methods.{AvApi, times_int, assert_audio}

module _ {Av V : Type 0} (t : AvApi Av) where
  -- Every method of a call, for any arguments and any valid table, answers as the function of toxav of
  -- its name does, with its arguments cast to unsigned words. It aborts the process exactly when the
  -- enumerator is wrong. Otherwise it returns and the table is valid: on a number that is not live
  -- it returns the default with an exception and changes nothing; on a live one it returns what
  -- toxav gave when the code is OK, and the default with an exception on any other code; the object
  -- is what toxav left, the pending events and every other instance are as before.
  pub av_methods-Answers :
      (env : Env) (n : ℤ) (m : Manager Av V)
      → IsValid m
      → NoErrAnswer
          (pos 0)
          to_jint
          t.av_iteration_interval
          env
          n
          m
          (M.av_iteration_interval t env n m)
        × ((friend audio video : ℤ)
            → ErrAnswer tt C.ErrAvCall.ok
                (λ _. tt)
                (t.call (u32 friend) (u32 audio) (u32 video))
                env
                n
                m
                (M.call t friend audio video env n m))
        × ((friend audio video : ℤ)
            → ErrAnswer tt C.ErrAvAnswer.ok
                (λ _. tt)
                (t.answer (u32 friend) (u32 audio) (u32 video))
                env
                n
                m
                (M.answer t friend audio video env n m))
        × ((friend control : ℤ)
            → Reads (value_of_call_control control) (M.call_control t friend control env n m) λ c.
              ErrAnswer tt C.ErrAvCallControl.ok
                (λ _. tt)
                (t.call_control (u32 friend) c)
                env
                n
                m
                (M.call_control t friend control env n m))
        × ((friend rate : ℤ)
            → ErrAnswer tt S.ErrAvBitRateSet.ok
                (λ _. tt)
                (t.audio_set_bit_rate (u32 friend) (u32 rate))
                env
                n
                m
                (M.audio_set_bit_rate t friend rate env n m))
        × ((friend rate : ℤ)
            → ErrAnswer tt S.ErrAvBitRateSet.ok
                (λ _. tt)
                (t.video_set_bit_rate (u32 friend) (u32 rate))
                env
                n
                m
                (M.video_set_bit_rate t friend rate env n m))
  unfolding M.av_iteration_interval M.call M.answer M.call_control M.audio_set_bit_rate
      M.video_set_bit_rate
  av_methods-Answers env n m v = (
    noerr-Answers to_jint (pos 0) t.av_iteration_interval env n m v,
    λ friend audio video.
        ign-Answers av_subsystem (t.call (u32 friend) (u32 audio) (u32 video)) env n m
          C.av_call-IsFaithful v,
    λ friend audio video.
        ign-Answers av_subsystem (t.answer (u32 friend) (u32 audio) (u32 video)) env n m
          C.av_answer-IsFaithful v,
    λ friend control.
        reads (value_of_call_control control) _
          (λ c.
            ErrAnswer tt C.ErrAvCallControl.ok (λ _. tt) (t.call_control (u32 friend) c) env n m)
          (IsEncoding-defined call_control-IsEncoding control)
          λ c.
            ign-Answers av_subsystem (t.call_control (u32 friend) c) env n m
              C.av_call_control-IsFaithful v,
    λ friend rate.
        ign-Answers av_subsystem (t.audio_set_bit_rate (u32 friend) (u32 rate)) env n m
          S.av_bit_rate_set-IsFaithful v,
    λ friend rate.
        ign-Answers av_subsystem (t.video_set_bit_rate (u32 friend) (u32 rate)) env n m
          S.av_bit_rate_set-IsFaithful v,
  )
