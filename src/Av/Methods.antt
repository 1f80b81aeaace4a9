-- ===== src/Av/Methods.antt =====
-- ToxAv/av.cpp: the methods that call one function of toxav. The functions of toxav are not part of
-- this repository.
pub mod Answers
pub mod Sending
use jvm_toxcore_c.Base.{
  ℕ, suc, ◌-◌, ◌*◌, ◌^◌, ◌==◌, ◌==ℤ◌, Bool, true, false, not, ◌&&◌, length, ltb, leb, leb_ℤ, abs, ℤ,
  pos, negsuc, is_negative, to_jint, u8, u16, u32, u64, codes, if◌then◌else◌,
}
use jvm_toxcore_c.Jni.{Env, JavaArray, Outcome, returned, undefined, ◌>>=◌, ◌>>◌, tox4j_assert}
use jvm_toxcore_c.Errors.{av_subsystem, throw_by_code}
use jvm_toxcore_c.Errors.Av.Call.{
  ErrAvAnswer, av_answer_error, ErrAvCall, av_call_error, ErrAvCallControl, av_call_control_error,
}
use jvm_toxcore_c.Errors.Av.Stream.{
  ErrAvBitRateSet, av_bit_rate_set_error, ErrAvSendFrame, av_send_frame_error,
}
use jvm_toxcore_c.Enums.Calls.{ToxavCallControl, value_of_call_control}
use jvm_toxcore_c.Wrappers.{Method, ErrCall, NoErrCall, with_instance_noerr, with_instance_ign}
use jvm_toxcore_c.Methods.{reading}
use jvm_toxcore_c.Av.Callbacks.{bool_eq}
use jvm_toxcore_c.Core.Iterate.{elements}
use jvm_toxcore_c.Av.Iterate.{half}

-- The functions of toxav: a pointer that may be null, with its elements, is an optional list.
pub record AvApi (Av : Type 0) : Type 0 where
  pub av_iteration_interval : NoErrCall Av ℕ
  pub call : ℕ → ℕ → ℕ → ErrCall Av ErrAvCall Bool
  pub answer : ℕ → ℕ → ℕ → ErrCall Av ErrAvAnswer Bool
  pub call_control : ℕ → ToxavCallControl → ErrCall Av ErrAvCallControl Bool
  pub audio_set_bit_rate : ℕ → ℕ → ErrCall Av ErrAvBitRateSet Bool
  pub video_set_bit_rate : ℕ → ℕ → ErrCall Av ErrAvBitRateSet Bool
  pub audio_send_frame : ℕ → JavaArray ℤ → ℕ → ℕ → ℕ → ErrCall Av ErrAvSendFrame Bool
  pub video_send_frame :
      ℕ → ℕ → ℕ → JavaArray ℕ → JavaArray ℕ → JavaArray ℕ → ErrCall Av ErrAvSendFrame Bool

-- `- n`
unfoldable pub negated : ℕ → ℤ
negated n = if n == 0 then pos 0 else negsuc (n - 1)

-- `a * b` on `int`: undefined when the product does not fit.
unfoldable pub times_int : ℤ → ℤ → Outcome ℤ
unfolding negated bool_eq
times_int a b =
    let n = abs a * abs b in
    if bool_eq (is_negative a) (is_negative b)
    then (if ltb n (2 ^ 31) then returned (pos n) else undefined)
    else if leb n (2 ^ 31)
    then returned (negated n)
    else undefined

-- The ranges that `toxavAudioSendFrame` asserts.
unfoldable pub assert_audio : ℤ → ℤ → ℤ → Outcome (Unit {0})
assert_audio sample_count channels sampling_rate =
    tox4j_assert (not (is_negative sample_count)) (codes "sampleCount >= 0")
    >> tox4j_assert (not (is_negative channels)) (codes "channels >= 0")
    >> tox4j_assert (leb_ℤ channels 255) (codes "channels <= 255")
    >> tox4j_assert (not (is_negative sampling_rate)) (codes "samplingRate >= 0")

module _ {Av V : Type 0} (t : AvApi Av) where
  unfoldable pub av_iteration_interval : Method Av V ℤ
  av_iteration_interval = with_instance_noerr to_jint (pos 0) t.av_iteration_interval

  unfoldable pub call : ℤ → ℤ → ℤ → Method Av V (Unit {0})
  call friend audio_bit_rate video_bit_rate =
      with_instance_ign av_subsystem av_call_error
        (t.call (u32 friend) (u32 audio_bit_rate) (u32 video_bit_rate))

  unfoldable pub answer : ℤ → ℤ → ℤ → Method Av V (Unit {0})
  answer friend audio_bit_rate video_bit_rate =
      with_instance_ign av_subsystem av_answer_error
        (t.answer (u32 friend) (u32 audio_bit_rate) (u32 video_bit_rate))

  unfoldable pub call_control : ℤ → ℤ → Method Av V (Unit {0})
  call_control friend control =
      reading (value_of_call_control control)
        λ c. with_instance_ign av_subsystem av_call_control_error (t.call_control (u32 friend) c)

  unfoldable pub audio_set_bit_rate : ℤ → ℤ → Method Av V (Unit {0})
  audio_set_bit_rate friend audio_bit_rate =
      with_instance_ign av_subsystem av_bit_rate_set_error
        (t.audio_set_bit_rate (u32 friend) (u32 audio_bit_rate))

  unfoldable pub video_set_bit_rate : ℤ → ℤ → Method Av V (Unit {0})
  video_set_bit_rate friend video_bit_rate =
      with_instance_ign av_subsystem av_bit_rate_set_error
        (t.video_set_bit_rate (u32 friend) (u32 video_bit_rate))

  -- A frame of the wrong size is refused before toxav is called.
  unfoldable pub audio_send_frame : ℤ → JavaArray ℤ → ℤ → ℤ → ℤ → Method Av V (Unit {0})
  unfolding assert_audio times_int
  audio_send_frame friend pcm sample_count channels sampling_rate env n m =
      assert_audio sample_count channels sampling_rate
      >> times_int sample_count channels
      >>= λ size.
          if length (elements pcm) == u64 size
          then with_instance_ign av_subsystem av_send_frame_error
              (t.audio_send_frame (u32 friend) pcm (u64 sample_count) (u8 channels)
                (u32 sampling_rate))
              env n m
          else returned
              (tt, throw_by_code av_subsystem av_send_frame_error env ErrAvSendFrame.invalid, m)

  unfoldable pub video_send_frame :
      ℤ → ℤ → ℤ → JavaArray ℕ → JavaArray ℕ → JavaArray ℕ → Method Av V (Unit {0})
  unfolding times_int half
  video_send_frame friend width height y u v env n m = times_int width height >>= λ y_size.
      times_int (half width) (half height) >>= λ uv_size.
      if length (elements y) == u64 y_size
        && length (elements u) == u64 uv_size
        && length (elements v) == u64 uv_size
      then with_instance_ign av_subsystem av_send_frame_error
          (t.video_send_frame (u32 friend) (u16 width) (u16 height) y u v) env n m
      else returned
          (tt, throw_by_code av_subsystem av_send_frame_error env ErrAvSendFrame.invalid, m)
