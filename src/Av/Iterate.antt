-- ===== src/Av/Iterate.antt =====
-- `toxavIterate` (ToxAv/av.cpp), and the `invoke...` methods, which call a callback from Java
-- (ToxAv/lifecycle.cpp).
pub mod Delivery
use jvm_toxcore_c.Base.{
  ℕ, suc, ◌+◌, ◌-◌, ◌*◌, ◌/◌, ◌%◌, ◌^◌, ◌==◌, Bool, Option, none, some, List, [], ◌∷◌, length, ℤ,
  pos, negsuc, u8, u16, u32, u64, codes, if◌then◌else◌,
}
use jvm_toxcore_c.Jni.{Env, JavaArray, Outcome, returned, undefined, ◌>>=◌, ◌>>◌, tox4j_assert}
use jvm_toxcore_c.Instances.{with_instance}
use jvm_toxcore_c.Drain.{Protobuf, drain}
use jvm_toxcore_c.Core.Iterate.{elements}
use jvm_toxcore_c.Wrappers.{Method}
use jvm_toxcore_c.Av.Messages.{CallStateKind, AvEvents, no_av_events}
use jvm_toxcore_c.Av.Callbacks.{stride_abs, max_size_t}
use jvm_toxcore_c.Av.Dispatch.{AvEvent, av_invoke, av_invoke_all}

-- The frame of `invokeAudioReceiveFrame`: a `jint` that takes part in arithmetic with a `size_t`
-- becomes one, and the number of channels is cut to 8 bits for the callback.
unfoldable pub audio_frame : ℤ → JavaArray ℤ → ℤ → ℤ → Outcome AvEvent
audio_frame friend pcm channels sampling_rate =
    let size = length (elements pcm) in
    if u64 channels == 0
    then undefined
    else tox4j_assert (size % u64 channels == 0) (codes "pcmData.size () % channels == 0")
      >> returned (
          AvEvent.audio_receive_frame (u32 friend) (elements pcm) (size / u64 channels)
            (u8 channels) (u32 sampling_rate))

-- `n / 2` on a `jint`, which rounds towards 0.
unfoldable pub half : ℤ → ℤ
half (pos n) = pos (n / 2)
half (negsuc n) = if suc n / 2 == 0 then pos 0 else negsuc (suc n / 2 - 1)

-- `std::max<std::size_t> (width, std::abs (stride)) * height`
unfoldable pub plane_size : ℤ → ℤ → ℤ → Outcome ℕ
unfolding stride_abs max_size_t
plane_size width stride height =
    stride_abs stride >>= λ columns. returned (max_size_t (u64 width) columns * u64 height % 2 ^ 64)

unfoldable pub assert_plane : JavaArray ℕ → ℤ → ℤ → ℤ → Outcome (Unit {0})
unfolding plane_size
assert_plane bytes width stride height = plane_size width stride height >>= λ size.
    tox4j_assert (length (elements bytes) == size) (codes "data.size () == size")

-- The frame of `invokeVideoReceiveFrame`: the callback takes 16 bits of width and height.
unfoldable pub video_frame :
    ℤ → ℤ → ℤ → JavaArray ℕ → JavaArray ℕ → JavaArray ℕ → ℤ → ℤ → ℤ → Outcome AvEvent
unfolding assert_plane half
video_frame friend width height y u v y_stride u_stride v_stride = do
  assert_plane y width y_stride height
  assert_plane u (half width) u_stride (half height)
  assert_plane v (half width) v_stride (half height)
  returned (
      AvEvent.video_receive_frame (u32 friend) (u16 width) (u16 height) (elements y) (elements u)
        (elements v) y_stride u_stride v_stride)

module _ {Av : Type 0} (bit : CallStateKind → ℕ) where
  -- `toxav_iterate` makes the callback calls of its list, in order.
  unfoldable pub av_iterate_on :
      (Av → List AvEvent × Av)
      → Protobuf AvEvents
      → Av
      → AvEvents
      → Env
      → Outcome (Option (List ℕ) × Av × AvEvents × Env)
  av_iterate_on toxav_iterate pb av events env =
      let (calls, av') = toxav_iterate av in
      av_invoke_all bit calls events >>= λ collected.
      let (bytes, rest) = drain pb no_av_events collected in returned (bytes, av', rest, env)

  unfoldable pub av_iterate :
      (Av → List AvEvent × Av) → Protobuf AvEvents → Method Av AvEvents (Option (List ℕ))
  unfolding av_iterate_on
  av_iterate toxav_iterate pb env n m = with_instance (av_iterate_on toxav_iterate pb) none env n m

  -- The body that the `invoke...` methods share.
  unfoldable pub av_invoke_on :
      Outcome AvEvent → Av → AvEvents → Env → Outcome (Unit {0} × Av × AvEvents × Env)
  av_invoke_on call av events env = do
    c ← call
    events' ← av_invoke bit c events
    returned (tt, av, events', env)

  unfoldable pub av_invoke_from_java : Outcome AvEvent → Method Av AvEvents (Unit {0})
  unfolding av_invoke_on
  av_invoke_from_java call env n m = with_instance (av_invoke_on call) tt env n m

  unfoldable pub invoke_audio_bit_rate : ℤ → ℤ → Method Av AvEvents (Unit {0})
  unfolding av_invoke_from_java
  invoke_audio_bit_rate friend audio_bit_rate =
      av_invoke_from_java (returned (AvEvent.audio_bit_rate (u32 friend) (u32 audio_bit_rate)))

  unfoldable pub invoke_video_bit_rate : ℤ → ℤ → Method Av AvEvents (Unit {0})
  unfolding av_invoke_from_java
  invoke_video_bit_rate friend video_bit_rate =
      av_invoke_from_java (returned (AvEvent.video_bit_rate (u32 friend) (u32 video_bit_rate)))

  unfoldable pub invoke_audio_receive_frame :
      ℤ → JavaArray ℤ → ℤ → ℤ → Method Av AvEvents (Unit {0})
  unfolding av_invoke_from_java audio_frame
  invoke_audio_receive_frame friend pcm channels sampling_rate =
      av_invoke_from_java (audio_frame friend pcm channels sampling_rate)

  unfoldable pub invoke_call : ℤ → Bool → Bool → Method Av AvEvents (Unit {0})
  unfolding av_invoke_from_java
  invoke_call friend audio_enabled video_enabled =
      av_invoke_from_java (returned (AvEvent.call (u32 friend) audio_enabled video_enabled))

  unfoldable pub invoke_call_state : ℤ → ℤ → Method Av AvEvents (Unit {0})
  unfolding av_invoke_from_java
  invoke_call_state friend call_state =
      av_invoke_from_java (returned (AvEvent.call_state (u32 friend) (u32 call_state)))

  unfoldable pub invoke_video_receive_frame :
      ℤ
      → ℤ
      → ℤ
      → JavaArray ℕ
      → JavaArray ℕ
      → JavaArray ℕ
      → ℤ
      → ℤ
      → ℤ
      → Method Av AvEvents (Unit {0})
  unfolding av_invoke_from_java video_frame
  invoke_video_receive_frame friend width height y u v y_stride u_stride v_stride =
      av_invoke_from_java (video_frame friend width height y u v y_stride u_stride v_stride)
