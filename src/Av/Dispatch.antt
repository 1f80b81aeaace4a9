-- ===== src/Av/Dispatch.antt =====
-- tox/common.h and tox/generated/av.h: which callbacks are registered, and what a run of toxav that
-- calls them makes of the events.
pub mod Append
pub mod Reported
use jvm_toxcore_c.Base.{ℕ, Bool, List, [], ◌∷◌, ℤ}
use jvm_toxcore_c.Jni.{Outcome, returned, ◌>>=◌}
use jvm_toxcore_c.Av.Messages.{CallStateKind, AvEvents}
use jvm_toxcore_c.Av.Callbacks.{
  call_cb, call_state_cb, audio_bit_rate_cb, video_bit_rate_cb, audio_receive_frame_cb,
  video_receive_frame_cb,
}

-- A call of a callback by toxav, with its arguments.
pub data AvEvent : Type 0 where
  call : ℕ → Bool → Bool → AvEvent
  call_state : ℕ → ℕ → AvEvent
  audio_bit_rate : ℕ → ℕ → AvEvent
  video_bit_rate : ℕ → ℕ → AvEvent
  audio_receive_frame : ℕ → List ℤ → ℕ → ℕ → ℕ → AvEvent
  video_receive_frame : ℕ → ℕ → ℕ → List ℕ → List ℕ → List ℕ → ℤ → ℤ → ℤ → AvEvent

-- `invoke`; `bit` gives the positions of the flags of a call state.
unfoldable pub av_invoke : (CallStateKind → ℕ) → AvEvent → AvEvents → Outcome AvEvents
unfolding call_cb call_state_cb audio_bit_rate_cb video_bit_rate_cb audio_receive_frame_cb
    video_receive_frame_cb
av_invoke bit (call a b c) events = returned (call_cb a b c events)
av_invoke bit (call_state a b) events = returned (call_state_cb bit a b events)
av_invoke bit (audio_bit_rate a b) events = returned (audio_bit_rate_cb a b events)
av_invoke bit (video_bit_rate a b) events = returned (video_bit_rate_cb a b events)
av_invoke bit (audio_receive_frame a b c d e) events = audio_receive_frame_cb a b c d e events
av_invoke bit (video_receive_frame a b c d e f g h i) events =
    video_receive_frame_cb a b c d e f g h i events

-- The calls of one `toxav_iterate`, in order.
unfoldable pub av_invoke_all : (CallStateKind → ℕ) → List AvEvent → AvEvents → Outcome AvEvents
av_invoke_all bit [] e = returned e
av_invoke_all bit (c ∷ cs) e = av_invoke bit c e >>= λ e'. av_invoke_all bit cs e'

-- The callbacks of generated/av.h, in its order.
pub data AvKind : Type 0 where
  audio_bit_rate : AvKind
  audio_receive_frame : AvKind
  call : AvKind
  call_state : AvKind
  video_bit_rate : AvKind
  video_receive_frame : AvKind

abbrev pub av_registered : List AvKind
av_registered =
    AvKind.audio_bit_rate ∷ AvKind.audio_receive_frame ∷ AvKind.call ∷ AvKind.call_state
    ∷ AvKind.video_bit_rate ∷ AvKind.video_receive_frame ∷ []

-- `set`, where `set k` is the `toxav_callback_...` of one kind: each is set once, in turn.
unfoldable pub set_av_callbacks : {Av : Type 0} → (AvKind → Av → Av) → List AvKind → Av → Av
set_av_callbacks set [] av = av
set_av_callbacks set (k ∷ ks) av = set_av_callbacks set ks (set k av)
