-- ===== src/Av/Messages.antt =====
-- ToxAv/Av.proto: the messages that collect what toxav reported, and `av::Events`.
use jvm_toxcore_c.Base.{ℕ, Bool, List, [], ◌++◌, ℤ, Text}

-- A `friend_number` of type `int32`.
pub record Call : Type 0 where
  pub friend_number : ℤ
  pub audio_enabled : Bool
  pub video_enabled : Bool

-- `CallState::Kind`
pub data CallStateKind : Type 0 where
  error finished sending_a sending_v accepting_a accepting_v : CallStateKind

pub record CallState : Type 0 where
  pub friend_number : ℕ
  pub call_state : List CallStateKind

pub record AudioBitRate : Type 0 where
  pub friend_number : ℕ
  pub audio_bit_rate : ℕ

pub record VideoBitRate : Type 0 where
  pub friend_number : ℕ
  pub video_bit_rate : ℕ

pub record AudioReceiveFrame : Type 0 where
  pub friend_number : ℕ
  pub pcm : Text
  pub channels : ℕ
  pub sampling_rate : ℕ

pub record VideoReceiveFrame : Type 0 where
  pub friend_number : ℕ
  pub width : ℕ
  pub height : ℕ
  pub y : Text
  pub u : Text
  pub v : Text
  pub y_stride : ℤ
  pub u_stride : ℤ
  pub v_stride : ℤ

-- `AvEvents`
pub record AvEvents : Type 0 where
  pub call : List Call
  pub call_state : List CallState
  pub audio_bit_rate : List AudioBitRate
  pub video_bit_rate : List VideoBitRate
  pub audio_receive_frame : List AudioReceiveFrame
  pub video_receive_frame : List VideoReceiveFrame

-- A new or cleared `AvEvents`.
abbrev pub no_av_events : AvEvents
no_av_events = record {
  call = [];
  call_state = [];
  audio_bit_rate = [];
  video_bit_rate = [];
  audio_receive_frame = [];
  video_receive_frame = [];
}

-- The messages of `a` before those of `b`, kind by kind.
infixl 65 ◌⊕◌
abbrev pub ◌⊕◌ : AvEvents → AvEvents → AvEvents
a ⊕ b = record {
  call = a.call ++ b.call;
  call_state = a.call_state ++ b.call_state;
  audio_bit_rate = a.audio_bit_rate ++ b.audio_bit_rate;
  video_bit_rate = a.video_bit_rate ++ b.video_bit_rate;
  audio_receive_frame = a.audio_receive_frame ++ b.audio_receive_frame;
  video_receive_frame = a.video_receive_frame ++ b.video_receive_frame;
}
