-- ===== src/Av/Callbacks.antt =====
-- ToxAv/lifecycle.cpp: the callbacks that toxav calls while it iterates. Each adds one message to the
-- events.
pub mod Frames
use jvm_toxcore_c.Base.{
  ℕ, ◌+◌, ◌-◌, ◌*◌, ◌/◌, ◌%◌, ◌^◌, ◌==◌, Bool, true, false, Option, none, some, List, [], ◌∷◌, ◌++◌,
  ℤ, pos, negsuc, ◌==ℤ◌, abs, is_negative, to_jint, leb, codes, if◌then◌else◌, not,
}
use jvm_toxcore_c.Jni.{Outcome, returned, undefined, ◌>>=◌, ◌>>◌, tox4j_assert}
use jvm_toxcore_c.ToBytes.{to_bytes, to_bytes_i16}
use jvm_toxcore_c.Core.Callbacks.{read}
use jvm_toxcore_c.Av.Messages.{CallStateKind, AudioReceiveFrame, VideoReceiveFrame, AvEvents}

unfoldable pub call_cb : ℕ → Bool → Bool → AvEvents → AvEvents
call_cb friend_number audio_enabled video_enabled e = record e {
  call =
      e.call
      ++ record {
        friend_number = to_jint friend_number;
        audio_enabled = audio_enabled;
        video_enabled = video_enabled;
      }
        ∷ [];
}

-- `state & flag` for the flag of one bit at position `k`.
unfoldable pub has_bit : ℕ → ℕ → Bool
has_bit k state = state / 2 ^ k % 2 == 1

-- `call_state_case`
unfoldable pub call_state_case :
    (CallStateKind → ℕ) → ℕ → CallStateKind → List CallStateKind → List CallStateKind
unfolding has_bit
call_state_case bit state kind states =
    if has_bit (bit kind) state then states ++ kind ∷ [] else states

-- The cases, in their order.
unfoldable pub call_states : (CallStateKind → ℕ) → ℕ → List CallStateKind
unfolding call_state_case
call_states bit state =
    let s1 = call_state_case bit state CallStateKind.error [] in
    let s2 = call_state_case bit state CallStateKind.finished s1 in
    let s3 = call_state_case bit state CallStateKind.sending_a s2 in
    let s4 = call_state_case bit state CallStateKind.sending_v s3 in
    let s5 = call_state_case bit state CallStateKind.accepting_a s4 in
    call_state_case bit state CallStateKind.accepting_v s5

-- The positions of the flags `TOXAV_FRIEND_CALL_STATE_...`, which toxcore defines, are `bit`.
unfoldable pub call_state_cb : (CallStateKind → ℕ) → ℕ → ℕ → AvEvents → AvEvents
unfolding call_states
call_state_cb bit friend_number state e = record e {
  call_state =
      e.call_state
      ++ record { friend_number = friend_number; call_state = call_states bit state } ∷ [];
}

unfoldable pub audio_bit_rate_cb : ℕ → ℕ → AvEvents → AvEvents
audio_bit_rate_cb friend_number audio_bit_rate e = record e {
  audio_bit_rate =
      e.audio_bit_rate
      ++ record { friend_number = friend_number; audio_bit_rate = audio_bit_rate } ∷ [];
}

unfoldable pub video_bit_rate_cb : ℕ → ℕ → AvEvents → AvEvents
video_bit_rate_cb friend_number video_bit_rate e = record e {
  video_bit_rate =
      e.video_bit_rate
      ++ record { friend_number = friend_number; video_bit_rate = video_bit_rate } ∷ [];
}

-- The frame that the callback adds: the memory at `pcm` is a list of samples, of which
-- `sample_count * channels` are read.
unfoldable pub audio_receive_frame : ℕ → List ℤ → ℕ → ℕ → ℕ → Outcome AudioReceiveFrame
unfolding to_bytes to_bytes_i16
audio_receive_frame friend_number pcm sample_count channels sampling_rate =
    elim (read (sample_count * channels % 2 ^ 64) pcm) [
      | none ↦ undefined
      | some frame ↦ returned (record {
        friend_number = friend_number;
        pcm = to_bytes to_bytes_i16 frame;
        channels = channels;
        sampling_rate = sampling_rate;
      })
    ]

unfoldable pub audio_receive_frame_cb : ℕ → List ℤ → ℕ → ℕ → ℕ → AvEvents → Outcome AvEvents
unfolding audio_receive_frame
audio_receive_frame_cb friend_number pcm sample_count channels sampling_rate e =
    audio_receive_frame friend_number pcm sample_count channels sampling_rate >>= λ frame.
    returned (record e { audio_receive_frame = e.audio_receive_frame ++ frame ∷ [] })

-- `std::abs` on an `int32_t`: there is no absolute value of the least one.
unfoldable pub stride_abs : ℤ → Outcome ℕ
stride_abs stride = if stride ==ℤ negsuc (2 ^ 31 - 1) then undefined else returned (abs stride)

-- `std::max<std::size_t>`
unfoldable pub max_size_t : ℕ → ℕ → ℕ
max_size_t a b = if leb b a then a else b

-- The bytes of one plane: of `width` or `|stride|` columns and `height` rows.
unfoldable pub plane : ℕ → ℤ → ℕ → List ℕ → Outcome (List ℕ)
unfolding stride_abs max_size_t
plane width stride height bytes = stride_abs stride >>= λ columns.
    elim (read (max_size_t width columns * height) bytes) [
      | none ↦ undefined
      | some data_read ↦ returned data_read
    ]

-- `a == b` on `bool`
unfoldable pub bool_eq : Bool → Bool → Bool
bool_eq true b = b
bool_eq false b = not b

-- The frame that the callback adds.
unfoldable pub video_receive_frame :
    ℕ → ℕ → ℕ → List ℕ → List ℕ → List ℕ → ℤ → ℤ → ℤ → Outcome VideoReceiveFrame
unfolding plane bool_eq
video_receive_frame friend_number width height y u v ystride ustride vstride = do
  tox4j_assert (bool_eq (is_negative ystride) (is_negative ustride))
      (codes "ystride < 0 == ustride < 0")
  tox4j_assert (bool_eq (is_negative ystride) (is_negative vstride))
      (codes "ystride < 0 == vstride < 0")
  y_data ← plane width ystride height y
  u_data ← plane (width / 2) ustride (height / 2) u
  v_data ← plane (width / 2) vstride (height / 2) v
  returned (record {
    friend_number = friend_number;
    width = width;
    height = height;
    y = y_data;
    u = u_data;
    v = v_data;
    y_stride = ystride;
    u_stride = ustride;
    v_stride = vstride;
  })

unfoldable pub video_receive_frame_cb :
    ℕ → ℕ → ℕ → List ℕ → List ℕ → List ℕ → ℤ → ℤ → ℤ → AvEvents → Outcome AvEvents
unfolding video_receive_frame
video_receive_frame_cb friend_number width height y u v ystride ustride vstride e =
    video_receive_frame friend_number width height y u v ystride ustride vstride >>= λ frame.
    returned (record e { video_receive_frame = e.video_receive_frame ++ frame ∷ [] })
