-- ===== src/Av/Dispatch/Reported.antt =====
-- The messages that stand for what toxav reports, by Av.proto, and that the callbacks of tox/common.h
-- collect just these.
use mathlib.Core.List.{append-nil, append_assoc}
use jvm_toxcore_c.Base.{
  ℕ, ◌-◌, ◌*◌, ◌/◌, ◌%◌, ◌^◌, ◌<◌, ◌≤◌, ◌==◌, ◌==ℤ◌, ==ℤ_iff, ◌≡◌, ◌≢◌, refl, ap, ◌∙◌, Bool, true,
  false, none, some, List, [], ◌∷◌, ◌++◌, length, All, arith, ℤ, negsuc, abs, u16, to_jint,
  is_negative, leb, Bool-cases, inl, inr, if◌then◌else◌,
}
use jvm_toxcore_c.Jni.{returned, undefined}
use jvm_toxcore_c.ToBytes.{to_bytes, to_bytes_i16, byte_at}
use jvm_toxcore_c.Core.Callbacks.{read}
use jvm_toxcore_c.Core.Dispatch.Reported.{take, read-take}
use jvm_toxcore_c.Av.Messages.{CallStateKind, AvEvents, no_av_events, ◌⊕◌}
use jvm_toxcore_c.Av.Callbacks.{
  has_bit, call_state_case, call_states, audio_receive_frame, stride_abs, max_size_t, plane,
  bool_eq, video_receive_frame,
}
use jvm_toxcore_c.Av.Dispatch.{AvEvent, av_invoke, av_invoke_all}
use jvm_toxcore_c.Av.Dispatch.Append.{av_invoke_all-append}

-- The kinds of a list whose flag is set in a state.
abbrev pub flagged : (CallStateKind → ℕ) → ℕ → List CallStateKind → List CallStateKind
flagged bit state [] = []
flagged bit state (k ∷ ks) =
    (if state / 2 ^ bit k % 2 == 1 then k ∷ [] else []) ++ flagged bit state ks

abbrev all_kinds : List CallStateKind
all_kinds =
    CallStateKind.error ∷ CallStateKind.finished ∷ CallStateKind.sending_a ∷ CallStateKind.sending_v
    ∷ CallStateKind.accepting_a ∷ CallStateKind.accepting_v ∷ []

-- Two bytes for each sample, the most significant first.
abbrev pub sample_bytes : List ℤ → List ℕ
sample_bytes [] = []
sample_bytes (x ∷ xs) = u16 x / 256 % 256 ∷ u16 x % 256 ∷ sample_bytes xs

-- The columns of a plane.
abbrev pub columns : ℕ → ℤ → ℕ
columns width stride = if leb (abs stride) width then width else abs stride

-- What toxav promises of the frames: the memory holds them, and the strides have one sign, and an
-- absolute value.
abbrev pub IsWhole : AvEvent → Type 0
IsWhole (AvEvent.audio_receive_frame f pcm samples channels rate) =
    (samples * channels ≤ length pcm) × (samples * channels < 2 ^ 64)
IsWhole (AvEvent.video_receive_frame f w h y u v ys us vs) =
    (is_negative ys ≡ is_negative us)
    × (is_negative ys ≡ is_negative vs)
    × (ys ≢ negsuc (2 ^ 31 - 1))
    × (us ≢ negsuc (2 ^ 31 - 1))
    × (vs ≢ negsuc (2 ^ 31 - 1))
    × (columns w ys * h ≤ length y)
    × (columns (w / 2) us * (h / 2) ≤ length u)
    × (columns (w / 2) vs * (h / 2) ≤ length v)
IsWhole _ = Unit

-- The one message of a report.
abbrev pub av_message_of : (CallStateKind → ℕ) → AvEvent → AvEvents
av_message_of bit (AvEvent.call f a v) = record no_av_events {
  call = record { friend_number = to_jint f; audio_enabled = a; video_enabled = v } ∷ [];
}
av_message_of bit (AvEvent.call_state f state) = record no_av_events {
  call_state = record { friend_number = f; call_state = flagged bit state all_kinds } ∷ [];
}
av_message_of bit (AvEvent.audio_bit_rate f r) = record no_av_events {
  audio_bit_rate = record { friend_number = f; audio_bit_rate = r } ∷ [];
}
av_message_of bit (AvEvent.video_bit_rate f r) = record no_av_events {
  video_bit_rate = record { friend_number = f; video_bit_rate = r } ∷ [];
}
av_message_of bit (AvEvent.audio_receive_frame f pcm samples channels rate) = record no_av_events {
  audio_receive_frame =
      record {
        friend_number = f;
        pcm = sample_bytes (take (samples * channels) pcm);
        channels = channels;
        sampling_rate = rate;
      }
      ∷ [];
}
av_message_of bit (AvEvent.video_receive_frame f w h y u v ys us vs) = record no_av_events {
  video_receive_frame =
      record {
        friend_number = f;
        width = w;
        height = h;
        y = take (columns w ys * h) y;
        u = take (columns (w / 2) us * (h / 2)) u;
        v = take (columns (w / 2) vs * (h / 2)) v;
        y_stride = ys;
        u_stride = us;
        v_stride = vs;
      }
      ∷ [];
}

-- The messages of several reports, the earliest first.
abbrev pub av_messages_of : (CallStateKind → ℕ) → List AvEvent → AvEvents
av_messages_of bit [] = no_av_events
av_messages_of bit (c ∷ cs) = av_message_of bit c ⊕ av_messages_of bit cs

call_state_case_lem :
    (bit : CallStateKind → ℕ) (state : ℕ) (k : CallStateKind) (xs : List CallStateKind)
    → call_state_case bit state k xs ≡ xs ++ (if state / 2 ^ bit k % 2 == 1 then k ∷ [] else [])
unfolding call_state_case has_bit
call_state_case_lem bit state k xs = elim (Bool-cases (state / 2 ^ bit k % 2 == 1)) [
  | inl set ↦ rw set refl
  | inr clear ↦ rw clear (simp append-nil)
]

call_states-flagged :
    (bit : CallStateKind → ℕ) (state : ℕ) → call_states bit state ≡ flagged bit state all_kinds
unfolding call_states
call_states-flagged bit state =
    rw
      (
        call_state_case_lem bit state CallStateKind.accepting_v _,
        call_state_case_lem bit state CallStateKind.accepting_a _,
        call_state_case_lem bit state CallStateKind.sending_v _,
        call_state_case_lem bit state CallStateKind.sending_a _,
        call_state_case_lem bit state CallStateKind.finished _,
        call_state_case_lem bit state CallStateKind.error _,
      )
      (simp (append_assoc, append-nil))

to_bytes-sample_bytes : (xs : List ℤ) → to_bytes to_bytes_i16 xs ≡ sample_bytes xs
unfolding to_bytes to_bytes_i16 byte_at
to_bytes-sample_bytes [] = refl
to_bytes-sample_bytes (x ∷ xs) =
    let low : u16 x / 2 ^ (8 * 0) % 2 ^ 8 ≡ u16 x % 256 = omega arith in
    rw (to_bytes-sample_bytes xs) (ap (λ b. u16 x / 256 % 256 ∷ b ∷ sample_bytes xs) low)

stride_abs_lem :
    (stride : ℤ) → stride ≢ negsuc (2 ^ 31 - 1) → stride_abs stride ≡ returned (abs stride)
unfolding stride_abs
stride_abs_lem stride least = elim (Bool-cases (stride ==ℤ negsuc (2 ^ 31 - 1))) [
  | inl same ↦ absurd (least ((==ℤ_iff stride (negsuc (2 ^ 31 - 1))).0 same))
  | inr other ↦ rw other refl
]

plane-take :
    (width : ℕ) (stride : ℤ) (height : ℕ) (bytes : List ℕ)
    → stride ≢ negsuc (2 ^ 31 - 1)
    → columns width stride * height ≤ length bytes
    → plane width stride height bytes ≡ returned (take (columns width stride * height) bytes)
unfolding plane max_size_t
plane-take width stride height bytes least whole =
    rw (stride_abs_lem stride least, plane)
      (held_lem (columns width stride * height) (read-take _ bytes whole))
  where
    held_lem :
        (n : ℕ)
        → read n bytes ≡ some (take n bytes)
        → elim (read n bytes) [ none ↦ undefined | some data_read ↦ returned data_read ]
          ≡ returned (take n bytes)
    held_lem n e = rw e refl

bool_eq-same : (a b : Bool) → a ≡ b → bool_eq a b ≡ true
unfolding bool_eq
bool_eq-same true b h = ground arith
bool_eq-same false b h = ground arith

audio_receive_frame-take :
    (f : ℕ) (pcm : List ℤ) (n c r : ℕ)
    → n * c ≤ length pcm
    → n * c < 2 ^ 64
    → audio_receive_frame f pcm n c r
      ≡ returned (record {
        friend_number = f;
        pcm = sample_bytes (take (n * c) pcm);
        channels = c;
        sampling_rate = r;
      })
unfolding audio_receive_frame
audio_receive_frame-take f pcm n c r whole small =
    let fits : n * c % 2 ^ 64 ≡ n * c = omega (arith, small) in
    rw (ap (λ k. read k pcm) fits ∙ read-take (n * c) pcm whole, audio_receive_frame)
      (rw (to_bytes-sample_bytes (take (n * c) pcm)) refl)

-- Each callback collects the message of its report, and nothing else.
pub av_invoke-message_of :
    (bit : CallStateKind → ℕ) (c : AvEvent)
    → IsWhole c
    → av_invoke bit c no_av_events ≡ returned (av_message_of bit c)
unfolding av_invoke video_receive_frame
av_invoke-message_of bit (AvEvent.call_state f state) h = rw (call_states-flagged bit state) refl
av_invoke-message_of bit (AvEvent.audio_receive_frame f pcm samples channels rate) h =
    rw (audio_receive_frame-take f pcm samples channels rate h.0 h.1, av_invoke) refl
av_invoke-message_of bit (AvEvent.video_receive_frame f w h y u v ys us vs) c =
    rw (bool_eq-same _ _ c.0) (
      rw (bool_eq-same _ _ c.1) (
        rw
          (
            plane-take w ys h y c.2 c.5,
            plane-take (w / 2) us (h / 2) u c.3 c.6,
            plane-take (w / 2) vs (h / 2) v c.4 c.7,
          )
          refl))
av_invoke-message_of bit _ h = refl

pub av_invoke_all-messages_of :
    (bit : CallStateKind → ℕ) (cs : List AvEvent)
    → All IsWhole cs
    → av_invoke_all bit cs no_av_events ≡ returned (av_messages_of bit cs)
unfolding av_invoke_all
av_invoke_all-messages_of bit [] h = refl
av_invoke_all-messages_of bit (c ∷ cs) h = rw (av_invoke-message_of bit c h.0) (
    rw (av_invoke_all-append bit cs (av_message_of bit c))
      (rw (av_invoke_all-messages_of bit cs h.1) refl))
