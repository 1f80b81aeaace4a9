-- ===== src/Examples/Video.antt =====
-- Examples on audio and video calls.
use jvm_toxcore_c.Base.{
  ℕ, ◌+◌, ◌*◌, ◌≡◌, refl, true, false, Option, some, List, [], ◌∷◌, ◌⊎◌, ℤ, pos, negsuc, length,
  arith,
}
use jvm_toxcore_c.Jni.{exception_check, Ensures}
use jvm_toxcore_c.Instances.{Manager, contains}
use jvm_toxcore_c.Instances.View.{live, view, update}
use jvm_toxcore_c.Instances.Access.{IsGone}
use jvm_toxcore_c.Drain.{Protobuf, IsProtobuf, zeros}
use jvm_toxcore_c.ToBytes.{samples}
use jvm_toxcore_c.Errors.Av.Call.{ErrAvNew}
use jvm_toxcore_c.Core.Dispatch.Reported.{take}
use jvm_toxcore_c.Av.Messages.{CallStateKind, AvEvents, no_av_events, ◌⊕◌}
use jvm_toxcore_c.Av.Callbacks.{has_bit, call_states, audio_receive_frame}
use jvm_toxcore_c.Av.Callbacks.Frames.{reports, audio_receive_frame-samples, reports-call_states}
use jvm_toxcore_c.Av.Dispatch.{AvEvent, AvKind}
use jvm_toxcore_c.Av.Iterate.{av_iterate}
use jvm_toxcore_c.Av.Iterate.Delivery.{Reports, av_iterate_delivers}
use jvm_toxcore_c.Av.Construction.{av_new}
use jvm_toxcore_c.Av.Construction.Outcomes.{AvMade, av_new-outcome}
use jvm_toxcore_c.Examples.Tools.{env, numbers, table, table-IsValid, length-zero, length-zeros}

-- The flags of toxav, from the lowest bit.
abbrev bit : CallStateKind → ℕ
bit CallStateKind.error = 0
bit CallStateKind.finished = 1
bit CallStateKind.sending_a = 2
bit CallStateKind.sending_v = 3
bit CallStateKind.accepting_a = 4
bit CallStateKind.accepting_v = 5

reports-call_states_example :
    reports CallStateKind.sending_v (call_states bit 0b1010) ≡ has_bit 3 0b1010
reports-call_states_example = reports-call_states CallStateKind.sending_v bit 0b1010

-- Two samples of two channels, and one more.
abbrev pcm : List ℤ
pcm = pos 1 ∷ negsuc 0 ∷ pos 258 ∷ negsuc 32767 ∷ pos 9 ∷ []

audio_receive_frame-samples_example :
    Ensures
      (audio_receive_frame 3 pcm 2 2 48_000)
      λ frame. (samples frame.pcm ≡ take (2 * 2) pcm) × (length frame.pcm ≡ 2 * (2 * 2))
audio_receive_frame-samples_example =
    audio_receive_frame-samples 3 pcm 2 2 48_000 (refl, (refl, (refl, (refl, (refl, tt)))))
      (omega arith) (omega arith)

-- A call is pending.
abbrev pending : AvEvents
pending = record no_av_events {
  call = record { friend_number = pos 3; audio_enabled = true; video_enabled = false } ∷ [];
}

abbrev reported : List AvEvent
reported = AvEvent.call_state 3 0b10 ∷ AvEvent.audio_receive_frame 3 pcm 2 2 48_000 ∷ []

abbrev toxav_iterate : ℕ → List AvEvent × ℕ
toxav_iterate av = (reported, av + 1)

-- An encoding with one byte for each message.
abbrev av_count : AvEvents → ℕ
av_count e =
    length e.call
    + length e.call_state
    + length e.audio_bit_rate
    + length e.video_bit_rate
    + length e.audio_receive_frame
    + length e.video_receive_frame

abbrev av_counting : Protobuf AvEvents
av_counting = record { byte_size = av_count; serialize = λ e. zeros (av_count e) }

av_count-zero : (e : AvEvents) → av_count e ≡ 0 → e ≡ no_av_events
av_count-zero e h =
    let a1 = length-zero e.call (omega (arith, h)) in
    let a2 = length-zero e.call_state (omega (arith, h)) in
    let a3 = length-zero e.audio_bit_rate (omega (arith, h)) in
    let a4 = length-zero e.video_bit_rate (omega (arith, h)) in
    let a5 = length-zero e.audio_receive_frame (omega (arith, h)) in
    let a6 = length-zero e.video_receive_frame (omega (arith, h)) in rw (a1, a2, a3, a4, a5, a6)

av_counting-IsProtobuf : IsProtobuf av_counting no_av_events
av_counting-IsProtobuf = record {
  sized = λ e. length-zeros (av_count e);
  cleared_size = refl;
  size_zero = av_count-zero;
}

abbrev tables : Manager ℕ AvEvents
tables = table pending

-- What the two events add.
abbrev collected : AvEvents
collected = record no_av_events {
  call_state = record { friend_number = 3; call_state = CallStateKind.finished ∷ [] } ∷ [];
  audio_receive_frame =
      record {
        friend_number = 3;
        pcm = 0 ∷ 1 ∷ 255 ∷ 255 ∷ 1 ∷ 2 ∷ 128 ∷ 0 ∷ [];
        channels = 2;
        sampling_rate = 48_000;
      }
      ∷ [];
}

av_iterate_delivers_example :
    Ensures (av_iterate bit toxav_iterate av_counting env (pos 4) tables) λ r.
      Reports bit toxav_iterate av_counting (pending ⊕ collected) r.0
      × (r.1 ≡ env)
      × ((j : ℤ) → view r.2 j ≡ update (pos 4) (λ _. live 41 no_av_events) (view tables) j)
unfolding contains
av_iterate_delivers_example =
    av_iterate_delivers bit toxav_iterate av_counting env (pos 4) tables 40 pending
      (table-IsValid pending) av_counting-IsProtobuf refl (tt, ((omega arith, omega arith), tt))

-- A toxav that is made with the number 70; the callbacks are counted in tens.
abbrev toxav_new : ℕ → Option ℕ × ErrAvNew × ℕ
toxav_new tox = (some 70, ErrAvNew.ok, tox + 1)

abbrev set : AvKind → ℕ → ℕ
set kind av = av + 10

av_new-outcome_example : Ensures (av_new set toxav_new (pos 4) env numbers tables) λ r.
    (IsGone (view numbers (pos 4))
      × (r.0 ≡ (pos 0, tables))
      × (exception_check r.1 ≡ true)
      × (r.2 ≡ numbers))
    ⊎ (tox : ℕ) × (events : ℕ) × (view numbers (pos 4) ≡ live tox events)
      × AvMade set toxav_new tables env tox r.0 r.1
      × ((j : ℤ)
          → view r.2 j ≡ update (pos 4) (λ _. live (toxav_new tox).2 events) (view numbers) j)
av_new-outcome_example =
    av_new-outcome set toxav_new (pos 4) env numbers tables (λ tox won. (70, refl))
      (table-IsValid 5) (table-IsValid pending) (omega arith)
