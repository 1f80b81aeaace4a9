-- ===== src/Examples/AvCalls.antt =====
-- Examples on the methods of ToxAv, with a toxav that counts the calls.
use jvm_toxcore_c.Base.{
  ℕ, ◌+◌, ◌≤◌, ◌≡◌, true, false, some, List, [], ◌∷◌, ◌⊎◌, is_negative, ◌||◌, ℤ, pos, negsuc, arith,
  u32, to_jint, Text,
}
use jvm_toxcore_c.Jni.{JavaArray, fatal}
use jvm_toxcore_c.Errors.Av.Call.{ErrAvCall, ErrAvAnswer, ErrAvCallControl}
use jvm_toxcore_c.Errors.Av.Stream.{ErrAvBitRateSet, ErrAvSendFrame}
use jvm_toxcore_c.Enums.Calls.{value_of_call_control}
use jvm_toxcore_c.Wrappers.Answers.{ErrAnswer, NoErrAnswer, Reads}
use jvm_toxcore_c.Av.Methods.{AvApi, audio_send_frame, video_send_frame}
use jvm_toxcore_c.Av.Methods as Methods
use jvm_toxcore_c.Av.Methods.Answers.{av_methods-Answers}
use jvm_toxcore_c.Av.Methods.Sending.{
  AudioAnswer, negative_or_large, HasPlanes, IsRefused, audio_send_frame-Answers,
  video_send_frame-Answers,
}
use jvm_toxcore_c.Examples.Tools.{env, numbers, table-IsValid}

-- Two samples of two channels, and one more.
abbrev pcm : List ℤ
pcm = pos 1 ∷ negsuc 0 ∷ pos 258 ∷ negsuc 32767 ∷ pos 9 ∷ []

-- A value with an error code, and one more call.
abbrev counted : {E A : Type 0} → E → A → ℕ → A × E × ℕ
counted e a av = (a, e, av + 1)

abbrev av_api : AvApi ℕ
av_api = record {
  av_iteration_interval = λ av. (20, av + 1);
  call = λ f a v. counted ErrAvCall.ok true;
  answer = λ f a v. counted ErrAvAnswer.friend_not_calling false;
  call_control = λ f c. counted ErrAvCallControl.ok true;
  audio_set_bit_rate = λ f r. counted ErrAvBitRateSet.ok true;
  video_set_bit_rate = λ f r. counted ErrAvBitRateSet.ok true;
  audio_send_frame = λ f p c k r. counted ErrAvSendFrame.ok true;
  video_send_frame = λ f w h y u v. counted ErrAvSendFrame.ok true;
}

av_methods-Answers_example :
    NoErrAnswer
      (pos 0)
      to_jint
      av_api.av_iteration_interval
      env
      (pos 4)
      numbers
      (Methods.av_iteration_interval av_api env (pos 4) numbers)
    × ((friend audio video : ℤ)
        → ErrAnswer tt ErrAvCall.ok
            (λ _. tt)
            (av_api.call (u32 friend) (u32 audio) (u32 video))
            env
            (pos 4)
            numbers
            (Methods.call av_api friend audio video env (pos 4) numbers))
    × ((friend audio video : ℤ)
        → ErrAnswer tt ErrAvAnswer.ok
            (λ _. tt)
            (av_api.answer (u32 friend) (u32 audio) (u32 video))
            env
            (pos 4)
            numbers
            (Methods.answer av_api friend audio video env (pos 4) numbers))
    × ((friend control : ℤ)
        → Reads
            (value_of_call_control control)
            (Methods.call_control av_api friend control env (pos 4) numbers)
            λ c.
              ErrAnswer tt ErrAvCallControl.ok
                (λ _. tt)
                (av_api.call_control (u32 friend) c)
                env
                (pos 4)
                numbers
                (Methods.call_control av_api friend control env (pos 4) numbers))
    × ((friend rate : ℤ)
        → ErrAnswer tt ErrAvBitRateSet.ok
            (λ _. tt)
            (av_api.audio_set_bit_rate (u32 friend) (u32 rate))
            env
            (pos 4)
            numbers
            (Methods.audio_set_bit_rate av_api friend rate env (pos 4) numbers))
    × ((friend rate : ℤ)
        → ErrAnswer tt ErrAvBitRateSet.ok
            (λ _. tt)
            (av_api.video_set_bit_rate (u32 friend) (u32 rate))
            env
            (pos 4)
            numbers
            (Methods.video_set_bit_rate av_api friend rate env (pos 4) numbers))
av_methods-Answers_example = av_methods-Answers av_api env (pos 4) numbers (table-IsValid 5)

audio_send_frame-Answers_example :
    (((is_negative (pos 5) || negative_or_large (pos 1) || is_negative (pos 48_000)) ≡ true)
      × ((text : Text) × (audio_send_frame av_api
              (pos 3)
              (some pcm)
              (pos 5)
              (pos 1)
              (pos 48_000)
              env
              (pos 4)
              numbers
            ≡ fatal text)))
    ⊎ (c : ℕ) × (k : ℕ) × (r : ℕ) × (pos 5 ≡ pos c)
      × (pos 1 ≡ pos k)
      × (pos 48_000 ≡ pos r)
      × (k ≤ 255)
      × AudioAnswer av_api (pos 3) env (pos 4) numbers (some pcm) c k r (
          audio_send_frame av_api
            (pos 3)
            (some pcm)
            (pos 5)
            (pos 1)
            (pos 48_000)
            env
            (pos 4)
            numbers)
audio_send_frame-Answers_example =
    audio_send_frame-Answers av_api (pos 3) env (pos 4) numbers (some pcm) (pos 5) (pos 1)
      (pos 48_000) (table-IsValid 5) (omega arith) (omega arith)

-- A frame of four columns and two rows.
abbrev y_plane : JavaArray ℕ
y_plane = some (1 ∷ 2 ∷ 3 ∷ 4 ∷ 5 ∷ 6 ∷ 7 ∷ 8 ∷ [])

abbrev uv_plane : JavaArray ℕ
uv_plane = some (1 ∷ 2 ∷ [])

video_send_frame-Answers_example :
    ((HasPlanes 4 2 y_plane uv_plane uv_plane → ⊥)
      × IsRefused tt numbers (
          video_send_frame av_api
            (pos 3)
            (pos 4)
            (pos 2)
            y_plane
            uv_plane
            uv_plane
            env
            (pos 4)
            numbers))
    ⊎ (HasPlanes 4 2 y_plane uv_plane uv_plane
        × ErrAnswer tt ErrAvSendFrame.ok
            (λ _. tt)
            (av_api.video_send_frame (u32 (pos 3)) 4 2 y_plane uv_plane uv_plane)
            env
            (pos 4)
            numbers
            (video_send_frame av_api
              (pos 3)
              (pos 4)
              (pos 2)
              y_plane
              uv_plane
              uv_plane
              env
              (pos 4)
              numbers))
video_send_frame-Answers_example =
    video_send_frame-Answers av_api (pos 3) env (pos 4) numbers 4 2 y_plane uv_plane uv_plane
      (table-IsValid 5) (omega arith) (omega arith) (omega arith)
