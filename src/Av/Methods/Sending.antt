-- ===== src/Av/Methods/Sending.antt =====
-- `toxavAudioSendFrame` and `toxavVideoSendFrame` (ToxAv/av.cpp): which frames reach toxav.
use jvm_toxcore_c.Base.{
  ℕ, ◌*◌, ◌%◌, ◌/◌, ◌^◌, ◌<◌, ◌≤◌, ◌==◌, ◌≡◌, ◌≢◌, refl, ap, ◌∙◌, ◌⊎◌, inl, inr, Bool, true, false,
  ◌&&◌, ◌||◌, is_negative, Bool-cases, arith, length, ℤ, pos, negsuc, leb, u8, u16, u32, u64, abs,
  ltb, if◌then◌else◌, Text,
}
use jvm_toxcore_c.Jni.{Env, exception_check, JavaArray, Outcome, returned, fatal, undefined, ◌>>=◌}
use jvm_toxcore_c.Instances.{Manager}
use jvm_toxcore_c.Instances.Valid.{IsValid}
use jvm_toxcore_c.Errors.{av_subsystem, throw_by_code}
use jvm_toxcore_c.Errors.Results.{throw_by_code-pending}
use jvm_toxcore_c.Errors.Av.Stream.{ErrAvSendFrame, av_send_frame_error, av_send_frame-IsFaithful}
use jvm_toxcore_c.Av.Callbacks.{bool_eq}
use jvm_toxcore_c.Wrappers.{ErrCall, with_instance_ign}
use jvm_toxcore_c.Wrappers.Answers.{ErrAnswer, ign-Answers}
use jvm_toxcore_c.Core.Iterate.{elements}
use jvm_toxcore_c.Av.Iterate.{half}
use jvm_toxcore_c.Av.Methods.{AvApi, times_int, assert_audio, audio_send_frame, video_send_frame}

-- A number that a byte cannot hold.
abbrev pub negative_or_large : ℤ → Bool
negative_or_large (pos k) = ltb 255 k
negative_or_large (negsuc _) = true

-- A frame that is refused: an exception is pending, and toxav was not called.
abbrev pub IsRefused : {X M : Type 0} → X → M → Outcome (X × Env × M) → Type 0
IsRefused x m o = (env' : Env) × (exception_check env' ≡ true) × (o ≡ returned (x, env', m))

not_invalid : ErrAvSendFrame.invalid ≢ ErrAvSendFrame.ok
not_invalid h = cc

times_int-pos :
    (a b : ℕ)
    → ((2 ^ 31 ≤ a * b) × (times_int (pos a) (pos b) ≡ undefined))
      ⊎ ((a * b < 2 ^ 31) × (times_int (pos a) (pos b) ≡ returned (pos (a * b))))
unfolding times_int bool_eq
times_int-pos a b = elim (Bool-cases (ltb (a * b) (2 ^ 31))) [
  | inl fits ↦ inr (ground arith, rw fits refl)
  | inr too_large ↦ inl (ground arith, rw too_large refl)
]

module _ {Av V : Type 0} (call : ErrCall Av ErrAvSendFrame Bool) (env : Env) (n : ℤ)
    (m : Manager Av V) where
  -- A frame whose sizes pass the test `b` is sent, and any other one refused.
  sent_or_IsRefused :
      (b : Bool)
      → IsValid m
      → (x : Outcome (Unit {0} × Env × Manager Av V))
      → x ≡ (
          if b
          then with_instance_ign av_subsystem av_send_frame_error call env n m
          else returned
              (tt, throw_by_code av_subsystem av_send_frame_error env ErrAvSendFrame.invalid, m))
      → ((b ≡ false) × IsRefused tt m x)
        ⊎ ((b ≡ true) × ErrAnswer tt ErrAvSendFrame.ok (λ _. tt) call env n m x)
  sent_or_IsRefused true v x e =
      inr (refl, rw e (ign-Answers av_subsystem call env n m av_send_frame-IsFaithful v))
  sent_or_IsRefused false v x e = inl (
    refl,
    (
      throw_by_code av_subsystem av_send_frame_error env ErrAvSendFrame.invalid,
      throw_by_code-pending av_subsystem av_send_frame_error ErrAvSendFrame.ok ErrAvSendFrame.other
          env ErrAvSendFrame.invalid av_send_frame-IsFaithful not_invalid,
      e,
    ),
  )

module _ {Av V : Type 0} (t : AvApi Av) (friend : ℤ) (env : Env) (n : ℤ) (m : Manager Av V) where
  -- What becomes of a frame of `c` samples for each of `k` channels.
  abbrev pub AudioAnswer :
      JavaArray ℤ → ℕ → ℕ → ℕ → Outcome (Unit {0} × Env × Manager Av V) → Type 0
  AudioAnswer pcm c k r x =
      ((2 ^ 31 ≤ c * k) × (x ≡ undefined))
      ⊎ ((c * k < 2 ^ 31) × (length (elements pcm) ≢ c * k) × IsRefused tt m x)
      ⊎ ((c * k < 2 ^ 31)
          × (length (elements pcm) ≡ c * k)
          × ErrAnswer tt ErrAvSendFrame.ok (λ _. tt) (t.audio_send_frame (u32 friend) pcm c k r) env
              n m x)

  -- The test and the call of an audio frame, with its parameters and the number of samples.
  abbrev audio_sized : JavaArray ℤ → ℕ → ℕ → ℕ → ℕ → Outcome (Unit {0} × Env × Manager Av V)
  audio_sized pcm c k r size =
      if length (elements pcm) == size
      then with_instance_ign av_subsystem av_send_frame_error
          (t.audio_send_frame (u32 friend) pcm c k r) env n m
      else returned
          (tt, throw_by_code av_subsystem av_send_frame_error env ErrAvSendFrame.invalid, m)

  -- The same, once its parameters are accepted.
  audio_step :
      (pcm : JavaArray ℤ) (c k r : ℕ) (x : Outcome (Unit {0} × Env × Manager Av V))
      → IsValid m
      → c < 2 ^ 31
      → k ≤ 255
      → r < 2 ^ 32
      → x ≡ (
          times_int (pos c) (pos k) >>= λ size.
          audio_sized pcm (u64 (pos c)) (u8 (pos k)) (u32 (pos r)) (u64 size))
      → AudioAnswer pcm c k r x
  audio_step pcm c k r x v hc hk hr e =
      let rest =
        λ (size : ℤ). audio_sized pcm (u64 (pos c)) (u8 (pos k)) (u32 (pos r)) (u64 size) in
      elim (times_int-pos c k) [
        | inl (big, u) ↦ inl (big, e ∙ ap (λ y. y >>= rest) u)
        | inr (small, f) ↦
            let c_eq : c % 2 ^ 64 ≡ c = omega (arith, hc) in
            let k_eq : k % 2 ^ 8 ≡ k = omega (arith, hk) in
            let r_eq : r % 2 ^ 32 ≡ r = omega (arith, hr) in
            let size_eq : c * k % 2 ^ 64 ≡ c * k = omega (arith, small) in
            elim (sent_or_IsRefused (t.audio_send_frame (u32 friend) pcm c k r) env n m
              (length (elements pcm) == c * k) v x
              (e ∙ ap (λ y. y >>= rest) f ∙ rw (c_eq, k_eq, r_eq, size_eq) refl)) [
                | inl (wrong, refused) ↦ inr (inl (small, ground arith, refused))
                | inr (right, sent) ↦ inr (inr (small, ground arith, sent))
              ]
      ]

  -- An audio frame with values that Java can give (of 32 bits): the process is aborted when a
  -- parameter is negative or there are more than 255 channels, and only then; the behaviour is undefined when
  -- the number of samples in all does not fit a signed word of 32 bits. Otherwise a frame with another number
  -- of samples is refused with an exception before toxav is called, and a frame with the right
  -- number reaches toxav with the numbers of Java unchanged, which answers.
  pub audio_send_frame-Answers :
      (pcm : JavaArray ℤ) (sample_count channels rate : ℤ)
      → IsValid m
      → abs sample_count < 2 ^ 31
      → abs rate < 2 ^ 32
      → (((is_negative sample_count || negative_or_large channels || is_negative rate) ≡ true)
          × ((text : Text) × (audio_send_frame t friend pcm sample_count channels rate env n m
                ≡ fatal text)))
        ⊎ (c : ℕ) × (k : ℕ) × (r : ℕ) × (sample_count ≡ pos c)
          × (channels ≡ pos k)
          × (rate ≡ pos r)
          × (k ≤ 255)
          × AudioAnswer pcm c k r (audio_send_frame t friend pcm sample_count channels rate env n m)
  unfolding audio_send_frame assert_audio
  audio_send_frame-Answers pcm (negsuc c) channels rate v _ _ = inl (refl, (_, refl))
  audio_send_frame-Answers pcm (pos c) (negsuc k) rate v _ _ = inl (refl, (_, refl))
  audio_send_frame-Answers pcm (pos c) (pos k) (negsuc r) v _ _ = elim (Bool-cases (leb k 255)) [
    | inl few ↦ rw few (inl (ground arith, (_, refl)))
    | inr many ↦ rw many (inl (ground arith, (_, refl)))
  ]
  audio_send_frame-Answers pcm (pos c) (pos k) (pos r) v hc hr = elim (Bool-cases (leb k 255)) [
    | inl few ↦ rw few (
        inr (
          c,
          k,
          r,
          refl,
          refl,
          refl,
          ground arith,
          audio_step pcm c k r _ v hc (ground arith) hr refl,
        ))
    | inr many ↦ rw many (inl (ground arith, (_, refl)))
  ]

times_int-small : (a b : ℕ) → a * b < 2 ^ 31 → times_int (pos a) (pos b) ≡ returned (pos (a * b))
times_int-small a b h = elim (times_int-pos a b) [
  | inl (big, _) ↦ absurd (omega (arith, h, big))
  | inr (_, e) ↦ e
]

equal3 : (a b c x z : ℕ) → (a == x && b == z && c == z) ≡ true → (a ≡ x) × (b ≡ z) × (c ≡ z)
equal3 a b c x z h = (ground arith, ground arith, ground arith)

differ3 : (a b c x z : ℕ) → (a == x && b == z && c == z) ≡ false → (a ≡ x) × (b ≡ z) × (c ≡ z) → ⊥
differ3 a b c x z h e = ground (arith, e.0, e.1, e.2)

half_le : (a b : ℕ) → a / 2 * (b / 2) ≤ a * b
half_le a b = grind arith

-- The planes have the sizes of a frame of `w` columns and `h` rows.
abbrev pub HasPlanes : ℕ → ℕ → JavaArray ℕ → JavaArray ℕ → JavaArray ℕ → Type 0
HasPlanes w h y u v =
    (length (elements y) ≡ w * h)
    × (length (elements u) ≡ w / 2 * (h / 2))
    × (length (elements v) ≡ w / 2 * (h / 2))

module _ {Av V : Type 0} (t : AvApi Av) (friend : ℤ) (env : Env) (n : ℤ) (m : Manager Av V) where
  -- The test of the sizes of the planes.
  abbrev fits : JavaArray ℕ → JavaArray ℕ → JavaArray ℕ → ℕ → ℕ → Bool
  fits y u v y_size uv_size =
      length (elements y) == y_size
      && length (elements u) == uv_size
      && length (elements v) == uv_size

  abbrev video_sized :
      ℕ
      → ℕ
      → JavaArray ℕ
      → JavaArray ℕ
      → JavaArray ℕ
      → ℕ
      → ℕ
      → Outcome (Unit {0} × Env × Manager Av V)
  video_sized w h y u v y_size uv_size =
      if fits y u v y_size uv_size
      then with_instance_ign av_subsystem av_send_frame_error
          (t.video_send_frame (u32 friend) w h y u v) env n m
      else returned
          (tt, throw_by_code av_subsystem av_send_frame_error env ErrAvSendFrame.invalid, m)

  video-sized :
      (w h : ℕ) (y u v : JavaArray ℕ)
      → w < 2 ^ 16
      → h < 2 ^ 16
      → w * h < 2 ^ 31
      → video_send_frame t friend (pos w) (pos h) y u v env n m
        ≡ video_sized w h y u v (w * h) (w / 2 * (h / 2))
  unfolding video_send_frame half
  video-sized w h y u v hw hh small =
      let uv = times_int (pos (w / 2)) (pos (h / 2)) in
      let less : w / 2 * (h / 2) < 2 ^ 31 = omega (arith, small, half_le w h) in
      let w_eq : w % 2 ^ 16 ≡ w = omega (arith, hw) in
      let h_eq : h % 2 ^ 16 ≡ h = omega (arith, hh) in
      let y_eq : w * h % 2 ^ 64 ≡ w * h = omega (arith, small) in
      let uv_eq : w / 2 * (h / 2) % 2 ^ 64 ≡ w / 2 * (h / 2) = omega (arith, less) in
      let sized = λ (ys us : ℤ). video_sized (u16 (pos w)) (u16 (pos h)) y u v (u64 ys) (u64 us) in
      ap (λ a. a >>= λ ys. uv >>= λ us. sized ys us) (times_int-small w h small)
      ∙ ap (λ a. a >>= λ us. sized (pos (w * h)) us) (times_int-small (w / 2) (h / 2) less)
      ∙ rw (w_eq, h_eq, y_eq, uv_eq) refl

  -- A video frame of sizes below 65536, with less than `2 ^ 31` pixels: it reaches toxav, with its
  -- sizes unchanged, exactly if the planes have the sizes of such a frame, and toxav answers;
  -- otherwise it is refused with an exception before toxav is called.
  pub video_send_frame-Answers :
      (w h : ℕ) (y u v : JavaArray ℕ)
      → IsValid m
      → w < 2 ^ 16
      → h < 2 ^ 16
      → w * h < 2 ^ 31
      → ((HasPlanes w h y u v → ⊥)
          × IsRefused tt m (video_send_frame t friend (pos w) (pos h) y u v env n m))
        ⊎ (HasPlanes w h y u v
            × ErrAnswer tt ErrAvSendFrame.ok
                (λ _. tt)
                (t.video_send_frame (u32 friend) w h y u v)
                env
                n
                m
                (video_send_frame t friend (pos w) (pos h) y u v env n m))
  video_send_frame-Answers w h y u v valid hw hh small =
      elim (sent_or_IsRefused (t.video_send_frame (u32 friend) w h y u v) env n m
        (fits y u v (w * h) (w / 2 * (h / 2))) valid _ (video-sized w h y u v hw hh small)) [
          | inl (wrong, refused) ↦ inl (differ3 _ _ _ _ _ wrong, refused)
          | inr (right, sent) ↦ inr (equal3 _ _ _ _ _ right, sent)
        ]
