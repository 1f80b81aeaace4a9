-- ===== src/Av/Callbacks/Frames.antt =====
-- What the callbacks of toxav make of call states and frames.
use jvm_toxcore_c.Base.{
  ℕ, zero, suc, ◌*◌, ◌%◌, ◌^◌, ◌<◌, ◌≤◌, ◌≡◌, refl, ap, ◌∙◌, Bool, true, false, List, [], ◌∷◌, ◌++◌,
  length, All, ℤ, arith, Bool-cases, inl, inr, ◌||◌, ◌&&◌,
}
use jvm_toxcore_c.Jni.{Ensures}
use jvm_toxcore_c.ToBytes.{samples, is_i16, samples-to_bytes}
use jvm_toxcore_c.Core.Callbacks.{read}
use jvm_toxcore_c.Core.Dispatch.Reported.{take, read-take}
use jvm_toxcore_c.Av.Messages.{CallStateKind}
use jvm_toxcore_c.Av.Callbacks.{has_bit, call_state_case, call_states, audio_receive_frame}

All-take : {A : Type 0} (P : A → Type 0) (n : ℕ) (xs : List A) → All P xs → All P (take n xs)
All-take P zero xs h = tt
All-take P (suc n) [] h = tt
All-take P (suc n) (x ∷ xs) h = (h.0, All-take P n xs h.1)

length-take : {A : Type 0} (n : ℕ) (xs : List A) → n ≤ length xs → length (take n xs) ≡ n
length-take zero xs h = refl
length-take (suc n) [] h = absurd (omega arith)
length-take (suc n) (x ∷ xs) h = ap suc (length-take n xs (omega arith))

-- An audio frame whose memory holds `sample_count` samples of `channels` channels is collected: its
-- bytes are two for each sample, and reading them back, the most significant byte first, gives just
-- those samples.
pub audio_receive_frame-samples :
    (friend_number : ℕ) (pcm : List ℤ) (sample_count channels sampling_rate : ℕ)
    → All (λ x. is_i16 x ≡ true) pcm
    → sample_count * channels ≤ length pcm
    → length pcm < 2 ^ 64
    → Ensures (audio_receive_frame friend_number pcm sample_count channels sampling_rate) λ frame.
      (samples frame.pcm ≡ take (sample_count * channels) pcm)
      × (length frame.pcm ≡ 2 * (sample_count * channels))
unfolding audio_receive_frame
audio_receive_frame-samples friend_number pcm sample_count channels sampling_rate ok whole small =
    let n = sample_count * channels in
    let fits : n % 2 ^ 64 ≡ n = omega (arith, whole, small) in
    let bytes = samples-to_bytes (take n pcm) (All-take _ n pcm ok) in
    rw (ap (λ k. read k pcm) fits ∙ read-take n pcm whole, audio_receive_frame)
      (bytes.0, bytes.1 ∙ ap (λ k. 2 * k) (length-take n pcm whole))

-- A kind among the reported ones.
is_kind : CallStateKind → CallStateKind → Bool
is_kind CallStateKind.error CallStateKind.error = true
is_kind CallStateKind.finished CallStateKind.finished = true
is_kind CallStateKind.sending_a CallStateKind.sending_a = true
is_kind CallStateKind.sending_v CallStateKind.sending_v = true
is_kind CallStateKind.accepting_a CallStateKind.accepting_a = true
is_kind CallStateKind.accepting_v CallStateKind.accepting_v = true
is_kind _ _ = false

unfoldable pub reports : CallStateKind → List CallStateKind → Bool
unfolding is_kind
reports kind [] = false
reports kind (k ∷ ks) = is_kind k kind || reports kind ks

reports-append :
    (kind : CallStateKind) (xs ys : List CallStateKind)
    → reports kind (xs ++ ys) ≡ (reports kind xs || reports kind ys)
unfolding reports
reports-append kind [] ys = refl
reports-append kind (x ∷ xs) ys = ground (arith, reports-append kind xs ys)

reports-case :
    (kind k : CallStateKind) (bit : CallStateKind → ℕ) (state : ℕ) (xs : List CallStateKind)
    → reports kind (call_state_case bit state k xs)
      ≡ (reports kind xs || (is_kind k kind && has_bit (bit k) state))
unfolding call_state_case reports
reports-case kind k bit state xs = elim (Bool-cases (has_bit (bit k) state)) [
  | inl set ↦ rw set (reports-append kind xs (k ∷ []) ∙ ground arith)
  | inr clear ↦ rw clear (ground arith)
]

-- The six cases in turn, for a flag `has` of each kind.
cases-kind :
    (has : CallStateKind → Bool) (kind : CallStateKind)
    → (is_kind CallStateKind.error kind && has CallStateKind.error
        || is_kind CallStateKind.finished kind && has CallStateKind.finished
        || is_kind CallStateKind.sending_a kind && has CallStateKind.sending_a
        || is_kind CallStateKind.sending_v kind && has CallStateKind.sending_v
        || is_kind CallStateKind.accepting_a kind && has CallStateKind.accepting_a
        || is_kind CallStateKind.accepting_v kind && has CallStateKind.accepting_v)
      ≡ has kind
unfolding is_kind
cases-kind has CallStateKind.error = ground arith
cases-kind has CallStateKind.finished = ground arith
cases-kind has CallStateKind.sending_a = ground arith
cases-kind has CallStateKind.sending_v = ground arith
cases-kind has CallStateKind.accepting_a = ground arith
cases-kind has CallStateKind.accepting_v = ground arith

-- A call state is reported with just the kinds whose flag is set in it.
pub reports-call_states :
    (kind : CallStateKind) (bit : CallStateKind → ℕ) (state : ℕ)
    → reports kind (call_states bit state) ≡ has_bit (bit kind) state
unfolding call_states reports
reports-call_states kind bit state =
    rw
      (
        reports-case kind CallStateKind.accepting_v bit state _,
        reports-case kind CallStateKind.accepting_a bit state _,
        reports-case kind CallStateKind.sending_v bit state _,
        reports-case kind CallStateKind.sending_a bit state _,
        reports-case kind CallStateKind.finished bit state _,
        reports-case kind CallStateKind.error bit state _,
      )
      (cases-kind (λ k. has_bit (bit k) state) kind)
