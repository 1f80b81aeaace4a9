-- ===== src/Av/Dispatch/Append.antt =====
-- Runs of the callbacks of toxav on events that are pending already.
use mathlib.Core.List.{append-nil, append_assoc}
use jvm_toxcore_c.Base.{ℕ, ◌≡◌, List, [], ◌∷◌, ◌++◌}
use jvm_toxcore_c.Jni.{returned, ◌>>=◌}
use jvm_toxcore_c.Jni.Appends.{append_then, add_then}
use jvm_toxcore_c.Av.Messages.{CallStateKind, AvEvents, no_av_events, ◌⊕◌}
use jvm_toxcore_c.Av.Callbacks.{audio_receive_frame, video_receive_frame}
use jvm_toxcore_c.Av.Dispatch.{AvEvent, av_invoke, av_invoke_all}

⊕_assoc : (a b c : AvEvents) → a ⊕ b ⊕ c ≡ a ⊕ (b ⊕ c)
⊕_assoc a b c = simp append_assoc

module _ (bit : CallStateKind → ℕ) where
  pub av_invoke-append :
      (c : AvEvent) (e : AvEvents)
      → av_invoke bit c e ≡ (av_invoke bit c no_av_events >>= λ d. returned (e ⊕ d))
  unfolding av_invoke
  av_invoke-append (AvEvent.audio_receive_frame a b c d f) e =
      add_then ◌⊕◌ (audio_receive_frame a b c d f)
        (λ frame e'. record e' { audio_receive_frame = e'.audio_receive_frame ++ frame ∷ [] }) e
        no_av_events (λ frame. simp append-nil)
  av_invoke-append (AvEvent.video_receive_frame a b c d f g h i j) e =
      add_then ◌⊕◌ (video_receive_frame a b c d f g h i j)
        (λ frame e'. record e' { video_receive_frame = e'.video_receive_frame ++ frame ∷ [] }) e
        no_av_events (λ frame. simp append-nil)
  av_invoke-append _ e = simp append-nil

  -- A run of callbacks on events that are pending already ends as the same run on none does, and
  -- when that returns, what it collects stands behind the pending events, kind by kind.
  pub av_invoke_all-append :
      (cs : List AvEvent) (e : AvEvents)
      → av_invoke_all bit cs e ≡ (av_invoke_all bit cs no_av_events >>= λ d. returned (e ⊕ d))
  unfolding av_invoke_all
  av_invoke_all-append [] e = simp append-nil
  av_invoke_all-append (c ∷ cs) e = rw (av_invoke-append c e) (
      append_then ◌⊕◌ e (av_invoke bit c no_av_events) (av_invoke_all bit cs no_av_events)
        (av_invoke_all bit cs) ⊕_assoc (av_invoke_all-append cs))
