-- ===== src/Av/Iterate/Delivery.antt =====
-- `toxavIterate` on a table of instances: what is reported to Java.
use mathlib.Core.Path.{subst}
use jvm_toxcore_c.Base.{ℕ, ◌≡◌, ◌≢◌, sym, Option, none, some, List, ℤ, All, ◌⊎◌}
use jvm_toxcore_c.Jni.{Env, returned, Ensures, Ensures-map}
use jvm_toxcore_c.Instances.{Manager}
use jvm_toxcore_c.Instances.Valid.{IsValid}
use jvm_toxcore_c.Instances.View.{live, view, update}
use jvm_toxcore_c.Instances.Access.{with_instance-live}
use jvm_toxcore_c.Drain.{Protobuf, IsProtobuf, drain, drain_lem}
use jvm_toxcore_c.Av.Messages.{CallStateKind, AvEvents, no_av_events, ◌⊕◌}
use jvm_toxcore_c.Av.Dispatch.{AvEvent}
use jvm_toxcore_c.Av.Dispatch.Reported.{
  IsWhole, av_message_of, av_messages_of, av_invoke-message_of, av_invoke_all-messages_of,
}
use jvm_toxcore_c.Av.Dispatch.Append.{av_invoke-append, av_invoke_all-append}
use jvm_toxcore_c.Av.Iterate.{av_iterate, av_iterate_on, av_invoke_on, av_invoke_from_java}

module _ {Av : Type 0} (bit : CallStateKind → ℕ) (toxav_iterate : Av → List AvEvent × Av)
    (pb : Protobuf AvEvents) where
  -- What one iteration reports of the events `e`: null for none, and otherwise their serialisation.
  abbrev pub Reports : AvEvents → Option (List ℕ) → Type 0
  Reports e bytes =
      ((e ≡ no_av_events) × (bytes ≡ none)) ⊎ ((e ≢ no_av_events) × (bytes ≡ some (pb.serialize e)))

  -- If the memory of the frames holds them, one iteration of a live instance returns what was pending
  -- and then a message with the contents of each report of toxav meanwhile, in their order kind by
  -- kind, or null when there was nothing; afterwards nothing is pending, so that no event is delivered
  -- twice. No other instance is touched.
  pub av_iterate_delivers :
      (env : Env) (n : ℤ) (m : Manager Av AvEvents) (av : Av) (pending : AvEvents)
      → IsValid m
      → IsProtobuf pb no_av_events
      → view m n ≡ live av pending
      → All IsWhole (toxav_iterate av).0
      → Ensures (av_iterate bit toxav_iterate pb env n m) λ r.
        Reports (pending ⊕ av_messages_of bit (toxav_iterate av).0) r.0
        × (r.1 ≡ env)
        × ((j : ℤ) → view r.2 j ≡ update n (λ _. live (toxav_iterate av).1 no_av_events) (view m) j)
  unfolding av_iterate av_iterate_on
  av_iterate_delivers env n m av pending v p seen whole =
      let d = av_messages_of bit (toxav_iterate av).0 in
      let collected = av_invoke_all-messages_of bit (toxav_iterate av).0 whole in
      let drained = drain_lem pb no_av_events (pending ⊕ d) p in
      let bytes = (drain pb no_av_events (pending ⊕ d)).0 in
      Ensures-map (av_iterate bit toxav_iterate pb env n m) _ _
        (with_instance-live (av_iterate_on bit toxav_iterate pb) none env n m av
          (toxav_iterate av).1 pending no_av_events bytes env v seen
          (rw (av_invoke_all-append bit (toxav_iterate av).0 pending)
            (rw collected (rw drained.0))))
        λ r a. (subst (Reports (pending ⊕ d)) (sym a.0) drained.1, a.1, a.3)

module _ {Av : Type 0} (bit : CallStateKind → ℕ) where
  -- A message with the contents of an event that Java injects, once its arguments are accepted, joins
  -- the pending ones of its instance, behind them.
  pub av_invoke_joins :
      (c : AvEvent) (env : Env) (n : ℤ) (m : Manager Av AvEvents) (av : Av) (pending : AvEvents)
      → IsValid m
      → view m n ≡ live av pending
      → IsWhole c
      → Ensures (av_invoke_from_java bit (returned c) env n m) λ r.
        (r.1 ≡ env)
        × ((j : ℤ)
            → view r.2 j ≡ update n (λ _. live av (pending ⊕ av_message_of bit c)) (view m) j)
  unfolding av_invoke_from_java av_invoke_on
  av_invoke_joins c env n m av pending v seen whole =
      Ensures-map (av_invoke_from_java bit (returned c) env n m) _ _
        (with_instance-live (av_invoke_on bit (returned c)) tt env n m av av pending
          (pending ⊕ av_message_of bit c) tt env v seen
          (rw (av_invoke-append bit c pending) (rw (av_invoke-message_of bit c whole))))
        λ r a. (a.1, a.3)
