-- ===== src/Core/Iterate/Delivery.antt =====
-- `toxIterate` and the `invoke...` methods on a table of instances: what is reported to Java.
use mathlib.Core.Path.{subst}
use jvm_toxcore_c.Base.{ℕ, ◌≡◌, ◌≢◌, sym, Option, none, some, List, ℤ, All, ◌⊎◌}
use jvm_toxcore_c.Jni.{Env, returned, Ensures, Ensures-map}
use jvm_toxcore_c.Instances.{Manager}
use jvm_toxcore_c.Instances.Valid.{IsValid}
use jvm_toxcore_c.Instances.View.{live, view, update}
use jvm_toxcore_c.Instances.Access.{with_instance-live}
use jvm_toxcore_c.Drain.{Protobuf, IsProtobuf, drain, drain_lem}
use jvm_toxcore_c.Core.Messages.{Events, no_events, ◌⊕◌}
use jvm_toxcore_c.Core.Dispatch.{Event}
use jvm_toxcore_c.Core.Dispatch.Append.{invoke_all-append, invoke-append, HasKey}
use jvm_toxcore_c.Core.Dispatch.Reported.{
  message_of, messages_of, invoke-message_of, invoke_all-messages_of,
}
use jvm_toxcore_c.Core.Iterate.{iterate, iterate_on, invoke_on, invoke_from_java}

module _ {Tox : Type 0} (tox_iterate : Tox → List Event × Tox) (pb : Protobuf Events) where
  -- What one iteration reports of the events `e`: null for none, and otherwise their serialisation.
  abbrev pub Reports : Events → Option (List ℕ) → Type 0
  Reports e bytes =
      ((e ≡ no_events) × (bytes ≡ none)) ⊎ ((e ≢ no_events) × (bytes ≡ some (pb.serialize e)))

  iterate_on_lem :
      (tox : Tox) (pending : Events) (env : Env)
      → IsProtobuf pb no_events
      → All HasKey (tox_iterate tox).0
      → (bytes : Option (List ℕ)) × (iterate_on tox_iterate pb tox pending env
          ≡ returned (bytes, (tox_iterate tox).1, no_events, env))
        × Reports (pending ⊕ messages_of (tox_iterate tox).0) bytes
  unfolding iterate_on
  iterate_on_lem tox pending env p keys =
      let d = messages_of (tox_iterate tox).0 in
      let ran = invoke_all-messages_of (tox_iterate tox).0 keys in
      let drained = drain_lem pb no_events (pending ⊕ d) p in
      (
        (drain pb no_events (pending ⊕ d)).0,
        rw (invoke_all-append (tox_iterate tox).0 pending) (rw ran (rw drained.0)),
        drained.1,
      )

  -- One iteration of a live instance returns what was pending and then a message with the contents of
  -- each report of toxcore meanwhile, in their order kind by kind, or null when there was nothing;
  -- afterwards nothing is pending, so that no event is delivered twice. No other instance is touched.
  pub iterate_delivers :
      (env : Env) (n : ℤ) (m : Manager Tox Events) (tox : Tox) (pending : Events)
      → IsValid m
      → IsProtobuf pb no_events
      → view m n ≡ live tox pending
      → All HasKey (tox_iterate tox).0
      → Ensures (iterate tox_iterate pb env n m) λ r.
        Reports (pending ⊕ messages_of (tox_iterate tox).0) r.0
        × (r.1 ≡ env)
        × ((j : ℤ) → view r.2 j ≡ update n (λ _. live (tox_iterate tox).1 no_events) (view m) j)
  unfolding iterate
  iterate_delivers env n m tox pending v p seen keys =
      let (bytes, ran, reported) = iterate_on_lem tox pending env p keys in
      Ensures-map (iterate tox_iterate pb env n m) _ _
        (with_instance-live (iterate_on tox_iterate pb) none env n m tox (tox_iterate tox).1 pending
          no_events bytes env v seen ran)
        λ r a.
          (subst (Reports (pending ⊕ messages_of (tox_iterate tox).0)) (sym a.0) reported, a.1, a.3)

module _ {Tox : Type 0} where
  pub invoke_joins :
      (c : Event) (env : Env) (n : ℤ) (m : Manager Tox Events) (tox : Tox) (pending : Events)
      → IsValid m
      → view m n ≡ live tox pending
      → HasKey c
      → Ensures (invoke_from_java (returned c) env n m) λ r.
        (r.1 ≡ env)
        × ((j : ℤ) → view r.2 j ≡ update n (λ _. live tox (pending ⊕ message_of c)) (view m) j)
  unfolding invoke_from_java
  invoke_joins c env n m tox pending v seen key =
      Ensures-map (invoke_from_java (returned c) env n m) _ _
        (with_instance-live (invoke_on (returned c)) tt env n m tox tox pending
          (pending ⊕ message_of c) tt env v seen
          (rw (invoke-append c pending) (rw (invoke-message_of c key))))
        λ r a. (a.1, a.3)
