-- ===== src/Examples/Stream.antt =====
-- Examples on events, methods and their arguments.
use jvm_toxcore_c.Base.{ℕ, ◌+◌, ◌≡◌, ◌≢◌, refl, true, false, none, some, List, [], ◌∷◌, ◌⊎◌, ℤ, pos}
use jvm_toxcore_c.Jni.{returned, Ensures, ◌>>=◌}
use jvm_toxcore_c.Instances.{Manager, contains}
use jvm_toxcore_c.Instances.View.{live, view, update}
use jvm_toxcore_c.Drain.{zeros, drain, drain_lem}
use jvm_toxcore_c.Core.Messages.{Events, no_events, ◌⊕◌}
use jvm_toxcore_c.Core.Dispatch.{Event, invoke_all}
use jvm_toxcore_c.Core.Dispatch.Append.{invoke_all-append}
use jvm_toxcore_c.Core.Dispatch.Reported.{messages_of}
use jvm_toxcore_c.Core.Iterate.{iterate}
use jvm_toxcore_c.Core.Iterate.Delivery.{Reports, iterate_delivers}
use jvm_toxcore_c.Core.Iterate.Injected.{MethodsJoin, invoke_methods-Join}
use jvm_toxcore_c.Examples.Tools.{env, table, table-IsValid, counting, counting-IsProtobuf}

-- One message is pending.
abbrev pending : Events
pending = record no_events { friend_typing = record { friend_number = 3; is_typing = true } ∷ [] }

abbrev reported : List Event
reported = Event.friend_name 3 (65 ∷ []) ∷ Event.friend_typing 3 false ∷ []

-- An instance counts its iterations.
abbrev tox_iterate : ℕ → List Event × ℕ
tox_iterate tox = (reported, tox + 1)

abbrev tables : Manager ℕ Events
tables = table pending

iterate_delivers_example : Ensures (iterate tox_iterate counting env (pos 4) tables) λ r.
    Reports tox_iterate counting (pending ⊕ messages_of reported) r.0
    × (r.1 ≡ env)
    × ((j : ℤ) → view r.2 j ≡ update (pos 4) (λ _. live 41 no_events) (view tables) j)
unfolding contains
iterate_delivers_example =
    iterate_delivers tox_iterate counting env (pos 4) tables 40 pending (table-IsValid pending)
      counting-IsProtobuf refl (tt, (tt, tt))

invoke_methods-Join_example : MethodsJoin env (pos 1) tables 10 pending
unfolding contains
invoke_methods-Join_example =
    invoke_methods-Join env (pos 1) tables 10 pending (table-IsValid pending) refl

invoke_all-append_example :
    invoke_all reported pending ≡ (invoke_all reported no_events >>= λ d. returned (pending ⊕ d))
invoke_all-append_example = invoke_all-append reported pending

drain_lem_example :
    ((drain counting no_events pending).1 ≡ no_events)
    × (((pending ≡ no_events) × ((drain counting no_events pending).0 ≡ none))
        ⊎ ((pending ≢ no_events) × ((drain counting no_events pending).0 ≡ some (0 ∷ []))))
unfolding zeros
drain_lem_example = drain_lem counting no_events pending counting-IsProtobuf
