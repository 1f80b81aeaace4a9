-- ===== src/Core/Dispatch/Append.antt =====
-- Runs of the callbacks of tox/common.h on events that are pending already.
use mathlib.Core.List.{append-nil, append_assoc}
use jvm_toxcore_c.Base.{◌≤◌, ◌≡◌, List, [], ◌∷◌, length, inl, inr, Option-cases}
use jvm_toxcore_c.Jni.{returned, ◌>>=◌}
use jvm_toxcore_c.Jni.Appends.{append_then}
use jvm_toxcore_c.Core.Messages.{Events, no_events, ◌⊕◌}
use jvm_toxcore_c.Core.Callbacks.{read, public_key_size}
use jvm_toxcore_c.Core.Dispatch.{Event, invoke, invoke_all}

pub ⊕_assoc : (a b c : Events) → a ⊕ b ⊕ c ≡ a ⊕ (b ⊕ c)
⊕_assoc a b c = simp append_assoc

pub ⊕-no_events : (a : Events) → a ⊕ no_events ≡ a
⊕-no_events a = simp append-nil

pub invoke-append :
    (c : Event) (e : Events) → invoke c e ≡ (invoke c no_events >>= λ d. returned (e ⊕ d))
unfolding invoke read
invoke-append (Event.self_connection_status a) e = simp append-nil
invoke-append (Event.friend_request a b) e = elim (Option-cases (read public_key_size a)) [
  | inl short ↦ rw (short, invoke)
  | inr (key, long) ↦ rw (long, invoke) (simp append-nil)
]
invoke-append _ e = simp append-nil

-- A run of callbacks appends what it would collect from scratch.
pub invoke_all-append :
    (cs : List Event) (e : Events)
    → invoke_all cs e ≡ (invoke_all cs no_events >>= λ d. returned (e ⊕ d))
unfolding invoke_all
invoke_all-append [] e = simp append-nil
invoke_all-append (c ∷ cs) e = rw (invoke-append c e) (
    append_then ◌⊕◌ e (invoke c no_events) (invoke_all cs no_events) (invoke_all cs) ⊕_assoc
      (invoke_all-append cs))

-- toxcore passes a whole public key with a friend request.
abbrev pub HasKey : Event → Type 0
HasKey (Event.friend_request key message) = public_key_size ≤ length key
HasKey _ = Unit
