-- ===== src/Instances/Locks/Progress.antt =====
-- Threads that wait for a mutex do not wait for one another in a circle.
use jvm_toxcore_c.Base.{
  ℕ, ◌+◌, ◌<◌, ◌^◌, ◌≡◌, ◌≢◌, refl, sym, ap, ◌∙◌, true, false, none, ℤ, ==ℤ_iff, inl, inr,
  Bool-cases, Option-cases, length,
}
use jvm_toxcore_c.Jni.{Env, Outcome, returned, fatal, undefined, Ensures}
use jvm_toxcore_c.Instances.{check_instance_number}
use jvm_toxcore_c.Instances.View.{view}
use jvm_toxcore_c.Instances.Operations.{kill-view, finalize-view}
use jvm_toxcore_c.Instances.Add.{add-Added}
use jvm_toxcore_c.Instances.Access.{live_cases, with_instance-live}
use jvm_toxcore_c.Instances.History.{adds, kills, finalizes, uses, run_on}
use jvm_toxcore_c.Instances.Locks.{
  Pc, idle, wants, inside, awaits_kill, awaits_use, using, leaving, System, Step, asks, enters,
  has_added, has_finalized, kill_refused, use_refused, kill_passes, use_passes, has_killed, takes,
  takes_null, has_used, leaves, Reach,
}
use jvm_toxcore_c.Instances.Locks.Owners.{true-false}
use jvm_toxcore_c.Instances.Locks.Owned.{holds_mutex, holds_lock, on_pair, IsSafe}
use jvm_toxcore_c.Instances.Locks.Exclusion.{Reach-IsSafe}

Ensures-some :
    {A : Type 0} (x : Outcome A) (P : A → Type 0) → Ensures x P → (a : A) × (x ≡ returned a)
Ensures-some (returned a) P h = (a, refl)
Ensures-some (fatal t) P h = absurd h
Ensures-some undefined P h = absurd h

-- The step of a thread that is in a call.
abbrev pub GoesOn : {O E : Type 0} {env : Env} {s s' : System O E} → Step env s s' → Type 0
GoesOn (asks t c at) = ⊥
GoesOn _ = Unit

module _ {O E : Type 0} (env : Env) (s : System O E) (v : IsSafe s) where
  -- A step other than the beginning of a call.
  abbrev CanStep : Type 0
  CanStep = (s' : System O E) × (step : Step env s s') × GoesOn step

  -- Who holds the mutex of an instance can go on.
  lock-CanStep : (w : ℕ) (n : ℤ) (p : Pc O E) → s.pc w ≡ p → holds_lock n p ≡ true → CanStep
  lock-CanStep w n (using k f) at h =
      let (o, e, seen) = v.pairs w k (ap (on_pair k) at ∙ (==ℤ_iff k k).1 refl) in
      let (r, ran) = Ensures-some _ _ (
        with_instance-live (run_on f) tt env k s.table o (f o e).0 e (f o e).1 tt env v.valid seen
          refl) in
      (_, has_used w k f r at ran, tt)
  lock-CanStep w n (leaving k) at h = (_, leaves w k at, tt)
  lock-CanStep w n idle at h = absurd (true-false (sym h))
  lock-CanStep w n (wants c) at h = absurd (true-false (sym h))
  lock-CanStep w n (inside c) at h = absurd (true-false (sym h))
  lock-CanStep w n (awaits_kill k) at h = absurd (true-false (sym h))
  lock-CanStep w n (awaits_use k f) at h = absurd (true-false (sym h))

  -- Who asks for the mutex of an instance gets it, or somebody who holds it can go on.
  awaited-CanStep : (n : ℤ) → (s.locks n ≡ none → CanStep) → CanStep
  awaited-CanStep n free = elim (Option-cases (s.locks n)) [
    | inl nobody ↦ free nobody
    | inr (w, held) ↦ lock-CanStep w n (s.pc w) refl ((v.instances n w).1 held)
  ]

  -- Who holds the manager's mutex can go on, or waits for somebody who can.
  mutex-CanStep :
      (u : ℕ) (p : Pc O E)
      → length s.table.instances + 1 < 2 ^ 31
      → s.pc u ≡ p
      → holds_mutex p ≡ true
      → CanStep
  mutex-CanStep u (inside (adds o e)) room at h =
      let (r, ran) = Ensures-some _ _ (add-Added o e s.table v.valid room) in
      (_, has_added u o e r at ran, tt)
  mutex-CanStep u (inside (finalizes n)) room at h =
      let (r, ran) = Ensures-some _ _ (finalize-view env n s.table v.valid) in
      (_, has_finalized u n r at ran, tt)
  mutex-CanStep u (inside (kills n)) room at h =
      elim (Bool-cases (check_instance_number env n true s.table).1) [
        | inl yes' ↦ (_, kill_passes u n at yes', tt)
        | inr no' ↦ (_, kill_refused u n at no', tt)
      ]
  mutex-CanStep u (inside (uses n f)) room at h =
      elim (Bool-cases (check_instance_number env n false s.table).1) [
        | inl yes' ↦ (_, use_passes u n f at yes', tt)
        | inr no' ↦ (_, use_refused u n f at no', tt)
      ]
  mutex-CanStep u (awaits_kill n) room at h = awaited-CanStep n λ free.
      let (r, ran) = Ensures-some _ _ (kill-view env n s.table v.valid) in
      (_, has_killed u n r at free ran, tt)
  mutex-CanStep u (awaits_use n f) room at h = awaited-CanStep n λ free.
      elim (live_cases (view s.table n)) [
        | inl (o, e, seen) ↦ (_, takes u n f o e at free seen, tt)
        | inr gone ↦ (_, takes_null u n f at free gone, tt)
      ]
  mutex-CanStep u idle room at h = absurd (true-false (sym h))
  mutex-CanStep u (wants c) room at h = absurd (true-false (sym h))
  mutex-CanStep u (using n f) room at h = absurd (true-false (sym h))
  mutex-CanStep u (leaving n) room at h = absurd (true-false (sym h))

  -- A thread that is in a call can go on, or waits for somebody who can.
  busy-CanStep :
      (t : ℕ) (p : Pc O E) → length s.table.instances + 1 < 2 ^ 31 → s.pc t ≡ p → p ≢ idle → CanStep
  busy-CanStep t idle room at busy = absurd (busy refl)
  busy-CanStep t (wants c) room at busy = elim (Option-cases s.mutex) [
    | inl free ↦ (_, enters t c at free, tt)
    | inr (u, held) ↦ mutex-CanStep u (s.pc u) room refl ((v.manager u).1 held)
  ]
  busy-CanStep t (inside c) room at busy = mutex-CanStep t (inside c) room at refl
  busy-CanStep t (awaits_kill n) room at busy = mutex-CanStep t (awaits_kill n) room at refl
  busy-CanStep t (awaits_use n f) room at busy = mutex-CanStep t (awaits_use n f) room at refl
  busy-CanStep t (using n f) room at busy = lock-CanStep t n (using n f) at ((==ℤ_iff n n).1 refl)
  busy-CanStep t (leaving n) room at busy = lock-CanStep t n (leaving n) at ((==ℤ_iff n n).1 refl)

module _ {O E : Type 0} (env : Env) where
  -- There is no deadlock: whatever state the threads get into, as long as some thread is in a call
  -- and a `jint` can hold one more number, a thread that is in a call can make a step. Functions that
  -- run on pairs are taken to return, and not to call the manager.
  pub no_deadlock :
      (s : System O E) (t : ℕ)
      → Reach env s
      → length s.table.instances + 1 < 2 ^ 31
      → s.pc t ≢ idle
      → (s' : System O E) × (step : Step env s s') × GoesOn step
  no_deadlock s t r room busy = busy-CanStep env s (Reach-IsSafe env s r) t (s.pc t) room refl busy
