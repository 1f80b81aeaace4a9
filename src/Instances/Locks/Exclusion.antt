-- ===== src/Instances/Locks/Exclusion.antt =====
-- Threads that use instances do not disturb one another.
use mathlib.Core.Path.{subst}
use jvm_toxcore_c.Base.{
  ℕ, ◌+◌, ◌<◌, ◌^◌, ◌≡◌, refl, sym, ap, ◌∙◌, true, false, none, some, some-injective, ℤ, ◌==ℤ◌,
  ==ℤ_iff, inl, inr, Bool-cases, length,
}
use jvm_toxcore_c.Jni.{Env, returned}
use jvm_toxcore_c.Instances.{Manager, init, add, kill, finalize, with_instance}
use jvm_toxcore_c.Instances.View.{live, view}
use jvm_toxcore_c.Instances.Operations.{kill-view, finalize-view}
use jvm_toxcore_c.Instances.Add.{add-Added}
use jvm_toxcore_c.Instances.Access.{with_instance-live}
use jvm_toxcore_c.Instances.History.{adds, finalizes, run_on}
use jvm_toxcore_c.Instances.Locks.{
  Pc, idle, wants, inside, awaits_kill, awaits_use, using, leaving, System, set_pc, set_lock,
  start_system, Step, asks, enters, has_added, has_finalized, kill_refused, use_refused,
  kill_passes, use_passes, has_killed, takes, takes_null, has_used, leaves, Reach, start, later,
}
use jvm_toxcore_c.Instances.Locks.Owners.{
  IsOwned, IsOwned-acquire, IsOwned-release, IsOwned-keep, true-false, clash,
}
use jvm_toxcore_c.Instances.Locks.Owned.{
  holds_mutex, holds_lock, on_pair, IsLive, IsSafe, Ensures-at, locks-take, locks-release,
  IsSafe-quiet, IsSafe-change, on_pair-lock, IsLive-live, IsLive-finalized, IsLive-killed,
  pairs-set,
}

module _ {O E : Type 0} (env : Env) (s : System O E) (v : IsSafe s) where
  -- A pair in use is not that of a number whose mutex is free.
  other_number :
      (n : ℤ) (u : ℕ) (k : ℤ) → s.locks n ≡ none → on_pair k (s.pc u) ≡ true → (n ==ℤ k) ≡ false
  other_number n u k free h = elim (Bool-cases (n ==ℤ k)) [
    | inl same ↦ clash (
        sym (ap s.locks (sym ((==ℤ_iff n k).0 same)) ∙ free)
        ∙ (v.instances k u).0 (on_pair-lock k (s.pc u) h))
    | inr other ↦ other
  ]

  added-IsSafe :
      (t : ℕ) (o : O) (e : E) (r : ℤ × Manager O E)
      → length s.table.instances + 1 < 2 ^ 31
      → s.pc t ≡ inside (adds o e)
      → add (some o) (some e) s.table ≡ returned r
      → IsSafe (record s { table = r.1; mutex = none; pc = set_pc t idle s.pc })
  added-IsSafe t o e r room at ran =
      let a = Ensures-at _ _ r ran (add-Added o e s.table v.valid room) in
      IsSafe-change s v t idle r.1 a.0 (λ n. sym (ap (holds_lock n) at)) (λ n. refl)
        (ap holds_mutex at) refl
        λ u n h. subst IsLive (sym (a.2 n)) (IsLive-live r.0 n o e (view s.table) (v.pairs u n h))

  finalized-IsSafe :
      (t : ℕ) (n : ℤ) (r : Env × Manager O E)
      → s.pc t ≡ inside (finalizes n)
      → finalize env n s.table ≡ returned r
      → IsSafe (record s { table = r.1; mutex = none; pc = set_pc t idle s.pc })
  finalized-IsSafe t n r at ran =
      let a = Ensures-at _ _ r ran (finalize-view env n s.table v.valid) in
      IsSafe-change s v t idle r.1 a.0 (λ n. sym (ap (holds_lock n) at)) (λ n. refl)
        (ap holds_mutex at) refl
        λ u k h. subst IsLive (sym (a.1 k)) (IsLive-finalized n k (view s.table) (v.pairs u k h))

  killed-IsSafe :
      (t : ℕ) (n : ℤ) (r : Env × Manager O E)
      → s.pc t ≡ awaits_kill n
      → s.locks n ≡ none
      → kill env n s.table ≡ returned r
      → IsSafe (record s { table = r.1; mutex = none; pc = set_pc t idle s.pc })
  killed-IsSafe t n r at free ran =
      let a = Ensures-at _ _ r ran (kill-view env n s.table v.valid) in
      IsSafe-change s v t idle r.1 a.0 (λ n. sym (ap (holds_lock n) at)) (λ n. refl)
        (ap holds_mutex at) refl
        λ u k h.
          subst IsLive (sym (a.1 k))
            (IsLive-killed n k (view s.table) (other_number n u k free h) (v.pairs u k h))

  used-IsSafe :
      (t : ℕ) (n : ℤ) (f : O → E → O × E) (r : Unit {0} × Env × Manager O E)
      → s.pc t ≡ using n f
      → with_instance (run_on f) tt env n s.table ≡ returned r
      → IsSafe (record s { table = r.2; locks = set_lock n none s.locks; pc = set_pc t idle s.pc })
  used-IsSafe t n f r at ran =
      let (o, e, seen) = v.pairs t n (ap (on_pair n) at ∙ (==ℤ_iff n n).1 refl) in
      let a = Ensures-at _ _ r ran (
        with_instance-live (run_on f) tt env n s.table o (f o e).0 e (f o e).1 tt env v.valid seen
          refl) in
      record {
        valid = a.2;
        manager = IsOwned-keep holds_mutex t idle s.pc s.mutex v.manager (sym (ap holds_mutex at));
        instances =
            locks-release n t idle s.pc s.locks v.instances (λ k. ap (holds_lock k) at) (λ k. refl);
        pairs =
            pairs-set t idle s.pc r.2 (λ k h. absurd (true-false (sym h)))
              λ u k h.
                subst IsLive (sym (a.3 k))
                  (IsLive-live n k (f o e).0 (f o e).1 (view s.table) (v.pairs u k h));
      }

  -- The mutex of an instance is taken, and the manager's is released.
  taken-IsSafe :
      (t : ℕ) (n : ℤ) (f : O → E → O × E) (p : Pc O E)
      → s.pc t ≡ awaits_use n f
      → s.locks n ≡ none
      → holds_mutex p ≡ false
      → ((k : ℤ) → holds_lock k p ≡ (n ==ℤ k))
      → ((k : ℤ) → on_pair k p ≡ true → IsLive (view s.table k))
      → IsSafe
          (record s { mutex = none; locks = set_lock n (some t) s.locks; pc = set_pc t p s.pc })
  taken-IsSafe t n f p at free now after live' = record {
    valid = v.valid;
    manager = IsOwned-release holds_mutex t p s.pc s.mutex v.manager (ap holds_mutex at) now;
    instances = locks-take n t p s.pc s.locks v.instances free (λ k. ap (holds_lock k) at) after;
    pairs = pairs-set t p s.pc s.table live' v.pairs;
  }

  left-IsSafe :
      (t : ℕ) (n : ℤ)
      → s.pc t ≡ leaving n
      → IsSafe (record s { locks = set_lock n none s.locks; pc = set_pc t idle s.pc })
  left-IsSafe t n at = record {
    valid = v.valid;
    manager = IsOwned-keep holds_mutex t idle s.pc s.mutex v.manager (sym (ap holds_mutex at));
    instances =
        locks-release n t idle s.pc s.locks v.instances (λ k. ap (holds_lock k) at) (λ k. refl);
    pairs = pairs-set t idle s.pc s.table (λ k h. absurd (true-false (sym h))) v.pairs;
  }

start-IsSafe : {O E : Type 0} → IsSafe (start_system {O = O} {E = E})
unfolding init
start-IsSafe {O} {E} = record {
  valid = record { counted = refl; paired = tt; freed = tt; distinct = tt };
  manager = λ u. (λ h. absurd (true-false (sym h)), λ h. clash h);
  instances = λ n u. (λ h. absurd (true-false (sym h)), λ h. clash h);
  pairs = λ u n h. absurd (true-false (sym h));
}

module _ {O E : Type 0} (env : Env) where
  Step-IsSafe :
      (s s' : System O E)
      → length s.table.instances + 1 < 2 ^ 31
      → Step env s s'
      → IsSafe s
      → IsSafe s'
  Step-IsSafe s _ room (asks t c at) v =
      IsSafe-quiet s v t (wants c) s.mutex (λ n. sym (ap (holds_lock n) at)) (λ n. refl)
        (IsOwned-keep holds_mutex t (wants c) s.pc s.mutex v.manager (sym (ap holds_mutex at)))
  Step-IsSafe s _ room (enters t c at free) v =
      IsSafe-quiet s v t (inside c) (some t) (λ n. sym (ap (holds_lock n) at)) (λ n. refl)
        (IsOwned-acquire holds_mutex t (inside c) s.pc
          (subst (λ holder. IsOwned holds_mutex holder s.pc) free v.manager) refl)
  Step-IsSafe s _ room (has_added t o e r at ran) v = added-IsSafe env s v t o e r room at ran
  Step-IsSafe s _ room (has_finalized t n r at ran) v = finalized-IsSafe env s v t n r at ran
  Step-IsSafe s _ room (kill_refused t n at failed) v =
      IsSafe-quiet s v t idle none (λ n. sym (ap (holds_lock n) at)) (λ n. refl)
        (IsOwned-release holds_mutex t idle s.pc s.mutex v.manager (ap holds_mutex at) refl)
  Step-IsSafe s _ room (use_refused t n f at failed) v =
      IsSafe-quiet s v t idle none (λ n. sym (ap (holds_lock n) at)) (λ n. refl)
        (IsOwned-release holds_mutex t idle s.pc s.mutex v.manager (ap holds_mutex at) refl)
  Step-IsSafe s _ room (kill_passes t n at passed) v =
      IsSafe-quiet s v t (awaits_kill n) s.mutex (λ n. sym (ap (holds_lock n) at)) (λ n. refl)
        (IsOwned-keep holds_mutex t (awaits_kill n) s.pc s.mutex v.manager
          (sym (ap holds_mutex at)))
  Step-IsSafe s _ room (use_passes t n f at passed) v =
      IsSafe-quiet s v t (awaits_use n f) s.mutex (λ n. sym (ap (holds_lock n) at)) (λ n. refl)
        (IsOwned-keep holds_mutex t (awaits_use n f) s.pc s.mutex v.manager
          (sym (ap holds_mutex at)))
  Step-IsSafe s _ room (has_killed t n r at free ran) v = killed-IsSafe env s v t n r at free ran
  Step-IsSafe s _ room (takes t n f o e at free seen) v =
      taken-IsSafe env s v t n f (using n f) at free refl (λ k. refl)
        λ k h. (o, e, subst (λ j. view s.table j ≡ live o e) ((==ℤ_iff n k).0 h) seen)
  Step-IsSafe s _ room (takes_null t n f at free gone) v =
      taken-IsSafe env s v t n f (leaving n) at free refl (λ k. refl)
        λ k h. absurd (true-false (sym h))
  Step-IsSafe s _ room (has_used t n f r at ran) v = used-IsSafe env s v t n f r at ran
  Step-IsSafe s _ room (leaves t n at) v = left-IsSafe env s v t n at

  pub Reach-IsSafe : (s : System O E) → Reach env s → IsSafe s
  Reach-IsSafe _ start = start-IsSafe
  Reach-IsSafe s' (later {s} r room step) = Step-IsSafe s s' room step (Reach-IsSafe s r)

  -- However the steps of the threads interleave, as long as a `jint` can hold every number, no two
  -- threads run a function on one instance at the same time, and the pair on which a thread runs one
  -- is live: it was not destroyed meanwhile.
  pub using_exclusive :
      (s : System O E) (u v : ℕ) (n : ℤ) (f g : O → E → O × E)
      → Reach env s
      → s.pc u ≡ using n f
      → s.pc v ≡ using n g
      → (u ≡ v) × IsLive (view s.table n)
  using_exclusive s u v n f g r at at' =
      let safe = Reach-IsSafe s r in
      let self : (n ==ℤ n) ≡ true = (==ℤ_iff n n).1 refl in
      (
        some-injective u v (
            sym ((safe.instances n u).0 (ap (holds_lock n) at ∙ self))
            ∙ (safe.instances n v).0 (ap (holds_lock n) at' ∙ self)),
        safe.pairs u n (ap (on_pair n) at ∙ self),
      )
