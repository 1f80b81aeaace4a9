-- ===== src/Examples/Threads.antt =====
-- Examples on threads that call the manager: thread 0 adds an instance, and thread 1 runs a function
-- on it while thread 0 asks to kill it.
use jvm_toxcore_c.Base.{
  ℕ, ◌+◌, ◌≤◌, ◌≡◌, ◌≢◌, refl, none, some, [], ◌∷◌, pos, arith, false, ◌==◌, ==_iff,
}
use jvm_toxcore_c.Instances.{Manager, init, add, check_instance_number, contains, pop_back}
use jvm_toxcore_c.Instances.View.{view}
use jvm_toxcore_c.Instances.History.{adds, uses}
use jvm_toxcore_c.Instances.Locks.{
  Pc, idle, wants, inside, awaits_use, using, System, set_pc, set_lock, Step, asks, enters,
  has_added, use_passes, takes, Reach, start, later,
}
use jvm_toxcore_c.Instances.Locks.Owned.{IsLive}
use jvm_toxcore_c.Instances.Locks.Exclusion.{using_exclusive}
use jvm_toxcore_c.Instances.Locks.Progress.{GoesOn, no_deadlock}
use jvm_toxcore_c.Instances.Locks.Completion.{Returns, calls_return}
use jvm_toxcore_c.Instances.Locks.Ranks.{rank}
use jvm_toxcore_c.Examples.Tools.{env, slot}

abbrev both : ℕ → ℕ → ℕ × ℕ
both o e = (o + e, 0)

-- The table with the one instance.
abbrev one : Manager ℕ ℕ
one = record { instances = slot 10 5 ∷ []; locks = 1; freelist = [] }

abbrev pc0 : ℕ → Pc ℕ ℕ
pc0 = set_pc 0 idle (set_pc 0 (inside (adds 10 5)) (set_pc 0 (wants (adds 10 5)) (λ t. idle)))

-- The instance is there, and thread 1 uses it.
abbrev in_use : System ℕ ℕ
in_use = record {
  table = one;
  mutex = none;
  locks = set_lock (pos 1) (some 1) (λ n. none);
  pc = set_pc 1 (using (pos 1) both) (
      set_pc 1 (awaits_use (pos 1) both)
        (set_pc 1 (inside (uses (pos 1) both)) (set_pc 1 (wants (uses (pos 1) both)) pc0)));
}

in_use-Reach : Reach env in_use
unfolding init add check_instance_number contains pop_back
in_use-Reach =
    later
      (later
        (later
          (later
            (later
              (later (later start (omega arith) (asks 0 (adds 10 5) refl)) (omega arith)
                (enters 0 (adds 10 5) refl refl))
              (omega arith) (has_added 0 10 5 (pos 1, one) refl refl))
            (omega arith) (asks 1 (uses (pos 1) both) refl))
          (omega arith) (enters 1 (uses (pos 1) both) refl refl))
        (omega arith) (use_passes 1 (pos 1) both refl refl))
      (omega arith) (takes 1 (pos 1) both 10 5 refl refl refl)

using_exclusive_example : ◌≡◌ {A = ℕ} 1 1 × IsLive (view in_use.table (pos 1))
using_exclusive_example = using_exclusive env in_use 1 1 (pos 1) both both in_use-Reach refl refl

busy : in_use.pc 1 ≢ idle
busy h = cc

no_deadlock_example : (s' : System ℕ ℕ) × (step : Step env in_use s') × GoesOn step
no_deadlock_example = no_deadlock env in_use 1 in_use-Reach (omega arith) busy

-- Only threads 0 and 1 are in calls.
in_use-IsBelow : (u : ℕ) → 2 ≤ u → rank (in_use.pc u) ≡ 0
in_use-IsBelow u h =
    let not_one : (1 == u) ≡ false = ground (arith, ==_iff 1 u) in
    let not_zero : (0 == u) ≡ false = ground (arith, ==_iff 0 u) in rw (not_one, not_zero) refl

calls_return_example : Returns env in_use
calls_return_example = calls_return env 2 in_use in_use-Reach in_use-IsBelow (omega arith)
