-- ===== src/Instances/Locks.antt =====
-- The mutexes of util/instance_manager.h: threads that call the manager at the same time. A step is
-- what one thread does up to the next mutex: while a thread holds the manager's mutex no other one
-- sees the table, and while it holds the mutex of an instance no other one sees the pair.
pub mod Owners
pub mod Owned
pub mod Exclusion
pub mod Progress
pub mod Ranks
pub mod Completion
use jvm_toxcore_c.Base.{
  length, ◌+◌, ◌<◌, ◌^◌, ℕ, ◌≡◌, Bool, true, false, Option, none, some, ℤ, ◌==ℤ◌, ◌==◌,
  if◌then◌else◌,
}
use jvm_toxcore_c.Jni.{Env, returned}
use jvm_toxcore_c.Instances.{
  Manager, init, add, kill, finalize, with_instance, check_instance_number,
}
use jvm_toxcore_c.Instances.View.{live, view}
use jvm_toxcore_c.Instances.Access.{IsGone}
use jvm_toxcore_c.Instances.History.{Call, adds, kills, finalizes, uses, run_on}

-- Where a thread is.
pub data Pc (O E : Type 0) : Type 0 where
  idle : Pc O E
  -- it asks for the manager's mutex
  wants : Call O E → Pc O E
  -- it holds it
  inside : Call O E → Pc O E
  -- it holds it, and asks for the mutex of the instance, whose number was checked
  awaits_kill : ℤ → Pc O E
  awaits_use : ℤ → (O → E → O × E) → Pc O E
  -- it holds the mutex of the instance alone, and runs the function on the pair
  using : ℤ → (O → E → O × E) → Pc O E
  -- it holds the mutex of the instance alone, which has no pair
  leaving : ℤ → Pc O E

-- The table, who holds the manager's mutex and that of each instance, and the threads.
pub record System (O E : Type 0) : Type 0 where
  pub table : Manager O E
  pub mutex : Option ℕ
  pub locks : ℤ → Option ℕ
  pub pc : ℕ → Pc O E

abbrev pub set_pc : {O E : Type 0} → ℕ → Pc O E → (ℕ → Pc O E) → ℕ → Pc O E
set_pc t p pcs u = if t == u then p else pcs u

abbrev pub set_lock : ℤ → Option ℕ → (ℤ → Option ℕ) → ℤ → Option ℕ
set_lock n holder locks k = if n ==ℤ k then holder else locks k

abbrev pub start_system : {O E : Type 0} → System O E
start_system = record { table = init; mutex = none; locks = λ n. none; pc = λ t. idle }

-- The steps of a thread, in the order of the code. A call begins with the environment `env`; the
-- exception it leaves is its own thread's, and is not kept here.
pub data Step {O E : Type 0} (env : Env) (s : System O E) : System O E → Type 0 where
  asks :
      (t : ℕ) (c : Call O E)
      → s.pc t ≡ idle
      → Step env s (record s { pc = set_pc t (wants c) s.pc })
  enters :
      (t : ℕ) (c : Call O E)
      → s.pc t ≡ wants c
      → s.mutex ≡ none
      → Step env s (record s { mutex = some t; pc = set_pc t (inside c) s.pc })
  has_added :
      (t : ℕ) (o : O) (e : E) (r : ℤ × Manager O E)
      → s.pc t ≡ inside (adds o e)
      → add (some o) (some e) s.table ≡ returned r
      → Step env s (record s { table = r.1; mutex = none; pc = set_pc t idle s.pc })
  has_finalized :
      (t : ℕ) (n : ℤ) (r : Env × Manager O E)
      → s.pc t ≡ inside (finalizes n)
      → finalize env n s.table ≡ returned r
      → Step env s (record s { table = r.1; mutex = none; pc = set_pc t idle s.pc })
  -- The number does not pass the check, and there is nothing to kill, or to use.
  kill_refused :
      (t : ℕ) (n : ℤ)
      → s.pc t ≡ inside (kills n)
      → (check_instance_number env n true s.table).1 ≡ false
      → Step env s (record s { mutex = none; pc = set_pc t idle s.pc })
  use_refused :
      (t : ℕ) (n : ℤ) (f : O → E → O × E)
      → s.pc t ≡ inside (uses n f)
      → (check_instance_number env n false s.table).1 ≡ false
      → Step env s (record s { mutex = none; pc = set_pc t idle s.pc })
  kill_passes :
      (t : ℕ) (n : ℤ)
      → s.pc t ≡ inside (kills n)
      → (check_instance_number env n true s.table).1 ≡ true
      → Step env s (record s { pc = set_pc t (awaits_kill n) s.pc })
  use_passes :
      (t : ℕ) (n : ℤ) (f : O → E → O × E)
      → s.pc t ≡ inside (uses n f)
      → (check_instance_number env n false s.table).1 ≡ true
      → Step env s (record s { pc = set_pc t (awaits_use n f) s.pc })
  -- Both mutexes are held while the pair is destroyed.
  has_killed :
      (t : ℕ) (n : ℤ) (r : Env × Manager O E)
      → s.pc t ≡ awaits_kill n
      → s.locks n ≡ none
      → kill env n s.table ≡ returned r
      → Step env s (record s { table = r.1; mutex = none; pc = set_pc t idle s.pc })
  -- The pointers are taken, and the manager's mutex is released before the function runs.
  takes :
      (t : ℕ) (n : ℤ) (f : O → E → O × E) (o : O) (e : E)
      → s.pc t ≡ awaits_use n f
      → s.locks n ≡ none
      → view s.table n ≡ live o e
      → Step env s (record s {
        mutex = none;
        locks = set_lock n (some t) s.locks;
        pc = set_pc t (using n f) s.pc;
      })
  takes_null :
      (t : ℕ) (n : ℤ) (f : O → E → O × E)
      → s.pc t ≡ awaits_use n f
      → s.locks n ≡ none
      → IsGone (view s.table n)
      → Step env s (record s {
        mutex = none;
        locks = set_lock n (some t) s.locks;
        pc = set_pc t (leaving n) s.pc;
      })
  -- The function is taken to return, and not to call the manager. No other thread saw the pair, which
  -- gets its new contents when the mutex is released.
  has_used :
      (t : ℕ) (n : ℤ) (f : O → E → O × E) (r : Unit {0} × Env × Manager O E)
      → s.pc t ≡ using n f
      → with_instance (run_on f) tt env n s.table ≡ returned r
      → Step env s
          (record s { table = r.2; locks = set_lock n none s.locks; pc = set_pc t idle s.pc })
  leaves :
      (t : ℕ) (n : ℤ)
      → s.pc t ≡ leaving n
      → Step env s (record s { locks = set_lock n none s.locks; pc = set_pc t idle s.pc })

-- What a run of the threads can lead to, as long as a `jint` can hold every number.
pub data Reach {O E : Type 0} (env : Env) : System O E → Type 0 where
  start : Reach env start_system
  later :
      {s s' : System O E}
      → Reach env s
      → length s.table.instances + 1 < 2 ^ 31
      → Step env s s'
      → Reach env s'
