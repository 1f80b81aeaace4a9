-- ===== src/Av/Construction.antt =====
-- `toxavNew`, `toxavKill` and `toxavFinalize` (ToxAv/lifecycle.cpp). An instance of toxav is made from
-- an instance of toxcore, so that two tables take part; `toxav_new` and the functions that register
-- the callbacks are parameters.
pub mod Outcomes
use jvm_toxcore_c.Base.{ℕ, Bool, true, false, Option, none, some, ℤ, pos, codes}
use jvm_toxcore_c.Jni.{Env, Outcome, returned, undefined, ◌>>=◌, ◌>>◌, tox4j_assert}
use jvm_toxcore_c.Instances.{Manager, add, with_instance, kill, finalize}
use jvm_toxcore_c.Errors.{av_subsystem, with_error_handling}
use jvm_toxcore_c.Errors.Av.Call.{ErrAvNew, av_new_error}
use jvm_toxcore_c.Av.Messages.{AvEvents, no_av_events}
use jvm_toxcore_c.Av.Dispatch.{AvKind, av_registered, set_av_callbacks}

module _ {Av : Type 0} (set : AvKind → Av → Av) where
  -- The success function of `toxavNew`.
  unfoldable pub av_created :
      Manager Av AvEvents → Option Av → Env → Outcome (ℤ × Env × Manager Av AvEvents)
  av_created m none env = tox4j_assert false (codes "toxav != nullptr") >> undefined
  av_created m (some av) env =
      add (some (set_av_callbacks set av_registered av)) (some no_av_events) m >>= λ r.
      returned (r.0, env, r.1)

-- The value-initialised result.
abbrev pub no_av_created : {Av : Type 0} → Manager Av AvEvents → Env → ℤ × Env × Manager Av AvEvents
no_av_created m env = (pos 0, env, m)

module _ {Tox Av V : Type 0} (set : AvKind → Av → Av) where
  -- What runs on the instance of toxcore; the table of toxav is part of its result.
  unfoldable pub av_new_on :
      (Tox → Option Av × ErrAvNew × Tox)
      → Manager Av AvEvents
      → Tox
      → V
      → Env
      → Outcome ((ℤ × Manager Av AvEvents) × Tox × V × Env)
  unfolding av_created
  av_new_on toxav_new m tox events env =
      let (av, error, tox') = toxav_new tox in
      with_error_handling av_subsystem av_new_error (av_created set m) (no_av_created m) env av
        error
      >>= λ r. returned ((r.0, r.2), tox', events, r.1)

  unfoldable pub av_new :
      (Tox → Option Av × ErrAvNew × Tox)
      → ℤ
      → Env
      → Manager Tox V
      → Manager Av AvEvents
      → Outcome ((ℤ × Manager Av AvEvents) × Env × Manager Tox V)
  unfolding av_new_on
  av_new toxav_new tox_number env core_m m =
      with_instance (av_new_on toxav_new m) (pos 0, m) env tox_number core_m

module _ {Av : Type 0} where
  unfoldable pub av_kill : ℤ → Env → Manager Av AvEvents → Outcome (Env × Manager Av AvEvents)
  av_kill n env m = kill env n m

  unfoldable pub av_finalize : ℤ → Env → Manager Av AvEvents → Outcome (Env × Manager Av AvEvents)
  av_finalize n env m = finalize env n m
