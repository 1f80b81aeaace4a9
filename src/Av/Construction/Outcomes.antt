-- ===== src/Av/Construction/Outcomes.antt =====
-- How `toxavNew` ends.
use mathlib.Core.Path.{subst}
use jvm_toxcore_c.Base.{
  ◌+◌, ◌^◌, ◌<◌, ◌≡◌, ◌≢◌, refl, sym, true, Option, some, ℤ, pos, ◌⊎◌, inl, inr, length,
}
use jvm_toxcore_c.Jni.{
  Env, exception_check, Outcome, returned, fatal, undefined, Ensures, Ensures-map,
}
use jvm_toxcore_c.Instances.{Manager, add}
use jvm_toxcore_c.Instances.Valid.{IsValid}
use jvm_toxcore_c.Instances.View.{live, view, update}
use jvm_toxcore_c.Instances.Access.{IsGone, live_cases, with_instance-live, with_instance-gone}
use jvm_toxcore_c.Instances.Add.{Added, add-Added}
use jvm_toxcore_c.Errors.{av_subsystem}
use jvm_toxcore_c.Errors.Av.Call.{ErrAvNew, av_new_error, av_new-IsFaithful}
use jvm_toxcore_c.Errors.Results.{with_error_handling_lem}
use jvm_toxcore_c.Av.Messages.{AvEvents, no_av_events}
use jvm_toxcore_c.Av.Dispatch.{AvKind, set_av_callbacks}
use jvm_toxcore_c.Av.Construction.{av_created, no_av_created, av_new_on, av_new}

Ensures-value :
    {A : Type 0} (x : Outcome A) (P : A → Type 0) → Ensures x P → (a : A) × (x ≡ returned a) × P a
Ensures-value (returned a) P h = (a, refl, h)
Ensures-value (fatal t) P h = absurd h
Ensures-value undefined P h = absurd h

-- An instance on which each of the six callbacks was set, once.
abbrev pub with_av_callbacks : {Av : Type 0} → (AvKind → Av → Av) → Av → Av
with_av_callbacks set av = set AvKind.video_receive_frame (
    set AvKind.video_bit_rate (
      set AvKind.call_state
        (set AvKind.call (set AvKind.audio_receive_frame (set AvKind.audio_bit_rate av)))))

module _ {Tox Av : Type 0} (set : AvKind → Av → Av)
    (toxav_new : Tox → Option Av × ErrAvNew × Tox) where
  -- With OK: a number that was not live is now live with the new instance, each of its six callbacks
  -- set once,
  -- and no events; with another code: 0 and an exception, and the table of toxav is as it was.
  abbrev pub AvMade : Manager Av AvEvents → Env → Tox → ℤ × Manager Av AvEvents → Env → Type 0
  AvMade m env tox r env' =
      (((toxav_new tox).1 ≡ ErrAvNew.ok)
        × (env' ≡ env)
        × ((av : Av) × ((toxav_new tox).0 ≡ some av)
            × Added (with_av_callbacks set av) no_av_events m r))
      ⊎ (((toxav_new tox).1 ≢ ErrAvNew.ok) × (r ≡ (pos 0, m)) × (exception_check env' ≡ true))

  -- toxav gives an instance whenever it reports OK.
  abbrev pub IsDocumented : Type 0
  IsDocumented =
      (tox : Tox) → (toxav_new tox).1 ≡ ErrAvNew.ok → (av : Av) × ((toxav_new tox).0 ≡ some av)

module _ {Tox Av V : Type 0} (set : AvKind → Av → Av)
    (toxav_new : Tox → Option Av × ErrAvNew × Tox) where
  av_new_on-Made :
      (env : Env) (m : Manager Av AvEvents) (tox : Tox) (events : V)
      → IsDocumented set toxav_new
      → IsValid m
      → length m.instances + 1 < 2 ^ 31
      → (r : ℤ × Manager Av AvEvents) × (env' : Env) × (av_new_on set toxav_new m tox events env
          ≡ returned (r, (toxav_new tox).2, events, env'))
        × AvMade set toxav_new m env tox r env'
  unfolding av_new_on av_created set_av_callbacks
  av_new_on-Made env m tox events documented v room =
      let (av, error, tox') = toxav_new tox in
      elim (with_error_handling_lem av_subsystem av_new_error ErrAvNew.ok ErrAvNew.other
        (av_created set m) (no_av_created m) env av error av_new-IsFaithful) [
          | inl (won, ran) ↦
              let (a, given) = documented tox won in
              let x = add (some (with_av_callbacks set a)) (some no_av_events) m in
              let (r, added, new) =
                Ensures-value x _ (add-Added (with_av_callbacks set a) no_av_events m v room) in
              (r, env, rw ran (rw given (rw added refl)), inl (won, refl, (a, given, new)))
          | inr (lost, (env', thrown, ran)) ↦
              ((pos 0, m), env', rw ran refl, inr (lost, refl, thrown))
        ]

  -- `toxavNew` returns whenever toxav is as documented and the table of toxav has room: on a number
  -- of toxcore that is not live it returns 0 with an exception, and both tables are as they were; on a
  -- live one it makes an instance if toxav reports OK, and throws otherwise, while the instance of
  -- toxcore is what toxav left of it, with its events, and every other one is as it was.
  pub av_new-outcome :
      (n : ℤ) (env : Env) (core_m : Manager Tox V) (m : Manager Av AvEvents)
      → IsDocumented set toxav_new
      → IsValid core_m
      → IsValid m
      → length m.instances + 1 < 2 ^ 31
      → Ensures (av_new set toxav_new n env core_m m) λ r.
        (IsGone (view core_m n)
          × (r.0 ≡ (pos 0, m))
          × (exception_check r.1 ≡ true)
          × (r.2 ≡ core_m))
        ⊎ (tox : Tox) × (events : V) × (view core_m n ≡ live tox events)
          × AvMade set toxav_new m env tox r.0 r.1
          × ((j : ℤ) → view r.2 j ≡ update n (λ _. live (toxav_new tox).2 events) (view core_m) j)
  unfolding av_new
  av_new-outcome n env core_m m documented core_v v room = elim (live_cases (view core_m n)) [
    | inl (tox, events, seen) ↦
        let (r, env', ran, made) = av_new_on-Made env m tox events documented v room in
        Ensures-map (av_new set toxav_new n env core_m m) _ _
          (with_instance-live (av_new_on set toxav_new m) (pos 0, m) env n core_m tox
            (toxav_new tox).2 events events r env' core_v seen ran)
          λ q a. inr (
            tox,
            events,
            seen,
            subst (λ p. AvMade set toxav_new m env tox p q.1) (sym a.0)
                (subst (AvMade set toxav_new m env tox r) (sym a.1) made),
            a.3,
          )
    | inr gone ↦
        Ensures-map (av_new set toxav_new n env core_m m) _ _
          (with_instance-gone (av_new_on set toxav_new m) (pos 0, m) env n core_m core_v gone)
          λ q a. inl (gone, a.0, a.1, a.2)
  ]
