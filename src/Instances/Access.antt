-- ===== src/Instances/Access.antt =====
-- `with_instance` of util/instance_manager.h, on live numbers and on others.
use mathlib.Core.Path.{subst}
use jvm_toxcore_c.Base.{
  ℕ, suc, ◌≡◌, refl, sym, ap, ◌∙◌, Text, true, false, Option, none, some, ℤ, pos, get_elem?,
  is_some, arith, ◌⊎◌, inl, inr, Bool-cases, get_elem?-lt, All-get,
}
use jvm_toxcore_c.Jni.{Env, exception_check, Outcome, returned, fatal, undefined, ◌>>=◌, Ensures}
use jvm_toxcore_c.Jni.Exceptions.{throw_tox_killed_exception-pending}
use jvm_toxcore_c.Instances.{
  InstancePointers, Manager, empty, check_instance_number, enter, with_instance,
}
use jvm_toxcore_c.Instances.Valid.{IsPaired, IsValid}
use jvm_toxcore_c.Instances.View.{Status, live, dead, vacant, free, of_pointers, view, update}
use jvm_toxcore_c.Instances.Lookup.{
  IsCurrent, check-IsCurrent, IsCurrent-check, check-view, write, write-IsValid,
}
use jvm_toxcore_c.Instances.Operations.{update_current}

-- The function that is run on the pair: it may change both, throw, or not return.
abbrev pub Func : Type 0 → Type 0 → Type 0 → Type 0
Func O E A = O → E → Env → Outcome (A × O × E × Env)

module _ {O E : Type 0} where
  -- A status that is not live.
  abbrev pub IsGone : Status O E → Type 0
  IsGone (live o e) = ⊥
  IsGone _ = Unit

  pub live_cases : (s : Status O E) → ((o : O) × (e : E) × (s ≡ live o e)) ⊎ IsGone s
  live_cases (live o e) = inl (o, e, refl)
  live_cases vacant = inr tt
  live_cases free = inr tt
  live_cases dead = inr tt

  -- The slot of a number that passes the check.
  slot-view :
      (m : Manager O E) (i : ℕ)
      → IsValid m
      → IsCurrent m i
      → (p : InstancePointers O E) × (get_elem? m.instances i ≡ some p)
        × IsPaired p
        × (view m (pos (suc i)) ≡ of_pointers p.object_p p.events_p)
  slot-view m i v c =
      let (p, at) = get_elem?-lt m.instances i c.bounded in
      (p, at, All-get IsPaired m.instances i p v.paired at, rw c.listed (rw at))

  -- A live number passes the check.
  live-IsCurrent :
      (env : Env) (n : ℤ) (m : Manager O E) (o : O) (e : E)
      → IsValid m
      → view m n ≡ live o e
      → (i : ℕ) × (n ≡ pos (suc i)) × IsCurrent m i
  live-IsCurrent env n m o e v seen = elim (Bool-cases (check_instance_number env n false m).1) [
    | inl proceed ↦ check-IsCurrent env n false m proceed
    | inr refused ↦ absurd (not_live (check-view env n false m v refused))
  ]
    where
      not_live : (view m n ≡ vacant) ⊎ (view m n ≡ free) → ⊥
      not_live (inl h) = cc
      not_live (inr h) = cc

module _ {O E A : Type 0} where
  enter-gone :
      (func : Func O E A) (default : A) (env : Env) (n : ℤ) (m : Manager O E)
      (p : InstancePointers O E)
      → IsPaired p
      → IsGone (of_pointers p.object_p p.events_p)
      → Ensures
          (enter func default env n m p)
          λ r. (r.0 ≡ default) × (exception_check r.1 ≡ true) × (r.2 ≡ m)
  unfolding enter
  enter-gone func default env n m p h gone = paired p.object_p p.events_p h gone
    where
      paired :
          (o : Option O) (e : Option E)
          → is_some o ≡ is_some e
          → IsGone (of_pointers o e)
          → Ensures
              (enter func default env n m (record { object_p = o; events_p = e }))
              λ r. (r.0 ≡ default) × (exception_check r.1 ≡ true) × (r.2 ≡ m)
      paired none none h g = grind (arith, throw_tox_killed_exception-pending)
      paired none (some e) h g = cc
      paired (some o) none h g = cc
      paired (some o) (some e) h g = absurd g

  -- For a number that is not live `with_instance` returns the default, leaves an exception pending
  -- and does not run the function; the table is as it was. The virtual machine has the two exception
  -- classes that the code throws without a check of their lookup.
  pub with_instance-gone :
      (func : Func O E A) (default : A) (env : Env) (n : ℤ) (m : Manager O E)
      → IsValid m
      → IsGone (view m n)
      → Ensures
          (with_instance func default env n m)
          λ r. (r.0 ≡ default) × (exception_check r.1 ≡ true) × (r.2 ≡ m)
  unfolding with_instance
  with_instance-gone func default env n m v gone =
      elim (Bool-cases (check_instance_number env n false m).1) [
        | inl proceed ↦
            let (i, e, c) = check-IsCurrent env n false m proceed in
            subst
              (λ k.
                IsGone (view m k)
                → Ensures (with_instance func default env k m)
                    λ r. (r.0 ≡ default) × (exception_check r.1 ≡ true) × (r.2 ≡ m))
              (sym e)
              (λ g.
                let (p, at, pair, seen) = slot-view m i v c in
                rw (IsCurrent-check env i false m c, with_instance)
                  (rw (at, with_instance)
                    (rw (IsCurrent-check env i false m c)
                      (enter-gone func default env (pos (suc i)) m p pair (subst IsGone seen g)))))
              gone
        | inr refused ↦
            rw (refused, with_instance)
              (enter-gone func default (check_instance_number env n false m).0 n m empty refl tt)
      ]

  -- What a call on the live number `n` returns and leaves behind, when the function returned `a`
  -- and left `o'`, `e'` and `env'`.
  abbrev pub Ran : A → O → E → Env → ℤ → Manager O E → A × Env × Manager O E → Type 0
  Ran a o' e' env' n m r =
      (r.0 ≡ a)
      × (r.1 ≡ env')
      × IsValid r.2
      × ((j : ℤ) → view r.2 j ≡ update n (λ _. live o' e') (view m) j)

  with_instance-slot :
      (func : Func O E A) (default : A) (env : Env) (i : ℕ) (m : Manager O E) (x : Option O)
      (y : Option E) (o o' : O) (e e' : E) (a : A) (env' : Env)
      → IsCurrent m i
      → get_elem? m.instances i ≡ some (record { object_p = x; events_p = y })
      → of_pointers x y ≡ live o e
      → func o e env ≡ returned (a, o', e', env')
      → with_instance func default env (pos (suc i)) m
        ≡ returned (a, env', write m i (record { object_p = some o'; events_p = some e' }))
  unfolding with_instance
  with_instance-slot func default env i m none y o o' e e' a env' c at seen ran = cc
  with_instance-slot func default env i m (some x) none o o' e e' a env' c at seen ran = cc
  with_instance-slot func default env i m (some x) (some y) o o' e e' a env' c at seen ran =
      ground (arith, IsCurrent-check env i false m c)

  with_instance_slot-run :
      (func : Func O E A) (default : A) (env : Env) (i : ℕ) (m : Manager O E) (x : Option O)
      (y : Option E) (o : O) (e : E)
      → IsCurrent m i
      → get_elem? m.instances i ≡ some (record { object_p = x; events_p = y })
      → of_pointers x y ≡ live o e
      → with_instance func default env (pos (suc i)) m ≡ (
          func o e env >>= λ r.
          returned (r.0, r.3, write m i (record { object_p = some r.1; events_p = some r.2 })))
  unfolding with_instance
  with_instance_slot-run func default env i m none y o e c at seen = cc
  with_instance_slot-run func default env i m (some x) none o e c at seen = cc
  with_instance_slot-run func default env i m (some x) (some y) o e c at seen =
      ground (arith, IsCurrent-check env i false m c)

  -- On a live number the function is run, and only if it returns there is anything after it.
  with_instance-run :
      (func : Func O E A) (default : A) (env : Env) (n : ℤ) (m : Manager O E) (o : O) (e : E)
      → IsValid m
      → view m n ≡ live o e
      → (rest : A × O × E × Env → Outcome (A × Env × Manager O E)) × (with_instance func default env
            n m
          ≡ (func o e env >>= rest))
  with_instance-run func default env n m o e v seen =
      let (i, number, c) = live-IsCurrent env n m o e v seen in
      let (p, at, pair, slot) = slot-view m i v c in
      let seen' : of_pointers p.object_p p.events_p ≡ live o e =
        sym slot ∙ subst (λ k. view m k ≡ live o e) number seen in
      let rest : A × O × E × Env → Outcome (A × Env × Manager O E) =
        λ r. returned (r.0, r.3, write m i (record { object_p = some r.1; events_p = some r.2 })) in
      (
        rest,
        subst (λ k. with_instance func default env k m ≡ (func o e env >>= rest)) (sym number)
            (with_instance_slot-run func default env i m p.object_p p.events_p o e c at seen'),
      )

  -- A function whose behaviour is undefined, or that aborts the process, on a live number.
  pub with_instance-undefined :
      (func : Func O E A) (default : A) (env : Env) (n : ℤ) (m : Manager O E) (o : O) (e : E)
      → IsValid m
      → view m n ≡ live o e
      → func o e env ≡ undefined
      → with_instance func default env n m ≡ undefined
  with_instance-undefined func default env n m o e v seen ran =
      let (rest, run) = with_instance-run func default env n m o e v seen in
      run ∙ ap (λ x. x >>= rest) ran

  pub with_instance-fatal :
      (func : Func O E A) (default : A) (env : Env) (n : ℤ) (m : Manager O E) (o : O) (e : E)
      (t : Text)
      → IsValid m
      → view m n ≡ live o e
      → func o e env ≡ fatal t
      → with_instance func default env n m ≡ fatal t
  with_instance-fatal func default env n m o e t v seen ran =
      let (rest, run) = with_instance-run func default env n m o e v seen in
      run ∙ ap (λ x. x >>= rest) ran

  -- For a live number it runs the function on the pair, returns its result and its environment, and
  -- the pair as the function left it is what is live afterwards; no other number is touched.
  pub with_instance-live :
      (func : Func O E A) (default : A) (env : Env) (n : ℤ) (m : Manager O E) (o o' : O) (e e' : E)
      (a : A) (env' : Env)
      → IsValid m
      → view m n ≡ live o e
      → func o e env ≡ returned (a, o', e', env')
      → Ensures (with_instance func default env n m) (Ran a o' e' env' n m)
  with_instance-live func default env n m o o' e e' a env' v seen ran =
      let (i, number, c) = live-IsCurrent env n m o e v seen in
      let (p, at, pair, slot) = slot-view m i v c in
      let seen' : of_pointers p.object_p p.events_p ≡ live o e =
        sym slot ∙ subst (λ k. view m k ≡ live o e) number seen in
      subst (λ k. Ensures (with_instance func default env k m) (Ran a o' e' env' k m)) (sym number)
        (rw
          (with_instance-slot func default env i m p.object_p p.events_p o o' e e' a env' c at seen'
            ran)
          (
            refl,
            refl,
            write-IsValid m i _ v refl c.listed,
            update_current (λ _. live o' e') m i _ p c at refl,
          ))
