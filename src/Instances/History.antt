-- ===== src/Instances/History.antt =====
-- Any sequence of calls of the table, from the constructor on. Each call begins with no exception
-- pending, since a pending exception is thrown in Java when the previous native call returns.
use mathlib.Core.Path.{subst}
use jvm_toxcore_c.Base.{
  ◌+◌, ◌^◌, ◌≤◌, ◌<◌, ◌≡◌, refl, sym, ◌∙◌, false, some, List, [], ◌∷◌, ℤ, ◌==ℤ◌, ==ℤ_iff, length,
  All, arith, ◌⊎◌, inl, inr, Bool-cases, length-set, length-append,
}
use jvm_toxcore_c.Jni.{Env, Outcome, returned, Ensures, Ensures-bind, Ensures-map, ◌>>=◌}
use jvm_toxcore_c.Instances.{Manager, add, kill, finalize, with_instance}
use jvm_toxcore_c.Instances.Valid.{IsValid}
use jvm_toxcore_c.Instances.View.{vacant, free, live, view, update, finalized}
use jvm_toxcore_c.Instances.Operations.{kill-view, finalize-view}
use jvm_toxcore_c.Instances.Add.{add-Added}
use jvm_toxcore_c.Instances.Access.{Func, live_cases, with_instance-gone, with_instance-live}

-- A call by Java: `uses` stands for every native method that runs a function on the pair.
pub data Call (O E : Type 0) : Type 0 where
  adds : O → E → Call O E
  kills finalizes : ℤ → Call O E
  uses : ℤ → (O → E → O × E) → Call O E

module _ {O E : Type 0} where
  abbrev pub run_on : (O → E → O × E) → Func O E (Unit {0})
  run_on f o e env = returned (tt, (f o e).0, (f o e).1, env)

  pub step : Env → Manager O E → Call O E → Outcome (Manager O E)
  step env m (adds o e) = add (some o) (some e) m >>= λ r. returned r.1
  step env m (kills n) = kill env n m >>= λ r. returned r.1
  step env m (finalizes n) = finalize env n m >>= λ r. returned r.1
  step env m (uses n f) = with_instance (run_on f) tt env n m >>= λ r. returned r.2

  pub run : Env → Manager O E → List (Call O E) → Outcome (Manager O E)
  run env m [] = returned m
  run env m (c ∷ cs) = step env m c >>= λ m'. run env m' cs

  -- The table grows by one slot at most.
  pub add-length :
      (o : O) (e : E) (m : Manager O E) (r : ℤ × Manager O E)
      → add (some o) (some e) m ≡ returned r
      → length r.1.instances ≤ length m.instances + 1
  unfolding add
  add-length o e m r h = grind (arith, length-set, length-append)

  pub kill-length :
      (env : Env) (n : ℤ) (m : Manager O E) (r : Env × Manager O E)
      → kill env n m ≡ returned r
      → length r.1.instances ≤ length m.instances + 1
  unfolding kill
  kill-length env n m r h = grind (arith, length-set)

  pub finalize-length :
      (env : Env) (n : ℤ) (m : Manager O E) (r : Env × Manager O E)
      → finalize env n m ≡ returned r
      → length r.1.instances ≤ length m.instances + 1
  unfolding finalize
  finalize-length env n m r h = ground arith

  pub uses-length :
      (env : Env) (n : ℤ) (f : O → E → O × E) (m : Manager O E) (r : Unit {0} × Env × Manager O E)
      → with_instance (run_on f) tt env n m ≡ returned r
      → length r.2.instances ≤ length m.instances + 1
  unfolding with_instance
  uses-length env n f m r h = grind (arith, length-set)

  -- The call does not kill or use the number `n`.
  abbrev pub Spares : ℤ → Call O E → Type 0
  Spares n (adds o e) = Unit
  Spares n (kills k) = (k ==ℤ n) ≡ false
  Spares n (finalizes k) = Unit
  Spares n (uses k f) = (k ==ℤ n) ≡ false

  -- What one call makes of the table: it stays valid, grows by a slot at most, and a live pair that
  -- the call spares is still there.
  abbrev pub Stepped : Call O E → Manager O E → Manager O E → Type 0
  Stepped c m m' =
      IsValid m'
      × (length m'.instances ≤ length m.instances + 1)
      × ((n : ℤ) (o : O) (e : E) → Spares n c → view m n ≡ live o e → view m' n ≡ live o e)

  finalized-live :
      (k n : ℤ) (o : O) (e : E) (m : Manager O E)
      → view m n ≡ live o e
      → update k finalized (view m) n ≡ live o e
  finalized-live k n o e m h = elim (Bool-cases (k ==ℤ n)) [
    | inl same ↦ rw same (rw h)
    | inr other ↦ rw other h
  ]

  added-live :
      (k n : ℤ) (o x : O) (e y : E) (m : Manager O E)
      → (view m k ≡ vacant) ⊎ (view m k ≡ free)
      → view m n ≡ live o e
      → update k (λ _. live x y) (view m) n ≡ live o e
  added-live k n o x e y m unused h = elim (Bool-cases (k ==ℤ n)) [
    | inl same ↦
        absurd (taken unused (subst (λ j. view m j ≡ live o e) (sym ((==ℤ_iff k n).0 same)) h))
    | inr other ↦ rw other h
  ]
    where
      taken : (view m k ≡ vacant) ⊎ (view m k ≡ free) → view m k ≡ live o e → ⊥
      taken (inl a) b = cc
      taken (inr a) b = cc

  pub step-Stepped :
      (env : Env) (c : Call O E) (m : Manager O E)
      → IsValid m
      → length m.instances + 1 < 2 ^ 31
      → Ensures (step env m c) (Stepped c m)
  unfolding step
  step-Stepped env (adds x y) m v h =
      Ensures-bind (add (some x) (some y) m) _ _ _ (add-Added x y m v h) λ r ran a.
        (a.0, add-length x y m r ran, λ n o e _ l. a.2 n ∙ added-live r.0 n o x e y m a.1 l)
  step-Stepped env (kills k) m v h =
      Ensures-bind (kill env k m) _ _ _ (kill-view env k m v)
        λ r ran a. (a.0, kill-length env k m r ran, λ n o e s l. a.1 n ∙ rw s l)
  step-Stepped env (finalizes k) m v h =
      Ensures-bind (finalize env k m) _ _ _ (finalize-view env k m v) λ r ran a.
        (a.0, finalize-length env k m r ran, λ n o e s l. a.1 n ∙ finalized-live k n o e m l)
  step-Stepped env (uses k f) m v h = elim (live_cases (view m k)) [
    | inl (x, y, l) ↦
        Ensures-bind (with_instance (run_on f) tt env k m) _ _ _
          (with_instance-live (run_on f) tt env k m x (f x y).0 y (f x y).1 tt env v l refl)
          λ r ran a. (a.2, uses-length env k f m r ran, λ n o e s l. a.3 n ∙ rw s l)
    | inr gone ↦
        Ensures-bind (with_instance (run_on f) tt env k m) _ _ _
          (with_instance-gone (run_on f) tt env k m v gone)
          λ r ran a. (rw a.2 v, uses-length env k f m r ran, λ n o e s l. rw a.2 l)
  ]

  run_lem :
      (env : Env) (cs : List (Call O E)) (m : Manager O E)
      → IsValid m
      → length m.instances + length cs < 2 ^ 31
      → Ensures (run env m cs) λ m'.
        IsValid m'
        × ((n : ℤ) (o : O) (e : E) → All (Spares n) cs → view m n ≡ live o e → view m' n ≡ live o e)
  unfolding run
  run_lem env [] m v h = (v, λ n o e _ l. l)
  run_lem env (c ∷ cs) m v h =
      Ensures-bind (step env m c) _ _ _ (step-Stepped env c m v (omega arith)) λ m' ran a.
        let rest = run_lem env cs m' a.0 (omega (arith, a.1)) in
        Ensures-map (run env m' cs) _ _ rest
          λ m'' b. (b.0, λ n o e s l. b.1 n o e s.1 (a.2 n o e s.0 l))

  -- From a valid table, any sequence of calls that leaves Java able to represent every number runs to
  -- its end: no assertion fails, no index is out of range and no null pointer is dereferenced. The
  -- invariants hold afterwards.
  pub run-IsValid :
      (env : Env) (cs : List (Call O E)) (m : Manager O E)
      → IsValid m
      → length m.instances + length cs < 2 ^ 31
      → Ensures (run env m cs) IsValid
  run-IsValid env cs m v h = Ensures-map (run env m cs) _ _ (run_lem env cs m v h) λ m' b. b.0

  -- A pair that is live in a valid table, and that no call of a sequence kills or uses, is still
  -- there, unchanged, when the sequence has run to its end, which it does if it leaves Java able to
  -- represent every number; the invariants hold then.
  pub run-isolated :
      (env : Env) (n : ℤ) (o : O) (e : E) (cs : List (Call O E)) (m : Manager O E)
      → IsValid m
      → length m.instances + length cs < 2 ^ 31
      → All (Spares n) cs
      → view m n ≡ live o e
      → Ensures (run env m cs) λ m'. IsValid m' × (view m' n ≡ live o e)
  run-isolated env n o e cs m v h spares l =
      Ensures-map (run env m cs) _ _ (run_lem env cs m v h) λ m' b. (b.0, b.1 n o e spares l)
