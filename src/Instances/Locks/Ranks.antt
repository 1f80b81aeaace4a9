-- ===== src/Instances/Locks/Ranks.antt =====
-- How many steps the calls that are in progress have left.
use jvm_toxcore_c.Base.{
  ℕ, zero, suc, ◌+◌, ◌*◌, ◌<◌, ◌≤◌, ◌≡◌, refl, ap, ◌==◌, ltb, ==_iff, inl, inr, Bool-cases, arith,
}
use jvm_toxcore_c.Jni.{Env}
use jvm_toxcore_c.Instances.Locks.{
  Pc, idle, wants, inside, awaits_kill, awaits_use, using, leaving, System, set_pc, Step, asks,
  enters, has_added, has_finalized, kill_refused, use_refused, kill_passes, use_passes, has_killed,
  takes, takes_null, has_used, leaves,
}
use jvm_toxcore_c.Instances.Locks.Progress.{GoesOn}

-- The steps that a thread has left, at most.
abbrev pub rank : {O E : Type 0} → Pc O E → ℕ
rank idle = 0
rank (wants c) = 4
rank (inside c) = 3
rank (awaits_kill n) = 2
rank (awaits_use n f) = 2
rank (using n f) = 1
rank (leaving n) = 1

-- The steps that the threads below `k` have left.
abbrev pub total : {O E : Type 0} → ℕ → (ℕ → Pc O E) → ℕ
total zero pcs = 0
total (suc k) pcs = total k pcs + rank (pcs k)

-- A run of `k` steps of threads that are in calls.
pub data Work {O E : Type 0} (env : Env) : ℕ → System O E → System O E → Type 0 where
  done : {s : System O E} → Work env 0 s s
  goes_on :
      {k : ℕ} {s s' s'' : System O E} (step : Step env s s')
      → GoesOn step
      → Work env k s' s''
      → Work env (suc k) s s''

rank-le : {O E : Type 0} (p : Pc O E) → rank p ≤ 4
rank-le idle = omega arith
rank-le (wants c) = omega arith
rank-le (inside c) = omega arith
rank-le (awaits_kill n) = omega arith
rank-le (awaits_use n f) = omega arith
rank-le (using n f) = omega arith
rank-le (leaving n) = omega arith

pub total-le : {O E : Type 0} (k : ℕ) (pcs : ℕ → Pc O E) → total k pcs ≤ 4 * k
total-le zero pcs = omega arith
total-le (suc k) pcs = omega (arith, total-le k pcs, rank-le (pcs k))

-- Threads below `k` are not changed by a step of thread `t` from `k` on.
total-above :
    {O E : Type 0} (k t : ℕ) (p : Pc O E) (pcs : ℕ → Pc O E)
    → k ≤ t
    → total k (set_pc t p pcs) ≡ total k pcs
total-above zero t p pcs h = refl
total-above (suc k) t p pcs h = elim (Bool-cases (t == k)) [
  | inl same ↦ absurd (omega (arith, (==_iff t k).0 same, h))
  | inr other ↦ rw other (omega (arith, total-above k t p pcs (omega (arith, h))))
]

pub total-set :
    {O E : Type 0} (k t : ℕ) (p : Pc O E) (pcs : ℕ → Pc O E)
    → t < k
    → rank p < rank (pcs t)
    → total k (set_pc t p pcs) < total k pcs
total-set zero t p pcs h less = absurd (omega (arith, h))
total-set (suc k) t p pcs h less = elim (Bool-cases (t == k)) [
  | inl same ↦
      let eq : t ≡ k = (==_iff t k).0 same in
      rw same
        (omega (arith, total-above k t p pcs (omega (arith, eq)), less, ap (λ u. rank (pcs u)) eq))
  | inr other ↦ rw other (omega (arith, total-set k t p pcs (ground (arith, h)) less))
]

module _ {O E : Type 0} where
  -- Only threads below `k` are in calls.
  abbrev pub IsBelow : ℕ → (ℕ → Pc O E) → Type 0
  IsBelow k pcs = (u : ℕ) → k ≤ u → rank (pcs u) ≡ 0

  pub IsBelow-set :
      (k t : ℕ) (p : Pc O E) (pcs : ℕ → Pc O E) → t < k → IsBelow k pcs → IsBelow k (set_pc t p pcs)
  IsBelow-set k t p pcs h below u ge = elim (Bool-cases (t == u)) [
    | inl same ↦ absurd (omega (arith, (==_iff t u).0 same, h, ge))
    | inr other ↦ rw other (below u ge)
  ]

  -- A thread whose rank was lowered is one of those in calls.
  pub IsBelow-lt :
      (k t : ℕ) (p : Pc O E) (pcs : ℕ → Pc O E) → IsBelow k pcs → rank p < rank (pcs t) → t < k
  IsBelow-lt k t p pcs below less = elim (Bool-cases (ltb t k)) [
    | inl lt ↦ ground arith
    | inr ge ↦ absurd (omega (arith, below t (ground arith), less))
  ]

module _ {O E : Type 0} (env : Env) where
  -- A step of a thread in a call changes that thread alone, and lowers its rank.
  pub Step-rank :
      (s s' : System O E) (step : Step env s s')
      → GoesOn step
      → (t : ℕ) × (p : Pc O E) × (s'.pc ≡ set_pc t p s.pc) × (rank p < rank (s.pc t))
  Step-rank s _ (asks t c at) h = absurd h
  Step-rank s _ (enters t c at free) _ = (t, inside c, refl, omega (arith, ap rank at))
  Step-rank s _ (has_added t o e r at ran) _ = (t, idle, refl, omega (arith, ap rank at))
  Step-rank s _ (has_finalized t n r at ran) _ = (t, idle, refl, omega (arith, ap rank at))
  Step-rank s _ (kill_refused t n at x) _ = (t, idle, refl, omega (arith, ap rank at))
  Step-rank s _ (use_refused t n f at x) _ = (t, idle, refl, omega (arith, ap rank at))
  Step-rank s _ (kill_passes t n at x) _ = (t, awaits_kill n, refl, omega (arith, ap rank at))
  Step-rank s _ (use_passes t n f at x) _ = (t, awaits_use n f, refl, omega (arith, ap rank at))
  Step-rank s _ (has_killed t n r at free ran) _ = (t, idle, refl, omega (arith, ap rank at))
  Step-rank s _ (takes t n f o e at free seen) _ = (t, using n f, refl, omega (arith, ap rank at))
  Step-rank s _ (takes_null t n f at free gone) _ = (t, leaving n, refl, omega (arith, ap rank at))
  Step-rank s _ (has_used t n f r at ran) _ = (t, idle, refl, omega (arith, ap rank at))
  Step-rank s _ (leaves t n at) _ = (t, idle, refl, omega (arith, ap rank at))
