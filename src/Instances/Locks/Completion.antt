-- ===== src/Instances/Locks/Completion.antt =====
-- Every call of a run of the threads returns in the end, if no further call begins.
use mathlib.Core.Path.{subst}
use jvm_toxcore_c.Base.{
  ℕ, zero, suc, ◌+◌, ◌*◌, ◌^◌, ◌<◌, ◌≤◌, ◌≡◌, refl, sym, ap, ◌∙◌, ltb, inl, inr, ◌⊎◌, Bool-cases,
  length, arith,
}
use jvm_toxcore_c.Jni.{Env}
use jvm_toxcore_c.Instances.History.{add-length, kill-length, finalize-length, uses-length}
use jvm_toxcore_c.Instances.Locks.{
  Pc, idle, wants, inside, awaits_kill, awaits_use, using, leaving, System, Step, asks, enters,
  has_added, has_finalized, kill_refused, use_refused, kill_passes, use_passes, has_killed, takes,
  takes_null, has_used, leaves, Reach, later,
}
use jvm_toxcore_c.Instances.Locks.Progress.{GoesOn, no_deadlock}
use jvm_toxcore_c.Instances.Locks.Ranks.{
  rank, total, total-le, total-set, Work, done, goes_on, Step-rank, IsBelow, IsBelow-set,
  IsBelow-lt,
}

module _ {O E : Type 0} where
  rank-idle : (p : Pc O E) → rank p ≡ 0 → p ≡ idle
  rank-idle idle h = refl
  rank-idle (wants c) h = absurd (omega (arith, h))
  rank-idle (inside c) h = absurd (omega (arith, h))
  rank-idle (awaits_kill n) h = absurd (omega (arith, h))
  rank-idle (awaits_use n f) h = absurd (omega (arith, h))
  rank-idle (using n f) h = absurd (omega (arith, h))
  rank-idle (leaving n) h = absurd (omega (arith, h))

  -- Either no thread below `k` is in a call, or one can be named.
  busy-cases :
      (k : ℕ) (pcs : ℕ → Pc O E)
      → ((u : ℕ) → u < k → rank (pcs u) ≡ 0) ⊎ ((t : ℕ) × (0 < rank (pcs t)))
  busy-cases zero pcs = inl λ u h. absurd (omega (arith, h))
  busy-cases (suc k) pcs = elim (busy-cases k pcs) [
    | inr busy ↦ inr busy
    | inl quiet ↦ elim (Bool-cases (ltb 0 (rank (pcs k)))) [
      | inl busy ↦ inr (k, ground (arith, busy))
      | inr last ↦ inl λ u h. elim (Bool-cases (ltb u k)) [
        | inl lt ↦ quiet u (ground (arith, lt))
        | inr ge ↦
            let same : u ≡ k = ground (arith, ge, h) in
            ap (λ v. rank (pcs v)) same ∙ ground (arith, last)
      ]
    ]
  ]

module _ {O E : Type 0} (env : Env) where
  -- A step adds at most one slot.
  Step-length :
      (s s' : System O E) → Step env s s' → length s'.table.instances ≤ length s.table.instances + 1
  Step-length s _ (asks t c at) = omega arith
  Step-length s _ (enters t c at free) = omega arith
  Step-length s _ (has_added t o e r at ran) = add-length o e s.table r ran
  Step-length s _ (has_finalized t n r at ran) = finalize-length env n s.table r ran
  Step-length s _ (kill_refused t n at x) = omega arith
  Step-length s _ (use_refused t n f at x) = omega arith
  Step-length s _ (kill_passes t n at x) = omega arith
  Step-length s _ (use_passes t n f at x) = omega arith
  Step-length s _ (has_killed t n r at free ran) = kill-length env n s.table r ran
  Step-length s _ (takes t n f o e at free seen) = omega arith
  Step-length s _ (takes_null t n f at free gone) = omega arith
  Step-length s _ (has_used t n f r at ran) = uses-length env n f s.table r ran
  Step-length s _ (leaves t n at) = omega arith

  -- The state after one more step of a thread in a call.
  abbrev Advances : ℕ → System O E → Type 0
  Advances k s =
      (s' : System O E) × (step : Step env s s') × GoesOn step
      × IsBelow k s'.pc
      × (total k s'.pc < total k s.pc)

  advances :
      (k t : ℕ) (s : System O E)
      → Reach env s
      → IsBelow k s.pc
      → length s.table.instances + 1 < 2 ^ 31
      → 0 < rank (s.pc t)
      → Advances k s
  advances k t s r below room busy =
      let (s', step, on) = no_deadlock env s t r room (λ e. omega (arith, busy, ap rank e)) in
      let (u, p, eq, less) = Step-rank env s s' step on in
      let lt = IsBelow-lt k u p s.pc below less in
      (
        s',
        step,
        on,
        subst (IsBelow k) (sym eq) (IsBelow-set k u p s.pc lt below),
        omega (arith, ap (total k) eq, total-set k u p s.pc lt less),
      )

  -- A run after which no thread is in a call.
  abbrev pub Returns : System O E → Type 0
  Returns s = (j : ℕ) × (s' : System O E) × Work env j s s' × ((u : ℕ) → s'.pc u ≡ idle)

  all_idle :
      (k : ℕ) (s : System O E) → IsBelow k s.pc → ((u : ℕ) → u < k → rank (s.pc u) ≡ 0) → Returns s
  all_idle k s below quiet = (
    0,
    s,
    done,
    λ u. rank-idle (s.pc u) (elim (Bool-cases (ltb u k)) [
      | inl lt ↦ quiet u (ground (arith, lt))
      | inr ge ↦ below u (ground (arith, ge))
    ]),
  )

  Returns-total :
      (n k : ℕ) (s : System O E)
      → Reach env s
      → IsBelow k s.pc
      → total k s.pc ≤ n
      → length s.table.instances + n + 1 < 2 ^ 31
      → Returns s
  Returns-total zero k s r below le room = elim (busy-cases k s.pc) [
    | inl quiet ↦ all_idle k s below quiet
    | inr (t, busy) ↦
        absurd (omega (arith, le, (advances k t s r below (omega (arith, room)) busy).4))
  ]
  Returns-total (suc n) k s r below le room = elim (busy-cases k s.pc) [
    | inl quiet ↦ all_idle k s below quiet
    | inr (t, busy) ↦
        let (s', step, on, below', less) = advances k t s r below (omega (arith, room)) busy in
        let (j, s'', run, idles) =
          Returns-total n k s' (later r (omega (arith, room)) step) below' (omega (arith, le, less))
            (omega (arith, room, Step-length s s' step)) in
        (suc j, s'', goes_on step on run, idles)
  ]

  -- In every state that the threads get into, if only the threads below `k` are in calls and a `jint`
  -- can hold `4 * k + 1` more numbers, the threads can go on, without a further call, until every call
  -- has returned. Functions that run on pairs are taken to return, and not to call the manager.
  pub calls_return :
      (k : ℕ) (s : System O E)
      → Reach env s
      → IsBelow k s.pc
      → length s.table.instances + 4 * k + 1 < 2 ^ 31
      → Returns s
  calls_return k s r below room = Returns-total (4 * k) k s r below (total-le k s.pc) room
