-- ===== src/Instances/Locks/Owned.antt =====
-- What holds of the mutexes and of the pairs that are in use, and how one thread's step changes it.
use mathlib.Core.Path.{subst}
use jvm_toxcore_c.Base.{
  ℕ, ◌≡◌, refl, sym, ap, ◌∙◌, Bool, true, false, Option, none, some, ℤ, ◌==ℤ◌, ==ℤ_iff, ◌==◌, inl,
  inr, Bool-cases,
}
use jvm_toxcore_c.Jni.{Outcome, returned, Ensures}
use jvm_toxcore_c.Instances.{Manager}
use jvm_toxcore_c.Instances.Valid.{IsValid}
use jvm_toxcore_c.Instances.View.{Status, live, view, update, killed, finalized}
use jvm_toxcore_c.Instances.Locks.{
  Pc, idle, wants, inside, awaits_kill, awaits_use, using, leaving, System, set_pc, set_lock,
}
use jvm_toxcore_c.Instances.Locks.Owners.{
  IsOwned, IsOwned-acquire, IsOwned-release, IsOwned-keep, true-false,
}

pub Ensures-at :
    {A : Type 0} (x : Outcome A) (P : A → Type 0) (a : A) → x ≡ returned a → Ensures x P → P a
Ensures-at x P a e h = subst (λ y. Ensures y P) e h

module _ {O E : Type 0} where
  -- A thread that holds the manager's mutex, that of instance `n`, and a pair.
  abbrev pub holds_mutex : Pc O E → Bool
  holds_mutex (inside c) = true
  holds_mutex (awaits_kill n) = true
  holds_mutex (awaits_use n f) = true
  holds_mutex _ = false

  abbrev pub holds_lock : ℤ → Pc O E → Bool
  holds_lock n (using k f) = k ==ℤ n
  holds_lock n (leaving k) = k ==ℤ n
  holds_lock n _ = false

  abbrev pub on_pair : ℤ → Pc O E → Bool
  on_pair n (using k f) = k ==ℤ n
  on_pair n _ = false

  abbrev pub IsLive : Status O E → Type 0
  IsLive s = (o : O) × (e : E) × (s ≡ live o e)

  -- Every mutex is held by those threads that say so, and pairs in use are live.
  pub record IsSafe (s : System O E) : Type 0 where
    pub valid : IsValid s.table
    pub manager : IsOwned holds_mutex s.mutex s.pc
    pub instances : (n : ℤ) → IsOwned (holds_lock n) (s.locks n) s.pc
    pub pairs : (u : ℕ) (n : ℤ) → on_pair n (s.pc u) ≡ true → IsLive (view s.table n)

  pub on_pair-lock : (n : ℤ) (p : Pc O E) → on_pair n p ≡ true → holds_lock n p ≡ true
  on_pair-lock n (using k f) h = h
  on_pair-lock n (leaving k) h = cc
  on_pair-lock n idle h = cc
  on_pair-lock n (wants c) h = cc
  on_pair-lock n (inside c) h = cc
  on_pair-lock n (awaits_kill k) h = cc
  on_pair-lock n (awaits_use k f) h = cc

  -- What is live stays live when a number is made live, or finalised, or another one killed.
  pub IsLive-live :
      (n j : ℤ) (o : O) (e : E) (old : ℤ → Status O E)
      → IsLive (old j)
      → IsLive (update n (λ _. live o e) old j)
  IsLive-live n j o e old h = elim (Bool-cases (n ==ℤ j)) [
    | inl same ↦ rw same (o, e, refl)
    | inr other ↦ rw other h
  ]

  pub IsLive-finalized :
      (n j : ℤ) (old : ℤ → Status O E) → IsLive (old j) → IsLive (update n finalized old j)
  IsLive-finalized n j old (o, e, h) = elim (Bool-cases (n ==ℤ j)) [
    | inl same ↦ rw same (o, e, ap finalized h)
    | inr other ↦ rw other (o, e, h)
  ]

  pub IsLive-killed :
      (n j : ℤ) (old : ℤ → Status O E)
      → (n ==ℤ j) ≡ false
      → IsLive (old j)
      → IsLive (update n killed old j)
  IsLive-killed n j old other h = rw other h

  -- The pairs in use after a step of thread `t`.
  pub pairs-set :
      (t : ℕ) (p : Pc O E) (pcs : ℕ → Pc O E) (m : Manager O E)
      → ((n : ℤ) → on_pair n p ≡ true → IsLive (view m n))
      → ((u : ℕ) (n : ℤ) → on_pair n (pcs u) ≡ true → IsLive (view m n))
      → (u : ℕ) (n : ℤ) → on_pair n (set_pc t p pcs u) ≡ true
      → IsLive (view m n)
  pairs-set t p pcs m new old u n = elim (Bool-cases (t == u)) [
    | inl same ↦ rw same (new n)
    | inr other ↦ rw other (old u n)
  ]

  pub locks-take :
      (n : ℤ) (t : ℕ) (p : Pc O E) (pcs : ℕ → Pc O E) (locks : ℤ → Option ℕ)
      → ((k : ℤ) → IsOwned (holds_lock k) (locks k) pcs)
      → locks n ≡ none
      → ((k : ℤ) → holds_lock k (pcs t) ≡ false)
      → ((k : ℤ) → holds_lock k p ≡ (n ==ℤ k))
      → (k : ℤ) → IsOwned (holds_lock k) (set_lock n (some t) locks k) (set_pc t p pcs)
  locks-take n t p pcs locks h free before after k = elim (Bool-cases (n ==ℤ k)) [
    | inl same ↦
        let eq : n ≡ k = (==ℤ_iff n k).0 same in
        let free' : locks k ≡ none = ap locks (sym eq) ∙ free in
        rw same (
          IsOwned-acquire (holds_lock k) t p pcs
            (subst (λ holder. IsOwned (holds_lock k) holder pcs) free' (h k)) (after k ∙ same))
    | inr other ↦
        rw other
          (IsOwned-keep (holds_lock k) t p pcs (locks k) (h k) (after k ∙ other ∙ sym (before k)))
  ]

  pub locks-release :
      (n : ℤ) (t : ℕ) (p : Pc O E) (pcs : ℕ → Pc O E) (locks : ℤ → Option ℕ)
      → ((k : ℤ) → IsOwned (holds_lock k) (locks k) pcs)
      → ((k : ℤ) → holds_lock k (pcs t) ≡ (n ==ℤ k))
      → ((k : ℤ) → holds_lock k p ≡ false)
      → (k : ℤ) → IsOwned (holds_lock k) (set_lock n none locks k) (set_pc t p pcs)
  locks-release n t p pcs locks h before after k = elim (Bool-cases (n ==ℤ k)) [
    | inl same ↦
        rw same (IsOwned-release (holds_lock k) t p pcs (locks k) (h k) (before k ∙ same) (after k))
    | inr other ↦
        rw other
          (IsOwned-keep (holds_lock k) t p pcs (locks k) (h k) (after k ∙ sym (before k ∙ other)))
  ]

  module _ (s : System O E) (v : IsSafe s) (t : ℕ) (p : Pc O E) where
    -- A step that leaves the table and the mutexes of the instances alone.
    pub IsSafe-quiet :
        (holder : Option ℕ)
        → ((n : ℤ) → holds_lock n p ≡ holds_lock n (s.pc t))
        → ((n : ℤ) → on_pair n p ≡ false)
        → IsOwned holds_mutex holder (set_pc t p s.pc)
        → IsSafe (record s { mutex = holder; pc = set_pc t p s.pc })
    IsSafe-quiet holder same calm owned = record {
      valid = v.valid;
      manager = owned;
      instances = λ n. IsOwned-keep (holds_lock n) t p s.pc (s.locks n) (v.instances n) (same n);
      pairs = pairs-set t p s.pc s.table (λ n h. absurd (true-false (sym h ∙ calm n))) v.pairs;
    }

    -- A step that changes the table while the manager's mutex is held, and releases it.
    pub IsSafe-change :
        (m : Manager O E)
        → IsValid m
        → ((n : ℤ) → holds_lock n p ≡ holds_lock n (s.pc t))
        → ((n : ℤ) → on_pair n p ≡ false)
        → holds_mutex (s.pc t) ≡ true
        → holds_mutex p ≡ false
        → ((u : ℕ) (n : ℤ) → on_pair n (s.pc u) ≡ true → IsLive (view m n))
        → IsSafe (record s { table = m; mutex = none; pc = set_pc t p s.pc })
    IsSafe-change m valid same calm was now live' = record {
      valid = valid;
      manager = IsOwned-release holds_mutex t p s.pc s.mutex v.manager was now;
      instances = λ n. IsOwned-keep (holds_lock n) t p s.pc (s.locks n) (v.instances n) (same n);
      pairs = pairs-set t p s.pc m (λ n h. absurd (true-false (sym h ∙ calm n))) live';
    }
