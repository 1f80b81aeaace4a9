-- ===== src/Instances/Operations.antt =====
-- `kill` and `finalize` of util/instance_manager.h on the class invariants and the abstract view.
use mathlib.Core.Path.{subst}
use jvm_toxcore_c.Base.{
  ℕ, suc, ◌≡◌, refl, sym, ◌∙◌, true, Option, none, some, [], ◌∷◌, ◌++◌, ℤ, pos, ◌==ℤ◌, ==ℤ_iff,
  get_elem?, is_some, arith, ◌⊎◌, inl, inr, Bool-cases, get_elem?-lt, All-append, All-get, codes,
  to_string_ℤ,
}
use jvm_toxcore_c.Jni.{Env, exception_check, returned, Ensures}
use jvm_toxcore_c.Jni.Exceptions.{
  throw_illegal_state_exception, throw_illegal_state_exception-pending,
}
use jvm_toxcore_c.Instances.{
  InstancePointers, Manager, empty, check_instance_number, kill, finalize,
}
use jvm_toxcore_c.Instances.Valid.{
  IsFree, IsPaired, IsValid, Distinct-append_one, contains-append_one,
}
use jvm_toxcore_c.Instances.View.{
  Status, vacant, free, dead, of_pointers, view, killed, finalized, update,
}
use jvm_toxcore_c.Instances.Lookup.{
  IsCurrent, check-IsCurrent, IsCurrent-check, check-pending, check-view, write, write-IsValid,
  view-write,
}

module _ {O E : Type 0} where
  -- Where a function of the status fixes `vacant` and `free`, a number that fails the check is left.
  pub update_unchecked :
      (f : Status O E → Status O E) (m : Manager O E) (n : ℤ)
      → f vacant ≡ vacant
      → f free ≡ free
      → (view m n ≡ vacant) ⊎ (view m n ≡ free)
      → (j : ℤ) → view m j ≡ update n f (view m) j
  update_unchecked f m n hv hf h j = elim (Bool-cases (n ==ℤ j)) [
    | inl same ↦ let e = (==ℤ_iff n j).0 same in rw same (ground arith)
    | inr other ↦ rw other
  ]

  update_fixed :
      (f : Status O E → Status O E) (m : Manager O E) (n : ℤ)
      → f (view m n) ≡ view m n
      → (j : ℤ) → view m j ≡ update n f (view m) j
  update_fixed f m n h j = elim (Bool-cases (n ==ℤ j)) [
    | inl same ↦ rw same (rw (← (==ℤ_iff n j).0 same) (sym h))
    | inr other ↦ rw other
  ]

  -- A write to the slot of a current number is an update at that number.
  pub update_current :
      (f : Status O E → Status O E) (m : Manager O E) (i : ℕ) (p old : InstancePointers O E)
      → IsCurrent m i
      → get_elem? m.instances i ≡ some old
      → of_pointers p.object_p p.events_p ≡ f (of_pointers old.object_p old.events_p)
      → (j : ℤ) → view (write m i p) j ≡ update (pos (suc i)) f (view m) j
  update_current f m i p old c at e j = elim (Bool-cases (pos (suc i) ==ℤ j)) [
    | inl same ↦
        view-write m i p j c.bounded c.listed
        ∙ rw same (rw (← (==ℤ_iff (pos (suc i)) j).0 same) (rw c.listed (rw at e)))
    | inr other ↦ view-write m i p j c.bounded c.listed ∙ rw other
  ]

  kill-current :
      (env : Env) (i : ℕ) (m : Manager O E)
      → IsValid m
      → IsCurrent m i
      → Ensures
          (kill env (pos (suc i)) m)
          λ r. IsValid r.1 × ((j : ℤ) → view r.1 j ≡ update (pos (suc i)) killed (view m) j)
  unfolding kill
  kill-current env i m v c =
      let (p, at) = get_elem?-lt m.instances i c.bounded in
      rw (IsCurrent-check env i true m c, kill)
        (rw (at, kill)
          (
            write-IsValid m i empty v refl c.listed,
            update_current killed m i empty p c at (ground arith),
          ))

  -- `kill` returns, keeps the invariants, and makes a live number dead; nothing else changes, and
  -- so a second `kill` changes nothing.
  pub kill-view :
      (env : Env) (n : ℤ) (m : Manager O E)
      → IsValid m
      → Ensures
          (kill env n m)
          λ r. IsValid r.1 × ((j : ℤ) → view r.1 j ≡ update n killed (view m) j)
  unfolding kill
  kill-view env n m v = elim (Bool-cases (check_instance_number env n true m).1) [
    | inl proceed ↦
        let (i, e, c) = check-IsCurrent env n true m proceed in
        subst
          (λ k.
            Ensures (kill env k m)
              λ r. IsValid r.1 × ((j : ℤ) → view r.1 j ≡ update k killed (view m) j))
          (sym e) (kill-current env i m v c)
    | inr refused ↦
        rw (refused, kill)
          (v, update_unchecked killed m n refl refl (check-view env n true m v refused))
  ]

  -- How a call of `finalize` reports: silently for the null instance and for a dead number; with an
  -- exception, and without an effect, for a live number and for one that was not handed out.
  abbrev pub Reports : Env → ℤ → Manager O E → Env × Manager O E → Type 0
  Reports env n m r =
      ((r.0 ≡ env) × ((n ≡ pos 0) ⊎ (view m n ≡ dead))) ⊎ ((exception_check r.0 ≡ true) × (r.1 ≡ m))

  enlist : (m : Manager O E) (i : ℕ) → Manager O E
  enlist m i = record m { freelist = m.freelist ++ pos (suc i) ∷ [] }

  enlist-IsValid :
      (m : Manager O E) (i : ℕ)
      → IsValid m
      → IsCurrent m i
      → get_elem? m.instances i ≡ some empty
      → IsValid (enlist m i)
  unfolding enlist
  enlist-IsValid m i v c e = record {
    counted = v.counted;
    paired = v.paired;
    freed =
        All-append (IsFree m.instances) m.freelist (pos (suc i) ∷ []) v.freed ((i, refl, e), tt);
    distinct = Distinct-append_one (pos (suc i)) m.freelist v.distinct c.listed;
  }

  view-enlist :
      (m : Manager O E) (i : ℕ)
      → view m (pos (suc i)) ≡ dead
      → (j : ℤ) → view (enlist m i) j ≡ update (pos (suc i)) finalized (view m) j
  unfolding enlist
  view-enlist m i d j = elim (Bool-cases (pos (suc i) ==ℤ j)) [
    | inl same ↦
        rw (contains-append_one j (pos (suc i)) m.freelist)
          (rw same (rw (← (==ℤ_iff (pos (suc i)) j).0 same) (rw d)))
    | inr other ↦ rw (contains-append_one j (pos (suc i)) m.freelist) (rw other)
  ]

  -- `finalize` on a number that passes the check, by the contents of its slot.
  finalize-dead :
      (env : Env) (i : ℕ) (m : Manager O E)
      → IsCurrent m i
      → get_elem? m.instances i ≡ some empty
      → finalize env (pos (suc i)) m ≡ returned (env, enlist m i)
  unfolding finalize enlist
  finalize-dead env i m c at = ground (arith, IsCurrent-check env i true m c)

  finalize-live :
      (env : Env) (i : ℕ) (m : Manager O E) (x : O) (y : E)
      → IsCurrent m i
      → get_elem? m.instances i ≡ some (record { object_p = some x; events_p = some y })
      → finalize env (pos (suc i)) m
        ≡ returned (
          throw_illegal_state_exception env
              (pos (suc i))
              (codes "Leaked Tox instance #" ++ to_string_ℤ (pos (suc i))),
          m,
        )
  unfolding finalize
  finalize-live env i m x y c at = ground (arith, IsCurrent-check env i true m c)

  abbrev pub Finalized : Env → ℤ → Manager O E → Env × Manager O E → Type 0
  Finalized env n m r =
      IsValid r.1 × ((j : ℤ) → view r.1 j ≡ update n finalized (view m) j) × Reports env n m r

  finalize-slot :
      (env : Env) (i : ℕ) (m : Manager O E) (o : Option O) (e : Option E)
      → IsValid m
      → IsCurrent m i
      → get_elem? m.instances i ≡ some (record { object_p = o; events_p = e })
      → is_some o ≡ is_some e
      → Ensures (finalize env (pos (suc i)) m) (Finalized env (pos (suc i)) m)
  finalize-slot env i m none (some y) v c at p = cc
  finalize-slot env i m (some x) none v c at p = cc
  finalize-slot env i m none none v c at p =
      let at_dead : view m (pos (suc i)) ≡ dead = rw c.listed (rw at) in
      rw (finalize-dead env i m c at)
        (enlist-IsValid m i v c at, view-enlist m i at_dead, inl (refl, inr at_dead))
  finalize-slot env i m (some x) (some y) v c at p = rw (finalize-live env i m x y c at) (
    v,
    update_fixed finalized m (pos (suc i)) (rw c.listed (rw at)),
    inr (throw_illegal_state_exception-pending env _ _, refl),
  )

  -- `finalize` returns, keeps the invariants, and frees a dead number; nothing else changes. It
  -- throws for a number that is live or was not handed out.
  pub finalize-view :
      (env : Env) (n : ℤ) (m : Manager O E)
      → IsValid m
      → Ensures (finalize env n m) (Finalized env n m)
  unfolding finalize
  finalize-view env n m v = elim (Bool-cases (check_instance_number env n true m).1) [
    | inl proceed ↦
        let (i, e, c) = check-IsCurrent env n true m proceed in
        let (p, at) = get_elem?-lt m.instances i c.bounded in
        subst (λ k. Ensures (finalize env k m) (Finalized env k m)) (sym e)
          (finalize-slot env i m p.object_p p.events_p v c at
            (All-get IsPaired m.instances i p v.paired at))
    | inr refused ↦
        rw (refused, finalize)
          (
            v,
            update_unchecked finalized m n refl refl (check-view env n true m v refused),
            elim (check-pending env n true m refused) [
              | inl thrown ↦ inr (thrown, refl)
              | inr (null, _, same) ↦ inl (same, inl null)
            ],
          )
  ]
