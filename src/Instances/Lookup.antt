-- ===== src/Instances/Lookup.antt =====
-- `check_instance_number`, and a write to the slot of a number that passes it.
use jvm_toxcore_c.Base.{
  ℕ, zero, suc, ◌<◌, ◌≡◌, refl, sym, ◌∙◌, Bool, true, false, ℤ, pos, negsuc, ◌==ℤ◌, ==ℤ_iff, length,
  set, if◌then◌else◌, arith, ◌⊎◌, inl, inr, Bool-cases, length-set, All-set, get_elem?-ge,
}
use jvm_toxcore_c.Jni.{Env, exception_check}
use jvm_toxcore_c.Jni.Exceptions.{throw_illegal_state_exception-pending}
use jvm_toxcore_c.Instances.{InstancePointers, Manager, contains, check_instance_number}
use jvm_toxcore_c.Instances.Valid.{IsPaired, IsValid, IsFree-set}
use jvm_toxcore_c.Instances.View.{vacant, free, of_pointers, view, slot_of-set}

module _ {O E : Type 0} where
  -- The number of slot `i` is in range and not on the freelist.
  pub record IsCurrent (m : Manager O E) (i : ℕ) : Type 0 where
    pub bounded : i < length m.instances
    pub listed : contains (pos (suc i)) m.freelist ≡ false

  -- The check passes exactly for the numbers in range that are not on the freelist.
  pub check-IsCurrent :
      (env : Env) (n : ℤ) (z : Bool) (m : Manager O E)
      → (check_instance_number env n z m).1 ≡ true
      → (i : ℕ) × (n ≡ pos (suc i)) × IsCurrent m i
  unfolding check_instance_number
  check-IsCurrent env (negsuc n) z m h = cc
  check-IsCurrent env (pos zero) z m h = cc
  check-IsCurrent env (pos (suc i)) z m h =
      (i, refl, record { bounded = ground arith; listed = ground arith })

  pub IsCurrent-check :
      (env : Env) (i : ℕ) (z : Bool) (m : Manager O E)
      → IsCurrent m i
      → check_instance_number env (pos (suc i)) z m ≡ (env, true)
  unfolding check_instance_number
  IsCurrent-check env i z m c = ground (arith, c.bounded, c.listed)

  -- When the check fails, an exception is pending, unless the number is zero and zero is allowed.
  pub check-pending :
      (env : Env) (n : ℤ) (z : Bool) (m : Manager O E)
      → (check_instance_number env n z m).1 ≡ false
      → (exception_check (check_instance_number env n z m).0 ≡ true)
        ⊎ ((n ≡ pos 0) × (z ≡ true) × ((check_instance_number env n z m).0 ≡ env))
  unfolding check_instance_number
  check-pending env (negsuc n) z m h = grind (arith, throw_illegal_state_exception-pending)
  check-pending env (pos zero) true m h = inr (refl, refl, refl)
  check-pending env (pos zero) false m h = grind (arith, throw_illegal_state_exception-pending)
  check-pending env (pos (suc i)) z m h = grind (arith, throw_illegal_state_exception-pending)

  -- A number that fails the check is vacant or free.
  pub check-view :
      (env : Env) (n : ℤ) (z : Bool) (m : Manager O E)
      → IsValid m
      → (check_instance_number env n z m).1 ≡ false
      → (view m n ≡ vacant) ⊎ (view m n ≡ free)
  unfolding check_instance_number
  check-view env (negsuc k) z m v h = ground arith
  check-view env (pos zero) z m v h = ground arith
  check-view env (pos (suc i)) z m v h = elim (Bool-cases (contains (pos (suc i)) m.freelist)) [
    | inl listed ↦ inr (rw listed)
    | inr not_listed ↦ inl (rw not_listed (rw (get_elem?-ge m.instances i (ground arith))))
  ]

  -- The table with `p` in slot `i`.
  abbrev pub write : Manager O E → ℕ → InstancePointers O E → Manager O E
  write m i p = record m { instances = set m.instances i p }

  pub write-IsValid :
      (m : Manager O E) (i : ℕ) (p : InstancePointers O E)
      → IsValid m
      → IsPaired p
      → contains (pos (suc i)) m.freelist ≡ false
      → IsValid (write m i p)
  write-IsValid m i p v h c = record {
    counted = v.counted ∙ sym (length-set m.instances i p);
    paired = All-set IsPaired m.instances i p v.paired h;
    freed = IsFree-set m.instances i p m.freelist v.freed c;
    distinct = v.distinct;
  }

  pub view-write :
      (m : Manager O E) (i : ℕ) (p : InstancePointers O E) (j : ℤ)
      → i < length m.instances
      → contains (pos (suc i)) m.freelist ≡ false
      → view (write m i p) j
        ≡ (if pos (suc i) ==ℤ j then of_pointers p.object_p p.events_p else view m j)
  view-write m i p j h c =
      ground
        (arith, slot_of-set m.instances i p j h, ==ℤ_iff j (pos (suc i)), ==ℤ_iff (pos (suc i)) j)
