-- ===== src/Instances/View.antt =====
-- The abstract view of the table: the life cycle of an instance number. The slots, the mutexes and
-- the order of the freelist are forgotten.
use jvm_toxcore_c.Base.{
  ℕ, zero, suc, ◌≡◌, refl, ◌∙◌, Option, none, some, List, [], ◌∷◌, ◌++◌, ℤ, pos, negsuc, ◌==ℤ◌,
  length, get_elem?, set, if◌then◌else◌, arith, ◌<◌, inl, inr, Bool-cases, get_elem?-set_ne,
  get_elem?-set_self, ◌==◌, ==_iff,
}
use jvm_toxcore_c.Instances.{InstancePointers, Manager, contains}

-- A number is vacant before it was ever handed out, live until `kill`, dead until `finalize`, and
-- then free for the next `add`.
pub data Status (O E : Type 0) : Type 0 where
  vacant free dead : Status O E
  live : O → E → Status O E

abbrev pub of_pointers : {O E : Type 0} → Option O → Option E → Status O E
of_pointers (some o) (some e) = live o e
of_pointers _ _ = dead

abbrev pub of_slot : {O E : Type 0} → Option (InstancePointers O E) → Status O E
of_slot none = vacant
of_slot (some p) = of_pointers p.object_p p.events_p

abbrev pub slot_of : {O E : Type 0} → List (InstancePointers O E) → ℤ → Status O E
slot_of xs (pos (suc i)) = of_slot (get_elem? xs i)
slot_of xs (pos zero) = vacant
slot_of xs (negsuc n) = vacant

abbrev pub view : {O E : Type 0} → Manager O E → ℤ → Status O E
view m n = if contains n m.freelist then free else slot_of m.instances n

-- A write to slot `i` is a change of the number `i + 1` only.
pub slot_of-set :
    {O E : Type 0} (xs : List (InstancePointers O E)) (i : ℕ) (p : InstancePointers O E) (n : ℤ)
    → i < length xs
    → slot_of (set xs i p) n
      ≡ (if n ==ℤ pos (suc i) then of_pointers p.object_p p.events_p else slot_of xs n)
slot_of-set xs i p (negsuc n) h = refl
slot_of-set xs i p (pos zero) h = ground arith
slot_of-set xs i p (pos (suc j)) h = elim (Bool-cases (suc j == suc i)) [
  | inl same ↦ rw same (
      let e : i ≡ j = omega (arith, (==_iff (suc j) (suc i)).0 same) in
      rw (← e) (rw (get_elem?-set_self xs i p h)))
  | inr other ↦ rw other (rw (get_elem?-set_ne xs i j p (λ e. ground arith)))
]

-- A slot that is appended is the number after the last one.
pub slot_of-append :
    {O E : Type 0} (xs : List (InstancePointers O E)) (p : InstancePointers O E) (n : ℤ)
    → slot_of (xs ++ p ∷ []) n
      ≡ (if n ==ℤ pos (suc (length xs)) then of_pointers p.object_p p.events_p else slot_of xs n)
slot_of-append xs p (negsuc n) = refl
slot_of-append xs p (pos zero) = ground arith
slot_of-append [] p (pos (suc zero)) = refl
slot_of-append [] p (pos (suc (suc j))) = ground arith
slot_of-append (x ∷ xs) p (pos (suc zero)) = ground arith
slot_of-append (x ∷ xs) p (pos (suc (suc j))) = slot_of-append xs p (pos (suc j)) ∙ ground arith

-- What the operations do to one number.
abbrev pub killed : {O E : Type 0} → Status O E → Status O E
killed (live o e) = dead
killed s = s

abbrev pub finalized : {O E : Type 0} → Status O E → Status O E
finalized dead = free
finalized s = s

-- `s` at the number `n`, and the old view elsewhere.
abbrev pub update :
    {O E : Type 0} → ℤ → (Status O E → Status O E) → (ℤ → Status O E) → ℤ → Status O E
update n f old j = if n ==ℤ j then f (old j) else old j
