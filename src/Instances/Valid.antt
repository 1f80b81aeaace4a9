-- ===== src/Instances/Valid.antt =====
-- The class invariants of `instance_manager`, and the lemmas on its freelist.
use jvm_toxcore_c.Base.{
  ℕ, suc, ◌≡◌, refl, ◌∙◌, true, false, ◌||◌, none, some, List, [], ◌∷◌, ◌++◌, ℤ, pos, ◌==ℤ◌,
  ==ℤ_iff, length, get_elem?, set, All, is_some, if◌then◌else◌, arith, Option-cases, inl, inr,
  Bool-cases, get_elem?-set_ne,
}
use jvm_toxcore_c.Instances.{InstancePointers, Manager, init, contains, pop_back, empty}

-- No number is listed twice.
abbrev pub Distinct : List ℤ → Type 0
Distinct [] = Unit {0}
Distinct (k ∷ ks) = (contains k ks ≡ false) × Distinct ks

pub contains-append :
    (n : ℤ) (xs ys : List ℤ) → contains n (xs ++ ys) ≡ (contains n xs || contains n ys)
unfolding contains
contains-append n [] ys = refl
contains-append n (x ∷ xs) ys = ground (arith, contains-append n xs ys)

pub contains-append_one :
    (n k : ℤ) (xs : List ℤ) → contains n (xs ++ k ∷ []) ≡ (if k ==ℤ n then true else contains n xs)
unfolding contains
contains-append_one n k xs = ground (arith, contains-append n xs (k ∷ []))

pub Distinct-append_one :
    (k : ℤ) (xs : List ℤ) → Distinct xs → contains k xs ≡ false → Distinct (xs ++ k ∷ [])
unfolding contains
Distinct-append_one k [] d h = (refl, tt)
Distinct-append_one k (x ∷ xs) d h =
    ground
      (arith, Distinct-append_one k xs d.1, contains-append_one x k xs, ==ℤ_iff x k, ==ℤ_iff k x)

pub Distinct-pop :
    (k : ℤ) (xs : List ℤ) → Distinct (xs ++ k ∷ []) → Distinct xs × (contains k xs ≡ false)
unfolding contains
Distinct-pop k [] d = (tt, refl)
Distinct-pop k (x ∷ xs) d =
    ground (arith, Distinct-pop k xs d.1, contains-append_one x k xs, ==ℤ_iff x k, ==ℤ_iff k x)

pub pop_back-none : (ks : List ℤ) → pop_back ks ≡ none → ks ≡ []
unfolding pop_back
pop_back-none [] e = refl
pop_back-none (y ∷ ys) e = ground arith

-- `back` and `pop_back` split off the last element.
pub pop_back-some :
    (ks : List ℤ) (k : ℤ) (rest : List ℤ) → pop_back ks ≡ some (k, rest) → ks ≡ rest ++ k ∷ []
unfolding pop_back
pop_back-some [] k rest e = cc
pop_back-some (x ∷ xs) k rest e = elim (Option-cases (pop_back xs)) [
  | inl last ↦ ground (arith, pop_back-none xs last)
  | inr (p, more) ↦ ground (arith, pop_back-some xs p.0 p.1)
]

-- A slot that is referenced from the freelist: in range, and its pointers are null.
abbrev pub IsFree : {O E : Type 0} → List (InstancePointers O E) → ℤ → Type 0
IsFree xs k = (i : ℕ) × (k ≡ pos (suc i)) × (get_elem? xs i ≡ some empty)

-- "These come and go hand in hand."
abbrev pub IsPaired : {O E : Type 0} → InstancePointers O E → Type 0
IsPaired p = is_some p.object_p ≡ is_some p.events_p

-- The class invariants: a mutex for each slot, pointers in pairs, and a freelist of distinct numbers
-- of empty slots.
pub record IsValid {O E : Type 0} (m : Manager O E) : Type 0 where
  pub counted : m.locks ≡ length m.instances
  pub paired : All IsPaired m.instances
  pub freed : All (IsFree m.instances) m.freelist
  pub distinct : Distinct m.freelist

pub init-IsValid : {O E : Type 0} → IsValid (init {O = O} {E = E})
unfolding init
init-IsValid = record { counted = refl; paired = tt; freed = tt; distinct = tt }

module _ {O E : Type 0} where
  -- What is on the freelist is free.
  pub IsFree-contains :
      (xs : List (InstancePointers O E)) (n : ℤ) (ks : List ℤ)
      → All (IsFree xs) ks
      → contains n ks ≡ true
      → IsFree xs n
  unfolding contains
  IsFree-contains xs n [] h e = cc
  IsFree-contains xs n (k ∷ ks) h e = elim (Bool-cases (k ==ℤ n)) [
    | inl same ↦ rw (← (==ℤ_iff k n).0 same) h.0
    | inr other ↦ IsFree-contains xs n ks h.1 (rw other at e)
  ]

  -- A write to a slot that is not on the freelist leaves the listed ones free.
  pub IsFree-set :
      (xs : List (InstancePointers O E)) (i : ℕ) (p : InstancePointers O E) (ks : List ℤ)
      → All (IsFree xs) ks
      → contains (pos (suc i)) ks ≡ false
      → All (IsFree (set xs i p)) ks
  unfolding contains
  IsFree-set xs i p [] h e = tt
  IsFree-set xs i p (k ∷ ks) h e =
      let (j, at, empty_at) = h.0 in
      (
        (
          j,
          at,
          get_elem?-set_ne xs i j p (λ eq. ground (arith, ==ℤ_iff k (pos (suc i)))) ∙ empty_at,
        ),
        IsFree-set xs i p ks h.1 (ground arith),
      )
