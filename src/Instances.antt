-- ===== src/Instances.antt =====
-- util/instance_manager.h: the table of pairs of an object and its events, seen by one thread.
-- Its mutexes are held from the first statement of each function, so a call is one step here
-- (Locks has the steps of several threads); the number of per-instance mutexes is kept, since the
-- code indexes `locks` like `instances`.
pub mod Valid
pub mod Lookup
pub mod Operations
pub mod Add
pub mod View
pub mod History
pub mod Access
pub mod Locks
use jvm_toxcore_c.Base.{
  ℕ, zero, suc, ◌+◌, ◌-◌, ◌^◌, Bool, true, false, not, Option, none, some, List, [], ◌∷◌, ◌++◌, ℤ,
  pos, negsuc, ◌==ℤ◌, ◌==◌, ◌||◌, to_jint, to_string_ℤ, Text, codes, length, get_elem?, set, ltb,
  is_some, is_negative, if◌then◌else◌,
}
use jvm_toxcore_c.Jni.{
  Env, exception_check, Outcome, returned, fatal, undefined, ◌>>=◌, ◌>>◌, tox4j_assert,
}
use jvm_toxcore_c.Jni.Exceptions.{throw_illegal_state_exception, throw_tox_killed_exception}

-- `instance_pointers`; null pointers are `none`.
pub record InstancePointers (O E : Type 0) : Type 0 where
  pub object_p : Option O
  pub events_p : Option E

pub record Manager (O E : Type 0) : Type 0 where
  pub instances : List (InstancePointers O E)
  pub locks : ℕ
  -- The most recently finalised number is at the end.
  pub freelist : List ℤ

-- The constructor.
unfoldable pub init : {O E : Type 0} → Manager O E
init = record { instances = []; locks = 0; freelist = [] }

-- `std::find` on the freelist.
unfoldable pub contains : ℤ → List ℤ → Bool
contains n [] = false
contains n (k ∷ ks) = if k ==ℤ n then true else contains n ks

-- `freelist.back ()` with what `pop_back` leaves.
unfoldable pub pop_back : List ℤ → Option (ℤ × List ℤ)
pop_back [] = none
pop_back (k ∷ ks) = elim (pop_back ks) [
  | none ↦ some (k, [])
  | some (last, rest) ↦ some (last, k ∷ rest)
]

-- `instanceNumber - 1` as an index: a `jint` is converted to a `size_t`.
abbrev pub index : ℤ → ℕ
index (pos zero) = 2 ^ 64 - 1
index (pos (suc i)) = i
index (negsuc n) = 2 ^ 64 - 2 - n

-- `static_cast<std::size_t> (instanceNumber)` for a number that is not negative.
abbrev pub magnitude : ℤ → ℕ
magnitude (pos n) = n
magnitude (negsuc n) = 2 ^ 64 - 1 - n

-- The pointers come and go hand in hand: both conversions to bool, that of the pair in its slot and
-- that of the pair which `get` gives, abort the process with this message on a pair of which just one
-- is null.
abbrev unpaired : Text
unpaired = codes "!object_p == !events_p"

module _ {O E : Type 0} where
  abbrev pointers_live : Option O → Option E → Outcome Bool
  pointers_live (some o) (some e) = returned true
  pointers_live none none = returned false
  pointers_live (some o) none = fatal unpaired
  pointers_live none (some e) = fatal unpaired

  -- The conversion to bool.
  abbrev pub is_live : InstancePointers O E → Outcome Bool
  is_live p = pointers_live p.object_p p.events_p

  abbrev pub empty : InstancePointers O E
  empty = record { object_p = none; events_p = none }

  unfoldable pub check_instance_number : Env → ℤ → Bool → Manager O E → Env × Bool
  unfolding contains
  check_instance_number env n allow_zero m =
      if is_negative n
      then (throw_illegal_state_exception env n (codes "instance number out of range"), false)
      else if n ==ℤ pos 0
      then (
        if allow_zero
            then env
            else throw_illegal_state_exception env n (codes "function called on null instance"),
        false,
      )
      else if ltb (length m.instances) (magnitude n)
      then (
        throw_illegal_state_exception env n (codes "function called on invalid instance"),
        false,
      )
      else if contains n m.freelist
      then (
        throw_illegal_state_exception env n
            (codes "accessed instance thought to be garbage collected"),
        false,
      )
      else (env, true)

  -- Writes the slot of a number that came from the freelist.
  unfoldable reuse : InstancePointers O E → ℤ → List ℤ → Manager O E → Outcome (ℤ × Manager O E)
  reuse p n rest m = do
    tox4j_assert (not (is_negative n || n ==ℤ pos 0)) (codes "instanceNumber >= 1")
    elim (get_elem? m.instances (index n)) [
      | none ↦ undefined
      | some old ↦ is_live old >>= λ used.
          tox4j_assert (not used) (codes "!instances[instanceNumber - 1]")
          >> returned (n, record m { instances = set m.instances (index n) p; freelist = rest })
    ]

  unfoldable append : InstancePointers O E → Manager O E → Outcome (ℤ × Manager O E)
  append p m = do
    let instances = m.instances ++ p ∷ []
    let locks = m.locks + 1
    tox4j_assert (length instances == locks) (codes "instances.size () == locks.size ()")
    returned (to_jint (length instances), record m { instances = instances; locks = locks })

  unfoldable pub add : Option O → Option E → Manager O E → Outcome (ℤ × Manager O E)
  unfolding reuse append
  add object_p events_p m = do
    tox4j_assert (is_some object_p) (codes "object_p")
    tox4j_assert (is_some events_p) (codes "events_p")
    let p : InstancePointers O E = record { object_p = object_p; events_p = events_p }
    elim (pop_back m.freelist) [ some (n, rest) ↦ reuse p n rest m | none ↦ append p m ]

  -- The pointers are moved out, which leaves null pointers, and destroyed.
  pub kill : Env → ℤ → Manager O E → Outcome (Env × Manager O E)
  kill env n m =
      let (env', proceed) = check_instance_number env n true m in
      if proceed
      then elim (get_elem? m.instances (index n)) [
        | none ↦ undefined
        | some _ ↦ returned (env', record m { instances = set m.instances (index n) empty })
      ]
      else returned (env', m)

  pub finalize : Env → ℤ → Manager O E → Outcome (Env × Manager O E)
  finalize env n m =
      let (env', proceed) = check_instance_number env n true m in
      if proceed
      then elim (get_elem? m.instances (index n)) [
        | none ↦ undefined
        | some p ↦ is_live p >>= λ leaked.
            if leaked
            then returned (
              throw_illegal_state_exception env' n (codes "Leaked Tox instance #" ++ to_string_ℤ n),
              m,
            )
            else tox4j_assert (not (n ==ℤ pos 0)) (codes "instanceNumber != 0")
              >> returned (env', record m { freelist = m.freelist ++ n ∷ [] })
      ]
      else returned (env', m)

  -- What `with_instance` does once it has the pointers: it runs the function on a live pair, whose
  -- new contents are then in the slot, and otherwise throws, unless an exception is pending.
  enter {ℓ} :
      {A : Type ℓ}
      → (O → E → Env → Outcome (A × O × E × Env))
      → A
      → Env
      → ℤ
      → Manager O E
      → InstancePointers O E
      → Outcome (A × Env × Manager O E)
  enter func default env n m p = elim p.object_p [
    | none ↦ elim p.events_p [
      | none ↦ returned (
        default,
        if exception_check env
            then env
            else throw_tox_killed_exception env n (codes "function called on killed tox instance"),
        m,
      )
      | some _ ↦ fatal unpaired
    ]
    | some o ↦ elim p.events_p [
      | none ↦ fatal unpaired
      | some e ↦ func o e env >>= λ r. returned (
        r.0,
        r.3,
        record m {
          instances =
              set m.instances (index n) (record { object_p = some r.1; events_p = some r.2 });
        },
      )
    ]
  ]

  -- `default` is `return_type ()`.
  pub with_instance {ℓ} :
      {A : Type ℓ}
      → (O → E → Env → Outcome (A × O × E × Env))
      → A
      → Env
      → ℤ
      → Manager O E
      → Outcome (A × Env × Manager O E)
  unfolding enter
  with_instance func default env n m =
      let (env', proceed) = check_instance_number env n false m in
      if proceed
      then elim (get_elem? m.instances (index n)) [
        | none ↦ undefined
        | some p ↦ enter func default env' n m p
      ]
      else enter func default env' n m empty
