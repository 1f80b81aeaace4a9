-- ===== src/Instances/Add.antt =====
-- `add` of util/instance_manager.h on the abstract view.
use jvm_toxcore_c.Base.{
  ℕ, suc, ◌+◌, ◌^◌, ◌<◌, ◌≡◌, refl, sym, ap, ◌∙◌, some, List, [], ◌∷◌, ◌++◌, ℤ, pos, ==ℤ_iff,
  length, get_elem?, set, arith, ◌⊎◌, inl, inr, Option-cases, lt-get_elem?, length-set,
  length-append, All-set, All-append, to_jint_small, get_elem?-ge, All-append_left, All-append_last,
}
use jvm_toxcore_c.Jni.{returned, Ensures}
use jvm_toxcore_c.Instances.{InstancePointers, Manager, contains, pop_back, empty, add}
use jvm_toxcore_c.Instances.Valid.{
  IsFree, IsPaired, IsValid, IsFree-set, Distinct-pop, pop_back-some, pop_back-none,
  contains-append_one,
}
use jvm_toxcore_c.Instances.View.{vacant, free, live, view, slot_of-set, slot_of-append, update}

module _ {O E : Type 0} (o : O) (e : E) where
  abbrev pair : InstancePointers O E
  pair = record { object_p = some o; events_p = some e }

  -- What `add` promises of the number and the table that it returns.
  abbrev pub Added : Manager O E → ℤ × Manager O E → Type 0
  Added m r =
      IsValid r.1
      × ((view m r.0 ≡ vacant) ⊎ (view m r.0 ≡ free))
      × ((j : ℤ) → view r.1 j ≡ update r.0 (λ _. live o e) (view m) j)

  pushed : Manager O E → Manager O E
  pushed m = record m { instances = m.instances ++ pair ∷ []; locks = m.locks + 1 }

  add-append :
      (m : Manager O E)
      → IsValid m
      → length m.instances + 1 < 2 ^ 31
      → m.freelist ≡ []
      → add (some o) (some e) m ≡ returned (pos (suc (length m.instances)), pushed m)
  unfolding add pushed pop_back
  add-append m v h none_free = ground (
    arith,
    v.counted,
    length-append m.instances (pair ∷ []),
    to_jint_small (length (m.instances ++ pair ∷ [])),
  )

  pushed-Added :
      (m : Manager O E)
      → IsValid m
      → m.freelist ≡ []
      → Added m (pos (suc (length m.instances)), pushed m)
  unfolding pushed contains
  pushed-Added m v none_free = (
    record {
      counted = omega (arith, v.counted, length-append m.instances (pair ∷ []));
      paired = All-append IsPaired m.instances (pair ∷ []) v.paired (refl, tt);
      freed = rw none_free tt;
      distinct = v.distinct;
    },
    inl (rw none_free (rw (get_elem?-ge m.instances (length m.instances) (omega arith)))),
    (λ j. rw none_free (
        slot_of-append m.instances pair j
        ∙ ground (
          arith,
          ==ℤ_iff j (pos (suc (length m.instances))),
          ==ℤ_iff (pos (suc (length m.instances))) j,
        ))),
  )

  reused : Manager O E → ℕ → List ℤ → Manager O E
  reused m i rest = record m { instances = set m.instances i pair; freelist = rest }

  add-reuse :
      (m : Manager O E) (i : ℕ) (rest : List ℤ)
      → pop_back m.freelist ≡ some (pos (suc i), rest)
      → get_elem? m.instances i ≡ some empty
      → add (some o) (some e) m ≡ returned (pos (suc i), reused m i rest)
  unfolding add reused
  add-reuse m i rest p at = ground arith

  reused-Added :
      (m : Manager O E) (i : ℕ) (rest : List ℤ)
      → IsValid m
      → m.freelist ≡ rest ++ pos (suc i) ∷ []
      → get_elem? m.instances i ≡ some empty
      → Added m (pos (suc i), reused m i rest)
  unfolding reused
  reused-Added m i rest v e at = (
    record {
      counted = v.counted ∙ sym (length-set m.instances i pair);
      paired = All-set IsPaired m.instances i pair v.paired refl;
      freed =
          IsFree-set m.instances i pair rest
            (All-append_left (IsFree m.instances) rest (pos (suc i) ∷ []) (rw e at v.freed))
            (Distinct-pop (pos (suc i)) rest (rw e at v.distinct)).1;
      distinct = (Distinct-pop (pos (suc i)) rest (rw e at v.distinct)).0;
    },
    inr (ground (arith, contains-append_one (pos (suc i)) (pos (suc i)) rest)),
    (λ j. ground (
      arith,
      contains-append_one j (pos (suc i)) rest,
      slot_of-set m.instances i pair j (lt-get_elem? m.instances i empty at),
      ==ℤ_iff j (pos (suc i)),
      ==ℤ_iff (pos (suc i)) j,
      (Distinct-pop (pos (suc i)) rest (rw e at v.distinct)).1,
    )),
  )

  -- Given an object and its events, `add` returns as long as Java can represent the number, keeps
  -- the invariants, returns a number that is vacant or free, and makes that one number live with
  -- the given pair.
  pub add-Added :
      (m : Manager O E)
      → IsValid m
      → length m.instances + 1 < 2 ^ 31
      → Ensures (add (some o) (some e) m) (Added m)
  add-Added m v h = elim (Option-cases (pop_back m.freelist)) [
    | inl nothing ↦
        let none_free = pop_back-none m.freelist nothing in
        rw (add-append m v h none_free) (pushed-Added m v none_free)
    | inr (back, popped) ↦
        let split = pop_back-some m.freelist back.0 back.1 popped in
        let (i, n, at) = All-append_last (IsFree m.instances) back.1 back.0 (rw split at v.freed) in
        rw (add-reuse m i back.1 (popped ∙ ap (λ k. some (k, back.1)) n) at)
          (reused-Added m i back.1 v (split ∙ ap (λ k. back.1 ++ k ∷ []) n) at)
  ]
