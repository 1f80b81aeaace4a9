-- ===== src/Instances/Locks/Owners.antt =====
-- Who holds a mutex, in terms of where the threads are.
use jvm_toxcore_c.Base.{
  ℕ, ◌≡◌, refl, sym, ap, ◌∙◌, ◌↔◌, Bool, true, false, Option, none, some, some-injective, ◌==◌,
  ==_iff, inl, inr, Bool-cases, arith,
}
use jvm_toxcore_c.Instances.Locks.{Pc, set_pc}

pub clash : {A B : Type 0} {a : A} → none ≡ some a → B
clash e = absurd cc

pub true-false : true ≡ false → ⊥
true-false e = cc

differ : (t u : ℕ) → (t == u) ≡ false → t ≡ u → ⊥
differ t u h e = ground (arith, e)

module _ {O E : Type 0} (holds : Pc O E → Bool) where
  -- The holder, if there is one, is the only thread of which `holds` is true.
  abbrev pub IsOwned : Option ℕ → (ℕ → Pc O E) → Type 0
  IsOwned holder pcs = (u : ℕ) → (holds (pcs u) ≡ true) ↔ (holder ≡ some u)

  module _ (t : ℕ) (p : Pc O E) (pcs : ℕ → Pc O E) where
    pub set_pc_self : set_pc t p pcs t ≡ p
    set_pc_self = rw ((==_iff t t).1 refl) refl

    pub IsOwned-acquire : IsOwned none pcs → holds p ≡ true → IsOwned (some t) (set_pc t p pcs)
    IsOwned-acquire h v u = elim (Bool-cases (t == u)) [
      | inl same ↦ rw same (λ _. ap some ((==_iff t u).0 same), λ _. v)
      | inr other ↦
          rw other
            (λ held. clash ((h u).0 held), λ e. absurd (differ t u other (some-injective t u e)))
    ]

    pub IsOwned-release :
        (holder : Option ℕ)
        → IsOwned holder pcs
        → holds (pcs t) ≡ true
        → holds p ≡ false
        → IsOwned none (set_pc t p pcs)
    IsOwned-release holder h was v u = elim (Bool-cases (t == u)) [
      | inl same ↦ rw same (λ held. absurd (true-false (sym held ∙ v)), λ e. clash e)
      | inr other ↦ rw other (
        λ held. absurd (differ t u other (some-injective t u (sym ((h t).0 was) ∙ (h u).0 held))),
        λ e. clash e,
      )
    ]

    pub IsOwned-keep :
        (holder : Option ℕ)
        → IsOwned holder pcs
        → holds p ≡ holds (pcs t)
        → IsOwned holder (set_pc t p pcs)
    IsOwned-keep holder h v u = elim (Bool-cases (t == u)) [
      | inl same ↦
          let eq : t ≡ u = (==_iff t u).0 same in
          rw same
            (λ held. (h t).0 (sym v ∙ held) ∙ ap some eq, λ e. v ∙ (h t).1 (e ∙ ap some (sym eq)))
      | inr other ↦ rw other (h u)
    ]
