-- ===== src/Jni/Appends.antt =====
-- Steps that add to a collection, which is joined by an associative operation, and may not return.
use jvm_toxcore_c.Base.{◌≡◌, refl, ap}
use jvm_toxcore_c.Jni.{Outcome, returned, fatal, undefined, ◌>>=◌}

module _ {E : Type 0} (join : E → E → E) where
  -- Two steps in turn, when the second is known to add the outcome `r`.
  pub append_then :
      (e : E) (x r : Outcome E) (k : E → Outcome E)
      → ((a b c : E) → join (join a b) c ≡ join a (join b c))
      → ((d : E) → k d ≡ (r >>= λ f. returned (join d f)))
      → (x >>= (λ d. returned (join e d)) >>= k) ≡ (x >>= k >>= λ d. returned (join e d))
  append_then e (returned d) (returned f) k assoc h =
      rw (h (join e d), h d) (ap returned (assoc e d f))
  append_then e (returned d) (fatal t) k assoc h = rw (h (join e d), h d)
  append_then e (returned d) undefined k assoc h = rw (h (join e d), h d)
  append_then e (fatal t) r k assoc h = refl
  append_then e undefined r k assoc h = refl

  -- A step that adds one message, once it is known.
  pub add_then :
      {F : Type 0} (x : Outcome F) (add : F → E → E) (e empty : E)
      → ((f : F) → add f e ≡ join e (add f empty))
      → (x >>= λ f. returned (add f e))
        ≡ (x >>= (λ f. returned (add f empty)) >>= λ d. returned (join e d))
  add_then (returned f) add e empty h = ap returned (h f)
  add_then (fatal t) add e empty h = refl
  add_then undefined add e empty h = refl
