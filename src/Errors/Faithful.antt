-- ===== src/Errors/Faithful.antt =====
-- What makes a `handle_error_enum` faithful, and how it is shown by a list of its failure codes.
use jvm_toxcore_c.Base.{
  ◌≡◌, sym, ◌∙◌, ◌⊎◌, Bool, false, Option, none, some, some-injective, List, [], ◌∷◌, ℤ, Text,
  text_eq, if◌then◌else◌,
}
use jvm_toxcore_c.Errors.{ErrorHandling, ErrorType, success, failure, unhandled}

-- A translation that `with_error_handling` can act on: a failure carries a name.
abbrev pub HasShape : ErrorHandling → Type 0
HasShape h = (h ≡ success) ⊎ (h ≡ unhandled) ⊎ ((name : Text) × (h ≡ failure name))

-- Success is reported for the one code `ok`, no known code is unhandled, and two codes never share
-- the name that an exception carries.
pub record IsFaithful {E : Type 0} (t : ErrorType E) (ok : E) (other : ℤ → E) : Type 0 where
  pub shaped : (e : E) → HasShape (t.handle_error_enum e)
  pub succeeds : t.handle_error_enum ok ≡ success
  pub only_ok : (e : E) → t.handle_error_enum e ≡ success → e ≡ ok
  pub only_other : (e : E) → t.handle_error_enum e ≡ unhandled → (n : ℤ) × (e ≡ other n)
  pub injective :
      (a b : E) (name : Text)
      → t.handle_error_enum a ≡ failure name
      → t.handle_error_enum b ≡ failure name
      → a ≡ b

-- Whether two translations are failures of one name.
abbrev same_name : Option Text → Option Text → Bool
same_name (some s) (some t) = text_eq s t
same_name _ _ = false

module _ {E : Type 0} (t : ErrorType E) where
  -- The first code of a list that has a given translation.
  unfoldable pub find_code : List E → ErrorHandling → Option E
  find_code [] h = none
  find_code (e ∷ es) h =
      if same_name (t.handle_error_enum e).error h.error then some e else find_code es h

  -- The code itself if its translation has a name.
  abbrev pub named : E → Option Text → Option E
  named e none = none
  named e (some _) = some e

  -- A list in which each code with a name is found by its translation.
  abbrev pub IsListed : List E → Type 0
  IsListed es =
      (e : E) → find_code es (t.handle_error_enum e) ≡ named e (t.handle_error_enum e).error

  pub injective_of_list :
      (es : List E)
      → IsListed es
      → (a b : E) (name : Text) → t.handle_error_enum a ≡ failure name
      → t.handle_error_enum b ≡ failure name
      → a ≡ b
  injective_of_list es found a b name p q = some-injective a b (sym (found_at a p) ∙ found_at b q)
    where
      found_at :
          (e : E) → t.handle_error_enum e ≡ failure name → find_code es (failure name) ≡ some e
      found_at e r = rw r at (found e)
