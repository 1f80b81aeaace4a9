-- ===== src/Log/Values/Identities.antt =====
-- `print_arg` of an instance pointer: the numbers by which the log tells instances apart.
use jvm_toxcore_c.Base.{
  ℕ, ◌+◌, ◌^◌, ◌<◌, ◌≤◌, ◌≡◌, refl, sym, ap, ◌∙◌, none, some, List, [], ◌∷◌, ◌++◌, length,
  length-append, Text, to_string, arith, inl, inr, Option-cases, ◌↔◌, some-injective,
}
use mathlib.Core.List.{append-nil, append_assoc}
use jvm_toxcore_c.Base.{codes}
use jvm_toxcore_c.Log.Values.{
  Value, Payload, v_string, position, identity_text, print_object, print_objects,
}
use jvm_toxcore_c.Log.Registry.{read_pointer}
use jvm_toxcore_c.Log.Registry.Names.{read-to_string}

position-append :
    (p : ℕ) (ids more : List ℕ) (n : ℕ)
    → position p ids ≡ some n
    → position p (ids ++ more) ≡ some n
unfolding position
position-append p [] more n h = cc
position-append p (x ∷ ids) more n h = elim (Option-cases (position p ids)) [
  | inl gone ↦ ground arith
  | inr (k, at) ↦ ground (arith, position-append p ids more k at)
]

position-end :
    (p : ℕ) (ids : List ℕ) → position p ids ≡ none → position p (ids ++ p ∷ []) ≡ some (length ids)
unfolding position
position-end p [] h = ground arith
position-end p (x ∷ ids) h = elim (Option-cases (position p ids)) [
  | inl gone ↦ ground (arith, position-end p ids gone)
  | inr (k, at) ↦ ground arith
]

position-lt : (p : ℕ) (ids : List ℕ) (n : ℕ) → position p ids ≡ some n → n < length ids
unfolding position
position-lt p [] n h = cc
position-lt p (x ∷ ids) n h = elim (Option-cases (position p ids)) [
  | inl gone ↦ ground arith
  | inr (k, at) ↦ ground (arith, position-lt p ids k at)
]

position-injective :
    (p q : ℕ) (ids : List ℕ) (n : ℕ) → position p ids ≡ some n → position q ids ≡ some n → p ≡ q
unfolding position
position-injective p q [] n h k = cc
position-injective p q (x ∷ ids) n h k = elim (Option-cases (position p ids)) [
  | inl gone ↦ elim (Option-cases (position q ids)) [
    | inl gone' ↦ ground arith
    | inr (j, at') ↦ ground arith
  ]
  | inr (i, at) ↦ elim (Option-cases (position q ids)) [
    | inl gone' ↦ ground arith
    | inr (j, at') ↦ ground (arith, position-injective p q ids i at)
  ]
]

-- A pointer is printed as its position, which it keeps.
abbrev Printed : ℕ → List ℕ → Value × List ℕ → Type 0
Printed p ids r =
    (n : ℕ) × (more : List ℕ) × (r.0 ≡ identity_text n)
    × (position p r.1 ≡ some n)
    × (r.1 ≡ ids ++ more)
    × (length r.1 ≤ length ids + 1)

print_object-Printed : (p : ℕ) (ids : List ℕ) → Printed p ids (print_object p ids)
unfolding print_object
print_object-Printed p ids = elim (Option-cases (position p ids)) [
  | inl new ↦
      rw (new, print_object)
        (
          length ids,
          p ∷ [],
          refl,
          position-end p ids new,
          refl,
          omega (arith, length-append ids (p ∷ [])),
        )
  | inr (n, at) ↦ rw (at, print_object) (n, [], refl, at, sym (append-nil ids), omega arith)
]

print_objects-append :
    (ps ids : List ℕ)
    → (more : List ℕ) × (print_objects ps ids ≡ ids ++ more)
      × (length (print_objects ps ids) ≤ length ids + length ps)
unfolding print_objects
print_objects-append [] ids = ([], sym (append-nil ids), omega arith)
print_objects-append (p ∷ ps) ids =
    let (n, more, text, at, grown, bound) = print_object-Printed p ids in
    let (more', grown', bound') = print_objects-append ps (print_object p ids).1 in
    (
      more ++ more',
      grown' ∙ (ap (λ r. r ++ more') grown ∙ append_assoc ids more more'),
      omega (arith, bound, bound'),
    )

to_string-injective : (n m : ℕ) → n < 2 ^ 64 → m < 2 ^ 64 → to_string n ≡ to_string m → n ≡ m
to_string-injective n m h k e = sym (read-to_string n h) ∙ ap read_pointer e ∙ read-to_string m k

text_of : Value → Text
text_of v = tail (string_of v.payload)
  where
    tail : Text → Text
    tail [] = []
    tail (c ∷ text) = text

    string_of : Payload → Text
    string_of (v_string text) = text
    string_of _ = []

identity_text-injective :
    (n m : ℕ) → n + 1 < 2 ^ 64 → m + 1 < 2 ^ 64 → identity_text n ≡ identity_text m → n ≡ m
unfolding text_of codes
identity_text-injective n m h k e =
    omega (arith, to_string-injective (n + 1) (m + 1) h k (ap text_of e))

-- The log shows two pointers, whatever is printed between them, as the same instance exactly when
-- they are the same pointer, as long as a `std::size_t` can number them.
pub print_object_iff :
    (p q : ℕ) (ids between : List ℕ)
    → length ids + length between + 2 < 2 ^ 64
    → ((print_object p ids).0 ≡ (print_object q (print_objects between (print_object p ids).1)).0)
      ↔ (p ≡ q)
print_object_iff p q ids between h =
    let (n, more, text, at, grown, bound) = print_object-Printed p ids in
    let (more', grown', bound') = print_objects-append between (print_object p ids).1 in
    let (m, more'', text', at', grown'', bound'') =
      print_object-Printed q (print_objects between (print_object p ids).1) in
    let later : position p (print_object q (print_objects between (print_object p ids).1)).1
        ≡ some n =
      rw grown'' (position-append p _ more'' n (rw grown' (position-append p _ more' n at))) in
    (
      λ same.
          let e =
            identity_text-injective n m (omega (arith, position-lt p _ n at, bound))
              (omega (arith, position-lt q _ m at', bound, bound', bound''))
              (sym text ∙ same ∙ text') in
          position-injective p q _ n later (at' ∙ ap some (sym e)),
      λ same.
          text
          ∙ ap identity_text (
              some-injective n m (
                sym later
                ∙ ap
                    (λ k.
                      position k (print_object q (print_objects between (print_object p ids).1)).1)
                    same
                ∙ at'))
          ∙ sym text',
    )
