-- ===== src/Drain.antt =====
-- The end of `toxIterate` and `toxavIterate`: the collected events are serialised for Java, and
-- cleared. The message classes are generated from the schema by protobuf, so their sizes and
-- encodings are a parameter.
use jvm_toxcore_c.Base.{
  ℕ, zero, suc, ◌-◌, ◌≡◌, refl, ap, ◌∙◌, false, Option, none, some, List, [], ◌∷◌, ◌++◌, length,
  leb, ◌==◌, if◌then◌else◌, arith, ◌⊎◌, inl, inr, Bool-cases, ==_iff, ◌≢◌,
}
use mathlib.Core.List.{append-nil}

-- `ByteSizeLong`, and the bytes that the serialisation writes.
pub record Protobuf (E : Type 0) : Type 0 where
  pub byte_size : E → ℕ
  pub serialize : E → List ℕ

-- What protobuf documents: the size is that of the serialisation, and a message has size 0 exactly
-- when every field has its default.
pub record IsProtobuf {E : Type 0} (pb : Protobuf E) (cleared : E) : Type 0 where
  pub sized : (e : E) → pb.byte_size e ≡ length (pb.serialize e)
  pub cleared_size : pb.byte_size cleared ≡ 0
  pub size_zero : (e : E) → pb.byte_size e ≡ 0 → e ≡ cleared

unfoldable pub zeros : ℕ → List ℕ
zeros zero = []
zeros (suc n) = 0 ∷ zeros n

-- `SerializeToArray` into a buffer of `n` bytes, which is zero before: it writes nothing when the
-- bytes do not fit.
pub serialize_to_array : ℕ → List ℕ → List ℕ
serialize_to_array n bytes =
    if leb (length bytes) n then bytes ++ zeros (n - length bytes) else zeros n

pub serialize_to_array_exact :
    (n : ℕ) (bytes : List ℕ) → n ≡ length bytes → serialize_to_array n bytes ≡ bytes
unfolding serialize_to_array zeros
serialize_to_array_exact n bytes h = elim (Bool-cases (leb (length bytes) n)) [
  | inl fits ↦ rw fits (let e : n - length bytes ≡ 0 = omega (arith, h) in rw e (append-nil bytes))
  | inr too_long ↦ absurd (ground arith)
]

not_empty : {n : ℕ} → (n == 0) ≡ false → n ≡ 0 → ⊥
not_empty h e = ground arith

module _ {E : Type 0} (pb : Protobuf E) (cleared : E) where
  -- The array for Java, null when there is nothing to report, and the events afterwards.
  unfoldable pub drain : E → Option (List ℕ) × E
  unfolding serialize_to_array
  drain e =
      if pb.byte_size e == 0
      then (none, e)
      else (some (serialize_to_array (pb.byte_size e) (pb.serialize e)), cleared)

  -- Java gets null when nothing was collected, and otherwise the whole serialisation; either way
  -- nothing is left, so that no event is reported twice.
  pub drain_lem :
      (e : E)
      → IsProtobuf pb cleared
      → ((drain e).1 ≡ cleared)
        × (((e ≡ cleared) × ((drain e).0 ≡ none))
            ⊎ ((e ≢ cleared) × ((drain e).0 ≡ some (pb.serialize e))))
  unfolding drain
  drain_lem e p = elim (Bool-cases (pb.byte_size e == 0)) [
    | inl nothing ↦
        let same = p.size_zero e ((==_iff (pb.byte_size e) 0).0 nothing) in
        rw nothing (same, inl (same, refl))
    | inr more ↦ rw more (
      refl,
      inr (
        λ h. not_empty more (ap pb.byte_size h ∙ p.cleared_size),
        ap some (serialize_to_array_exact _ _ (p.sized e)),
      ),
    )
  ]
