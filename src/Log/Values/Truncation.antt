-- ===== src/Log/Values/Truncation.antt =====
-- `print_arg` of bytes with their length.
use jvm_toxcore_c.Base.{
  ℕ, zero, suc, ◌^◌, ◌<◌, ◌≤◌, ◌≡◌, refl, ap, some, List, [], ◌∷◌, ◌++◌, length, ltb, arith, ◌⊎◌,
  inl, inr, Bool-cases,
}
use jvm_toxcore_c.Log.Values.{v_bytes, max_data_log_length, first, print_bytes}

first-all : (n : ℕ) (xs : List ℕ) → length xs ≤ n → first n xs ≡ xs
unfolding first
first-all zero [] h = refl
first-all zero (x ∷ xs) h = absurd (omega arith)
first-all (suc n) [] h = refl
first-all (suc n) (x ∷ xs) h = ap (λ r. x ∷ r) (first-all n xs (omega arith))

first-prefix :
    (n : ℕ) (xs : List ℕ)
    → n ≤ length xs
    → (length (first n xs) ≡ n) × ((rest : List ℕ) × (xs ≡ first n xs ++ rest))
unfolding first
first-prefix zero xs h = (refl, (xs, refl))
first-prefix (suc n) [] h = absurd (omega arith)
first-prefix (suc n) (x ∷ xs) h =
    let (size, (rest, e)) = first-prefix n xs (omega arith) in
    (omega (arith, size), (rest, ap (λ r. x ∷ r) e))

-- What is logged of an array of bytes: all of it when it has at most 128, and otherwise just its
-- first 128. In the second case, and no other, `truncated` is set, to the size of the array, which
-- is a `uint32_t`.
pub print_bytes_lem :
    (bytes : List ℕ)
    → length bytes < 2 ^ 32
    → ((length bytes ≤ 128)
        × (print_bytes (some bytes) ≡ record { truncated = 0; payload = v_bytes bytes }))
      ⊎ ((kept : List ℕ) × (rest : List ℕ) × (128 < length bytes)
          × (bytes ≡ kept ++ rest)
          × (length kept ≡ 128)
          × (print_bytes (some bytes)
              ≡ record { truncated = length bytes; payload = v_bytes kept }))
unfolding print_bytes
print_bytes_lem bytes h = elim (Bool-cases (ltb max_data_log_length (length bytes))) [
  | inl long ↦
      let (size, (rest, e)) = first-prefix 128 bytes (ground arith) in
      inr (
        first 128 bytes,
        rest,
        ground arith,
        e,
        size,
        rw long
            (ap (λ t. record { truncated = t; payload = v_bytes (first 128 bytes) }) (omega arith)),
      )
  | inr short ↦ inl (ground arith, rw short (rw (first-all 128 bytes (ground arith)) refl))
]
