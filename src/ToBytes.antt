-- ===== src/ToBytes.antt =====
-- util/to_bytes.h: integers as bytes, the most significant first.
use jvm_toxcore_c.Base.{
  ℕ, ◌+◌, ◌-◌, ◌*◌, ◌/◌, ◌%◌, ◌^◌, ◌<◌, ◌≡◌, refl, Bool, true, List, [], ◌∷◌, ◌++◌, ℤ, pos, negsuc,
  u16, ltb, All, length, if◌then◌else◌, arith,
}

-- `(value >> (8 * k)) & 0xff`
unfoldable pub byte_at : ℕ → ℕ → ℕ
byte_at k value = value / 2 ^ (8 * k) % 2 ^ 8

unfoldable pub to_bytes_u32 : ℕ → List ℕ
unfolding byte_at
to_bytes_u32 value = byte_at 3 value ∷ byte_at 2 value ∷ byte_at 1 value ∷ byte_at 0 value ∷ []

-- The shift of a negative value keeps its sign, so that its bytes are those of its word.
unfoldable pub to_bytes_i16 : ℤ → List ℕ
unfolding byte_at
to_bytes_i16 value = byte_at 1 (u16 value) ∷ byte_at 0 (u16 value) ∷ []

-- The bytes of the values of an array, in order.
unfoldable pub to_bytes : {A : Type 0} → (A → List ℕ) → List A → List ℕ
to_bytes one [] = []
to_bytes one (value ∷ values) = one value ++ to_bytes one values

-- The signed number of 16 bits with a given word.
abbrev pub signed : ℕ → ℤ
signed w = if ltb w (2 ^ 15) then pos w else negsuc (2 ^ 16 - 1 - w)

-- A reader of 16 bit values, the most significant byte first.
unfoldable pub samples : List ℕ → List ℤ
samples (high ∷ low ∷ bytes) = signed (high * 2 ^ 8 + low) ∷ samples bytes
samples _ = []

-- The value of 32 bits that four bytes stand for.
abbrev word : List ℕ → ℕ
word (a ∷ b ∷ c ∷ d ∷ []) = a * 2 ^ 24 + b * 2 ^ 16 + c * 2 ^ 8 + d
word _ = 0

-- A value of an `int16_t`.
abbrev pub is_i16 : ℤ → Bool
is_i16 (pos n) = ltb n (2 ^ 15)
is_i16 (negsuc n) = ltb n (2 ^ 15)

signed-bytes :
    (x : ℤ) → is_i16 x ≡ true → signed (byte_at 1 (u16 x) * 2 ^ 8 + byte_at 0 (u16 x)) ≡ x
unfolding byte_at
signed-bytes (pos n) h = ground arith
signed-bytes (negsuc n) h = ground arith

-- The bytes of an array of 16 bit samples are twice as many, and reading them back gives the samples.
pub samples-to_bytes :
    (xs : List ℤ)
    → All (λ x. is_i16 x ≡ true) xs
    → (samples (to_bytes to_bytes_i16 xs) ≡ xs)
      × (length (to_bytes to_bytes_i16 xs) ≡ 2 * length xs)
unfolding samples to_bytes to_bytes_i16
samples-to_bytes [] h = (refl, refl)
samples-to_bytes (x ∷ xs) h =
    let rest = samples-to_bytes xs h.1 in
    (rw (signed-bytes x h.0) (rw rest.0 refl), omega (arith, rest.1))

-- The four bytes of a 32 bit value stand for it.
word-to_bytes_u32 : (value : ℕ) → value < 2 ^ 32 → word (to_bytes_u32 value) ≡ value
unfolding to_bytes_u32 byte_at
word-to_bytes_u32 value h = omega arith
