-- ===== src/Log/Calls/Entries.antt =====
-- The entry at an address among the entries before and after it.
use jvm_toxcore_c.Base.{ℕ, ◌<◌, ◌≤◌, ◌≡◌, refl, none, some, List, [], ◌∷◌, ◌++◌, All, arith}
use jvm_toxcore_c.Log.Store.{JniLogEntry, find_entry, modify_entry, delete_entry}

-- Addresses below `n` are in use.
abbrev pub Below : ℕ → List (ℕ × JniLogEntry) → Type 0
Below n = All (λ p. p.0 < n)

abbrev pub Within : ℕ → ℕ → List (ℕ × JniLogEntry) → Type 0
Within n k = All (λ p. (n ≤ p.0) × (p.0 < k))

pub Below-find :
    (n id : ℕ) (xs : List (ℕ × JniLogEntry)) → Below n xs → n ≤ id → find_entry id xs ≡ none
unfolding find_entry
Below-find n id [] h le = refl
Below-find n id ((k, e) ∷ xs) h le = ground (arith, Below-find n id xs h.1 le)

pub Within-find :
    (n k id : ℕ) (xs : List (ℕ × JniLogEntry)) → Within n k xs → id < n → find_entry id xs ≡ none
unfolding find_entry
Within-find n k id [] h lt = refl
Within-find n k id ((j, e) ∷ xs) h lt = ground (arith, Within-find n k id xs h.1 lt)

module _ (id : ℕ) (e : JniLogEntry) where
  pub find_entry-append :
      (xs ys : List (ℕ × JniLogEntry))
      → find_entry id xs ≡ none
      → find_entry id (xs ++ (id, e) ∷ ys) ≡ some e
  unfolding find_entry
  find_entry-append [] ys h = ground arith
  find_entry-append ((k, x) ∷ xs) ys h = ground (arith, find_entry-append xs ys)

  pub modify_entry-append :
      (f : JniLogEntry → JniLogEntry) (xs ys : List (ℕ × JniLogEntry))
      → find_entry id xs ≡ none
      → modify_entry id f (xs ++ (id, e) ∷ ys) ≡ xs ++ (id, f e) ∷ ys
  unfolding find_entry modify_entry
  modify_entry-append f [] ys h = ground arith
  modify_entry-append f ((k, x) ∷ xs) ys h = ground (arith, modify_entry-append f xs ys)

  delete_entry-none :
      (xs : List (ℕ × JniLogEntry)) → find_entry id xs ≡ none → delete_entry id xs ≡ none
  unfolding find_entry delete_entry
  delete_entry-none [] h = refl
  delete_entry-none ((k, x) ∷ xs) h = ground (arith, delete_entry-none xs)

  pub delete_entry-append :
      (xs ys : List (ℕ × JniLogEntry))
      → find_entry id ys ≡ none
      → delete_entry id (xs ++ (id, e) ∷ ys) ≡ some (xs ++ ys)
  unfolding delete_entry
  delete_entry-append [] ys h = ground (arith, delete_entry-none ys h)
  delete_entry-append ((k, x) ∷ xs) ys h = ground (arith, delete_entry-append xs ys h)
