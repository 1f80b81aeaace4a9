-- ===== src/Log/Registry/Names.antt =====
-- What `register_func`, `get_func_name` and the reading of a numeric name do together.
use mathlib.Core.Path.{subst}
use jvm_toxcore_c.Base.{
  ℕ, zero, suc, ◌+◌, ◌/◌, ◌%◌, ◌^◌, ◌<◌, ◌==◌, ◌≡◌, refl, sym, ap, ◌∙◌, true, false, Option, none,
  some, some-injective, List, [], ◌∷◌, Text, decimal, to_string, arith, ==_iff, Bool-cases,
  Option-cases, inl, inr, All,
}
use jvm_toxcore_c.Jni.{returned, Ensures, Ensures-map}
use jvm_toxcore_c.Log.Registry.{
  FuncNames, find_name, register_func, register_funcs, get_func_name, is_digit, digits_from,
  read_pointer, is_numeric, update_name,
}

digit-is : (d : ℕ) → d < 10 → is_digit (b'0' + d) ≡ true
unfolding is_digit
digit-is d h = ground arith

-- Reading the digits of `n` before `rest` reads on from `n`.
digits-decimal :
    (f n : ℕ) (rest : Text) → n < f → digits_from 0 (decimal f n rest) ≡ digits_from n rest
unfolding decimal digits_from
digits-decimal zero n rest h = absurd (omega arith)
digits-decimal (suc f) n rest h = elim (Bool-cases (n / 10 == 0)) [
  | inl last ↦
      rw last (rw (digit-is (n % 10) (omega arith)) (ap (λ x. digits_from x rest) (ground arith)))
  | inr more ↦ rw more (
      digits-decimal f (n / 10) ((b'0' + n % 10) ∷ rest) (ground arith)
      ∙ rw (digit-is (n % 10) (omega arith)) (ap (λ x. digits_from x rest) (omega arith)))
]

pub read-to_string : (func : ℕ) → func < 2 ^ 64 → read_pointer (to_string func) ≡ func
unfolding read_pointer to_string digits_from
read-to_string func h = rw (digits-decimal (suc func) func [] (omega arith)) (ground arith)

-- The addresses of a registration are new, and different from one another.
abbrev pub Fresh : FuncNames → List (ℕ × Text) → Type 0
Fresh names [] = Unit
Fresh names ((func, name) ∷ funcs) =
    (find_name names func ≡ none) × Fresh ((func, name) ∷ names) funcs

abbrev pub or_else : Option Text → Option Text → Option Text
or_else (some name) other = some name
or_else none other = other

Fresh-none :
    (names : FuncNames) (funcs : List (ℕ × Text)) (func : ℕ) (name : Text)
    → Fresh names funcs
    → find_name names func ≡ some name
    → find_name funcs func ≡ none
unfolding find_name
Fresh-none names [] func name h e = refl
Fresh-none names ((f, n) ∷ funcs) func name h e = elim (Bool-cases (f == func)) [
  | inl same ↦
      let eq : f ≡ func = (==_iff f func).0 same in
      absurd (clash (subst (λ k. find_name names k ≡ none) eq h.0) e)
  | inr other ↦ rw other (Fresh-none ((f, n) ∷ names) funcs func name h.1 (rw other e))
]
  where
    clash : {o : Option Text} → o ≡ none → o ≡ some name → ⊥
    clash p q = cc

-- The registration of new addresses, pairwise different, succeeds; a function is then found under
-- the name it was registered with now, and every other one as before.
pub register_funcs_lem :
    (names : FuncNames) (funcs : List (ℕ × Text))
    → Fresh names funcs
    → Ensures (register_funcs funcs names) λ names'.
      (func : ℕ) → find_name names' func ≡ or_else (find_name funcs func) (find_name names func)
unfolding register_funcs register_func find_name
register_funcs_lem names [] h = λ func. refl
register_funcs_lem names ((f, n) ∷ funcs) h =
    rw (h.0, register_funcs)
      (Ensures-map (register_funcs funcs ((f, n) ∷ names)) _ _
        (register_funcs_lem ((f, n) ∷ names) funcs h.1)
        λ names' found func. found func ∙ joined func)
  where
    joined :
        (func : ℕ)
        → or_else (find_name funcs func) (find_name ((f, n) ∷ names) func)
          ≡ or_else (find_name ((f, n) ∷ funcs) func) (find_name names func)
    joined func = elim (Bool-cases (f == func)) [
      | inl same ↦
          let eq : f ≡ func = (==_iff f func).0 same in
          let gone = Fresh-none ((f, n) ∷ names) funcs func n h.1 (rw same refl) in
          rw (same, gone) refl
      | inr other ↦ rw other refl
    ]

-- Names that clear can tell from addresses.
abbrev pub IsNamed : FuncNames → Type 0
IsNamed names = All (λ p. (c : ℕ) × (text : Text) × (p.1 ≡ c ∷ text) × (is_digit c ≡ false)) names

found-IsNamed :
    (names : FuncNames) (func : ℕ) (name : Text)
    → IsNamed names
    → find_name names func ≡ some name
    → (c : ℕ) × (text : Text) × (name ≡ c ∷ text) × (is_digit c ≡ false)
unfolding find_name
found-IsNamed [] func name h e = absurd (cc)
found-IsNamed ((f, n) ∷ names) func name h e = elim (Bool-cases (f == func)) [
  | inl same ↦
      let eq : n ≡ name = some-injective n name (rw same at e) in
      let (c, text, shape, letter) = h.0 in (c, text, sym eq ∙ shape, letter)
  | inr other ↦ found-IsNamed names func name h.1 (rw other at e)
]

decimal-digit :
    (f n : ℕ) (rest : Text)
    → n < f
    → (c : ℕ) × (text : Text) × (decimal f n rest ≡ c ∷ text) × (is_digit c ≡ true)
unfolding decimal
decimal-digit zero n rest h = absurd (omega arith)
decimal-digit (suc f) n rest h = elim (Bool-cases (n / 10 == 0)) [
  | inl last ↦ (b'0' + n % 10, rest, rw last refl, digit-is (n % 10) (omega arith))
  | inr more ↦
      let (c, text, e, d) = decimal-digit f (n / 10) ((b'0' + n % 10) ∷ rest) (ground arith) in
      (c, text, rw more e, d)
]

get_func_name-known :
    (names : FuncNames) (func : ℕ) (name : Text)
    → find_name names func ≡ some name
    → get_func_name names func ≡ name
unfolding get_func_name
get_func_name-known names func name e = rw (e, get_func_name) refl

get_func_name-unknown :
    (names : FuncNames) (func : ℕ)
    → find_name names func ≡ none
    → get_func_name names func ≡ to_string func
unfolding get_func_name
get_func_name-unknown names func e = rw (e, get_func_name) refl

pub get_func_name-shape :
    (names : FuncNames) (func : ℕ)
    → IsNamed names
    → (c : ℕ) × (text : Text) × (get_func_name names func ≡ c ∷ text)
unfolding to_string
get_func_name-shape names func h = elim (Option-cases (find_name names func)) [
  | inl missing ↦
      let (c, text, e, d) = decimal-digit (suc func) func [] (omega arith) in
      (c, text, get_func_name-unknown names func missing ∙ e)
  | inr (name, found) ↦
      let (c, text, e, d) = found-IsNamed names func name h found in
      (c, text, get_func_name-known names func name found ∙ e)
]

update_name-letter :
    (names : FuncNames) (c : ℕ) (text : Text)
    → is_digit c ≡ false
    → update_name names (c ∷ text) ≡ returned (c ∷ text)
unfolding update_name is_numeric
update_name-letter names c text e = rw e refl

update_name-digit :
    (names : FuncNames) (c : ℕ) (text : Text)
    → is_digit c ≡ true
    → update_name names (c ∷ text) ≡ returned (get_func_name names (read_pointer (c ∷ text)))
unfolding update_name is_numeric
update_name-digit names c text e = rw e refl

-- An address that was not registered yet is looked up by its value.
update-address :
    (names : FuncNames) (func : ℕ)
    → func < 2 ^ 64
    → update_name names (to_string func) ≡ returned (get_func_name names func)
unfolding to_string
update-address names func small =
    let (c, text, shape, digit) = decimal-digit (suc func) func [] (omega arith) in
    let read : read_pointer (c ∷ text) ≡ func =
      ap read_pointer (sym shape) ∙ read-to_string func small in
    rw shape
      (update_name-digit names c text digit ∙ ap (λ f. returned (get_func_name names f)) read)

-- The name that a new entry gets for a function, updated by `clear` after further functions were
-- registered under new addresses, is the function's name at that time: its registered name, even
-- when it was registered after the call, and otherwise its address. No name that is registered
-- may be empty or begin with a digit, as is the case for the names that the code registers.
pub update-get_func_name :
    (names : FuncNames) (funcs : List (ℕ × Text)) (func : ℕ)
    → Fresh names funcs
    → IsNamed names
    → func < 2 ^ 64
    → Ensures (register_funcs funcs names) λ names'.
      update_name names' (get_func_name names func) ≡ returned (get_func_name names' func)
update-get_func_name names funcs func fresh named small =
    Ensures-map (register_funcs funcs names) _ _ (register_funcs_lem names funcs fresh)
      λ names' found. elim (Option-cases (find_name names func)) [
        | inl unknown ↦
            rw (get_func_name-unknown names func unknown) (update-address names' func small)
        | inr (name, known) ↦
            let (c, text, shape, letter) = found-IsNamed names func name named known in
            let kept : find_name names' func ≡ some name =
              found func ∙ rw (Fresh-none names funcs func name fresh known) (rw known refl) in
            rw
              (get_func_name-known names func name known, get_func_name-known names' func name kept)
              (rw shape (update_name-letter names' c text letter))
      ]
