-- ===== src/Log/Registry.antt =====
-- util/debug_log.cpp: the map from the addresses of functions to their names.
pub mod Names
use jvm_toxcore_c.Base.{
  ℕ, ◌*◌, ◌+◌, ◌-◌, ◌^◌, ◌==◌, Bool, true, false, not, ◌&&◌, Option, none, some, List, [], ◌∷◌,
  is_some, leb, if◌then◌else◌, Text, to_string, codes,
}
use jvm_toxcore_c.Jni.{Outcome, returned, fatal, tox4j_assert, ◌>>◌, ◌>>=◌}

-- `std::map<std::uintptr_t, std::string const>`
abbrev pub FuncNames : Type 0
FuncNames = List (ℕ × Text)

-- `find`
unfoldable pub find_name : FuncNames → ℕ → Option Text
find_name [] func = none
find_name ((address, name) ∷ names) func =
    if address == func then some name else find_name names func

-- `register_func`: an address is registered once.
unfoldable pub register_func : ℕ → Text → FuncNames → Outcome FuncNames
register_func func name names =
    tox4j_assert (not (is_some (find_name names func))) (codes "names.find (func) == names.end ()")
    >> returned ((func, name) ∷ names)

-- `register_funcs`, on pairs of an address and a name.
unfoldable pub register_funcs : List (ℕ × Text) → FuncNames → Outcome FuncNames
register_funcs [] names = returned names
register_funcs ((func, name) ∷ funcs) names =
    register_func func name names >>= λ names'. register_funcs funcs names'

-- `get_func_name`: a function that is not registered is named by its address.
unfoldable pub get_func_name : FuncNames → ℕ → Text
get_func_name names func = elim (find_name names func) [ some name ↦ name | none ↦ to_string func ]

-- `std::isdigit` on a byte.
unfoldable pub is_digit : ℕ → Bool
is_digit c = leb b'0' c && leb c b'9'

-- The number that the digits at the start of a text continue.
unfoldable pub digits_from : ℕ → Text → ℕ
digits_from n [] = n
digits_from n (c ∷ text) = if is_digit c then digits_from (n * 10 + (c - b'0')) text else n

-- `in >> pointer`: a number that does not fit is read as the largest.
unfoldable pub read_pointer : Text → ℕ
read_pointer text = let n = digits_from 0 text in if leb n (2 ^ 64 - 1) then n else 2 ^ 64 - 1

-- `std::isdigit (name[0])`
unfoldable pub is_numeric : Text → Bool
is_numeric [] = false
is_numeric (c ∷ text) = is_digit c

-- What `clear` makes of the name of an entry: a numeric one is looked up again.
unfoldable pub update_name : FuncNames → Text → Outcome Text
update_name names [] = tox4j_assert false (codes "!entry.name ().empty ()") >> returned []
update_name names (c ∷ text) =
    returned
      (if is_numeric (c ∷ text) then get_func_name names (read_pointer (c ∷ text)) else c ∷ text)
