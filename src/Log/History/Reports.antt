-- ===== src/Log/History/Reports.antt =====
-- What Java reads from the log after some calls.
use mathlib.Core.Path.{subst}
use jvm_toxcore_c.Base.{
  ℕ, suc, ◌<◌, ◌^◌, ◌==◌, ◌≡◌, refl, sym, ap, ◌∙◌, Option, none, some, List, [], ◌∷◌, ◌++◌, All,
  arith, length, false,
}
use jvm_toxcore_c.Jni.{returned, ◌>>=◌, Ensures, Ensures-bind}
use jvm_toxcore_c.Drain.{Protobuf, IsProtobuf, serialize_to_array_exact}
use jvm_toxcore_c.Log.Registry.{FuncNames, register_funcs, get_func_name, update_name}
use jvm_toxcore_c.Log.Registry.Names.{IsNamed, update-get_func_name}
use jvm_toxcore_c.Log.Store.{
  JniLog, JniLogEntry, update_names, messages, clear, is_empty, size, last_log,
}
use jvm_toxcore_c.Log.Calls.{Calls, run_calls, kept_all, count_all}
use jvm_toxcore_c.Log.Calls.Entries.{Below}
use jvm_toxcore_c.Log.Calls.Ran.{HasRoom}
use jvm_toxcore_c.Log.Calls.Trace.{run_calls_lem}

-- The name of an entry is that of a function at an address of the machine.
abbrev pub IsKnown : FuncNames → JniLogEntry → Type 0
IsKnown names e = (func : ℕ) × (func < 2 ^ 64) × (e.name ≡ get_func_name names func)

-- Nothing is null, anything else its serialisation.
abbrev pub report : Protobuf (List JniLogEntry) → List JniLogEntry → Option (List ℕ)
report pb [] = none
report pb (x ∷ xs) = some (pb.serialize (x ∷ xs))

update_names-same :
    (names : FuncNames) (xs : List (ℕ × JniLogEntry))
    → IsNamed names
    → All (IsKnown names) (messages xs)
    → update_names names xs ≡ returned xs
unfolding update_names messages update_name register_funcs
update_names-same names [] h k = refl
update_names-same names ((id, e) ∷ xs) h ((func, small, eq), k) =
    rw (ap (update_name names) eq ∙ update-get_func_name names [] func tt h small, update_names)
      (rw (update_names-same names xs h k)
        (ap (λ n. returned ((id, record e { name = n }) ∷ xs)) (sym eq)))

suc_eq : (n : ℕ) → (suc n == 0) ≡ false
suc_eq n = ground arith

last_log-report :
    (pb : Protobuf (List JniLogEntry)) (names : FuncNames) (log : JniLog)
    (xs : List (ℕ × JniLogEntry))
    → IsProtobuf pb []
    → IsNamed names
    → All (IsKnown names) (messages xs)
    → last_log pb names (record log { entries = xs })
      ≡ returned (report pb (messages xs), record log { entries = [] })
unfolding last_log clear is_empty size messages
last_log-report pb names log [] p h k = refl
last_log-report pb names log (x ∷ xs) p h k = rw (suc_eq (length xs)) (
    rw (update_names-same names (x ∷ xs) h k) (
      ap (λ bytes. returned (some bytes, record log { entries = [] }))
        (serialize_to_array_exact _ _ (p.sized (messages (x ∷ xs))))))

-- Calls on an empty log with room for them, and then `lastLog`: Java gets the serialisation of
-- exactly the entries that no filter has, in the order in which the calls begin, or null when there
-- are none, and the log is empty again. Registered names do not begin with a digit, and functions
-- stand at addresses of 64 bits.
pub last_log-run_calls :
    (pb : Protobuf (List JniLogEntry)) (names : FuncNames) (cs : Calls) (log : JniLog)
    → IsProtobuf pb []
    → IsNamed names
    → log.entries ≡ []
    → HasRoom (count_all cs) log
    → All (IsKnown names) (kept_all names log.filters cs)
    → Ensures
        (run_calls names cs log >>= last_log pb names)
        λ r. (r.0 ≡ report pb (kept_all names log.filters cs)) × (r.1.entries ≡ [])
unfolding messages kept_all
last_log-run_calls pb names cs log p h empty room k =
    Ensures-bind (run_calls names cs log) (last_log pb names) _ _
      (run_calls_lem names cs log (subst (Below log.next) (sym empty) tt) room)
      λ log' _ shown.
        let eq : messages log'.entries ≡ kept_all names log.filters cs =
          shown ∙ ap (λ xs. messages xs ++ kept_all names log.filters cs) empty in
        rw (last_log-report pb names log' log'.entries p h (subst (All (IsKnown names)) (sym eq) k))
          (ap (report pb) eq, refl)
