-- ===== src/Examples/Logs.antt =====
-- Examples on the log of native calls.
use jvm_toxcore_c.Base.{
  to_string, ℕ, ◌≡◌, refl, none, some, List, [], ◌∷◌, ◌++◌, pos, negsuc, codes, arith, length,
}
use jvm_toxcore_c.Jni.{returned, Ensures, ◌>>=◌}
use jvm_toxcore_c.Drain.{Protobuf, IsProtobuf, zeros}
use jvm_toxcore_c.Log.Registry.{
  FuncNames, is_digit, find_name, get_func_name, update_name, register_funcs,
}
use jvm_toxcore_c.Log.Registry.Names.{IsNamed, update-get_func_name}
use jvm_toxcore_c.Log.Values.{no_value}
use jvm_toxcore_c.Log.Store.{JniLog, JniLogEntry, last_log, messages, is_filtered}
use jvm_toxcore_c.Log.Calls.{
  Site, Calls, call, none_made, made, run_calls, kept, kept_all, count, print_call, print_result,
}
use jvm_toxcore_c.Log.Calls.Trace.{run_calls_lem}
use jvm_toxcore_c.Log.History.{
  LogOp, logged, read, resized, filtered, run_ops, IsValid, run_ops-IsValid,
}
use jvm_toxcore_c.Log.History.Reports.{report, last_log-run_calls}
use jvm_toxcore_c.Examples.Tools.{length-zeros, length-zero}

-- Two functions are registered, `f` at 7 and `g` at 9.
abbrev names : FuncNames
names = (7, codes "f") ∷ (9, codes "g") ∷ []

names-IsNamed : IsNamed names
unfolding codes is_digit
names-IsNamed = ((_, _, refl, refl), ((_, _, refl, refl), tt))

abbrev site : ℕ → Site
site func = record {
  func = func;
  arguments = [];
  instance_number = some (pos 3);
  result = no_value;
  start = 1_000_000_007;
  stop = 1_000_000_009;
}

-- `f` is called, which calls `g` and a function without a name, and then `g`.
abbrev calls : Calls
calls =
    made
      (call (site 7) (made (call (site 9) none_made) (made (call (site 11) none_made) none_made)))
      (made (call (site 9) none_made) none_made)

-- An empty log that leaves out `g`.
abbrev log : JniLog
log = record { max_size = pos 10; entries = []; filters = codes "g" ∷ []; next = 5 }

-- An encoding with one byte for each entry.
abbrev pb : Protobuf (List JniLogEntry)
pb = record { byte_size = length; serialize = λ es. zeros (length es) }

pb-IsProtobuf : IsProtobuf pb []
pb-IsProtobuf = record {
  sized = λ es. length-zeros (length es);
  cleared_size = refl;
  size_zero = length-zero;
}

last_log-run_calls_example :
    Ensures
      (run_calls names calls log >>= last_log pb names)
      λ r. (r.0 ≡ report pb (kept_all names (codes "g" ∷ []) calls)) × (r.1.entries ≡ [])
unfolding kept count get_func_name find_name print_call print_result is_filtered codes to_string
last_log-run_calls_example =
    last_log-run_calls pb names calls log pb-IsProtobuf names-IsNamed refl (omega arith)
      ((7, omega arith, refl), ((11, omega arith, refl), tt))

run_calls_lem_example :
    Ensures
      (run_calls names calls log)
      λ log'. messages log'.entries ≡ messages [] ++ kept_all names (codes "g" ∷ []) calls
unfolding count
run_calls_lem_example = run_calls_lem names calls log tt (omega arith)

abbrev ops : List LogOp
ops =
    logged (call (site 7) calls)
    ∷ filtered (some (codes "f") ∷ none ∷ [])
    ∷ read
    ∷ resized (negsuc 0)
    ∷ logged (call (site 9) none_made)
    ∷ []

run_ops-IsValid_example : Ensures (run_ops pb names ops log) (IsValid 10)
run_ops-IsValid_example =
    run_ops-IsValid 10 pb names ops log names-IsNamed (tt, (tt, (tt, (omega arith, (tt, tt)))))
      (record { below = tt; named = tt; small = omega arith; limited = omega arith })

update-get_func_name_example :
    Ensures
      (register_funcs ((11, codes "h") ∷ []) names)
      λ names'. update_name names' (get_func_name names 11) ≡ returned (get_func_name names' 11)
unfolding find_name
update-get_func_name_example =
    update-get_func_name names ((11, codes "h") ∷ []) 11 (refl, tt) names-IsNamed (omega arith)
