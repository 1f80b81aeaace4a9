-- ===== src/Log/Calls.antt =====
-- `LogEntry` and `InstanceLogEntry` of util/debug_log.h: what one native call does to the log. While
-- a call runs toxcore can call back, and each callback is logged by an entry of its own, so that
-- calls are nested.
pub mod Entries
pub mod Ran
pub mod Chains
pub mod Trace
use jvm_toxcore_c.Base.{
  ℕ, zero, suc, ◌+◌, ◌-◌, ◌%◌, ◌/◌, ◌^◌, Option, none, some, List, [], ◌∷◌, ◌++◌, ℤ, u32, leb,
  if◌then◌else◌, Text,
}
use jvm_toxcore_c.Jni.{Outcome, returned, undefined, ◌>>=◌}
use jvm_toxcore_c.Log.Registry.{FuncNames, get_func_name}
use jvm_toxcore_c.Log.Values.{Value}
use jvm_toxcore_c.Log.Store.{
  JniLog, JniLogEntry, Timestamp, new_log_entry, new_entry, find_entry, modify_entry, close_entry,
  is_filtered,
}

-- One call: the address of the function, what is printed of the arguments and the result, the
-- instance number where there is one, and the times at which it begins and ends, in nanoseconds.
pub record Site : Type 0 where
  pub func : ℕ
  pub arguments : List Value
  pub instance_number : Option ℤ
  pub result : Value
  pub start : ℕ
  pub stop : ℕ

-- A call with the calls that are made meanwhile, in order.
mutual
  pub data Call : Type 0 where
    call : Site → Calls → Call

  pub data Calls : Type 0 where
    none_made : Calls
    made : Call → Calls → Calls

-- The constructors: `print_func`, `print_args`, `set_instance_number`.
unfoldable pub print_call : FuncNames → Site → JniLogEntry → JniLogEntry
print_call names site entry = record entry {
  name = get_func_name names site.func;
  arguments = entry.arguments ++ site.arguments;
  instance_number = elim site.instance_number [ none ↦ entry.instance_number | some n ↦ u32 n ];
}

-- `end - start` as a `uint32_t`, for a clock that may have been set back.
unfoldable pub elapsed : ℕ → ℕ → ℕ
elapsed start stop =
    if leb start stop then (stop - start) % 2 ^ 32 else (2 ^ 32 - (start - stop) % 2 ^ 32) % 2 ^ 32

-- `print_result`, after the function returned.
unfoldable pub print_result : Site → JniLogEntry → JniLogEntry
unfolding elapsed
print_result site entry = record entry {
  timestamp =
      some (record { seconds = site.start / 1_000_000_000; nanos = site.start % 1_000_000_000 });
  elapsed_nanos = elapsed site.start site.stop;
  result = some site.result;
}

-- A write through an entry: nothing when it is null, undefined when its address is not in the log.
unfoldable pub write_entry : Option ℕ → (JniLogEntry → JniLogEntry) → JniLog → Outcome JniLog
write_entry none f log = returned log
write_entry (some id) f log = elim (find_entry id log.entries) [
  | none ↦ undefined
  | some _ ↦ returned (record log { entries = modify_entry id f log.entries })
]

unfoldable mutual
  -- One logged call: the entry is made and filled, the function runs, the result is written, and the
  -- entry is closed.
  pub run_call : FuncNames → Call → JniLog → Outcome JniLog
  run_call names (call site nested) log =
      write_entry (new_entry log).0 (print_call names site) (new_entry log).1 >>= λ log1.
      run_calls names nested log1 >>= λ log2.
      write_entry (new_entry log).0 (print_result site) log2 >>= λ log3.
      close_entry (new_entry log).0 log3

  pub run_calls : FuncNames → Calls → JniLog → Outcome JniLog
  run_calls names none_made log = returned log
  run_calls names (made c cs) log = run_call names c log >>= λ log'. run_calls names cs log'

-- What an entry shows of an instance number: 0 for none, and otherwise its word of 32 bits.
abbrev pub shown_number : Option ℤ → ℕ
shown_number none = 0
shown_number (some n) = u32 n

-- The nanoseconds from `start` to `stop`, modulo 2 ^ 32, before or after one another.
abbrev pub nanos_between : ℕ → ℕ → ℕ
nanos_between start stop =
    if leb start stop then (stop - start) % 2 ^ 32 else (2 ^ 32 - (start - stop) % 2 ^ 32) % 2 ^ 32

-- The entry of a call that is complete: the name of the function, all its arguments, its instance
-- number, its result, when it began, and how long it took.
abbrev pub complete : FuncNames → Site → JniLogEntry
complete names site = record {
  name = get_func_name names site.func;
  instance_number = shown_number site.instance_number;
  arguments = site.arguments;
  result = some site.result;
  timestamp =
      some (record { seconds = site.start / 1_000_000_000; nanos = site.start % 1_000_000_000 });
  elapsed_nanos = nanos_between site.start site.stop;
}

unfoldable mutual
  -- What a log with room enough is meant to show of a call: an entry for each call, outer calls
  -- first, except those whose name a filter has.
  pub kept : FuncNames → List Text → Call → List JniLogEntry
  kept names filters (call site nested) =
      (if is_filtered (get_func_name names site.func) filters then [] else complete names site ∷ [])
      ++ kept_all names filters nested

  pub kept_all : FuncNames → List Text → Calls → List JniLogEntry
  kept_all names filters none_made = []
  kept_all names filters (made c cs) = kept names filters c ++ kept_all names filters cs

unfoldable mutual
  -- The number of calls.
  pub count : Call → ℕ
  count (call site nested) = suc (count_all nested)

  pub count_all : Calls → ℕ
  count_all none_made = 0
  count_all (made c cs) = count c + count_all cs
