-- ===== src/Log/History.antt =====
-- The log as Java uses it: calls that are logged, and the methods of ToxCore/debug.cpp.
pub mod Reports
use mathlib.Core.Path.{subst}
use jvm_toxcore_c.Base.{
  ℕ, ◌<◌, ◌≤◌, ◌≡◌, refl, sym, ap, ◌∙◌, Option, List, [], ◌∷◌, All, arith, ℤ, length, All-map,
  All-append, Bool-cases, inl, inr, Text,
}
use jvm_toxcore_c.Jni.{Outcome, returned, ◌>>=◌, Ensures, Ensures-bind, Ensures-map}
use jvm_toxcore_c.Drain.{Protobuf}
use jvm_toxcore_c.Log.Registry.{FuncNames, get_func_name, update_name}
use jvm_toxcore_c.Log.Registry.Names.{IsNamed, get_func_name-shape}
use jvm_toxcore_c.Log.Store.{
  JniLog, JniLogEntry, update_names, clear, is_empty, size, last_log, set_max_log_size,
  set_log_filter,
}
use jvm_toxcore_c.Log.Calls.{Call, Calls, run_call}
use jvm_toxcore_c.Log.Calls.Entries.{Below}
use jvm_toxcore_c.Log.Calls.Ran.{Ran, limit}
use jvm_toxcore_c.Log.Calls.Chains.{Below-Ran}
use jvm_toxcore_c.Log.Calls.Trace.{run_call-Ran}

-- What happens to the log.
pub data LogOp : Type 0 where
  logged : Call → LogOp
  read : LogOp
  resized : ℤ → LogOp
  filtered : List (Option Text) → LogOp

unfoldable pub run_op : Protobuf (List JniLogEntry) → FuncNames → LogOp → JniLog → Outcome JniLog
run_op pb names (logged c) log = run_call names c log
run_op pb names read log = last_log pb names log >>= λ r. returned r.1
run_op pb names (resized max_size) log = returned (set_max_log_size max_size log)
run_op pb names (filtered filters) log = returned (set_log_filter filters log)

unfoldable pub run_ops :
    Protobuf (List JniLogEntry) → FuncNames → List LogOp → JniLog → Outcome JniLog
unfolding run_op
run_ops pb names [] log = returned log
run_ops pb names (op ∷ ops) log = run_op pb names op log >>= λ log'. run_ops pb names ops log'

-- The maximum sizes that are set are at most `m`.
abbrev pub LimitedBy : ℕ → List LogOp → Type 0
LimitedBy m = All λ op. elim op [
  | logged c ↦ Unit
  | read ↦ Unit
  | resized max_size ↦ limit max_size ≤ m
  | filtered filters ↦ Unit
]

-- A log between two operations: addresses in use are below the next one, no entry is without a
-- name, and it has at most `m` entries and place for no more.
pub record IsValid (m : ℕ) (log : JniLog) : Type 0 where
  pub below : Below log.next log.entries
  pub named : All (λ p. (c : ℕ) × (text : Text) × (p.1.name ≡ c ∷ text)) log.entries
  pub small : length log.entries ≤ m
  pub limited : limit log.max_size ≤ m

update_names-all :
    (names : FuncNames) (xs : List (ℕ × JniLogEntry))
    → All (λ p. (c : ℕ) × (text : Text) × (p.1.name ≡ c ∷ text)) xs
    → Ensures (update_names names xs) λ _. Unit {0}
unfolding update_names update_name
update_names-all names [] h = tt
update_names-all names ((id, e) ∷ xs) ((c, text, shape), h) =
    rw shape (Ensures-bind (update_names names xs) _ _ _ (update_names-all names xs h) λ ys _ _. tt)

run_call-IsValid :
    (m : ℕ) (names : FuncNames) (c : Call) (log : JniLog)
    → IsNamed names
    → IsValid m log
    → Ensures (run_call names c log) (IsValid m)
run_call-IsValid m names c log h v =
    Ensures-map (run_call names c log) _ _ (run_call-Ran names c log v.below) λ log' r. record {
      below = Below-Ran r v.below;
      named = subst (All _) (sym r.entries_eq) (
          All-append _ log.entries r.added v.named
            (All-map _ _ r.added (λ p from. named p.1 from) r.named));
      small = r.bounded m v.limited v.small;
      limited = omega (arith, v.limited, ap limit r.max_size_eq);
    }
  where
    named :
        (e : JniLogEntry)
        → (func : ℕ) × (e.name ≡ get_func_name names func)
        → (c : ℕ) × (text : Text) × (e.name ≡ c ∷ text)
    named e (func, eq) =
        let (c, text, shape) = get_func_name-shape names func h in (c, text, eq ∙ shape)

last_log-IsValid :
    (m : ℕ) (pb : Protobuf (List JniLogEntry)) (names : FuncNames) (log : JniLog)
    → IsValid m log
    → Ensures (last_log pb names log) λ r. IsValid m r.1
unfolding last_log clear
last_log-IsValid m pb names log v = elim (Bool-cases (is_empty log)) [
  | inl nothing ↦ rw nothing v
  | inr some_entry ↦ rw some_entry (
      Ensures-bind (clear pb names log) _ _ _
        (Ensures-bind (update_names names log.entries) _ (λ _. Unit {0}) (λ r. IsValid m r.1)
          (update_names-all names log.entries v.named)
          λ xs _ _. record { below = tt; named = tt; small = omega arith; limited = v.limited })
        λ r _ w. w)
]

run_op-IsValid :
    (m : ℕ) (pb : Protobuf (List JniLogEntry)) (names : FuncNames) (op : LogOp) (log : JniLog)
    → IsNamed names
    → LimitedBy m (op ∷ [])
    → IsValid m log
    → Ensures (run_op pb names op log) (IsValid m)
unfolding run_op set_max_log_size set_log_filter
run_op-IsValid m pb names (logged c) log h l v = run_call-IsValid m names c log h v
run_op-IsValid m pb names read log h l v =
    Ensures-bind (last_log pb names log) _ _ _ (last_log-IsValid m pb names log v) λ r _ w. w
run_op-IsValid m pb names (resized max_size) log h l v = record {
  below = v.below;
  named = v.named;
  small = v.small;
  limited = l.0;
}
run_op-IsValid m pb names (filtered filters) log h l v = record {
  below = v.below;
  named = v.named;
  small = v.small;
  limited = v.limited;
}

-- Any sequence of logged calls, reads and changes of size and filters, on a valid log, returns
-- with a valid log: no assertion of the log fails, none of its writes reaches an entry that is gone,
-- and it never has more than `m` entries when no maximum size above `m` is set. No registered name
-- may be empty or begin with a digit.
pub run_ops-IsValid :
    (m : ℕ) (pb : Protobuf (List JniLogEntry)) (names : FuncNames) (ops : List LogOp) (log : JniLog)
    → IsNamed names
    → LimitedBy m ops
    → IsValid m log
    → Ensures (run_ops pb names ops log) (IsValid m)
unfolding run_ops
run_ops-IsValid m pb names [] log h l v = v
run_ops-IsValid m pb names (op ∷ ops) log h l v =
    Ensures-bind (run_op pb names op log) _ _ _ (run_op-IsValid m pb names op log h (l.0, tt) v)
      λ log' _ w. run_ops-IsValid m pb names ops log' h l.1 w
