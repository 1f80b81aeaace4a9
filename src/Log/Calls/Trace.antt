-- ===== src/Log/Calls/Trace.antt =====
-- The run of logged calls, one after another and one within another.
use mathlib.Core.Path.{subst}
use mathlib.Core.List.{append_assoc}
use jvm_toxcore_c.Base.{
  ℕ, ◌+◌, ◌<◌, ◌≤◌, ◌≡◌, refl, sym, ap, ◌∙◌, none, some, List, [], ◌∷◌, ◌++◌, arith, ◌⊎◌,
  Bool-cases, Option-cases, inl, inr, length, Text, if◌then◌else◌,
}
use jvm_toxcore_c.Jni.{returned, ◌>>=◌, Ensures, Ensures-bind, Ensures-map}
use jvm_toxcore_c.Log.Registry.{FuncNames, get_func_name}
use jvm_toxcore_c.Log.Store.{
  messages, JniLog, JniLogEntry, new_log_entry, new_entry, is_full, find_entry, modify_entry,
  delete_entry, close_entry, is_filtered,
}
use jvm_toxcore_c.Log.Calls.{
  Site, Call, Calls, call, none_made, made, print_call, print_result, write_entry, run_call,
  run_calls, complete, kept, kept_all, count, count_all,
}
use jvm_toxcore_c.Log.Calls.Entries.{
  Below, Below-find, Within-find, find_entry-append, modify_entry-append, delete_entry-append,
}
use jvm_toxcore_c.Log.Calls.Chains.{messages-append, Ran-none, Ran-append, Below-entered, Below-Ran}
use jvm_toxcore_c.Log.Calls.Ran.{
  HasRoom, Ran, limit, entered, left, Ran-unlogged, Ran-logged, name-complete,
}

new_entry-cases :
    (log : JniLog)
    → ((new_entry log ≡ (none, log)) × (limit log.max_size ≤ length log.entries))
      ⊎ ((new_entry log ≡ (
        some log.next,
        record log { entries = log.entries ++ (log.next, new_log_entry) ∷ []; next = log.next + 1 },
      ))
          × (length log.entries < limit log.max_size))
unfolding new_entry is_full
new_entry-cases log = ground arith

module _ (id : ℕ) (e : JniLogEntry) (log : JniLog) (xs ys : List (ℕ × JniLogEntry)) where
  write_entry-at :
      (f : JniLogEntry → JniLogEntry)
      → log.entries ≡ xs ++ (id, e) ∷ ys
      → find_entry id xs ≡ none
      → write_entry (some id) f log ≡ returned (record log { entries = xs ++ (id, f e) ∷ ys })
  unfolding write_entry
  write_entry-at f eq h =
      rw (ap (find_entry id) eq ∙ find_entry-append id e xs ys h, write_entry)
        (rw (ap (modify_entry id f) eq ∙ modify_entry-append id e f xs ys h) refl)

  close_entry-at :
      log.entries ≡ xs ++ (id, e) ∷ ys
      → find_entry id xs ≡ none
      → find_entry id ys ≡ none
      → close_entry (some id) log
        ≡ returned (record log {
          entries = if is_filtered e.name log.filters then xs ++ ys else log.entries;
        })
  unfolding close_entry
  close_entry-at eq h k =
      rw (ap (find_entry id) eq ∙ find_entry-append id e xs ys h, close_entry)
        (elim (Bool-cases (is_filtered e.name log.filters)) [
          | inl out ↦ rw out (rw (ap (delete_entry id) eq ∙ delete_entry-append id e xs ys k) refl)
          | inr stays ↦ rw stays refl
        ])

left-if :
    (names : FuncNames) (site : Site) (log : JniLog) (xs ys : List (ℕ × JniLogEntry))
    (fs : List Text)
    → fs ≡ log.filters
    → (if is_filtered (complete names site).name fs
        then xs ++ ys
        else xs ++ (log.next, complete names site) ∷ ys)
      ≡ xs ++ (left names site log ++ ys)
left-if names site log xs ys fs eq =
    rw (eq, name-complete names site)
      (elim (Bool-cases (is_filtered (get_func_name names site.func) log.filters)) [
        | inl out ↦ rw out refl
        | inr stays ↦ rw stays refl
      ])

-- What the constructors and `print_result` write makes the entry complete.
printed-complete :
    (names : FuncNames) (site : Site)
    → print_result site (print_call names site new_log_entry) ≡ complete names site
unfolding print_call print_result
printed-complete names site = elim (Option-cases site.instance_number) [
  | inl absent ↦ rw absent refl
  | inr (n, present) ↦ rw present refl
]

-- The destructor of a call's entry, after what was called meanwhile.
closed-at :
    (names : FuncNames) (site : Site) (log log2 : JniLog) (shown : List JniLogEntry) (n : ℕ)
    → Below log.next log.entries
    → (r : Ran names (entered names site log) shown n log2)
    → (write_entry (some log.next) (print_result site) log2 >>= close_entry (some log.next))
      ≡ returned (record log2 { entries = log.entries ++ (left names site log ++ r.added) })
closed-at names site log log2 shown n h r =
    ap (λ x. x >>= close_entry (some log.next))
      (write_entry-at log.next (print_call names site new_log_entry) log2 log.entries r.added
          (print_result site) (r.entries_eq ∙ append_assoc log.entries _ _)
          (Below-find log.next log.next log.entries h (omega arith))
        ∙ ap
            (λ entry.
              returned (record log2 { entries = log.entries ++ (log.next, entry) ∷ r.added }))
            (printed-complete names site))
    ∙ close_entry-at log.next (complete names site)
        (record log2 { entries = log.entries ++ (log.next, complete names site) ∷ r.added })
        log.entries r.added refl (Below-find log.next log.next log.entries h (omega arith))
        (Within-find _ _ log.next r.added r.addresses (omega arith))
    ∙ ap (λ es. returned (record log2 { entries = es }))
        (left-if names site log log.entries r.added log2.filters r.filters_eq)

printed-at :
    (names : FuncNames) (site : Site) (log : JniLog)
    → Below log.next log.entries
    → write_entry (some log.next) (print_call names site) (record log {
      entries = log.entries ++ (log.next, new_log_entry) ∷ [];
      next = log.next + 1;
    })
      ≡ returned (entered names site log)
printed-at names site log h =
    write_entry-at log.next new_log_entry
      (record log { entries = log.entries ++ (log.next, new_log_entry) ∷ []; next = log.next + 1 })
      log.entries [] (print_call names site) refl
      (Below-find log.next log.next log.entries h (omega arith))

-- One call, once its entry is made.
Ran-call :
    (names : FuncNames) (site : Site) (nested : Calls) (log : JniLog)
    → ((log1 : JniLog)
        → Below log1.next log1.entries
        → Ensures
            (run_calls names nested log1)
            (Ran names log1 (kept_all names log1.filters nested) (count_all nested)))
    → Below log.next log.entries
    → Ensures
        (run_call names (call site nested) log)
        (Ran names log (kept names log.filters (call site nested)) (count (call site nested)))
unfolding run_call kept count write_entry close_entry
Ran-call names site nested log ih h = elim (new_entry-cases log) [
  | inl (absent, full) ↦ rw absent (
      Ensures-bind (run_calls names nested log) _ _ _ (ih log h)
        λ log2 _ r. Ran-unlogged names site log log2 _ _ full r _)
  | inr (present, free) ↦
      rw (present, printed-at names site log h)
        (Ensures-bind (run_calls names nested (entered names site log)) _ _ _
          (ih (entered names site log) (Below-entered names site log h))
          λ log2 _ r.
            subst
              (λ x. Ensures x (
                Ran names log (kept names log.filters (call site nested))
                  (count (call site nested))))
              (sym (closed-at names site log log2 _ _ h r))
              (Ran-logged names site log log2 _ _ free r))
]

mutual
  unfolding run_call kept count

  pub run_call-Ran :
      (names : FuncNames) (c : Call) (log : JniLog)
      → Below log.next log.entries
      → Ensures (run_call names c log) (Ran names log (kept names log.filters c) (count c))
  run_call-Ran names (call site nested) log h =
      Ran-call names site nested log (run_calls-Ran names nested) h

  pub run_calls-Ran :
      (names : FuncNames) (cs : Calls) (log : JniLog)
      → Below log.next log.entries
      → Ensures
          (run_calls names cs log)
          (Ran names log (kept_all names log.filters cs) (count_all cs))
  run_calls-Ran names none_made log h = Ran-none names log
  run_calls-Ran names (made c cs) log h =
      Ensures-bind (run_call names c log) _ _ _ (run_call-Ran names c log h) λ log1 _ r.
        Ensures-map (run_calls names cs log1) _ _ (run_calls-Ran names cs log1 (Below-Ran r h))
          λ log2 q.
            Ran-append r (
              subst (λ fs. Ran names log1 (kept_all names fs cs) (count_all cs) log2) r.filters_eq
                q)

-- A run of logged calls, with others nested in them to any depth, on a log with room for them all,
-- returns: it adds an entry for each call whose name no filter has, complete with name, arguments,
-- result and times, in the order in which the calls begin, and keeps the entries from before. The
-- addresses in use are below the next one.
pub run_calls_lem :
    (names : FuncNames) (cs : Calls) (log : JniLog)
    → Below log.next log.entries
    → HasRoom (count_all cs) log
    → Ensures
        (run_calls names cs log)
        λ log'. messages log'.entries ≡ messages log.entries ++ kept_all names log.filters cs
run_calls_lem names cs log h room =
    Ensures-map (run_calls names cs log) _ _ (run_calls-Ran names cs log h) λ log' r.
      ap messages r.entries_eq
      ∙ messages-append log.entries r.added
      ∙ ap (λ xs. messages log.entries ++ xs) (r.shows room)
