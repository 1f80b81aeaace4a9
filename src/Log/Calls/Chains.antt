-- ===== src/Log/Calls/Chains.antt =====
-- How calls add up.
use mathlib.Core.Path.{subst}
use mathlib.Core.List.{append-nil, append_assoc}
use jvm_toxcore_c.Base.{
  ℕ, ◌+◌, ◌≡◌, refl, sym, ap, ◌∙◌, List, [], ◌∷◌, ◌++◌, arith, length, All-map, All-append,
  length-append,
}
use jvm_toxcore_c.Log.Registry.{FuncNames}
use jvm_toxcore_c.Log.Store.{JniLog, JniLogEntry, messages}
use jvm_toxcore_c.Log.Calls.{Site}
use jvm_toxcore_c.Log.Calls.Entries.{Below}
use jvm_toxcore_c.Log.Calls.Ran.{Ran, limit, Within-weaken, entered}

pub Ran-none : (names : FuncNames) (log : JniLog) → Ran names log [] 0 log
unfolding messages
Ran-none names log = record {
  added = [];
  entries_eq = sym (append-nil log.entries);
  addresses = tt;
  next_le = omega arith;
  max_size_eq = refl;
  filters_eq = refl;
  named = tt;
  few = omega arith;
  bounded = λ m le h. h;
  shows = λ _. refl;
}

pub messages-append :
    (es fs : List (ℕ × JniLogEntry)) → messages (es ++ fs) ≡ messages es ++ messages fs
unfolding messages
messages-append [] fs = refl
messages-append (e ∷ es) fs = ap (λ x. e.1 ∷ x) (messages-append es fs)

pub Ran-append :
    {names : FuncNames} {log log1 log2 : JniLog} {xs ys : List JniLogEntry} {m n : ℕ}
    → Ran names log xs m log1
    → Ran names log1 ys n log2
    → Ran names log (xs ++ ys) (m + n) log2
Ran-append {names} {log} {log1} {log2} {xs} {ys} {m} {n} r q = record {
  added = r.added ++ q.added;
  entries_eq = q.entries_eq ∙ ap (λ es. es ++ q.added) r.entries_eq ∙ append_assoc log.entries _ _;
  addresses =
      All-append _ r.added q.added
        (Within-weaken _ _ _ _ r.added (omega arith) q.next_le r.addresses)
        (Within-weaken _ _ _ _ q.added r.next_le (omega arith) q.addresses);
  next_le = omega (arith, r.next_le, q.next_le);
  max_size_eq = q.max_size_eq ∙ r.max_size_eq;
  filters_eq = q.filters_eq ∙ r.filters_eq;
  named = All-append _ r.added q.added r.named q.named;
  few = omega (arith, r.few, q.few, length-append r.added q.added);
  bounded = λ m le h. q.bounded m (omega (arith, le, ap limit r.max_size_eq)) (r.bounded m le h);
  shows = λ room.
      messages-append r.added q.added
      ∙ ap (λ x. x ++ messages q.added) (r.shows (omega (arith, room)))
      ∙ ap (λ y. xs ++ y)
          (q.shows (
            omega (
              arith,
              room,
              r.few,
              ap length r.entries_eq,
              length-append log.entries r.added,
              ap limit r.max_size_eq,
            )));
}

pub Below-entered :
    (names : FuncNames) (site : Site) (log : JniLog)
    → Below log.next log.entries
    → Below (log.next + 1) (entered names site log).entries
Below-entered names site log h =
    All-append _ log.entries _ (All-map _ _ log.entries (λ p lt. omega (arith, lt)) h)
      (omega arith, tt)

pub Below-Ran :
    {names : FuncNames} {log log' : JniLog} {shown : List JniLogEntry} {n : ℕ}
    → Ran names log shown n log'
    → Below log.next log.entries
    → Below log'.next log'.entries
Below-Ran {names} {log} {log'} r h = subst (Below log'.next) (sym r.entries_eq) (
    All-append _ log.entries r.added
      (All-map _ _ log.entries (λ p lt. omega (arith, lt, r.next_le)) h)
      (All-map _ _ r.added (λ p w. w.1) r.addresses))
