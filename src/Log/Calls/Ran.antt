-- ===== src/Log/Calls/Ran.antt =====
-- What a logged call leaves in the log, and how this adds up over calls.
use jvm_toxcore_c.Base.{
  ℕ, suc, ◌+◌, ◌<◌, ◌≤◌, ◌≡◌, refl, ap, ◌∙◌, List, [], ◌∷◌, ◌++◌, All, arith, Bool-cases, inl, inr,
  ℤ, pos, negsuc, length, All-map, All-append, length-append, if◌then◌else◌,
}
use jvm_toxcore_c.Log.Registry.{FuncNames, get_func_name}
use jvm_toxcore_c.Log.Store.{JniLog, JniLogEntry, new_log_entry, is_filtered, messages}
use jvm_toxcore_c.Log.Calls.{Site, print_call, print_result, complete}
use jvm_toxcore_c.Log.Calls.Entries.{Within}

-- The number of entries at which a log is full.
abbrev pub limit : ℤ → ℕ
limit (pos max_size) = max_size
limit (negsuc _) = 0

-- The log has room for `n` more entries.
abbrev pub HasRoom : ℕ → JniLog → Type 0
HasRoom n log = length log.entries + n ≤ limit log.max_size

-- Names come from the registry.
abbrev pub AllNamed : FuncNames → List (ℕ × JniLogEntry) → Type 0
AllNamed names = All (λ p. (func : ℕ) × (p.1.name ≡ get_func_name names func))

-- What `n` calls do to a log: the entries that are added, and, when there was room, what they show.
pub record Ran (names : FuncNames) (log : JniLog) (shown : List JniLogEntry) (n : ℕ) (log' : JniLog)
    : Type 0 where
  pub added : List (ℕ × JniLogEntry)
  pub entries_eq : log'.entries ≡ log.entries ++ added
  pub addresses : Within log.next log'.next added
  pub next_le : log.next ≤ log'.next
  pub max_size_eq : log'.max_size ≡ log.max_size
  pub filters_eq : log'.filters ≡ log.filters
  pub named : AllNamed names added
  pub few : length added ≤ n
  pub bounded : (m : ℕ) → limit log.max_size ≤ m → length log.entries ≤ m → length log'.entries ≤ m
  pub shows : HasRoom n log → messages added ≡ shown

pub Within-weaken :
    (n n' k k' : ℕ) (xs : List (ℕ × JniLogEntry))
    → n' ≤ n
    → k ≤ k'
    → Within n k xs
    → Within n' k' xs
Within-weaken n n' k k' xs h h' = All-map _ _ xs λ p w. (omega arith, omega arith)

-- The entry of a call is made: the log, with what its constructor prints.
abbrev pub entered : FuncNames → Site → JniLog → JniLog
entered names site log = record log {
  entries = log.entries ++ (log.next, print_call names site new_log_entry) ∷ [];
  next = log.next + 1;
}

-- The entry of a call is closed: what its destructor leaves of it.
abbrev pub left : FuncNames → Site → JniLog → List (ℕ × JniLogEntry)
left names site log =
    if is_filtered (get_func_name names site.func) log.filters
    then []
    else (log.next, complete names site) ∷ []

pub name-complete :
    (names : FuncNames) (site : Site) → (complete names site).name ≡ get_func_name names site.func
unfolding print_call print_result
name-complete names site = refl

module _ (names : FuncNames) (site : Site) (log : JniLog) where
  left-All :
      (P : ℕ × JniLogEntry → Type 0)
      → P (log.next, complete names site)
      → All P (left names site log)
  left-All P h = elim (Bool-cases (is_filtered (get_func_name names site.func) log.filters)) [
    | inl out ↦ rw out tt
    | inr stays ↦ rw stays (h, tt)
  ]

  length-left : length (left names site log) ≤ 1
  length-left = elim (Bool-cases (is_filtered (get_func_name names site.func) log.filters)) [
    | inl out ↦ rw out (omega arith)
    | inr stays ↦ rw stays (omega arith)
  ]

  messages-left :
      (added : List (ℕ × JniLogEntry))
      → messages (left names site log ++ added)
        ≡ (if is_filtered (get_func_name names site.func) log.filters
            then []
            else complete names site ∷ [])
          ++ messages added
  unfolding messages
  messages-left added =
      elim (Bool-cases (is_filtered (get_func_name names site.func) log.filters)) [
        | inl out ↦ rw out refl
        | inr stays ↦ rw stays refl
      ]

module _ (names : FuncNames) (site : Site) (log log2 : JniLog) (shown : List JniLogEntry)
    (n : ℕ) where
  pub Ran-unlogged :
      limit log.max_size ≤ length log.entries
      → Ran names log shown n log2
      → (more : List JniLogEntry) → Ran names log more (suc n) log2
  Ran-unlogged full r more = record {
    added = r.added;
    entries_eq = r.entries_eq;
    addresses = r.addresses;
    next_le = r.next_le;
    max_size_eq = r.max_size_eq;
    filters_eq = r.filters_eq;
    named = r.named;
    few = omega (arith, r.few);
    bounded = r.bounded;
    shows = λ room. absurd (omega (arith, full, room));
  }

  pub Ran-logged :
      length log.entries < limit log.max_size
      → (r : Ran names (entered names site log) shown n log2)
      → Ran names log
          ((if is_filtered (get_func_name names site.func) log.filters
              then []
              else complete names site ∷ [])
            ++ shown)
          (suc n)
          (record log2 { entries = log.entries ++ (left names site log ++ r.added) })
  Ran-logged free r = record {
    added = left names site log ++ r.added;
    entries_eq = refl;
    addresses =
        All-append _ (left names site log) r.added
          (left-All names site log _ (omega arith, omega (arith, r.next_le)))
          (Within-weaken _ _ _ _ r.added (omega arith) (omega arith) r.addresses);
    next_le = omega (arith, r.next_le);
    max_size_eq = r.max_size_eq;
    filters_eq = r.filters_eq;
    named =
        All-append _ (left names site log) r.added
          (left-All names site log (λ p. (func : ℕ) × (p.1.name ≡ get_func_name names func))
            (site.func, name-complete names site))
          r.named;
    few =
        omega
          (arith, r.few, length-left names site log, length-append (left names site log) r.added);
    bounded = λ m le _. omega (
      arith,
      free,
      length-left names site log,
      r.bounded m le (omega (arith, le, free, length-entered)),
      ap length r.entries_eq,
      length-append (entered names site log).entries r.added,
      length-append log.entries (left names site log ++ r.added),
      length-append (left names site log) r.added,
      length-entered,
      ap limit r.max_size_eq,
    );
    shows = λ room.
        messages-left names site log r.added
        ∙ ap
            (λ m.
              (if is_filtered (get_func_name names site.func) log.filters
                then []
                else complete names site ∷ [])
              ++ m)
            (r.shows (omega (arith, room, length-entered)));
  }
    where
      length-entered : length (entered names site log).entries ≡ length log.entries + 1
      length-entered = length-append log.entries _
