-- ===== src/Log/Store.antt =====
-- `JniLog` and `JniLog::Entry` of util/debug_log.cpp, and the methods of ToxCore/debug.cpp on the
-- log. The log is seen by one thread, which holds its recursive mutex wherever the code locks it. An
-- entry is named by a number that is never used again, which stands for its address.
use jvm_toxcore_c.Base.{
  ℕ, ◌+◌, Bool, true, false, ◌==◌, Option, none, some, List, [], ◌∷◌, ◌++◌, length, leb,
  if◌then◌else◌, ℤ, pos, negsuc, ◌==ℤ◌, to_jint, Text, codes, text_eq, map,
}
use jvm_toxcore_c.Jni.{JavaArray, Outcome, returned, undefined, ◌>>=◌, ◌>>◌, tox4j_assert}
use jvm_toxcore_c.Drain.{Protobuf, serialize_to_array}
use jvm_toxcore_c.Log.Registry.{FuncNames, update_name}
use jvm_toxcore_c.Log.Values.{Value}

-- `Timestamp`
pub record Timestamp : Type 0 where
  pub seconds : ℕ
  pub nanos : ℕ

-- `JniLogEntry`
pub record JniLogEntry : Type 0 where
  pub name : Text
  pub instance_number : ℕ
  pub arguments : List Value
  pub result : Option Value
  pub timestamp : Option Timestamp
  pub elapsed_nanos : ℕ

-- An entry that was just added.
abbrev pub new_log_entry : JniLogEntry
new_log_entry = record {
  name = [];
  instance_number = 0;
  arguments = [];
  result = none;
  timestamp = none;
  elapsed_nanos = 0;
}

-- `JniLog::data`, with the entries and their addresses, and the next address.
pub record JniLog : Type 0 where
  pub max_size : ℤ
  pub entries : List (ℕ × JniLogEntry)
  pub filters : List Text
  pub next : ℕ

unfoldable pub init_log : JniLog
init_log = record { max_size = pos 100; entries = []; filters = []; next = 0 }

-- `n >= max_size` for a number of entries.
unfoldable pub is_full : ℕ → ℤ → Bool
is_full n (pos max_size) = leb max_size n
is_full n (negsuc _) = true

-- `JniLog::new_entry`: null when the log is switched off or full.
unfoldable pub new_entry : JniLog → Option ℕ × JniLog
unfolding is_full
new_entry log =
    if log.max_size ==ℤ pos 0
    then (none, log)
    else if is_full (length log.entries) log.max_size
    then (none, log)
    else (
      some log.next,
      record log { entries = log.entries ++ (log.next, new_log_entry) ∷ []; next = log.next + 1 },
    )

-- The entry at an address.
unfoldable pub find_entry : ℕ → List (ℕ × JniLogEntry) → Option JniLogEntry
find_entry id [] = none
find_entry id ((k, entry) ∷ entries) = if k == id then some entry else find_entry id entries

-- A write to the entry at an address.
unfoldable pub modify_entry :
    ℕ → (JniLogEntry → JniLogEntry) → List (ℕ × JniLogEntry) → List (ℕ × JniLogEntry)
modify_entry id f [] = []
modify_entry id f ((k, entry) ∷ entries) =
    if k == id then (k, f entry) ∷ entries else (k, entry) ∷ modify_entry id f entries

-- The search from the back for an entry, and its deletion.
unfoldable pub delete_entry : ℕ → List (ℕ × JniLogEntry) → Option (List (ℕ × JniLogEntry))
delete_entry id [] = none
delete_entry id ((k, entry) ∷ entries) = elim (delete_entry id entries) [
  | some rest ↦ some ((k, entry) ∷ rest)
  | none ↦ if k == id then some entries else none
]

-- `std::find` on the filters.
unfoldable pub is_filtered : Text → List Text → Bool
is_filtered name [] = false
is_filtered name (filter ∷ filters) = if text_eq filter name then true else is_filtered name filters

-- The destructor of `Entry`.
unfoldable pub close_entry : Option ℕ → JniLog → Outcome JniLog
close_entry none log = returned log
close_entry (some id) log = elim (find_entry id log.entries) [
  | none ↦ undefined
  | some entry ↦
      if is_filtered entry.name log.filters
      then elim (delete_entry id log.entries) [
        | none ↦ tox4j_assert false (codes "found != entries->rend ()") >> returned log
        | some entries ↦ returned (record log { entries = entries })
      ]
      else returned log
]

-- The loop of `clear` over the entries.
unfoldable pub update_names : FuncNames → List (ℕ × JniLogEntry) → Outcome (List (ℕ × JniLogEntry))
update_names names [] = returned []
update_names names ((id, entry) ∷ entries) = do
  name ← update_name names entry.name
  rest ← update_names names entries
  returned ((id, record entry { name = name }) ∷ rest)

-- The messages of the log.
unfoldable pub messages : List (ℕ × JniLogEntry) → List JniLogEntry
messages = map (λ p. p.1)

-- `JniLog::clear`; `pb` encodes the list of entries.
unfoldable pub clear : Protobuf (List JniLogEntry) → FuncNames → JniLog → Outcome (List ℕ × JniLog)
clear pb names log = do
  entries ← update_names names log.entries
  let log_message = messages entries
  returned (
    serialize_to_array (pb.byte_size log_message) (pb.serialize log_message),
    record log { entries = [] },
  )

-- `JniLog::size` and `JniLog::empty`
unfoldable pub size : JniLog → ℕ
size log = length log.entries

unfoldable pub is_empty : JniLog → Bool
is_empty log = size log == 0

-- The methods of ToxCore/debug.cpp.
unfoldable pub last_log :
    Protobuf (List JniLogEntry) → FuncNames → JniLog → Outcome (JavaArray ℕ × JniLog)
last_log pb names log =
    if is_empty log
    then returned (none, log)
    else (clear pb names log >>= λ r. returned (some r.0, r.1))

unfoldable pub set_max_log_size : ℤ → JniLog → JniLog
set_max_log_size max_size log = record log { max_size = max_size }

unfoldable pub get_max_log_size : JniLog → ℤ
get_max_log_size log = log.max_size

unfoldable pub get_current_log_size : JniLog → ℤ
get_current_log_size log = to_jint (size log)

-- A null string is the empty text.
abbrev pub filter_text : Option Text → Text
filter_text none = []
filter_text (some text) = text

unfoldable pub set_log_filter : List (Option Text) → JniLog → JniLog
set_log_filter filters log = record log { filters = map filter_text filters }
