-- ===== src/Log/Values.antt =====
-- The `print_arg` functions of util/debug_log.cpp, ToxCore/debug.cpp, ToxAv/debug.cpp and
-- ToxCrypto/debug.cpp: what a log entry holds of an argument or a result. A function that fills a
-- new `Value` gives that value. A pointer that may be null is an optional list, its elements those
-- of the length that it is passed with.
pub mod Identities
pub mod Truncation
use jvm_toxcore_c.Base.{
  ℕ, zero, suc, ◌+◌, ◌-◌, ◌%◌, ◌^◌, ◌==◌, Bool, true, false, Option, none, some, List, [], ◌∷◌,
  ◌++◌, length, ltb, leb, if◌then◌else◌, ℤ, pos, negsuc, to_word, Text, codes, text_eq, to_string,
  to_string_ℤ,
}
use jvm_toxcore_c.Construction.{ToxOptions}
use jvm_toxcore_c.Enums.Setup.{print_proxy_type, print_savedata_type}

-- `Value`, without its `truncated`, and `Struct`.
mutual
  pub data Payload : Type 0 where
    not_set : Payload
    v_sint64 : ℤ → Payload
    v_string : Text → Payload
    v_bytes : List ℕ → Payload
    v_object : Members → Payload

  pub data Members : Type 0 where
    no_members : Members
    -- the name, and the value: its `truncated` and the rest
    member : Text → ℕ → Payload → Members → Members

pub record Value : Type 0 where
  pub truncated : ℕ
  pub payload : Payload

abbrev pub whole : Payload → Value
whole payload = record { truncated = 0; payload = payload }

abbrev pub no_value : Value
no_value = whole not_set

-- `MAX_DATA_LOG_LENGTH`
abbrev pub max_data_log_length : ℕ
max_data_log_length = 128

abbrev pub null_text : Text
null_text = codes "<null>"

-- The first `n` elements.
unfoldable pub first : ℕ → List ℕ → List ℕ
first zero xs = []
first (suc n) [] = []
first (suc n) (x ∷ xs) = x ∷ first n xs

-- The cast of an integer to an `int64_t`.
unfoldable pub to_int64 : ℤ → ℤ
to_int64 value =
    let w = to_word (2 ^ 64) value in if ltb w (2 ^ 63) then pos w else negsuc (2 ^ 64 - 1 - w)

-- `print_arg` of an integer type.
unfoldable pub print_integer : ℤ → Value
print_integer value = whole (v_sint64 (to_int64 value))

-- `print_arg<char const *>`
unfoldable pub print_c_string : Option Text → Value
print_c_string none = whole (v_string null_text)
print_c_string (some text) = whole (v_string text)

-- `print_arg<uint8_t const *>`, without a length.
unfoldable pub print_pointer : Option (List ℕ) → Value
print_pointer none = whole (v_string null_text)
print_pointer (some bytes) = whole (v_string (codes "byte[]"))

-- `print_arg (value, uint8_t const *, std::size_t)`; `truncated` is a `uint32_t`.
unfoldable pub print_bytes : Option (List ℕ) → Value
print_bytes none = whole (v_string null_text)
print_bytes (some bytes) = record {
  truncated = if ltb max_data_log_length (length bytes) then length bytes % 2 ^ 32 else 0;
  payload = v_bytes (first max_data_log_length bytes);
}

-- `print_arg (value, int16_t const *, std::size_t)`
unfoldable pub print_shorts : Option (List ℤ) → Value
print_shorts none = whole (v_string null_text)
print_shorts (some samples) =
    whole (v_string (codes "short[" ++ (to_string (length samples) ++ codes "]")))

-- `print_arg<std::vector<jint>>`
unfoldable pub print_ints : List ℤ → Value
print_ints values = whole (v_string (codes "int[" ++ (to_string (length values) ++ codes "]")))

-- `print_arg<int16_t const *>`
unfoldable pub print_samples : Option (List ℤ) → Value
print_samples none = whole (v_string null_text)
print_samples (some samples) = whole (v_string (codes "<audio samples>"))

-- `print_arg<core::Events *>` and `print_arg<av::Events *>`, by the size of the message.
unfoldable pub print_core_events : Option ℕ → Value
print_core_events none = whole (v_string null_text)
print_core_events (some size) =
    whole (v_string (codes "<core::Events[" ++ (to_string size ++ codes "]>")))

unfoldable pub print_av_events : Option ℕ → Value
print_av_events none = whole (v_string null_text)
print_av_events (some size) =
    whole (v_string (codes "<av::Events[" ++ (to_string size ++ codes "]>")))

unfoldable pub print_pass_key : Value
print_pass_key = whole (v_string (codes "pass_key"))

-- TOX_FILE_KIND
pub data ToxFileKind : Type 0 where
  file_data avatar : ToxFileKind
  other : ℤ → ToxFileKind

unfoldable pub print_file_kind : ToxFileKind → Value
print_file_kind file_data = whole (v_string (codes "TOX_FILE_KIND_DATA"))
print_file_kind avatar = whole (v_string (codes "TOX_FILE_KIND_AVATAR"))
print_file_kind (other n) = whole (v_string (codes "(TOX_FILE_KIND)" ++ to_string_ℤ n))

-- `(*object.mutable_members ())[name] = value`
unfoldable pub set_member : Text → Value → Members → Members
set_member name value no_members = member name value.truncated value.payload no_members
set_member name value (member n t p rest) =
    if text_eq n name
    then member name value.truncated value.payload rest
    else member n t p (set_member name value rest)

abbrev print_bool : Bool → Value
print_bool true = print_integer (pos 1)
print_bool false = print_integer (pos 0)

-- `print_member`, on the members so far.
abbrev pub print_member : Text → Value → Members → Members
print_member name value members = set_member name value members

-- `print_arg<Tox_Options *>`
unfoldable pub print_options : Option ToxOptions → Value
print_options none = whole (v_string null_text)
print_options (some o) =
    let a = print_member (codes "ipv6_enabled") (print_bool o.ipv6_enabled) no_members in
    let b = print_member (codes "udp_enabled") (print_bool o.udp_enabled) a in
    let c =
      print_member (codes "proxy_type") (whole (v_string (print_proxy_type o.proxy_type))) b in
    let d = print_member (codes "proxy_host") (print_c_string o.proxy_host) c in
    let e = print_member (codes "start_port") (print_integer (pos o.start_port)) d in
    let f = print_member (codes "end_port") (print_integer (pos o.end_port)) e in
    let g = print_member (codes "tcp_port") (print_integer (pos o.tcp_port)) f in
    let h =
      print_member (codes "savedata_type") (whole (v_string (print_savedata_type o.savedata_type)))
        g in
    whole (v_object (print_member (codes "savedata") (print_bytes o.savedata_data) h))

-- `std::find`, as the number of elements before the one that is searched.
unfoldable pub position : ℕ → List ℕ → Option ℕ
position pointer [] = none
position pointer (id ∷ ids) =
    if id == pointer
    then some 0
    else elim (position pointer ids) [ none ↦ none | some n ↦ some (suc n) ]

abbrev pub identity_text : ℕ → Value
identity_text n = whole (v_string (codes "@" ++ to_string (n + 1)))

-- `print_arg<Tox *>` and `print_arg<ToxAV *>`, with the vector of the pointers that were printed.
unfoldable pub print_object : ℕ → List ℕ → Value × List ℕ
print_object pointer ids = elim (position pointer ids) [
  | some n ↦ (identity_text n, ids)
  | none ↦ (identity_text (length ids), ids ++ pointer ∷ [])
]

-- Several in turn.
unfoldable pub print_objects : List ℕ → List ℕ → List ℕ
print_objects [] ids = ids
print_objects (pointer ∷ pointers) ids = print_objects pointers (print_object pointer ids).1
