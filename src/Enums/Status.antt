-- ===== src/Enums/Status.antt =====
-- ToxCore/generated/enums.cpp: TOX_CONNECTION, TOX_USER_STATUS, TOX_MESSAGE_TYPE, TOX_FILE_CONTROL. `other` is a value that is no enumerator.
use jvm_toxcore_c.Base.{
  ◌≡◌, refl, ◌++◌, ℕ, zero, suc, ◌<◌, ℤ, pos, negsuc, ◌==ℤ◌, if◌then◌else◌, Text, codes,
  to_string_ℤ, arith,
}
use jvm_toxcore_c.Jni.{Outcome, returned, fatal}
use jvm_toxcore_c.Enums.{from_toxcore, from_java, IsEncoding}

-- TOX_CONNECTION
pub data ToxConnection : Type 0 where
  none tcp udp : ToxConnection
  other : ℤ → ToxConnection

pub ordinal_connection : ToxConnection → Outcome ℤ
ordinal_connection none = returned (pos 0)
ordinal_connection tcp = returned (pos 1)
ordinal_connection udp = returned (pos 2)
ordinal_connection (other n) = fatal from_toxcore

unfoldable pub value_of_connection : ℤ → Outcome ToxConnection
value_of_connection n =
    if n ==ℤ pos 0
    then returned none
    else if n ==ℤ pos 1
    then returned tcp
    else if n ==ℤ pos 2
    then returned udp
    else fatal from_java

-- The text that a log entry has for it.
pub print_connection : ToxConnection → Text
print_connection none = codes "TOX_CONNECTION_NONE"
print_connection tcp = codes "TOX_CONNECTION_TCP"
print_connection udp = codes "TOX_CONNECTION_UDP"
print_connection (other n) = codes "(TOX_CONNECTION)" ++ to_string_ℤ n

connection_decode :
    (t : ToxConnection) (n : ℤ)
    → ordinal_connection t ≡ returned n
    → value_of_connection n ≡ returned t
unfolding ordinal_connection value_of_connection
connection_decode none n h = ground arith
connection_decode _ n h = ground arith

connection_encode :
    (n : ℤ) (t : ToxConnection)
    → value_of_connection n ≡ returned t
    → ordinal_connection t ≡ returned n
unfolding ordinal_connection value_of_connection
connection_encode (negsuc n) t h = ground arith
connection_encode (pos n) t h = ground arith

connection_accepted :
    (k : ℕ) → k < 3 → (t : ToxConnection) × (value_of_connection (pos k) ≡ returned t)
unfolding value_of_connection
connection_accepted zero h = (none, refl)
connection_accepted (suc zero) h = (tcp, refl)
connection_accepted (suc (suc zero)) h = (udp, refl)
connection_accepted (suc (suc (suc k))) h = absurd (omega arith)

pub connection-IsEncoding : IsEncoding ordinal_connection value_of_connection 3
unfolding value_of_connection
connection-IsEncoding = record {
  decode = connection_decode;
  encode = connection_encode;
  accepted = connection_accepted;
  too_large = λ k h. ground arith;
  negative = λ k. refl;
}

-- TOX_USER_STATUS
pub data ToxUserStatus : Type 0 where
  none away busy : ToxUserStatus
  other : ℤ → ToxUserStatus

pub ordinal_user_status : ToxUserStatus → Outcome ℤ
ordinal_user_status none = returned (pos 0)
ordinal_user_status away = returned (pos 1)
ordinal_user_status busy = returned (pos 2)
ordinal_user_status (other n) = fatal from_toxcore

unfoldable pub value_of_user_status : ℤ → Outcome ToxUserStatus
value_of_user_status n =
    if n ==ℤ pos 0
    then returned none
    else if n ==ℤ pos 1
    then returned away
    else if n ==ℤ pos 2
    then returned busy
    else fatal from_java

-- The text that a log entry has for it.
pub print_user_status : ToxUserStatus → Text
print_user_status none = codes "TOX_USER_STATUS_NONE"
print_user_status away = codes "TOX_USER_STATUS_AWAY"
print_user_status busy = codes "TOX_USER_STATUS_BUSY"
print_user_status (other n) = codes "(TOX_USER_STATUS)" ++ to_string_ℤ n

user_status_decode :
    (t : ToxUserStatus) (n : ℤ)
    → ordinal_user_status t ≡ returned n
    → value_of_user_status n ≡ returned t
unfolding ordinal_user_status value_of_user_status
user_status_decode none n h = ground arith
user_status_decode _ n h = ground arith

user_status_encode :
    (n : ℤ) (t : ToxUserStatus)
    → value_of_user_status n ≡ returned t
    → ordinal_user_status t ≡ returned n
unfolding ordinal_user_status value_of_user_status
user_status_encode (negsuc n) t h = ground arith
user_status_encode (pos n) t h = ground arith

user_status_accepted :
    (k : ℕ) → k < 3 → (t : ToxUserStatus) × (value_of_user_status (pos k) ≡ returned t)
unfolding value_of_user_status
user_status_accepted zero h = (none, refl)
user_status_accepted (suc zero) h = (away, refl)
user_status_accepted (suc (suc zero)) h = (busy, refl)
user_status_accepted (suc (suc (suc k))) h = absurd (omega arith)

pub user_status-IsEncoding : IsEncoding ordinal_user_status value_of_user_status 3
unfolding value_of_user_status
user_status-IsEncoding = record {
  decode = user_status_decode;
  encode = user_status_encode;
  accepted = user_status_accepted;
  too_large = λ k h. ground arith;
  negative = λ k. refl;
}

-- TOX_MESSAGE_TYPE
pub data ToxMessageType : Type 0 where
  normal action : ToxMessageType
  other : ℤ → ToxMessageType

pub ordinal_message_type : ToxMessageType → Outcome ℤ
ordinal_message_type normal = returned (pos 0)
ordinal_message_type action = returned (pos 1)
ordinal_message_type (other n) = fatal from_toxcore

unfoldable pub value_of_message_type : ℤ → Outcome ToxMessageType
value_of_message_type n =
    if n ==ℤ pos 0
    then returned normal
    else if n ==ℤ pos 1
    then returned action
    else fatal from_java

-- The text that a log entry has for it.
pub print_message_type : ToxMessageType → Text
print_message_type normal = codes "TOX_MESSAGE_TYPE_NORMAL"
print_message_type action = codes "TOX_MESSAGE_TYPE_ACTION"
print_message_type (other n) = codes "(TOX_MESSAGE_TYPE)" ++ to_string_ℤ n

message_type_decode :
    (t : ToxMessageType) (n : ℤ)
    → ordinal_message_type t ≡ returned n
    → value_of_message_type n ≡ returned t
unfolding ordinal_message_type value_of_message_type
message_type_decode normal n h = ground arith
message_type_decode _ n h = ground arith

message_type_encode :
    (n : ℤ) (t : ToxMessageType)
    → value_of_message_type n ≡ returned t
    → ordinal_message_type t ≡ returned n
unfolding ordinal_message_type value_of_message_type
message_type_encode (negsuc n) t h = ground arith
message_type_encode (pos n) t h = ground arith

message_type_accepted :
    (k : ℕ) → k < 2 → (t : ToxMessageType) × (value_of_message_type (pos k) ≡ returned t)
unfolding value_of_message_type
message_type_accepted zero h = (normal, refl)
message_type_accepted (suc zero) h = (action, refl)
message_type_accepted (suc (suc k)) h = absurd (omega arith)

pub message_type-IsEncoding : IsEncoding ordinal_message_type value_of_message_type 2
unfolding value_of_message_type
message_type-IsEncoding = record {
  decode = message_type_decode;
  encode = message_type_encode;
  accepted = message_type_accepted;
  too_large = λ k h. ground arith;
  negative = λ k. refl;
}

-- TOX_FILE_CONTROL
pub data ToxFileControl : Type 0 where
  resume pause cancel : ToxFileControl
  other : ℤ → ToxFileControl

pub ordinal_file_control : ToxFileControl → Outcome ℤ
ordinal_file_control resume = returned (pos 0)
ordinal_file_control pause = returned (pos 1)
ordinal_file_control cancel = returned (pos 2)
ordinal_file_control (other n) = fatal from_toxcore

unfoldable pub value_of_file_control : ℤ → Outcome ToxFileControl
value_of_file_control n =
    if n ==ℤ pos 0
    then returned resume
    else if n ==ℤ pos 1
    then returned pause
    else if n ==ℤ pos 2
    then returned cancel
    else fatal from_java

-- The text that a log entry has for it.
pub print_file_control : ToxFileControl → Text
print_file_control resume = codes "TOX_FILE_CONTROL_RESUME"
print_file_control pause = codes "TOX_FILE_CONTROL_PAUSE"
print_file_control cancel = codes "TOX_FILE_CONTROL_CANCEL"
print_file_control (other n) = codes "(TOX_FILE_CONTROL)" ++ to_string_ℤ n

file_control_decode :
    (t : ToxFileControl) (n : ℤ)
    → ordinal_file_control t ≡ returned n
    → value_of_file_control n ≡ returned t
unfolding ordinal_file_control value_of_file_control
file_control_decode resume n h = ground arith
file_control_decode _ n h = ground arith

file_control_encode :
    (n : ℤ) (t : ToxFileControl)
    → value_of_file_control n ≡ returned t
    → ordinal_file_control t ≡ returned n
unfolding ordinal_file_control value_of_file_control
file_control_encode (negsuc n) t h = ground arith
file_control_encode (pos n) t h = ground arith

file_control_accepted :
    (k : ℕ) → k < 3 → (t : ToxFileControl) × (value_of_file_control (pos k) ≡ returned t)
unfolding value_of_file_control
file_control_accepted zero h = (resume, refl)
file_control_accepted (suc zero) h = (pause, refl)
file_control_accepted (suc (suc zero)) h = (cancel, refl)
file_control_accepted (suc (suc (suc k))) h = absurd (omega arith)

pub file_control-IsEncoding : IsEncoding ordinal_file_control value_of_file_control 3
unfolding value_of_file_control
file_control-IsEncoding = record {
  decode = file_control_decode;
  encode = file_control_encode;
  accepted = file_control_accepted;
  too_large = λ k h. ground arith;
  negative = λ k. refl;
}
