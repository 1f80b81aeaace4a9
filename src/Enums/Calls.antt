-- ===== src/Enums/Calls.antt =====
-- ToxAv/generated/enums.cpp: TOXAV_CALL_CONTROL, TOXAV_FRIEND_CALL_STATE. `other` is a value that is no enumerator.
use jvm_toxcore_c.Base.{
  ◌≡◌, refl, ◌++◌, ℕ, zero, suc, ◌<◌, ℤ, pos, negsuc, ◌==ℤ◌, if◌then◌else◌, Text, codes,
  to_string_ℤ, arith,
}
use jvm_toxcore_c.Jni.{Outcome, returned, fatal}
use jvm_toxcore_c.Enums.{from_toxcore, from_java, IsEncoding}

-- TOXAV_CALL_CONTROL
pub data ToxavCallControl : Type 0 where
  resume pause cancel mute_audio unmute_audio hide_video show_video : ToxavCallControl
  other : ℤ → ToxavCallControl

pub ordinal_call_control : ToxavCallControl → Outcome ℤ
ordinal_call_control resume = returned (pos 0)
ordinal_call_control pause = returned (pos 1)
ordinal_call_control cancel = returned (pos 2)
ordinal_call_control mute_audio = returned (pos 3)
ordinal_call_control unmute_audio = returned (pos 4)
ordinal_call_control hide_video = returned (pos 5)
ordinal_call_control show_video = returned (pos 6)
ordinal_call_control (other n) = fatal from_toxcore

unfoldable pub value_of_call_control : ℤ → Outcome ToxavCallControl
value_of_call_control n =
    if n ==ℤ pos 0
    then returned resume
    else if n ==ℤ pos 1
    then returned pause
    else if n ==ℤ pos 2
    then returned cancel
    else if n ==ℤ pos 3
    then returned mute_audio
    else if n ==ℤ pos 4
    then returned unmute_audio
    else if n ==ℤ pos 5
    then returned hide_video
    else if n ==ℤ pos 6
    then returned show_video
    else fatal from_java

-- The text that a log entry has for it.
pub print_call_control : ToxavCallControl → Text
print_call_control resume = codes "TOXAV_CALL_CONTROL_RESUME"
print_call_control pause = codes "TOXAV_CALL_CONTROL_PAUSE"
print_call_control cancel = codes "TOXAV_CALL_CONTROL_CANCEL"
print_call_control mute_audio = codes "TOXAV_CALL_CONTROL_MUTE_AUDIO"
print_call_control unmute_audio = codes "TOXAV_CALL_CONTROL_UNMUTE_AUDIO"
print_call_control hide_video = codes "TOXAV_CALL_CONTROL_HIDE_VIDEO"
print_call_control show_video = codes "TOXAV_CALL_CONTROL_SHOW_VIDEO"
print_call_control (other n) = codes "(TOXAV_CALL_CONTROL)" ++ to_string_ℤ n

call_control_decode :
    (t : ToxavCallControl) (n : ℤ)
    → ordinal_call_control t ≡ returned n
    → value_of_call_control n ≡ returned t
unfolding ordinal_call_control value_of_call_control
call_control_decode resume n h = ground arith
call_control_decode _ n h = ground arith

call_control_encode :
    (n : ℤ) (t : ToxavCallControl)
    → value_of_call_control n ≡ returned t
    → ordinal_call_control t ≡ returned n
unfolding ordinal_call_control value_of_call_control
call_control_encode (negsuc n) t h = ground arith
call_control_encode (pos n) t h = ground arith

call_control_accepted :
    (k : ℕ) → k < 7 → (t : ToxavCallControl) × (value_of_call_control (pos k) ≡ returned t)
unfolding value_of_call_control
call_control_accepted zero h = (resume, refl)
call_control_accepted (suc zero) h = (pause, refl)
call_control_accepted (suc (suc zero)) h = (cancel, refl)
call_control_accepted (suc (suc (suc zero))) h = (mute_audio, refl)
call_control_accepted (suc (suc (suc (suc zero)))) h = (unmute_audio, refl)
call_control_accepted (suc (suc (suc (suc (suc zero))))) h = (hide_video, refl)
call_control_accepted (suc (suc (suc (suc (suc (suc zero)))))) h = (show_video, refl)
call_control_accepted (suc (suc (suc (suc (suc (suc (suc k))))))) h = absurd (omega arith)

pub call_control-IsEncoding : IsEncoding ordinal_call_control value_of_call_control 7
unfolding value_of_call_control
call_control-IsEncoding = record {
  decode = call_control_decode;
  encode = call_control_encode;
  accepted = call_control_accepted;
  too_large = λ k h. ground arith;
  negative = λ k. refl;
}

-- TOXAV_FRIEND_CALL_STATE
pub data ToxavFriendCallState : Type 0 where
  error finished sending_a sending_v accepting_a accepting_v : ToxavFriendCallState
  other : ℤ → ToxavFriendCallState

pub ordinal_friend_call_state : ToxavFriendCallState → Outcome ℤ
ordinal_friend_call_state error = returned (pos 0)
ordinal_friend_call_state finished = returned (pos 1)
ordinal_friend_call_state sending_a = returned (pos 2)
ordinal_friend_call_state sending_v = returned (pos 3)
ordinal_friend_call_state accepting_a = returned (pos 4)
ordinal_friend_call_state accepting_v = returned (pos 5)
ordinal_friend_call_state (other n) = fatal from_toxcore

unfoldable pub value_of_friend_call_state : ℤ → Outcome ToxavFriendCallState
value_of_friend_call_state n =
    if n ==ℤ pos 0
    then returned error
    else if n ==ℤ pos 1
    then returned finished
    else if n ==ℤ pos 2
    then returned sending_a
    else if n ==ℤ pos 3
    then returned sending_v
    else if n ==ℤ pos 4
    then returned accepting_a
    else if n ==ℤ pos 5
    then returned accepting_v
    else fatal from_java

-- The text that a log entry has for it.
pub print_friend_call_state : ToxavFriendCallState → Text
print_friend_call_state error = codes "TOXAV_FRIEND_CALL_STATE_ERROR"
print_friend_call_state finished = codes "TOXAV_FRIEND_CALL_STATE_FINISHED"
print_friend_call_state sending_a = codes "TOXAV_FRIEND_CALL_STATE_SENDING_A"
print_friend_call_state sending_v = codes "TOXAV_FRIEND_CALL_STATE_SENDING_V"
print_friend_call_state accepting_a = codes "TOXAV_FRIEND_CALL_STATE_ACCEPTING_A"
print_friend_call_state accepting_v = codes "TOXAV_FRIEND_CALL_STATE_ACCEPTING_V"
print_friend_call_state (other n) = codes "(TOXAV_FRIEND_CALL_STATE)" ++ to_string_ℤ n

friend_call_state_decode :
    (t : ToxavFriendCallState) (n : ℤ)
    → ordinal_friend_call_state t ≡ returned n
    → value_of_friend_call_state n ≡ returned t
unfolding ordinal_friend_call_state value_of_friend_call_state
friend_call_state_decode error n h = ground arith
friend_call_state_decode _ n h = ground arith

friend_call_state_encode :
    (n : ℤ) (t : ToxavFriendCallState)
    → value_of_friend_call_state n ≡ returned t
    → ordinal_friend_call_state t ≡ returned n
unfolding ordinal_friend_call_state value_of_friend_call_state
friend_call_state_encode (negsuc n) t h = ground arith
friend_call_state_encode (pos n) t h = ground arith

friend_call_state_accepted :
    (k : ℕ) → k < 6 → (t : ToxavFriendCallState) × (value_of_friend_call_state (pos k) ≡ returned t)
unfolding value_of_friend_call_state
friend_call_state_accepted zero h = (error, refl)
friend_call_state_accepted (suc zero) h = (finished, refl)
friend_call_state_accepted (suc (suc zero)) h = (sending_a, refl)
friend_call_state_accepted (suc (suc (suc zero))) h = (sending_v, refl)
friend_call_state_accepted (suc (suc (suc (suc zero)))) h = (accepting_a, refl)
friend_call_state_accepted (suc (suc (suc (suc (suc zero))))) h = (accepting_v, refl)
friend_call_state_accepted (suc (suc (suc (suc (suc (suc k)))))) h = absurd (omega arith)

pub friend_call_state-IsEncoding : IsEncoding ordinal_friend_call_state value_of_friend_call_state 6
unfolding value_of_friend_call_state
friend_call_state-IsEncoding = record {
  decode = friend_call_state_decode;
  encode = friend_call_state_encode;
  accepted = friend_call_state_accepted;
  too_large = λ k h. ground arith;
  negative = λ k. refl;
}
