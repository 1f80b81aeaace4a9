-- ===== src/Enums/Setup.antt =====
-- ToxCore/generated/enums.cpp: TOX_PROXY_TYPE, TOX_SAVEDATA_TYPE. `other` is a value that is no enumerator.
use jvm_toxcore_c.Base.{
  ◌≡◌, refl, ◌++◌, ℕ, zero, suc, ◌<◌, ℤ, pos, negsuc, ◌==ℤ◌, if◌then◌else◌, Text, codes,
  to_string_ℤ, arith,
}
use jvm_toxcore_c.Jni.{Outcome, returned, fatal}
use jvm_toxcore_c.Enums.{from_toxcore, from_java, IsEncoding}

-- TOX_PROXY_TYPE
pub data ToxProxyType : Type 0 where
  none http socks5 : ToxProxyType
  other : ℤ → ToxProxyType

pub ordinal_proxy_type : ToxProxyType → Outcome ℤ
ordinal_proxy_type none = returned (pos 0)
ordinal_proxy_type http = returned (pos 1)
ordinal_proxy_type socks5 = returned (pos 2)
ordinal_proxy_type (other n) = fatal from_toxcore

unfoldable pub value_of_proxy_type : ℤ → Outcome ToxProxyType
value_of_proxy_type n =
    if n ==ℤ pos 0
    then returned none
    else if n ==ℤ pos 1
    then returned http
    else if n ==ℤ pos 2
    then returned socks5
    else fatal from_java

-- The text that a log entry has for it.
pub print_proxy_type : ToxProxyType → Text
print_proxy_type none = codes "TOX_PROXY_TYPE_NONE"
print_proxy_type http = codes "TOX_PROXY_TYPE_HTTP"
print_proxy_type socks5 = codes "TOX_PROXY_TYPE_SOCKS5"
print_proxy_type (other n) = codes "(TOX_PROXY_TYPE)" ++ to_string_ℤ n

proxy_type_decode :
    (t : ToxProxyType) (n : ℤ)
    → ordinal_proxy_type t ≡ returned n
    → value_of_proxy_type n ≡ returned t
unfolding ordinal_proxy_type value_of_proxy_type
proxy_type_decode none n h = ground arith
proxy_type_decode _ n h = ground arith

proxy_type_encode :
    (n : ℤ) (t : ToxProxyType)
    → value_of_proxy_type n ≡ returned t
    → ordinal_proxy_type t ≡ returned n
unfolding ordinal_proxy_type value_of_proxy_type
proxy_type_encode (negsuc n) t h = ground arith
proxy_type_encode (pos n) t h = ground arith

proxy_type_accepted :
    (k : ℕ) → k < 3 → (t : ToxProxyType) × (value_of_proxy_type (pos k) ≡ returned t)
unfolding value_of_proxy_type
proxy_type_accepted zero h = (none, refl)
proxy_type_accepted (suc zero) h = (http, refl)
proxy_type_accepted (suc (suc zero)) h = (socks5, refl)
proxy_type_accepted (suc (suc (suc k))) h = absurd (omega arith)

pub proxy_type-IsEncoding : IsEncoding ordinal_proxy_type value_of_proxy_type 3
unfolding value_of_proxy_type
proxy_type-IsEncoding = record {
  decode = proxy_type_decode;
  encode = proxy_type_encode;
  accepted = proxy_type_accepted;
  too_large = λ k h. ground arith;
  negative = λ k. refl;
}

-- TOX_SAVEDATA_TYPE
pub data ToxSavedataType : Type 0 where
  none tox_save secret_key : ToxSavedataType
  other : ℤ → ToxSavedataType

pub ordinal_savedata_type : ToxSavedataType → Outcome ℤ
ordinal_savedata_type none = returned (pos 0)
ordinal_savedata_type tox_save = returned (pos 1)
ordinal_savedata_type secret_key = returned (pos 2)
ordinal_savedata_type (other n) = fatal from_toxcore

unfoldable pub value_of_savedata_type : ℤ → Outcome ToxSavedataType
value_of_savedata_type n =
    if n ==ℤ pos 0
    then returned none
    else if n ==ℤ pos 1
    then returned tox_save
    else if n ==ℤ pos 2
    then returned secret_key
    else fatal from_java

-- The text that a log entry has for it.
pub print_savedata_type : ToxSavedataType → Text
print_savedata_type none = codes "TOX_SAVEDATA_TYPE_NONE"
print_savedata_type tox_save = codes "TOX_SAVEDATA_TYPE_TOX_SAVE"
print_savedata_type secret_key = codes "TOX_SAVEDATA_TYPE_SECRET_KEY"
print_savedata_type (other n) = codes "(TOX_SAVEDATA_TYPE)" ++ to_string_ℤ n

savedata_type_decode :
    (t : ToxSavedataType) (n : ℤ)
    → ordinal_savedata_type t ≡ returned n
    → value_of_savedata_type n ≡ returned t
unfolding ordinal_savedata_type value_of_savedata_type
savedata_type_decode none n h = ground arith
savedata_type_decode _ n h = ground arith

savedata_type_encode :
    (n : ℤ) (t : ToxSavedataType)
    → value_of_savedata_type n ≡ returned t
    → ordinal_savedata_type t ≡ returned n
unfolding ordinal_savedata_type value_of_savedata_type
savedata_type_encode (negsuc n) t h = ground arith
savedata_type_encode (pos n) t h = ground arith

savedata_type_accepted :
    (k : ℕ) → k < 3 → (t : ToxSavedataType) × (value_of_savedata_type (pos k) ≡ returned t)
unfolding value_of_savedata_type
savedata_type_accepted zero h = (none, refl)
savedata_type_accepted (suc zero) h = (tox_save, refl)
savedata_type_accepted (suc (suc zero)) h = (secret_key, refl)
savedata_type_accepted (suc (suc (suc k))) h = absurd (omega arith)

pub savedata_type-IsEncoding : IsEncoding ordinal_savedata_type value_of_savedata_type 3
unfolding value_of_savedata_type
savedata_type-IsEncoding = record {
  decode = savedata_type_decode;
  encode = savedata_type_encode;
  accepted = savedata_type_accepted;
  too_large = λ k h. ground arith;
  negative = λ k. refl;
}
