-- ===== src/Construction.antt =====
-- `toxNew` and `toxGetSavedata` (ToxCore/lifecycle.cpp). The options of toxcore are those that the
-- method sets, and it sets every one of them; whether they could be allocated, `tox_new` and the
-- functions that register the callbacks are parameters.
pub mod Outcomes
use jvm_toxcore_c.Base.{
  ℕ, Bool, true, false, not, Option, none, some, List, ℤ, pos, is_negative, leb_ℤ, u16, is_some,
  codes, if◌then◌else◌,
}
use jvm_toxcore_c.Jni.{Env, JavaArray, Outcome, returned, undefined, ◌>>=◌, ◌>>◌, tox4j_assert}
use jvm_toxcore_c.Instances.{Manager, add}
use jvm_toxcore_c.Errors.{core_subsystem, throw_by_code, with_error_handling}
use jvm_toxcore_c.Errors.Core.Self.{ErrNew, new_error}
use jvm_toxcore_c.Enums.Setup.{
  ToxProxyType, ToxSavedataType, value_of_proxy_type, value_of_savedata_type,
}
use jvm_toxcore_c.Core.Messages.{Events, no_events}
use jvm_toxcore_c.Core.Dispatch.{Kind, registered, set_callbacks}
use jvm_toxcore_c.Wrappers.{Method, with_instance_noerr}
use jvm_toxcore_c.Methods.{get_vector}

-- The arguments of `toxNew`.
pub record NewArguments : Type 0 where
  pub ipv6_enabled : Bool
  pub udp_enabled : Bool
  pub local_discovery_enabled : Bool
  pub proxy_type : ℤ
  pub proxy_host : JavaArray ℕ
  pub proxy_port : ℤ
  pub start_port : ℤ
  pub end_port : ℤ
  pub tcp_port : ℤ
  pub save_data_type : ℤ
  pub save_data : JavaArray ℕ

-- `Tox_Options`: the ports are `uint16_t`.
pub record ToxOptions : Type 0 where
  pub ipv6_enabled : Bool
  pub udp_enabled : Bool
  pub local_discovery_enabled : Bool
  pub proxy_type : ToxProxyType
  pub proxy_host : JavaArray ℕ
  pub proxy_port : ℕ
  pub start_port : ℕ
  pub end_port : ℕ
  pub tcp_port : ℕ
  pub savedata_type : ToxSavedataType
  pub savedata_data : JavaArray ℕ

unfoldable pub assert_valid_uint16 : ℤ → Outcome (Unit {0})
assert_valid_uint16 port =
    tox4j_assert (not (is_negative port)) (codes "port >= 0")
    >> tox4j_assert (leb_ℤ port 65535) (codes "port <= 65535")

-- `tox_options_get_proxy_type (...) != TOX_PROXY_TYPE_NONE`
unfoldable pub has_proxy : ToxProxyType → Bool
has_proxy ToxProxyType.none = false
has_proxy _ = true

-- The assertion on the proxy's port, which is made only where there is a proxy.
unfoldable pub assert_valid_proxy : ToxProxyType → ℤ → Outcome (Unit {0})
assert_valid_proxy proxy_type port =
    if has_proxy proxy_type then assert_valid_uint16 port else returned tt

-- The options for the arguments: the ports are cast, and then asserted to be in range.
unfoldable pub new_options : NewArguments → Outcome ToxOptions
unfolding assert_valid_uint16 assert_valid_proxy
new_options a = do
  proxy_type ← value_of_proxy_type a.proxy_type
  _ ← assert_valid_proxy proxy_type a.proxy_port
  _ ← assert_valid_uint16 a.start_port
  _ ← assert_valid_uint16 a.end_port
  _ ← assert_valid_uint16 a.tcp_port
  savedata_type ← value_of_savedata_type a.save_data_type
  returned (record {
    ipv6_enabled = a.ipv6_enabled;
    udp_enabled = a.udp_enabled;
    local_discovery_enabled = a.local_discovery_enabled;
    proxy_type = proxy_type;
    proxy_host = a.proxy_host;
    proxy_port = u16 a.proxy_port;
    start_port = u16 a.start_port;
    end_port = u16 a.end_port;
    tcp_port = u16 a.tcp_port;
    savedata_type = savedata_type;
    savedata_data = a.save_data;
  })

module _ {Tox : Type 0} where
  -- The success function of `toxNew`: a new events object, the callbacks, and a new number.
  unfoldable pub created :
      (Kind → Tox → Tox)
      → Manager Tox Events
      → Option Tox
      → Env
      → Outcome (ℤ × Env × Manager Tox Events)
  created set m none env = tox4j_assert false (codes "tox != nullptr") >> undefined
  created set m (some tox) env =
      add (some (set_callbacks set registered tox)) (some no_events) m >>= λ r.
      returned (r.0, env, r.1)

  -- The value-initialised result.
  abbrev pub nothing_created : Manager Tox Events → Env → ℤ × Env × Manager Tox Events
  nothing_created m env = (pos 0, env, m)

  -- `allocated` is whether `tox_options_new` gave options.
  unfoldable pub new :
      Bool
      → (Kind → Tox → Tox)
      → (ToxOptions → Option Tox × ErrNew)
      → NewArguments
      → Env
      → Manager Tox Events
      → Outcome (ℤ × Env × Manager Tox Events)
  new allocated set tox_new a env m =
      if not allocated
      then returned (pos 0, throw_by_code core_subsystem new_error env ErrNew.malloc, m)
      else (new_options a >>= λ options.
          let (tox, error) = tox_new options in
          with_error_handling core_subsystem new_error (created set m) (nothing_created m) env tox
            error)

  unfoldable pub get_savedata :
      {V : Type 0} → (Tox → ℕ) → (Tox → List ℕ → List ℕ) → Method Tox V (JavaArray ℕ)
  get_savedata tox_get_savedata_size tox_get_savedata =
      with_instance_noerr some none (get_vector tox_get_savedata_size tox_get_savedata)
