-- ===== src/Construction/Outcomes.antt =====
-- What `toxNew` makes of its arguments, and how it ends.
use mathlib.Core.Path.{subst}
use jvm_toxcore_c.Base.{
  ℕ, ◌+◌, ◌^◌, ◌≤◌, ◌<◌, ◌≡◌, ◌≢◌, refl, ap, true, false, Option, some, ℤ, pos, negsuc, u16, ◌⊎◌,
  inl, inr, arith, length, Bool-cases,
}
use jvm_toxcore_c.Jni.{
  Env, exception_check, Outcome, returned, fatal, undefined, Ensures, Ensures-bind, ◌>>=◌,
}
use jvm_toxcore_c.Instances.{Manager, add}
use jvm_toxcore_c.Instances.Valid.{IsValid}
use jvm_toxcore_c.Instances.Add.{Added, add-Added}
use jvm_toxcore_c.Errors.{core_subsystem}
use jvm_toxcore_c.Errors.Core.Self.{ErrNew, new_error, new-IsFaithful}
use jvm_toxcore_c.Errors.Results.{with_error_handling_lem}
use jvm_toxcore_c.Enums.Setup.{ToxProxyType, value_of_proxy_type, value_of_savedata_type}
use jvm_toxcore_c.Core.Messages.{Events, no_events}
use jvm_toxcore_c.Core.Dispatch.{Kind, set_callbacks}
use jvm_toxcore_c.Construction.{
  NewArguments, ToxOptions, assert_valid_uint16, assert_valid_proxy, has_proxy, new_options,
  created, nothing_created, new,
}

-- A chain that returns has two parts that return.
bind-returned :
    {A B : Type 0} (x : Outcome A) (f : A → Outcome B) (b : B)
    → (x >>= f) ≡ returned b
    → (a : A) × (x ≡ returned a) × (f a ≡ returned b)
bind-returned (returned a) f b h = (a, refl, h)
bind-returned (fatal t) f b h = cc
bind-returned undefined f b h = cc

-- A port that the assertions let through is not changed by the cast.
abbrev pub IsExact : ℤ → ℕ → Type 0
IsExact port word = (port ≡ pos word) × (word ≤ 65535)

assert_valid-IsExact :
    (port : ℤ) (u : Unit {0}) → assert_valid_uint16 port ≡ returned u → IsExact port (u16 port)
unfolding assert_valid_uint16
assert_valid-IsExact (negsuc k) u h = cc
assert_valid-IsExact (pos k) u h = (ground arith, ground arith)

assert_proxy-IsExact :
    (proxy : ToxProxyType) (port : ℤ) (u : Unit {0})
    → assert_valid_proxy proxy port ≡ returned u
    → (has_proxy proxy ≡ false) ⊎ IsExact port (u16 port)
unfolding assert_valid_proxy
assert_proxy-IsExact proxy port u h = elim (Bool-cases (has_proxy proxy)) [
  | inl proxied ↦ inr (assert_valid-IsExact port u (rw proxied at h))
  | inr direct ↦ inl direct
]

-- The ports in the options are the ports of Java, none of them cut to 16 bits, the proxy's port
-- where there is a proxy; the enumerators are those of the ordinals, and the rest is unchanged.
abbrev pub IsExactly : NewArguments → ToxOptions → Type 0
IsExactly a o =
    IsExact a.start_port o.start_port
    × IsExact a.end_port o.end_port
    × IsExact a.tcp_port o.tcp_port
    × ((has_proxy o.proxy_type ≡ false) ⊎ IsExact a.proxy_port o.proxy_port)
    × (value_of_proxy_type a.proxy_type ≡ returned o.proxy_type)
    × (value_of_savedata_type a.save_data_type ≡ returned o.savedata_type)
    × (o.proxy_host ≡ a.proxy_host)
    × (o.savedata_data ≡ a.save_data)
    × (o.ipv6_enabled ≡ a.ipv6_enabled)
    × (o.udp_enabled ≡ a.udp_enabled)
    × (o.local_discovery_enabled ≡ a.local_discovery_enabled)

-- The value of an outcome.
abbrev value_or : {A : Type 0} → A → Outcome A → A
value_or a (returned b) = b
value_or a _ = a

-- Whenever `toxNew` gets as far as toxcore, the ports in the options are the ports of Java, which no
-- cast has cut to 16 bits, the proxy's port where there is a proxy; the enumerators are those that
-- Java's ordinals stand for, and the other options are the arguments as they are.
pub new_options-IsExactly :
    (a : NewArguments) (o : ToxOptions) → new_options a ≡ returned o → IsExactly a o
unfolding new_options
new_options-IsExactly a o h =
    let (proxy, p, h1) = bind-returned (value_of_proxy_type a.proxy_type) _ o h in
    let (u1, c1, h2) = bind-returned (assert_valid_proxy proxy a.proxy_port) _ o h1 in
    let (u2, c2, h3) = bind-returned (assert_valid_uint16 a.start_port) _ o h2 in
    let (u3, c3, h4) = bind-returned (assert_valid_uint16 a.end_port) _ o h3 in
    let (u4, c4, h5) = bind-returned (assert_valid_uint16 a.tcp_port) _ o h4 in
    let (kind, k, h6) = bind-returned (value_of_savedata_type a.save_data_type) _ o h5 in
    subst (IsExactly a) (ap (value_or o) h6) (
      assert_valid-IsExact a.start_port u2 c2,
      assert_valid-IsExact a.end_port u3 c3,
      assert_valid-IsExact a.tcp_port u4 c4,
      assert_proxy-IsExact proxy a.proxy_port u1 c1,
      p,
      k,
      refl,
      refl,
      refl,
      refl,
      refl,
    )

-- An instance on which each of the fifteen callbacks was set, once.
abbrev pub with_callbacks : {Tox : Type 0} → (Kind → Tox → Tox) → Tox → Tox
with_callbacks set tox = set Kind.self_connection_status (
    set Kind.friend_typing (
      set Kind.friend_status_message (
        set Kind.friend_status (
          set Kind.friend_request (
            set Kind.friend_read_receipt (
              set Kind.friend_name (
                set Kind.friend_message (
                  set Kind.friend_lossy_packet (
                    set Kind.friend_lossless_packet (
                      set Kind.friend_connection_status (
                        set Kind.file_recv_control (
                          set Kind.file_recv_chunk
                            (set Kind.file_recv (set Kind.file_chunk_request tox))))))))))))))

module _ {Tox : Type 0} (set : Kind → Tox → Tox) (tox_new : ToxOptions → Option Tox × ErrNew) where
  created-Added :
      (env : Env) (m : Manager Tox Events) (tox : Tox)
      → IsValid m
      → length m.instances + 1 < 2 ^ 31
      → Ensures
          (created set m (some tox) env)
          λ r. (r.1 ≡ env) × Added (with_callbacks set tox) no_events m (r.0, r.2)
  unfolding created set_callbacks
  created-Added env m tox v room =
      Ensures-bind (add (some (with_callbacks set tox)) (some no_events) m) _ _ _
        (add-Added (with_callbacks set tox) no_events m v room) λ r ran a. (refl, a)

  -- With options allocated and made, and a toxcore that gives an instance whenever it reports OK:
  -- on OK `toxNew` returns without an exception a number that was vacant or free, which is now live
  -- with the new instance, each of its fifteen callbacks set once, and no events; on any other code it returns 0
  -- with an exception and the table is as it was.
  pub new-outcome :
      (a : NewArguments) (o : ToxOptions) (env : Env) (m : Manager Tox Events)
      → ((x : ToxOptions) → (tox_new x).1 ≡ ErrNew.ok → (tox : Tox) × ((tox_new x).0 ≡ some tox))
      → IsValid m
      → length m.instances + 1 < 2 ^ 31
      → new_options a ≡ returned o
      → (((tox_new o).1 ≡ ErrNew.ok)
          × ((tox : Tox) × ((tox_new o).0 ≡ some tox)
              × Ensures
                  (new true set tox_new a env m)
                  λ r. (r.1 ≡ env) × Added (with_callbacks set tox) no_events m (r.0, r.2)))
        ⊎ (((tox_new o).1 ≢ ErrNew.ok)
            × ((env' : Env) × (exception_check env' ≡ true)
                × (new true set tox_new a env m ≡ returned (pos 0, env', m))))
  unfolding new
  new-outcome a o env m documented v room made =
      elim (with_error_handling_lem core_subsystem new_error ErrNew.ok ErrNew.other (created set m)
        (nothing_created m) env (tox_new o).0 (tox_new o).1 new-IsFaithful) [
          | inl (won, ran) ↦
              let (tox, given) = documented o won in
              inl (won, (tox, given, rw made (rw ran (rw given (created-Added env m tox v room)))))
          | inr (lost, (env', thrown, ran)) ↦ inr (lost, (env', thrown, rw made ran))
        ]
