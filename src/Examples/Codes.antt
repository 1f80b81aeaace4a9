-- ===== src/Examples/Codes.antt =====
-- Examples on error codes and exceptions.
use jvm_toxcore_c.Base.{ℕ, ◌+◌, ◌≡◌, ◌≢◌, refl, true, ◌⊎◌, ℤ, pos}
use jvm_toxcore_c.Jni.{Env, exception_check, Outcome, returned, Ensures}
use jvm_toxcore_c.Instances.{contains}
use jvm_toxcore_c.Instances.View.{live, view, update}
use jvm_toxcore_c.Errors.{core_subsystem, with_error_handling}
use jvm_toxcore_c.Errors.Results.{with_error_handling_lem}
use jvm_toxcore_c.Errors.Core.Friend.{ErrFriendAdd, friend_add_error, friend_add-IsFaithful}
use jvm_toxcore_c.Wrappers.{ErrCall, with_instance_err}
use jvm_toxcore_c.Wrappers.Answers.{with_instance_err-outcome}
use jvm_toxcore_c.Examples.Tools.{env, numbers, table-IsValid}

abbrev add_one : ℕ → Env → Outcome ℕ
add_one n e = returned (n + 1)

abbrev no_friend : Env → ℕ
no_friend _ = 0

with_error_handling_lem_example :
    ((ErrFriendAdd.own_key ≡ ErrFriendAdd.ok)
      × (with_error_handling core_subsystem friend_add_error add_one no_friend env 7
            ErrFriendAdd.own_key
          ≡ add_one 7 env))
    ⊎ ((ErrFriendAdd.own_key ≢ ErrFriendAdd.ok)
        × ((env' : Env) × (exception_check env' ≡ true)
            × (with_error_handling core_subsystem friend_add_error add_one no_friend env 7
                  ErrFriendAdd.own_key
                ≡ returned (no_friend env'))))
with_error_handling_lem_example =
    with_error_handling_lem core_subsystem friend_add_error ErrFriendAdd.ok ErrFriendAdd.other
      add_one no_friend env 7 ErrFriendAdd.own_key friend_add-IsFaithful

-- An instance counts the friends that were added to it.
abbrev add_friend : ErrCall ℕ ErrFriendAdd ℕ
add_friend tox = (tox, ErrFriendAdd.ok, tox + 1)

abbrev result : ℕ → ℤ
result n = pos n

with_instance_err-outcome_example :
    Ensures
      (with_instance_err core_subsystem friend_add_error result
        (pos 0)
        add_friend
        env
        (pos 4)
        numbers)
      λ r.
        (((ErrFriendAdd.ok ≡ ErrFriendAdd.ok) × (r.0 ≡ pos 40) × (r.1 ≡ env))
          ⊎ ((ErrFriendAdd.ok ≢ ErrFriendAdd.ok) × (r.0 ≡ pos 0) × (exception_check r.1 ≡ true)))
        × ((j : ℤ) → view r.2 j ≡ update (pos 4) (λ _. live 41 5) (view numbers) j)
unfolding contains
with_instance_err-outcome_example =
    with_instance_err-outcome core_subsystem friend_add_error ErrFriendAdd.ok ErrFriendAdd.other
      result (pos 0) add_friend env (pos 4) numbers 40 5 friend_add-IsFaithful (table-IsValid 5)
      refl
