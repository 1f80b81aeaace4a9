-- ===== src/Errors/Core/Self/Bootstrap.antt =====
-- ToxCore/generated/errors.cpp: BOOTSTRAP. `other` is a value that is not listed there.
use jvm_toxcore_c.Base.{◌≡◌, refl, inl, inr, [], ◌∷◌, ℤ, pos, codes}
use jvm_toxcore_c.Errors.{ErrorHandling, ErrorType, success, failure_case, unhandled}
use jvm_toxcore_c.Errors.Faithful.{HasShape, IsFaithful, IsListed, find_code, injective_of_list}

-- TOX_ERR_BOOTSTRAP
pub data ErrBootstrap : Type 0 where
  ok bad_host bad_port null : ErrBootstrap
  other : ℤ → ErrBootstrap

handle_bootstrap : ErrBootstrap → ErrorHandling
unfolding failure_case
handle_bootstrap ok = success
handle_bootstrap bad_host = failure_case "BAD_HOST"
handle_bootstrap bad_port = failure_case "BAD_PORT"
handle_bootstrap null = failure_case "NULL"
handle_bootstrap (other n) = unhandled

bootstrap_value : ErrBootstrap → ℤ
bootstrap_value (other n) = n
bootstrap_value _ = pos 0

unfoldable pub bootstrap_error : ErrorType ErrBootstrap
unfolding handle_bootstrap bootstrap_value
bootstrap_error = record {
  method_name = codes "Bootstrap";
  handle_error_enum = handle_bootstrap;
  value = bootstrap_value;
}

bootstrap-IsListed :
    IsListed bootstrap_error
      (ErrBootstrap.bad_host ∷ ErrBootstrap.bad_port ∷ ErrBootstrap.null ∷ [])
unfolding bootstrap_error find_code
bootstrap-IsListed ok = refl
bootstrap-IsListed _ = refl

bootstrap_only_ok : (e : ErrBootstrap) → handle_bootstrap e ≡ success → e ≡ ok
unfolding handle_bootstrap
bootstrap_only_ok ok h = refl
bootstrap_only_ok _ h = cc

bootstrap_only_other : (e : ErrBootstrap) → handle_bootstrap e ≡ unhandled → (n : ℤ) × (e ≡ other n)
unfolding handle_bootstrap
bootstrap_only_other (other n) h = (n, refl)
bootstrap_only_other _ h = cc

bootstrap_shape : (e : ErrBootstrap) → HasShape (handle_bootstrap e)
unfolding handle_bootstrap
bootstrap_shape ok = inl refl
bootstrap_shape (other n) = inr (inl refl)
bootstrap_shape _ = inr (inr (_, refl))

pub bootstrap-IsFaithful : IsFaithful bootstrap_error ErrBootstrap.ok ErrBootstrap.other
unfolding bootstrap_error
bootstrap-IsFaithful = record {
  shaped = bootstrap_shape;
  succeeds = refl;
  only_ok = bootstrap_only_ok;
  only_other = bootstrap_only_other;
  injective = injective_of_list bootstrap_error _ bootstrap-IsListed;
}
