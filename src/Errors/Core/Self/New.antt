-- ===== src/Errors/Core/Self/New.antt =====
-- ToxCore/generated/errors.cpp: NEW. `other` is a value that is not listed there.
use jvm_toxcore_c.Base.{◌≡◌, refl, inl, inr, [], ◌∷◌, ℤ, pos, codes}
use jvm_toxcore_c.Errors.{ErrorHandling, ErrorType, success, failure_case, unhandled}
use jvm_toxcore_c.Errors.Faithful.{HasShape, IsFaithful, IsListed, find_code, injective_of_list}

-- TOX_ERR_NEW
pub data ErrNew : Type 0 where
  ok load_bad_format load_encrypted malloc null port_alloc proxy_bad_host proxy_bad_port
        proxy_bad_type proxy_not_found :
      ErrNew
  other : ℤ → ErrNew

handle_new : ErrNew → ErrorHandling
unfolding failure_case
handle_new ok = success
handle_new load_bad_format = failure_case "LOAD_BAD_FORMAT"
handle_new load_encrypted = failure_case "LOAD_ENCRYPTED"
handle_new malloc = failure_case "MALLOC"
handle_new null = failure_case "NULL"
handle_new port_alloc = failure_case "PORT_ALLOC"
handle_new proxy_bad_host = failure_case "PROXY_BAD_HOST"
handle_new proxy_bad_port = failure_case "PROXY_BAD_PORT"
handle_new proxy_bad_type = failure_case "PROXY_BAD_TYPE"
handle_new proxy_not_found = failure_case "PROXY_NOT_FOUND"
handle_new (other n) = unhandled

new_value : ErrNew → ℤ
new_value (other n) = n
new_value _ = pos 0

unfoldable pub new_error : ErrorType ErrNew
unfolding handle_new new_value
new_error = record { method_name = codes "New"; handle_error_enum = handle_new; value = new_value }

new-IsListed : IsListed new_error (
    ErrNew.load_bad_format ∷ ErrNew.load_encrypted ∷ ErrNew.malloc ∷ ErrNew.null ∷ ErrNew.port_alloc
    ∷ ErrNew.proxy_bad_host ∷ ErrNew.proxy_bad_port ∷ ErrNew.proxy_bad_type ∷ ErrNew.proxy_not_found
    ∷ [])
unfolding new_error find_code
new-IsListed ok = refl
new-IsListed _ = refl

new_only_ok : (e : ErrNew) → handle_new e ≡ success → e ≡ ok
unfolding handle_new
new_only_ok ok h = refl
new_only_ok _ h = cc

new_only_other : (e : ErrNew) → handle_new e ≡ unhandled → (n : ℤ) × (e ≡ other n)
unfolding handle_new
new_only_other (other n) h = (n, refl)
new_only_other _ h = cc

new_shape : (e : ErrNew) → HasShape (handle_new e)
unfolding handle_new
new_shape ok = inl refl
new_shape (other n) = inr (inl refl)
new_shape _ = inr (inr (_, refl))

pub new-IsFaithful : IsFaithful new_error ErrNew.ok ErrNew.other
unfolding new_error
new-IsFaithful = record {
  shaped = new_shape;
  succeeds = refl;
  only_ok = new_only_ok;
  only_other = new_only_other;
  injective = injective_of_list new_error _ new-IsListed;
}
