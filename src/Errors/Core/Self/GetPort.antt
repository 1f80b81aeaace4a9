-- ===== src/Errors/Core/Self/GetPort.antt =====
-- ToxCore/generated/errors.cpp: GET_PORT. `other` is a value that is not listed there.
use jvm_toxcore_c.Base.{◌≡◌, refl, inl, inr, [], ◌∷◌, ℤ, pos, codes}
use jvm_toxcore_c.Errors.{ErrorHandling, ErrorType, success, failure_case, unhandled}
use jvm_toxcore_c.Errors.Faithful.{HasShape, IsFaithful, IsListed, find_code, injective_of_list}

-- TOX_ERR_GET_PORT
pub data ErrGetPort : Type 0 where
  ok not_bound : ErrGetPort
  other : ℤ → ErrGetPort

handle_get_port : ErrGetPort → ErrorHandling
unfolding failure_case
handle_get_port ok = success
handle_get_port not_bound = failure_case "NOT_BOUND"
handle_get_port (other n) = unhandled

get_port_value : ErrGetPort → ℤ
get_port_value (other n) = n
get_port_value _ = pos 0

unfoldable pub get_port_error : ErrorType ErrGetPort
unfolding handle_get_port get_port_value
get_port_error = record {
  method_name = codes "GetPort";
  handle_error_enum = handle_get_port;
  value = get_port_value;
}

get_port-IsListed : IsListed get_port_error (ErrGetPort.not_bound ∷ [])
unfolding get_port_error find_code
get_port-IsListed ok = refl
get_port-IsListed _ = refl

get_port_only_ok : (e : ErrGetPort) → handle_get_port e ≡ success → e ≡ ok
unfolding handle_get_port
get_port_only_ok ok h = refl
get_port_only_ok _ h = cc

get_port_only_other : (e : ErrGetPort) → handle_get_port e ≡ unhandled → (n : ℤ) × (e ≡ other n)
unfolding handle_get_port
get_port_only_other (other n) h = (n, refl)
get_port_only_other _ h = cc

get_port_shape : (e : ErrGetPort) → HasShape (handle_get_port e)
unfolding handle_get_port
get_port_shape ok = inl refl
get_port_shape (other n) = inr (inl refl)
get_port_shape _ = inr (inr (_, refl))

pub get_port-IsFaithful : IsFaithful get_port_error ErrGetPort.ok ErrGetPort.other
unfolding get_port_error
get_port-IsFaithful = record {
  shaped = get_port_shape;
  succeeds = refl;
  only_ok = get_port_only_ok;
  only_other = get_port_only_other;
  injective = injective_of_list get_port_error _ get_port-IsListed;
}
