-- ===== src/Errors/Core/File/FileSend.antt =====
-- ToxCore/generated/errors.cpp: FILE_SEND. `other` is a value that is not listed there.
use jvm_toxcore_c.Base.{◌≡◌, refl, inl, inr, [], ◌∷◌, ℤ, pos, codes}
use jvm_toxcore_c.Errors.{ErrorHandling, ErrorType, success, failure_case, unhandled}
use jvm_toxcore_c.Errors.Faithful.{HasShape, IsFaithful, IsListed, find_code, injective_of_list}

-- TOX_ERR_FILE_SEND
pub data ErrFileSend : Type 0 where
  ok friend_not_connected friend_not_found name_too_long null too_many : ErrFileSend
  other : ℤ → ErrFileSend

handle_file_send : ErrFileSend → ErrorHandling
unfolding failure_case
handle_file_send ok = success
handle_file_send friend_not_connected = failure_case "FRIEND_NOT_CONNECTED"
handle_file_send friend_not_found = failure_case "FRIEND_NOT_FOUND"
handle_file_send name_too_long = failure_case "NAME_TOO_LONG"
handle_file_send null = failure_case "NULL"
handle_file_send too_many = failure_case "TOO_MANY"
handle_file_send (other n) = unhandled

file_send_value : ErrFileSend → ℤ
file_send_value (other n) = n
file_send_value _ = pos 0

unfoldable pub file_send_error : ErrorType ErrFileSend
unfolding handle_file_send file_send_value
file_send_error = record {
  method_name = codes "FileSend";
  handle_error_enum = handle_file_send;
  value = file_send_value;
}

file_send-IsListed : IsListed file_send_error (
    ErrFileSend.friend_not_connected ∷ ErrFileSend.friend_not_found ∷ ErrFileSend.name_too_long
    ∷ ErrFileSend.null ∷ ErrFileSend.too_many ∷ [])
unfolding file_send_error find_code
file_send-IsListed ok = refl
file_send-IsListed _ = refl

file_send_only_ok : (e : ErrFileSend) → handle_file_send e ≡ success → e ≡ ok
unfolding handle_file_send
file_send_only_ok ok h = refl
file_send_only_ok _ h = cc

file_send_only_other : (e : ErrFileSend) → handle_file_send e ≡ unhandled → (n : ℤ) × (e ≡ other n)
unfolding handle_file_send
file_send_only_other (other n) h = (n, refl)
file_send_only_other _ h = cc

file_send_shape : (e : ErrFileSend) → HasShape (handle_file_send e)
unfolding handle_file_send
file_send_shape ok = inl refl
file_send_shape (other n) = inr (inl refl)
file_send_shape _ = inr (inr (_, refl))

pub file_send-IsFaithful : IsFaithful file_send_error ErrFileSend.ok ErrFileSend.other
unfolding file_send_error
file_send-IsFaithful = record {
  shaped = file_send_shape;
  succeeds = refl;
  only_ok = file_send_only_ok;
  only_other = file_send_only_other;
  injective = injective_of_list file_send_error _ file_send-IsListed;
}
