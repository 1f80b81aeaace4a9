-- ===== src/Errors/Core/File/FileGet.antt =====
-- ToxCore/generated/errors.cpp: FILE_GET. `other` is a value that is not listed there.
use jvm_toxcore_c.Base.{◌≡◌, refl, inl, inr, [], ◌∷◌, ℤ, pos, codes}
use jvm_toxcore_c.Errors.{ErrorHandling, ErrorType, success, failure_case, unhandled}
use jvm_toxcore_c.Errors.Faithful.{HasShape, IsFaithful, IsListed, find_code, injective_of_list}

-- TOX_ERR_FILE_GET
pub data ErrFileGet : Type 0 where
  ok friend_not_found not_found null : ErrFileGet
  other : ℤ → ErrFileGet

handle_file_get : ErrFileGet → ErrorHandling
unfolding failure_case
handle_file_get ok = success
handle_file_get friend_not_found = failure_case "FRIEND_NOT_FOUND"
handle_file_get not_found = failure_case "NOT_FOUND"
handle_file_get null = failure_case "NULL"
handle_file_get (other n) = unhandled

file_get_value : ErrFileGet → ℤ
file_get_value (other n) = n
file_get_value _ = pos 0

unfoldable pub file_get_error : ErrorType ErrFileGet
unfolding handle_file_get file_get_value
file_get_error = record {
  method_name = codes "FileGet";
  handle_error_enum = handle_file_get;
  value = file_get_value;
}

file_get-IsListed :
    IsListed file_get_error
      (ErrFileGet.friend_not_found ∷ ErrFileGet.not_found ∷ ErrFileGet.null ∷ [])
unfolding file_get_error find_code
file_get-IsListed ok = refl
file_get-IsListed _ = refl

file_get_only_ok : (e : ErrFileGet) → handle_file_get e ≡ success → e ≡ ok
unfolding handle_file_get
file_get_only_ok ok h = refl
file_get_only_ok _ h = cc

file_get_only_other : (e : ErrFileGet) → handle_file_get e ≡ unhandled → (n : ℤ) × (e ≡ other n)
unfolding handle_file_get
file_get_only_other (other n) h = (n, refl)
file_get_only_other _ h = cc

file_get_shape : (e : ErrFileGet) → HasShape (handle_file_get e)
unfolding handle_file_get
file_get_shape ok = inl refl
file_get_shape (other n) = inr (inl refl)
file_get_shape _ = inr (inr (_, refl))

pub file_get-IsFaithful : IsFaithful file_get_error ErrFileGet.ok ErrFileGet.other
unfolding file_get_error
file_get-IsFaithful = record {
  shaped = file_get_shape;
  succeeds = refl;
  only_ok = file_get_only_ok;
  only_other = file_get_only_other;
  injective = injective_of_list file_get_error _ file_get-IsListed;
}
