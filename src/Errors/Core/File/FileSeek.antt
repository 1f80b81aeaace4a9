-- ===== src/Errors/Core/File/FileSeek.antt =====
-- ToxCore/generated/errors.cpp: FILE_SEEK. `other` is a value that is not listed there.
use jvm_toxcore_c.Base.{◌≡◌, refl, inl, inr, [], ◌∷◌, ℤ, pos, codes}
use jvm_toxcore_c.Errors.{ErrorHandling, ErrorType, success, failure_case, unhandled}
use jvm_toxcore_c.Errors.Faithful.{HasShape, IsFaithful, IsListed, find_code, injective_of_list}

-- TOX_ERR_FILE_SEEK
pub data ErrFileSeek : Type 0 where
  ok denied friend_not_connected friend_not_found invalid_position not_found sendq : ErrFileSeek
  other : ℤ → ErrFileSeek

handle_file_seek : ErrFileSeek → ErrorHandling
unfolding failure_case
handle_file_seek ok = success
handle_file_seek denied = failure_case "DENIED"
handle_file_seek friend_not_connected = failure_case "FRIEND_NOT_CONNECTED"
handle_file_seek friend_not_found = failure_case "FRIEND_NOT_FOUND"
handle_file_seek invalid_position = failure_case "INVALID_POSITION"
handle_file_seek not_found = failure_case "NOT_FOUND"
handle_file_seek sendq = failure_case "SENDQ"
handle_file_seek (other n) = unhandled

file_seek_value : ErrFileSeek → ℤ
file_seek_value (other n) = n
file_seek_value _ = pos 0

unfoldable pub file_seek_error : ErrorType ErrFileSeek
unfolding handle_file_seek file_seek_value
file_seek_error = record {
  method_name = codes "FileSeek";
  handle_error_enum = handle_file_seek;
  value = file_seek_value;
}

file_seek-IsListed : IsListed file_seek_error (
    ErrFileSeek.denied ∷ ErrFileSeek.friend_not_connected ∷ ErrFileSeek.friend_not_found
    ∷ ErrFileSeek.invalid_position ∷ ErrFileSeek.not_found ∷ ErrFileSeek.sendq ∷ [])
unfolding file_seek_error find_code
file_seek-IsListed ok = refl
file_seek-IsListed _ = refl

file_seek_only_ok : (e : ErrFileSeek) → handle_file_seek e ≡ success → e ≡ ok
unfolding handle_file_seek
file_seek_only_ok ok h = refl
file_seek_only_ok _ h = cc

file_seek_only_other : (e : ErrFileSeek) → handle_file_seek e ≡ unhandled → (n : ℤ) × (e ≡ other n)
unfolding handle_file_seek
file_seek_only_other (other n) h = (n, refl)
file_seek_only_other _ h = cc

file_seek_shape : (e : ErrFileSeek) → HasShape (handle_file_seek e)
unfolding handle_file_seek
file_seek_shape ok = inl refl
file_seek_shape (other n) = inr (inl refl)
file_seek_shape _ = inr (inr (_, refl))

pub file_seek-IsFaithful : IsFaithful file_seek_error ErrFileSeek.ok ErrFileSeek.other
unfolding file_seek_error
file_seek-IsFaithful = record {
  shaped = file_seek_shape;
  succeeds = refl;
  only_ok = file_seek_only_ok;
  only_other = file_seek_only_other;
  injective = injective_of_list file_seek_error _ file_seek-IsListed;
}
