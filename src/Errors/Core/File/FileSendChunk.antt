-- ===== src/Errors/Core/File/FileSendChunk.antt =====
-- ToxCore/generated/errors.cpp: FILE_SEND_CHUNK. `other` is a value that is not listed there.
use jvm_toxcore_c.Base.{◌≡◌, refl, inl, inr, [], ◌∷◌, ℤ, pos, codes}
use jvm_toxcore_c.Errors.{ErrorHandling, ErrorType, success, failure_case, unhandled}
use jvm_toxcore_c.Errors.Faithful.{HasShape, IsFaithful, IsListed, find_code, injective_of_list}

-- TOX_ERR_FILE_SEND_CHUNK
pub data ErrFileSendChunk : Type 0 where
  ok friend_not_connected friend_not_found invalid_length not_found not_transferring null sendq
        wrong_position :
      ErrFileSendChunk
  other : ℤ → ErrFileSendChunk

handle_file_send_chunk : ErrFileSendChunk → ErrorHandling
unfolding failure_case
handle_file_send_chunk ok = success
handle_file_send_chunk friend_not_connected = failure_case "FRIEND_NOT_CONNECTED"
handle_file_send_chunk friend_not_found = failure_case "FRIEND_NOT_FOUND"
handle_file_send_chunk invalid_length = failure_case "INVALID_LENGTH"
handle_file_send_chunk not_found = failure_case "NOT_FOUND"
handle_file_send_chunk not_transferring = failure_case "NOT_TRANSFERRING"
handle_file_send_chunk null = failure_case "NULL"
handle_file_send_chunk sendq = failure_case "SENDQ"
handle_file_send_chunk wrong_position = failure_case "WRONG_POSITION"
handle_file_send_chunk (other n) = unhandled

file_send_chunk_value : ErrFileSendChunk → ℤ
file_send_chunk_value (other n) = n
file_send_chunk_value _ = pos 0

unfoldable pub file_send_chunk_error : ErrorType ErrFileSendChunk
unfolding handle_file_send_chunk file_send_chunk_value
file_send_chunk_error = record {
  method_name = codes "FileSendChunk";
  handle_error_enum = handle_file_send_chunk;
  value = file_send_chunk_value;
}

file_send_chunk-IsListed : IsListed file_send_chunk_error (
    ErrFileSendChunk.friend_not_connected ∷ ErrFileSendChunk.friend_not_found
    ∷ ErrFileSendChunk.invalid_length ∷ ErrFileSendChunk.not_found
    ∷ ErrFileSendChunk.not_transferring ∷ ErrFileSendChunk.null ∷ ErrFileSendChunk.sendq
    ∷ ErrFileSendChunk.wrong_position ∷ [])
unfolding file_send_chunk_error find_code
file_send_chunk-IsListed ok = refl
file_send_chunk-IsListed _ = refl

file_send_chunk_only_ok : (e : ErrFileSendChunk) → handle_file_send_chunk e ≡ success → e ≡ ok
unfolding handle_file_send_chunk
file_send_chunk_only_ok ok h = refl
file_send_chunk_only_ok _ h = cc

file_send_chunk_only_other :
    (e : ErrFileSendChunk) → handle_file_send_chunk e ≡ unhandled → (n : ℤ) × (e ≡ other n)
unfolding handle_file_send_chunk
file_send_chunk_only_other (other n) h = (n, refl)
file_send_chunk_only_other _ h = cc

file_send_chunk_shape : (e : ErrFileSendChunk) → HasShape (handle_file_send_chunk e)
unfolding handle_file_send_chunk
file_send_chunk_shape ok = inl refl
file_send_chunk_shape (other n) = inr (inl refl)
file_send_chunk_shape _ = inr (inr (_, refl))

pub file_send_chunk-IsFaithful :
    IsFaithful file_send_chunk_error ErrFileSendChunk.ok ErrFileSendChunk.other
unfolding file_send_chunk_error
file_send_chunk-IsFaithful = record {
  shaped = file_send_chunk_shape;
  succeeds = refl;
  only_ok = file_send_chunk_only_ok;
  only_other = file_send_chunk_only_other;
  injective = injective_of_list file_send_chunk_error _ file_send_chunk-IsListed;
}
