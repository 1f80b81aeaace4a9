-- ===== src/Methods/Files.antt =====
-- ToxCore/filetransfer.cpp
use jvm_toxcore_c.Base.{
  ℕ, Bool, true, length, leb, none, some, ℤ, pos, negsuc, is_negative, u32, u64, to_jint,
  if◌then◌else◌,
}
use jvm_toxcore_c.Jni.{JavaArray, undefined}
use jvm_toxcore_c.Instances.{with_instance}
use jvm_toxcore_c.Errors.{core_subsystem}
use jvm_toxcore_c.Errors.Core.File.{
  file_control_error, file_get_error, file_seek_error, file_send_chunk_error, file_send_error,
}
use jvm_toxcore_c.Enums.Status.{value_of_file_control}
use jvm_toxcore_c.Wrappers.{Method, with_instance_err, with_instance_ign}
use jvm_toxcore_c.Methods.{FileApi, reading}

-- The size that toxcore is given: every negative size of Java stands for a stream.
unfoldable pub streaming : ℤ → ℤ
streaming file_size = if is_negative file_size then negsuc 0 else file_size

-- `TOX_FILE_ID_LENGTH`
abbrev pub file_id_length : ℕ
file_id_length = 32

-- toxcore reads a whole id at a pointer that is not null.
abbrev pub holds_id : JavaArray ℕ → Bool
holds_id none = true
holds_id (some id) = leb file_id_length (length id)

module _ {Tox V : Type 0} (t : FileApi Tox) where
  unfoldable pub file_control : ℤ → ℤ → ℤ → Method Tox V (Unit {0})
  file_control friend file control = reading (value_of_file_control control) λ c.
      with_instance_ign core_subsystem file_control_error (t.file_control (u32 friend) (u32 file) c)

  unfoldable pub file_seek : ℤ → ℤ → ℤ → Method Tox V (Unit {0})
  file_seek friend file position =
      with_instance_ign core_subsystem file_seek_error
        (t.file_seek (u32 friend) (u32 file) (u64 position))

  -- The size of the id is not passed: a shorter array makes toxcore read past its end.
  unfoldable pub file_send : ℤ → ℤ → ℤ → JavaArray ℕ → JavaArray ℕ → Method Tox V ℤ
  unfolding streaming
  file_send friend kind file_size file_id filename env n m =
      if holds_id file_id
      then with_instance_err core_subsystem file_send_error to_jint (pos 0)
          (t.file_send (u32 friend) (u32 kind) (u64 (streaming file_size)) file_id filename) env n m
      else with_instance (λ tox events env'. undefined) (pos 0) env n m

  unfoldable pub file_send_chunk : ℤ → ℤ → ℤ → JavaArray ℕ → Method Tox V (Unit {0})
  file_send_chunk friend file position chunk =
      with_instance_ign core_subsystem file_send_chunk_error
        (t.file_send_chunk (u32 friend) (u32 file) (u64 position) chunk)

  unfoldable pub file_get_file_id : ℤ → ℤ → Method Tox V (JavaArray ℕ)
  file_get_file_id friend file =
      with_instance_err core_subsystem file_get_error (λ a. some a.1) none
        (t.file_get_file_id (u32 friend) (u32 file))
