-- ===== src/Examples/FileCalls.antt =====
-- Examples on the file transfer methods, with a toxcore that counts the calls.
use jvm_toxcore_c.Base.{◌⊎◌, ℕ, true, none, [], ℤ, pos, u32, u64, to_jint, some}
use jvm_toxcore_c.Jni.{JavaArray}
use jvm_toxcore_c.Errors.Core.File as File
use jvm_toxcore_c.Wrappers.Answers.{ErrAnswer, Reads}
use jvm_toxcore_c.Enums.Status.{value_of_file_control}
use jvm_toxcore_c.Methods.{FileApi}
use jvm_toxcore_c.Methods.Files as Files
use jvm_toxcore_c.Methods.FileAnswers.{HasId, sent_size, IsUndefinedOnLive, file_methods-Answers}
use jvm_toxcore_c.Examples.Tools.{env, numbers, table-IsValid, counted}

abbrev file_api : FileApi ℕ
file_api = record {
  file_control = λ a b c. counted File.ErrFileControl.ok true;
  file_seek = λ a b c. counted File.ErrFileSeek.ok true;
  file_send = λ a b c d e. counted File.ErrFileSend.ok 1;
  file_send_chunk = λ a b c d. counted File.ErrFileSendChunk.ok true;
  file_get_file_id = λ a b. counted File.ErrFileGet.ok (true, []);
}

file_methods-Answers_example :
    ((friend file control : ℤ)
      → Reads
          (value_of_file_control control)
          (Files.file_control file_api friend file control env (pos 4) numbers)
          (λ a.
            ErrAnswer tt File.ErrFileControl.ok
              (λ _. tt)
              (file_api.file_control (u32 friend) (u32 file) a)
              env
              (pos 4)
              numbers
              (Files.file_control file_api friend file control env (pos 4) numbers)))
    × ((friend file position : ℤ)
        → ErrAnswer tt File.ErrFileSeek.ok
            (λ _. tt)
            (file_api.file_seek (u32 friend) (u32 file) (u64 position))
            env
            (pos 4)
            numbers
            (Files.file_seek file_api friend file position env (pos 4) numbers))
    × ((friend kind size : ℤ) (id name : JavaArray ℕ)
        → (HasId id
            × ErrAnswer
                (pos 0)
                File.ErrFileSend.ok
                to_jint
                (file_api.file_send (u32 friend) (u32 kind) (sent_size size) id name)
                env
                (pos 4)
                numbers
                (Files.file_send file_api friend kind size id name env (pos 4) numbers))
          ⊎ ((HasId id → ⊥)
              × IsUndefinedOnLive
                  (pos 0)
                  (pos 4)
                  numbers
                  (Files.file_send file_api friend kind size id name env (pos 4) numbers)))
    × ((friend file position : ℤ) (chunk : JavaArray ℕ)
        → ErrAnswer tt File.ErrFileSendChunk.ok
            (λ _. tt)
            (file_api.file_send_chunk (u32 friend) (u32 file) (u64 position) chunk)
            env
            (pos 4)
            numbers
            (Files.file_send_chunk file_api friend file position chunk env (pos 4) numbers))
    × ((friend file : ℤ)
        → ErrAnswer none File.ErrFileGet.ok
            (λ a. some a.1)
            (file_api.file_get_file_id (u32 friend) (u32 file))
            env
            (pos 4)
            numbers
            (Files.file_get_file_id file_api friend file env (pos 4) numbers))
file_methods-Answers_example = file_methods-Answers file_api env (pos 4) numbers (table-IsValid 5)
