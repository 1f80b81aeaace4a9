-- ===== src/Methods/FileAnswers.antt =====
-- The outcomes of the methods of ToxCore/filetransfer.cpp in terms of
-- the functions of toxcore that they call.
use jvm_toxcore_c.Base.{
  ℕ, ◌≡◌, ◌≤◌, ◌-◌, ◌^◌, refl, ◌⊎◌, inl, inr, true, false, Bool-cases, length, leb, arith, none,
  some, ℤ, pos, negsuc, u32, u64, to_jint,
}
use mathlib.Core.Path.{subst}
use jvm_toxcore_c.Jni.{Env, JavaArray, Outcome, undefined, Ensures, Ensures-map}
use jvm_toxcore_c.Instances.{Manager, with_instance}
use jvm_toxcore_c.Instances.View.{live, view}
use jvm_toxcore_c.Instances.Access.{live_cases, with_instance-gone, with_instance-undefined}
use jvm_toxcore_c.Errors.{core_subsystem}
use jvm_toxcore_c.Wrappers.{with_instance_err}
use jvm_toxcore_c.Instances.Valid.{IsValid}
use jvm_toxcore_c.Errors.Core.File as G
use jvm_toxcore_c.Enums.{IsEncoding-defined}
use jvm_toxcore_c.Enums.Status.{value_of_file_control, file_control-IsEncoding}
use jvm_toxcore_c.Wrappers.Answers.{Refused, ErrAnswer, Reads, err-Answers, ign-Answers, reads}
use jvm_toxcore_c.Methods.{FileApi}
use jvm_toxcore_c.Methods.Files.{holds_id}
use jvm_toxcore_c.Methods.Files as Files

-- The size of a file for toxcore: every negative one of Java is that of a stream, the largest word.
abbrev pub sent_size : ℤ → ℕ
sent_size (pos size) = u64 (pos size)
sent_size (negsuc _) = 2 ^ 64 - 1

-- The id is null or has 32 bytes.
abbrev pub HasId : JavaArray ℕ → Type 0
HasId none = Unit
HasId (some id) = 32 ≤ length id

-- The behaviour is undefined on a live number; any other is answered by the default with an
-- exception.
abbrev pub IsUndefinedOnLive :
    {O V B : Type 0} → B → ℤ → Manager O V → Outcome (B × Env × Manager O V) → Type 0
IsUndefinedOnLive {O = O} {V = V} default n m x =
    ((o : O) × (e : V) × (view m n ≡ live o e) × (x ≡ undefined))
    ⊎ Ensures x (λ r. IsValid r.2 × Refused default n m r)

streaming-sent_size : (size : ℤ) → u64 (Files.streaming size) ≡ sent_size size
unfolding Files.streaming
streaming-sent_size (pos size) = refl
streaming-sent_size (negsuc size) = refl

undefined_on_live :
    {O V B : Type 0} (default : B) (env : Env) (n : ℤ) (m : Manager O V)
    → IsValid m
    → IsUndefinedOnLive default n m (with_instance (λ o e env'. undefined) default env n m)
undefined_on_live default env n m v = elim (live_cases (view m n)) [
  | inl (o, e, seen) ↦ inl (o, e, seen, with_instance-undefined _ default env n m o e v seen refl)
  | inr gone ↦ inr (
      Ensures-map (with_instance (λ o e env'. undefined) default env n m) _ _
        (with_instance-gone (λ o e env'. undefined) default env n m v gone)
        λ r a. (rw a.2 v, (gone, a.0, a.1, a.2)))
]

holds_id-cases :
    (id : JavaArray ℕ)
    → ((holds_id id ≡ true) × HasId id) ⊎ ((holds_id id ≡ false) × (HasId id → ⊥))
holds_id-cases none = inl (refl, tt)
holds_id-cases (some id) = elim (Bool-cases (leb 32 (length id))) [
  | inl whole ↦ inl (whole, ground arith)
  | inr short ↦ inr (short, λ h. ground arith)
]

module _ {Tox V : Type 0} (t : FileApi Tox) where
  file_send_lem :
      (env : Env) (n : ℤ) (m : Manager Tox V) (friend kind size : ℤ) (id name : JavaArray ℕ)
      → IsValid m
      → (HasId id
          × ErrAnswer
              (pos 0)
              G.ErrFileSend.ok
              to_jint
              (t.file_send (u32 friend) (u32 kind) (sent_size size) id name)
              env
              n
              m
              (Files.file_send t friend kind size id name env n m))
        ⊎ ((HasId id → ⊥)
            × IsUndefinedOnLive (pos 0) n m (Files.file_send t friend kind size id name env n m))
  unfolding Files.file_send
  file_send_lem env n m friend kind size id name v = elim (holds_id-cases id) [
    | inl (holds, has) ↦ inl (
      has,
      rw holds (
          subst
            (λ w.
              ErrAnswer (pos 0) G.ErrFileSend.ok to_jint
                (t.file_send (u32 friend) (u32 kind) w id name) env n m
                (with_instance_err core_subsystem G.file_send_error to_jint (pos 0)
                  (t.file_send (u32 friend) (u32 kind) (u64 (Files.streaming size)) id name) env n
                  m))
            (streaming-sent_size size)
            (err-Answers _ to_jint (pos 0)
              (t.file_send (u32 friend) (u32 kind) (u64 (Files.streaming size)) id name) env n m
              G.file_send-IsFaithful v)),
    )
    | inr (short, lacks) ↦ inr (lacks, rw short (undefined_on_live (pos 0) env n m v))
  ]

  -- Every method on file transfers, for any arguments and any valid table, answers as the function of
  -- toxcore of its name does, with its arguments cast to unsigned words and a negative size of a
  -- file replaced by the largest word. It aborts the process exactly when the enumerator is wrong,
  -- and the behaviour is undefined exactly when the id of a file that is sent on a live number has
  -- fewer than 32 bytes. Otherwise it returns and the table is valid: on a number that is not live it returns the default with an exception
  -- and changes nothing; on a live one it returns what toxcore gave when the code is OK, and the
  -- default with an exception on any other code; the object is what toxcore left, the pending events
  -- and every other instance are as before.
  pub file_methods-Answers :
      (env : Env) (n : ℤ) (m : Manager Tox V)
      → IsValid m
      → ((friend file control : ℤ)
          → Reads
              (value_of_file_control control)
              (Files.file_control t friend file control env n m)
              (λ a.
                ErrAnswer tt G.ErrFileControl.ok
                  (λ _. tt)
                  (t.file_control (u32 friend) (u32 file) a)
                  env
                  n
                  m
                  (Files.file_control t friend file control env n m)))
        × ((friend file position : ℤ)
            → ErrAnswer tt G.ErrFileSeek.ok
                (λ _. tt)
                (t.file_seek (u32 friend) (u32 file) (u64 position))
                env
                n
                m
                (Files.file_seek t friend file position env n m))
        × ((friend kind size : ℤ) (id name : JavaArray ℕ)
            → (HasId id
                × ErrAnswer
                    (pos 0)
                    G.ErrFileSend.ok
                    to_jint
                    (t.file_send (u32 friend) (u32 kind) (sent_size size) id name)
                    env
                    n
                    m
                    (Files.file_send t friend kind size id name env n m))
              ⊎ ((HasId id → ⊥)
                  × IsUndefinedOnLive
                      (pos 0)
                      n
                      m
                      (Files.file_send t friend kind size id name env n m)))
        × ((friend file position : ℤ) (chunk : JavaArray ℕ)
            → ErrAnswer tt G.ErrFileSendChunk.ok
                (λ _. tt)
                (t.file_send_chunk (u32 friend) (u32 file) (u64 position) chunk)
                env
                n
                m
                (Files.file_send_chunk t friend file position chunk env n m))
        × ((friend file : ℤ)
            → ErrAnswer none G.ErrFileGet.ok
                (λ a. some a.1)
                (t.file_get_file_id (u32 friend) (u32 file))
                env
                n
                m
                (Files.file_get_file_id t friend file env n m))
  unfolding Files.file_control Files.file_seek Files.file_send_chunk Files.file_get_file_id
  file_methods-Answers env n m v = (
    λ friend file control.
        reads (value_of_file_control control) _
          (λ a.
            ErrAnswer tt G.ErrFileControl.ok (λ _. tt) (t.file_control (u32 friend) (u32 file) a)
              env n m)
          (IsEncoding-defined file_control-IsEncoding control)
          (λ a.
            ign-Answers _ (t.file_control (u32 friend) (u32 file) a) env n m
              G.file_control-IsFaithful v),
    λ friend file position.
        ign-Answers _ (t.file_seek (u32 friend) (u32 file) (u64 position)) env n m
          G.file_seek-IsFaithful v,
    λ friend kind size id name. file_send_lem env n m friend kind size id name v,
    λ friend file position chunk.
        ign-Answers _ (t.file_send_chunk (u32 friend) (u32 file) (u64 position) chunk) env n m
          G.file_send_chunk-IsFaithful v,
    λ friend file.
        err-Answers _ (λ a. some a.1) none (t.file_get_file_id (u32 friend) (u32 file)) env n m
          G.file_get-IsFaithful v,
  )
