-- ===== src/Examples/Table.antt =====
-- Examples on the instance table.
use jvm_toxcore_c.Base.{ℕ, ◌+◌, ◌≡◌, refl, true, some, List, [], ◌∷◌, ℤ, pos, arith}
use jvm_toxcore_c.Jni.{exception_check, returned, Ensures}
use jvm_toxcore_c.Instances.{init, contains, add, kill, finalize, with_instance}
use jvm_toxcore_c.Instances.Valid.{IsValid, init-IsValid}
use jvm_toxcore_c.Instances.View.{live, view, update, killed}
use jvm_toxcore_c.Instances.Operations.{Finalized, kill-view, finalize-view}
use jvm_toxcore_c.Instances.Add.{Added, add-Added}
use jvm_toxcore_c.Instances.Access.{Func, Ran, with_instance-live, with_instance-gone}
use jvm_toxcore_c.Instances.History.{Call, run, run-IsValid, run-isolated}
use jvm_toxcore_c.Examples.Tools.{env, numbers, table-IsValid}

-- The free number 3 is used for a new pair, number 4 is killed and finalised, 2 is finalised, and
-- calls are made on 3 and on a number that never was.
abbrev calls : List (Call ℕ ℕ)
calls =
    Call.adds 30 33
    ∷ Call.kills (pos 4)
    ∷ Call.finalizes (pos 4)
    ∷ Call.finalizes (pos 2)
    ∷ Call.uses (pos 3) (λ o e. (o + e, 0))
    ∷ Call.uses (pos 9) (λ o e. (e, o))
    ∷ []

run-IsValid_example : Ensures (run env init calls) IsValid
unfolding init
run-IsValid_example = run-IsValid env calls init init-IsValid (omega arith)

run-isolated_example :
    Ensures (run env numbers calls) λ m'. IsValid m' × (view m' (pos 1) ≡ live 10 5)
unfolding contains
run-isolated_example =
    run-isolated env (pos 1) 10 5 calls numbers (table-IsValid 5) (omega arith)
      (tt, (refl, (tt, (tt, (refl, (refl, tt)))))) refl

add-Added_example : Ensures (add (some 30) (some 33) numbers) (Added 30 33 numbers)
add-Added_example = add-Added 30 33 numbers (table-IsValid 5) (omega arith)

kill-view_example :
    Ensures
      (kill env (pos 4) numbers)
      λ r. IsValid r.1 × ((j : ℤ) → view r.1 j ≡ update (pos 4) killed (view numbers) j)
kill-view_example = kill-view env (pos 4) numbers (table-IsValid 5)

finalize-view_example : Ensures (finalize env (pos 2) numbers) (Finalized env (pos 2) numbers)
finalize-view_example = finalize-view env (pos 2) numbers (table-IsValid 5)

abbrev swap : Func ℕ ℕ ℕ
swap o e env = returned (o + e, e, o, env)

with_instance-live_example :
    Ensures (with_instance swap 0 env (pos 1) numbers) (Ran 15 5 10 env (pos 1) numbers)
unfolding contains
with_instance-live_example =
    with_instance-live swap 0 env (pos 1) numbers 10 5 5 10 15 env (table-IsValid 5) refl refl

with_instance-gone_example :
    Ensures
      (with_instance swap 0 env (pos 2) numbers)
      λ r. (r.0 ≡ 0) × (exception_check r.1 ≡ true) × (r.2 ≡ numbers)
unfolding contains
with_instance-gone_example = with_instance-gone swap 0 env (pos 2) numbers (table-IsValid 5) tt
