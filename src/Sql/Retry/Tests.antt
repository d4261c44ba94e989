-- ===== src/Sql/Retry/Tests.antt =====
-- A database in which a transaction is open at first and the first execution of a text fails.
use common_framework.Base.{ℕ, zero, suc, ◌≡◌, refl, Option, none, some, [], ◌∷◌, arith, success}
use common_framework.Sql.Retry.{
  Statement, begin_trans, commit, text, DbError, within_transaction, other_error, DbOps, retry_loop,
  begin_loop, execute_trans,
}
use common_framework.Sql.Retry.Laws.{as_asked, Finished, execute_trans-Finished}

-- Whether a transaction is open, and how many executions will still fail.
pub data Sample : Type 0 where
  idle open_trans : ℕ → Sample

abbrev exec_sample : Statement → Sample → Option DbError × Sample
exec_sample begin_trans (idle n) = (none, open_trans n)
exec_sample begin_trans (open_trans n) = (some within_transaction, open_trans n)
exec_sample commit (idle n) = (some other_error, idle n)
exec_sample commit (open_trans n) = (none, idle n)
exec_sample (text s) (idle zero) = (none, idle zero)
exec_sample (text s) (idle (suc n)) = (some other_error, idle n)
exec_sample (text s) (open_trans zero) = (none, open_trans zero)
exec_sample (text s) (open_trans (suc n)) = (some other_error, open_trans n)

abbrev sample_db : DbOps
sample_db = record { Db = Sample; exec = exec_sample }

second_try : execute_trans sample_db (65 ∷ []) 2 (open_trans 1) ≡ (success, idle 0)
unfolding execute_trans begin_loop retry_loop
second_try = refl

execute_trans-Finished_example :
    Finished sample_db
      (65 ∷ [])
      2
      (open_trans 1)
      (execute_trans sample_db (65 ∷ []) 2 (open_trans 1))
execute_trans-Finished_example =
    execute_trans-Finished sample_db (65 ∷ []) 2 2 (open_trans 1)
      (as_asked (omega arith) (omega arith))
