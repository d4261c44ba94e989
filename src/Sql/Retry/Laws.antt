-- ===== src/Sql/Retry/Laws.antt =====
-- What the repeated execution ends with.
use common_framework.Base.{
  ℕ, zero, suc, ◌+◌, ◌≤◌, ◌<◌, ◌≡◌, refl, subst, ◌⊎◌, inl, inr, Option, none, some, arith, Status,
  success, status_false,
}
use common_framework.Base.CString.{CString}
use common_framework.Sql.Retry.{
  begin_trans, commit, text, DbError, within_transaction, other_error, DbOps, db_retries,
  sql_retries, retry_loop, sql_persistant_execute, db_persistant_execute, begin_loop, after_begin,
  execute_trans,
}

-- How often a text is executed at most, for the argument `retries`.
pub data IsLimit : ℕ → ℕ → Type 0 where
  as_asked : {n : ℕ} → 0 < n → n ≤ 5 → IsLimit n n
  of_zero : IsLimit 0 5
  of_more : {n : ℕ} → 5 < n → IsLimit n 5

db_retries-IsLimit : {retries limit : ℕ} → IsLimit retries limit → db_retries retries ≡ limit
db_retries-IsLimit (as_asked {n = n} low high) = ground arith
db_retries-IsLimit of_zero = refl
db_retries-IsLimit (of_more {n = n} high) = ground arith

module _ (ops : DbOps) where
  open ops use {Db, exec}

  -- So many executions of the text, all with an error.
  pub data Failures (sql : CString) : ℕ → Db → Db → Type 0 where
    no_failure : {db : Db} → Failures sql 0 db db
    a_failure :
        {db db1 db2 : Db} {n : ℕ} (e : DbError)
        → exec (text sql) db ≡ (some e, db1)
        → Failures sql n db1 db2
        → Failures sql (suc n) db db2

  -- The status and the database after at most `limit` executions of the text, up to the first without
  -- an error.
  pub data Retried (sql : CString) (limit : ℕ) (db : Db) : Status × Db → Type 0 where
    done_after :
        {db1 db2 : Db} (n : ℕ)
        → n < limit
        → Failures sql n db db1
        → exec (text sql) db1 ≡ (none, db2)
        → Retried sql limit db (success, db2)
    given_up : {db1 : Db} → Failures sql limit db db1 → Retried sql limit db (status_false, db1)

  first_error-Retried :
      (sql : CString) (limit : ℕ) (db db1 : Db) (e : DbError) (r : Status × Db)
      → exec (text sql) db ≡ (some e, db1)
      → Retried sql limit db1 r
      → Retried sql (suc limit) db r
  first_error-Retried sql limit db db1 e _ h (done_after n low failures last) =
      done_after (suc n) (omega arith) (a_failure e h failures) last
  first_error-Retried sql limit db db1 e _ h (given_up failures) = given_up (a_failure e h failures)

  answer_cases :
      (r : Option DbError × Db)
      → ((db : Db) × (r ≡ (none, db))) ⊎ ((e : DbError) × (db : Db) × (r ≡ (some e, db)))
  answer_cases (none, db) = inl (db, refl)
  answer_cases (some e, db) = inr (e, db, refl)

  -- The loop executes the text until there is no error, and at most `limit` times.
  retry_loop-Retried :
      (sql : CString) (limit : ℕ) (db : Db) → Retried sql limit db (retry_loop ops sql limit db)
  unfolding retry_loop
  retry_loop-Retried sql zero db = given_up no_failure
  retry_loop-Retried sql (suc limit) db = elim (answer_cases (exec (text sql) db)) [
    | inl (db1, h) ↦ rw h (done_after 0 (omega arith) no_failure h)
    | inr (e, db1, h) ↦ rw h (
        first_error-Retried sql limit db db1 e (retry_loop ops sql limit db1) h
          (retry_loop-Retried sql limit db1))
  ]

  -- So many executions of BEGIN, all with an error, each followed by COMMIT where a transaction was open.
  pub data BeginFailures : ℕ → Db → Db → Type 0 where
    no_attempt : {db : Db} → BeginFailures 0 db db
    an_error :
        {db db1 db2 : Db} {n : ℕ}
        → exec begin_trans db ≡ (some other_error, db1)
        → BeginFailures n db1 db2
        → BeginFailures (suc n) db db2
    was_open :
        {db db1 db2 : Db} {n : ℕ}
        → exec begin_trans db ≡ (some within_transaction, db1)
        → BeginFailures n (exec commit db1).1 db2
        → BeginFailures (suc n) db db2

  -- What the loop of BEGIN ends with.
  pub data Begun (limit : ℕ) (db : Db) : ℕ × Db → Type 0 where
    never : {db1 : Db} → BeginFailures limit db db1 → Begun limit db (0, db1)
    at_last :
        {before db1 : Db} (n left : ℕ)
        → n + suc left ≡ limit
        → BeginFailures n db before
        → exec begin_trans before ≡ (none, db1)
        → Begun limit db (suc left, db1)

  first_error-Begun :
      (limit : ℕ) (db next : Db) (r : ℕ × Db)
      → ((n : ℕ) (db2 : Db) → BeginFailures n next db2 → BeginFailures (suc n) db db2)
      → Begun limit next r
      → Begun (suc limit) db r
  first_error-Begun limit db next _ more (never failures) = never (more limit _ failures)
  first_error-Begun limit db next _ more (at_last n left e failures h) =
      at_last (suc n) left (omega arith) (more n _ failures) h

  begin_loop-Begun : (n : ℕ) (db : Db) → Begun n db (begin_loop ops n db)
  unfolding begin_loop
  begin_loop-Begun zero db = never no_attempt
  begin_loop-Begun (suc n) db = elim (answer_cases (exec begin_trans db)) [
    | inl (db1, h) ↦ rw h (at_last 0 n (omega arith) no_attempt h)
    | inr (within_transaction, db1, h) ↦
        let next = (exec commit db1).1 in
        rw h (
          first_error-Begun n db next (begin_loop ops n next) (λ i d f. was_open h f)
            (begin_loop-Begun n next))
    | inr (other_error, db1, h) ↦ rw h (
        first_error-Begun n db db1 (begin_loop ops n db1) (λ i d f. an_error h f)
          (begin_loop-Begun n db1))
  ]

  -- What agc_db_persistant_execute_trans ends with, the status and the database: no BEGIN went well, or
  -- after one did the text was tried; in both cases a COMMIT is executed last, whatever its answer.
  pub data Finished (sql : CString) (limit : ℕ) (db : Db) : Status × Db → Type 0 where
    not_begun :
        {db1 db2 : Db} {answer : Option DbError}
        → BeginFailures 5 db db1
        → exec commit db1 ≡ (answer, db2)
        → Finished sql limit db (status_false, db2)
    tried_in :
        {before db1 db2 db3 : Db} {status : Status} {answer : Option DbError} (n : ℕ)
        → n < 5
        → BeginFailures n db before
        → exec begin_trans before ≡ (none, db1)
        → Retried sql limit db1 (status, db2)
        → exec commit db2 ≡ (answer, db3)
        → Finished sql limit db (status, db3)

  after_begin-Finished :
      (sql : CString) (limit : ℕ) (db : Db) (r : ℕ × Db)
      → Begun 5 db r
      → Finished sql limit db (after_begin ops sql limit r)
  after_begin-Finished sql limit db _ (never failures) = not_begun failures refl
  after_begin-Finished sql limit db _ (at_last {db1 = db1} n left e failures h) =
      tried_in n (omega arith) failures h (retry_loop-Retried sql limit db1) refl

  -- agc_db_persistant_execute_trans executes BEGIN until there is no error, with a COMMIT after each
  -- one that finds a transaction open. If 5 of them fail, it returns AGC_STATUS_FALSE; if not, it
  -- executes the text until there is no error and returns AGC_STATUS_SUCCESS, or AGC_STATUS_FALSE
  -- after as many errors as `limit` says, which is `retries` if that is from 1 to 5, and else 5. In
  -- each case a last COMMIT follows, whose answer does not change the status, and the database is as
  -- after these statements.
  pub execute_trans-Finished :
      (sql : CString) (retries limit : ℕ) (db : Db)
      → IsLimit retries limit
      → Finished sql limit db (execute_trans ops sql retries db)
  unfolding execute_trans
  execute_trans-Finished sql retries limit db is =
      let done =
        after_begin-Finished sql (db_retries retries) db (begin_loop ops 5 db)
          (begin_loop-Begun 5 db) in
      subst (λ k. Finished sql k db (execute_trans ops sql retries db)) (db_retries-IsLimit is) done

  -- agc_sql_persistant_execute and agc_db_persistant_execute execute the text until there is no error,
  -- and then return AGC_STATUS_SUCCESS; after as many errors as the limit allows they return
  -- AGC_STATUS_FALSE.
  pub persistant_execute-Retried :
      (sql : CString) (retries : ℕ) (db : Db)
      → Retried sql (sql_retries retries) db (sql_persistant_execute ops sql retries db)
        × Retried sql (db_retries retries) db (db_persistant_execute ops sql retries db)
  unfolding sql_persistant_execute db_persistant_execute
  persistant_execute-Retried sql retries db = (
    retry_loop-Retried sql (sql_retries retries) db,
    retry_loop-Retried sql (db_retries retries) db,
  )
