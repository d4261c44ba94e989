-- ===== src/Sql/Retry.antt =====
-- agc_sql_persistant_execute of src/agc_sql.c, and agc_db_persistant_execute and
-- agc_db_persistant_execute_trans of src/agc_db.c. The database is a parameter.
pub mod Laws
mod Tests
use common_framework.Base.{
  ℕ, zero, suc, ◌||◌, Option, none, some, Status, success, status_false, ltb, ◌==◌, if◌then◌else◌,
}
use common_framework.Base.CString.{CString}

-- What is given to agc_db_exec.
pub data Statement : Type 0 where
  begin_trans commit : Statement
  text : CString → Statement

-- An error message by whether it has "cannot start a transaction within a transaction" in it.
pub data DbError : Type 0 where
  within_transaction other_error : DbError

-- agc_db_exec or execute_sql_real: the error message, `none` for NULL, and the database after it.
pub record DbOps : Type 1 where
  pub Db : Type 0
  pub exec : Statement → Db → Option DbError × Db

-- MAX_DB_RETRIES
abbrev pub max_db_retries : ℕ
max_db_retries = 5

-- `retries` of the functions of agc_db.c, and of agc_sql_persistant_execute.
abbrev pub db_retries : ℕ → ℕ
db_retries retries =
    if (retries == 0) || ltb max_db_retries retries then max_db_retries else retries

abbrev pub sql_retries : ℕ → ℕ
sql_retries retries = if retries == 0 then 1000 else retries

module _ (ops : DbOps) where
  open ops use {Db, exec}

  abbrev pub tried : Option DbError × Db → (Db → Status × Db) → Status × Db
  tried (none, db) again = (success, db)
  tried (some e, db) again = again db

  -- The loop that executes the text until there is no error, `retries` times at most.
  unfoldable pub retry_loop : CString → ℕ → Db → Status × Db
  retry_loop sql zero db = (status_false, db)
  retry_loop sql (suc retries) db = tried (exec (text sql) db) (retry_loop sql retries)

  -- agc_sql_persistant_execute
  unfoldable pub sql_persistant_execute : CString → ℕ → Db → Status × Db
  sql_persistant_execute sql retries = retry_loop sql (sql_retries retries)

  -- agc_db_persistant_execute
  unfoldable pub db_persistant_execute : CString → ℕ → Db → Status × Db
  db_persistant_execute sql retries = retry_loop sql (db_retries retries)

  -- What a round of the first loop of agc_db_persistant_execute_trans does with the answer to BEGIN.
  abbrev pub begun : (left : ℕ) → Option DbError × Db → (Db → ℕ × Db) → ℕ × Db
  begun left (none, db) again = (suc left, db)
  begun left (some within_transaction, db) again = again (exec commit db).1
  begun left (some other_error, db) again = again db

  -- The loop: begin_retries after it, and the database.
  unfoldable pub begin_loop : (begin_retries : ℕ) → Db → ℕ × Db
  begin_loop zero db = (0, db)
  begin_loop (suc left) db = begun left (exec begin_trans db) (begin_loop left)

  abbrev pub committed : Status × Db → Status × Db
  committed (status, db) = (status, (exec commit db).1)

  abbrev pub after_begin : CString → (retries : ℕ) → ℕ × Db → Status × Db
  after_begin sql retries (zero, db) = committed (status_false, db)
  after_begin sql retries (suc left, db) = committed (retry_loop sql retries db)

  -- agc_db_persistant_execute_trans
  unfoldable pub execute_trans : CString → ℕ → Db → Status × Db
  execute_trans sql retries db = after_begin sql (db_retries retries) (begin_loop max_db_retries db)
