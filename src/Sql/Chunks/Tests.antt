-- ===== src/Sql/Chunks/Tests.antt =====
-- A text of two statements, the second without a newline, and chunks of less than 4 bytes.
use common_framework.Base.{◌≡◌, refl, Bool, false, [], ◌∷◌, arith, Status, success}
use common_framework.Base.CString.{CString}
use common_framework.Sql.Chunks.{semicolon, newline, find_end, execute_chunks, execute_sql}
use common_framework.Sql.Chunks.Laws.{Splits, execute_sql-Splits}

abbrev well : CString → Status × Bool
well s = (success, false)

abbrev statements : CString
statements = b'a' ∷ semicolon ∷ newline ∷ b'b' ∷ b'b' ∷ []

-- The second statement is not executed, and the status is a success.
execute_sql_drops : execute_sql 4 well statements ≡ ((b'a' ∷ []) ∷ [], success)
unfolding execute_sql execute_chunks find_end
execute_sql_drops = refl

execute_sql-Splits_example : Splits 4 statements (execute_sql 4 well statements)
execute_sql-Splits_example = execute_sql-Splits 4 well statements (λ c. refl) (omega arith)
