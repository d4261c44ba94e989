-- ===== src/Sql/Chunks.antt =====
-- agc_sql_execute_sql of src/agc_sql.c. agc_odbc_handle_exec is a parameter: the status of executing a
-- text, and whether there is an error message. `max_len` is AGC_MAX_SQL_LEN.
pub mod Laws
mod Tests
use common_framework.Base.{
  ℕ, zero, suc, ◌-◌, Bool, true, false, not, ◌&&◌, Option, none, some, List, [], ◌∷◌, Status,
  success, status_false, memerr, generr, ltb, ◌==◌, if◌then◌else◌, length, take, get_elem?,
}
use common_framework.Base.CString.{CString}

abbrev pub drop {ℓ} : {A : Type ℓ} → ℕ → List A → List A
drop zero l = l
drop (suc n) [] = []
drop (suc n) (x ∷ l) = drop n l

abbrev pub semicolon : ℕ
semicolon = 59

abbrev pub newline : ℕ
newline = 10

abbrev pub is_byte : ℕ → Option ℕ → Bool
is_byte c none = false
is_byte c (some d) = c == d

-- *p == '\n' && *(p - 1) == ';' for p = s + i + 1.
abbrev pub ends_statement : CString → ℕ → Bool
ends_statement s i = is_byte newline (get_elem? s (suc i)) && is_byte semicolon (get_elem? s i)

-- The inner loop: from p = s + i downwards; the offset of the semicolon.
unfoldable pub find_end : CString → ℕ → Option ℕ
find_end s zero = none
find_end s (suc i) = let lower = find_end s i in if ends_statement s i then some i else lower

-- s + AGC_MAX_SQL_LEN, or e if that is behind it; e is the last byte of the text.
abbrev pub window : (max_len : ℕ) → CString → ℕ
window max_len s = if ltb (length s - 1) max_len then length s - 1 else max_len

-- The texts executed and the status.
abbrev pub Outcome : Type 0
Outcome = List CString × Status

abbrev pub before : CString → Outcome → Outcome
before s (executed, status) = (s ∷ executed, status)

abbrev pub is_success : Status → Bool
is_success success = true
is_success status_false = false
is_success memerr = false
is_success generr = false

abbrev pub went_well : Status × Bool → Bool
went_well (status, message) = is_success status && not message

-- A chunk without the semicolon and the newline, executed; then the rest of the text.
abbrev pub execute_at :
    (exec : CString → Status × Bool) (s : CString) (status : Status)
    → Option ℕ
    → (Status → CString → Outcome)
    → Outcome
execute_at exec s status none next = ([], status)
execute_at exec s status (some i) next =
    let chunk = take i s in
    let later = before chunk (next (exec chunk).0 (drop (suc (suc i)) s)) in
    if went_well (exec chunk) then later else (chunk ∷ [], (exec chunk).0)

-- The loop while s < e, on fuel. Each round drops two bytes at least.
unfoldable pub execute_chunks :
    (max_len : ℕ) (exec : CString → Status × Bool) (fuel : ℕ) → Status → CString → Outcome
execute_chunks max_len exec zero status s = ([], status)
execute_chunks max_len exec (suc fuel) status s =
    if ltb 1 (length s)
    then execute_at exec s status (find_end s (window max_len s)) (execute_chunks max_len exec fuel)
    else ([], status)

-- agc_sql_execute_sql
unfoldable pub execute_sql : (max_len : ℕ) (exec : CString → Status × Bool) → CString → Outcome
execute_sql max_len exec sql =
    if ltb (length sql) max_len
    then (sql ∷ [], (exec sql).0)
    else execute_chunks max_len exec (length sql) status_false sql
