-- ===== src/Sql/Waiting.antt =====
-- The loop of _agc_sql_get_handle of src/agc_sql.c that waits for a handle. Each round sees the counters
-- of the pool as other threads have left them.
mod Tests
use common_framework.Base.{
  ℕ, suc, ◌+◌, ◌%◌, ◌^◌, ◌≤◌, ◌<◌, ◌≡◌, refl, ap, ◌∙◌, inl, inr, Bool, true, false, not, ◌&&◌, List,
  [], ◌∷◌, arith, ltb, leb, ◌==◌, if◌then◌else◌, lt→ltb, ==→eq, ==→ne, ne→==, Bool-cases, length,
  All,
}

pub record Counters : Type 0 where
  pub total_handles : ℕ
  pub total_used_handles : ℕ

-- runtime.max_db_handles and runtime.db_handle_timeout, in microseconds.
pub record Limits : Type 0 where
  pub max_db_handles : ℕ
  pub db_handle_timeout : ℕ

abbrev pub yield_len : ℕ
yield_len = 100000

abbrev pub must_wait : Limits → Counters → Bool
must_wait r c =
    not (r.max_db_handles == 0)
    && (leb r.max_db_handles c.total_handles && leb c.total_handles c.total_used_handles)

-- `still_waiting`: no round has ended the loop yet. `int_overflow`: the C int `waiting` was incremented at
-- its largest value, which C leaves undefined.
pub data Waited : Type 0 where
  ready timed_out still_waiting int_overflow : Waited

-- INT_MAX
abbrev pub int_max : ℕ
int_max = 2147483647

-- A round that yields, with total_yield after it.
abbrev pub yielded : Limits → (total_yield : ℕ) → (ℕ → Waited) → Waited
yielded r total_yield next =
    if not (r.db_handle_timeout == 0) && ltb r.db_handle_timeout total_yield
    then timed_out
    else next total_yield

-- A round in which the pool is full: `!waiting++` is asked for the value before the increment.
abbrev pub full_round : Limits → (waiting total_yield : ℕ) → (ℕ → Waited) → Waited
full_round r waiting total_yield next =
    if waiting == int_max
    then int_overflow
    else if waiting == 0
    then yielded r ((total_yield + yield_len) % 2 ^ 32) next
    else next total_yield

-- The loop, with its variables `waiting` and `total_yield`.
unfoldable pub wait_loop : Limits → (waiting total_yield : ℕ) → List Counters → Waited
wait_loop r waiting total_yield [] = still_waiting
wait_loop r waiting total_yield (c ∷ rest) =
    if must_wait r c
    then full_round r waiting total_yield (λ total. wait_loop r (suc waiting) total rest)
    else ready

-- What the loop ends with while the pool stays full, by the rounds that are left to `waiting`.
abbrev pub by_rounds : (waiting rounds : ℕ) → Waited
by_rounds waiting rounds = if ltb int_max (waiting + rounds) then int_overflow else still_waiting

waiting_on :
    (r : Limits) (waiting total : ℕ) (seen : List Counters)
    → 0 < waiting
    → waiting ≤ int_max
    → All (λ c. must_wait r c ≡ true) seen
    → wait_loop r waiting total seen ≡ by_rounds waiting (length seen)
unfolding wait_loop
waiting_on r waiting total [] some_round low full = ground arith
waiting_on r waiting total (c ∷ rest) some_round low (here, full) =
    let not_first : (waiting == 0) ≡ false = ne→== waiting 0 (omega arith) in
    elim (Bool-cases (waiting == int_max)) [
      | inl last ↦
          let e = ==→eq waiting int_max last in
          let over : ltb int_max (waiting + suc (length rest)) ≡ true = lt→ltb _ _ (omega arith) in
          rw (here, last, over) refl
      | inr more ↦
          let ne = ==→ne waiting int_max more in
          let same : suc waiting + length rest ≡ waiting + suc (length rest) = omega arith in
          rw (here, more, not_first)
            (waiting_on r (suc waiting) total rest (omega arith) (omega arith) full
              ∙ ap (λ n. if ltb int_max n then int_overflow else still_waiting) same)
    ]

-- While the pool stays full and the timeout is at least the length of one wait, _agc_sql_get_handle does
-- not come to its timeout in any number of rounds: it waits through the first INT_MAX of them, and
-- with the next one it increments `waiting` beyond INT_MAX.
pub wait_loop_endless :
    (r : Limits) (seen : List Counters)
    → All (λ c. must_wait r c ≡ true) seen
    → 100000 ≤ r.db_handle_timeout
    → wait_loop r 0 0 seen ≡ (if ltb 2147483647 (length seen) then int_overflow else still_waiting)
unfolding wait_loop
wait_loop_endless r [] full long = refl
wait_loop_endless r (c ∷ rest) (here, full) long =
    let not_short : ltb r.db_handle_timeout 100000 ≡ false = ground arith in
    let same : 1 + length rest ≡ suc (length rest) = omega arith in
    let some_timeout : (r.db_handle_timeout == 0) ≡ false =
      ne→== r.db_handle_timeout 0 (omega arith) in
    rw (here, some_timeout, not_short)
      (waiting_on r 1 ((0 + yield_len) % 2 ^ 32) rest (omega arith) (omega arith) full
        ∙ ap (λ n. if ltb int_max n then int_overflow else still_waiting) same)
