-- ===== src/Sql/Waiting/Tests.antt =====
-- A pool of one handle that stays in use, and a timeout of a second.
use common_framework.Base.{ℕ, zero, suc, ◌≡◌, refl, true, arith, leb, replicate, All}
use common_framework.Sql.Waiting.{Counters, Limits, still_waiting, wait_loop, wait_loop_endless}

abbrev limits : Limits
limits = record { max_db_handles = 1; db_handle_timeout = 1000000 }

abbrev full : Counters
full = record { total_handles = 1; total_used_handles = 1 }

-- Twenty rounds are twice the timeout.
wait_loop_endless_example : wait_loop limits 0 0 (replicate 20 full) ≡ still_waiting
wait_loop_endless_example = wait_loop_endless limits (replicate 20 full) (all_full 20) (omega arith)
  where
    all_full : (n : ℕ) → All (λ c. (leb 1 (Counters.total_handles c)) ≡ true) (replicate n full)
    all_full zero = tt
    all_full (suc n) = (refl, all_full n)
