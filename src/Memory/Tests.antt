-- ===== src/Memory/Tests.antt =====
-- A pool that is queued while another is destroyed.
use common_framework.Base.{ℕ, ◌≡◌, refl, true, none, some, List, [], ◌∷◌}
use common_framework.Event.Queue.{QueueOps, bounded_queue}
use common_framework.Memory.{
  Manager, destroy_pool, pop_many, pool_round, Run, unchanged, asked, pops,
}
use common_framework.Memory.Laws.{Run-Destroyed}

abbrev queue_ops : QueueOps ℕ
queue_ops = bounded_queue

abbrev manager : List ℕ → List ℕ → Manager queue_ops
manager waiting gone = record {
  pool_thread_running = true;
  pool_queue = record { items = waiting; limit = 50000 };
  destroyed = gone;
}

first_queued :
    destroy_pool queue_ops (some 7) (manager (5 ∷ []) []) ≡ some (none, manager (5 ∷ 7 ∷ []) [])
unfolding destroy_pool
first_queued = refl

one_popped : pop_many queue_ops 1 (manager (5 ∷ 7 ∷ []) []) ≡ manager (7 ∷ []) (5 ∷ [])
unfolding pop_many
one_popped = refl

run : Run queue_ops (7 ∷ []) (manager (5 ∷ []) []) (pop_many queue_ops 1 (manager (5 ∷ 7 ∷ []) []))
run = pops 1 (asked 7 none unchanged first_queued)

Run-Destroyed_example :
    ((pool_round queue_ops (pop_many queue_ops 1 (manager (5 ∷ 7 ∷ []) []))).destroyed ≡ 5 ∷ 7 ∷ [])
    × ((pool_round queue_ops (pop_many queue_ops 1 (manager (5 ∷ 7 ∷ []) []))).pool_queue.items
        ≡ [])
Run-Destroyed_example =
    Run-Destroyed queue_ops (7 ∷ []) (manager (5 ∷ []) [])
      (pop_many queue_ops 1 (manager (5 ∷ 7 ∷ []) [])) refl run
