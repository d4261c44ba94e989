-- ===== src/Memory.antt =====
-- src/agc_core_memory.c: agc_memory_destroy_pool with the queue that pool_thread empties. The queue is a
-- parameter; a pool is known by its address, and the record keeps the calls of apr_pool_destroy.
pub mod Laws
mod Tests
use common_framework.Base.{
  ℕ, zero, suc, ◌≡◌, Bool, not, Option, none, some, List, [], ◌∷◌, ◌++◌, if◌then◌else◌, length,
}
use common_framework.Event.Queue.{QueueOps}

module _ (ops : QueueOps ℕ) where
  open ops use {Queue, trypush, trypop, contents}

  -- memory_manager. `destroyed` lists the arguments of apr_pool_destroy, oldest first.
  pub record Manager : Type 0 where
    pub pool_thread_running : Bool
    pub pool_queue : Queue
    pub destroyed : List ℕ

  abbrev pub apr_pool_destroy : ℕ → Manager → Manager
  apr_pool_destroy p m = record m { destroyed = m.destroyed ++ p ∷ [] }

  abbrev pub queued : Manager → Option Queue → Option (Option ℕ × Manager)
  queued m none = none
  queued m (some q) = some (none, record m { pool_queue = q })

  -- agc_memory_destroy_pool: the pointer and the manager after the call. The result `none`: the queue
  -- is full, and the caller waits in agc_queue_push.
  unfoldable pub destroy_pool : Option ℕ → Manager → Option (Option ℕ × Manager)
  destroy_pool none m = some (none, m)
  destroy_pool (some p) m =
      if not m.pool_thread_running
      then some (none, apr_pool_destroy p m)
      else queued m (trypush p m.pool_queue)

  abbrev pub popped : Manager → Option (ℕ × Queue) → Manager
  popped m none = m
  popped m (some (p, q)) = apr_pool_destroy p (record m { pool_queue = q })

  -- The inner loop of pool_thread: `x` pools are taken and destroyed.
  unfoldable pub pop_many : ℕ → Manager → Manager
  pop_many zero m = m
  pop_many (suc x) m = pop_many x (popped m (trypop m.pool_queue))

  -- A round of pool_thread: as many as agc_queue_size gave.
  unfoldable pub pool_round : Manager → Manager
  pool_round m = pop_many (length (contents m.pool_queue)) m

  -- Calls of agc_memory_destroy_pool for the listed pools, between any number of pops by pool_thread.
  pub data Run : List ℕ → Manager → Manager → Type 0 where
    unchanged : {m : Manager} → Run [] m m
    asked :
        {m m1 m2 : Manager} {pools : List ℕ} (p : ℕ) (var : Option ℕ)
        → Run pools m m1
        → destroy_pool (some p) m1 ≡ some (var, m2)
        → Run (pools ++ p ∷ []) m m2
    pops :
        {m m1 : Manager} {pools : List ℕ} → (x : ℕ) → Run pools m m1 → Run pools m (pop_many x m1)
