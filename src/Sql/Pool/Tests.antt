-- ===== src/Sql/Pool/Tests.antt =====
-- A pool with one handle that the thread 5 uses.
use common_framework.Base.{suc, ◌≡◌, refl, true, some, [], ◌∷◌, arith, get_elem?}
use common_framework.Sql.Mutex.{MutexOps, nested_mutex}
use common_framework.Sql.Pool.{Handle, Pool, get_handle, release_handle}
use common_framework.Sql.Pool.Laws.{PoolOk, GetResult, get_handle-GetResult, release_handle-PoolOk}

abbrev handle : Handle nested_mutex
handle = record { thread_hash = 50; use_count = 1; mutex = record { thread = 5; count = 1 } }

abbrev pool : Pool nested_mutex
pool = record { handle_pool = handle ∷ []; total_handles = 1; total_used_handles = 1 }

pool-PoolOk : PoolOk nested_mutex pool
pool-PoolOk = record { handles = (refl, tt); total = refl; used = refl }

-- Another thread gets a new handle.
get_handle-GetResult_example :
    GetResult nested_mutex 6 pool (get_handle nested_mutex true 6 60 pool)
get_handle-GetResult_example =
    get_handle-GetResult nested_mutex true 6 60 pool pool-PoolOk (omega arith) (omega arith)

release_handle-PoolOk_example :
    (let p' = release_handle nested_mutex 0 pool in
      PoolOk nested_mutex p'
      × (suc p'.total_used_handles ≡ 1)
      × ((h' : Handle nested_mutex) × (get_elem? p'.handle_pool 0 ≡ some h')
          × (suc h'.use_count ≡ 1)
          × (suc (MutexOps.depth nested_mutex h'.mutex) ≡ 1)))
release_handle-PoolOk_example =
    release_handle-PoolOk nested_mutex 0 pool handle pool-PoolOk (omega arith) refl (omega arith)
