-- ===== src/Conn/Tests.antt =====
-- Two connections, one life cycle, and a failed opening.
use common_framework.Base.{
  ℕ, ◌≡◌, refl, ◌≢◌, ◌≤◌, true, false, none, some, List, [], ◌∷◌, arith, success, status_false,
  generr,
}
use common_framework.Base.Int.{pos}
use common_framework.Epoll.Kernel.{reads, Sets, put, epoll_sets}
use common_framework.Epoll.{read_event, write_event, Connection}
use common_framework.Memory.{Manager, destroy_pool, pool_round}
use common_framework.Event.Queue.{QueueOps, bounded_queue}
use common_framework.Conn.{create_connection, free_connection}
use common_framework.Conn.Ids.{id_of, id_of-Window}
use common_framework.Conn.Driver.{
  driver_add_connection, driver_del_connection, call_all, Call, adds, deletes, epoll_routine,
  driver_life_cycle,
}
use common_framework.Conn.Release.{open_connection, open_connection-Twice}

id_of-Window_example : (id_of 3 ≤ 1000000) × (id_of 3 ≢ id_of 8) × (id_of 1000004 ≡ id_of 3)
id_of-Window_example = id_of-Window 3 8 (omega arith) (omega arith)

abbrev connection : Connection
connection = record {
  fd = 9;
  thread_index = 0;
  routine_there = true;
  active = false;
  read_handle = some 3;
  write_handle = some 4;
}

abbrev empty : Sets
empty ep fd = none

abbrev calls : List (Call Sets)
calls = adds write_event ∷ deletes read_event ∷ []

driver_life_cycle_example :
    ((k2 : Sets) × (c2 : Connection) × (k3 : Sets) × (k4 : Sets) × (driver_add_connection Sets
          (some (epoll_routine epoll_sets 1))
          empty
          connection
        ≡ (k2, c2, success))
      × (call_all Sets (some (epoll_routine epoll_sets 1)) calls (k2, c2) ≡ some (k3, c2))
      × (driver_del_connection Sets (some (epoll_routine epoll_sets 1)) k3 c2
          ≡ (k4, record c2 { active = false }, success))
      × (c2.fd ≡ 9)
      × (k4 1 9 ≡ none))
    × (driver_add_connection Sets none empty connection ≡ (empty, connection, generr))
driver_life_cycle_example =
    driver_life_cycle epoll_sets 1 calls empty (put 1 9 (some reads) empty) connection refl refl

abbrev queue_ops : QueueOps ℕ
queue_ops = bounded_queue

abbrev manager : List ℕ → Manager queue_ops
manager waiting = record {
  pool_thread_running = true;
  pool_queue = record { items = waiting; limit = 50000 };
  destroyed = [];
}

opened :
    open_connection queue_ops 0 100
      (pos 9)
      (127 ∷ 0 ∷ 0 ∷ 1 ∷ [])
      4
      7
      none
      (some 1)
      (some 2)
      (some 3)
      generr
      (manager (5 ∷ []))
    ≡ some (status_false, manager (5 ∷ 7 ∷ 7 ∷ []))
unfolding open_connection create_connection free_connection destroy_pool
opened = refl

open_connection-Twice_example :
    (status_false ≡ status_false)
    × ((pool_round queue_ops (manager (5 ∷ 7 ∷ 7 ∷ []))).destroyed ≡ 5 ∷ 7 ∷ 7 ∷ [])
open_connection-Twice_example =
    open_connection-Twice queue_ops 0 100 (pos 9) (127 ∷ 0 ∷ 0 ∷ 1 ∷ []) 4 7 none (some 1) (some 2)
      (some 3) status_false (manager (5 ∷ [])) (manager (5 ∷ 7 ∷ 7 ∷ [])) refl opened
