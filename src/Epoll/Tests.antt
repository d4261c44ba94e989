-- ===== src/Epoll/Tests.antt =====
-- A connection in the first of two sets.
use common_framework.Base.{◌≡◌, refl, true, false, none, some, arith, success, generr}
use common_framework.Epoll.Kernel.{reads, Sets, put, epoll_sets}
use common_framework.Epoll.{read_event, Connection, del_connection, add_event}
use common_framework.Epoll.Connections.{Watched, add_event-del_connection}

abbrev connection : Connection
connection = record {
  fd = 9;
  thread_index = 0;
  routine_there = true;
  active = false;
  read_handle = some 3;
  write_handle = some 4;
}

abbrev empty : Sets
empty ep fd = none

abbrev active : Connection
active = record connection { active = true }

abbrev watching : Sets
watching = put 0 9 (some reads) empty

watched : Watched epoll_sets watching active reads
watched = record { routine = refl; active = refl; there = refl }

added_elsewhere :
    add_event epoll_sets 1 empty connection read_event
    ≡ (put 1 9 (some reads) empty, active, success)
unfolding add_event
added_elsewhere = refl

add_event-del_connection_example :
    (true ≡ true)
    × (put 1 9 (some reads) empty 1 9 ≡ some reads)
    × (del_connection epoll_sets (put 1 9 (some reads) empty) active
        ≡ (put 1 9 (some reads) empty, connection, generr))
add_event-del_connection_example =
    add_event-del_connection epoll_sets 1 empty (put 1 9 (some reads) empty) connection active
      read_event refl refl (omega arith) refl added_elsewhere
