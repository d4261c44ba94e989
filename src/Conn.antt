-- ===== src/Conn.antt =====
-- src/agc_connection.c, and src/agc_driver.c with the routine table that a driver module registers.
pub mod Ids
pub mod Driver
pub mod Release
mod Tests
use common_framework.Base.{
  ℕ, zero, suc, Bool, true, false, Option, none, some, List, ltb, if◌then◌else◌, take,
}
use common_framework.Base.Int.{ℤ, pos, negsuc}
use common_framework.Event.Queue.{QueueOps}
use common_framework.Memory.{Manager, destroy_pool}

-- LIMIT_CONNECTIONS
abbrev pub limit_connections : ℕ
limit_connections = 1000000

-- next_id: genid and the identifier after the call.
unfoldable pub next_id : ℕ → ℕ × ℕ
next_id genid = let start = if ltb limit_connections genid then 0 else genid in (suc start, start)

-- genid after so many calls of next_id from the start on.
unfoldable pub genid_after : ℕ → ℕ
genid_after zero = 0
genid_after (suc n) = (next_id (genid_after n)).0

-- struct agc_routine_s; `data` is the address of the connection, a handler is known by its identity.
pub record Routine : Type 0 where
  pub data_ptr : ℕ
  pub read_handle : Option ℕ
  pub write_handle : Option ℕ
  pub err_handle : Option ℕ

-- struct agc_listening_s; `sockaddr` is what the pointer points to.
pub record Listening : Type 0 where
  pub fd : ℤ
  pub sockaddr : List ℕ
  pub addrlen : ℕ
  pub handler : ℕ
  pub pool : Option ℕ

-- struct agc_connection_s; `listening` is the address, and agc_memory_alloc clears what is not set.
pub record Connection : Type 0 where
  pub context : Option ℕ
  pub routine : Option Routine
  pub fd : ℤ
  pub listening : Option ℕ
  pub pool : Option ℕ
  pub sockaddr : List ℕ
  pub addrlen : ℕ
  pub thread_index : ℕ
  pub id : ℕ

-- agc_conn_create_listening
abbrev pub create_listening : (s : ℤ) (addr : List ℕ) (addrlen pool handler : ℕ) → Listening
create_listening s addr addrlen pool handler = record {
  fd = s;
  sockaddr = take addrlen addr;
  addrlen = addrlen;
  handler = handler;
  pool = some pool;
}

-- agc_conn_create_connection with genid: the new genid and the connection, which is at `at`. The
-- allocations succeed, since agc_memory_alloc asserts it.
unfoldable pub create_connection :
    (genid at : ℕ) (s : ℤ) (addr : List ℕ) (addrlen pool : ℕ) (context read write err : Option ℕ)
    → ℕ × Connection
create_connection genid at s addr addrlen pool context read write err =
    let (genid', id) = next_id genid in
    (
      genid',
      record {
        context = context;
        routine =
            some (record {
              data_ptr = at;
              read_handle = read;
              write_handle = write;
              err_handle = err;
            });
        fd = s;
        listening = none;
        pool = some pool;
        sockaddr = take addrlen addr;
        addrlen = addrlen;
        thread_index = 0;
        id = id;
      },
    )

abbrev pub is_invalid : ℤ → Bool
is_invalid (pos n) = false
is_invalid (negsuc zero) = true
is_invalid (negsuc (suc n)) = false

-- agc_conn_get_connection for the listening at `from`; `none` is NULL.
unfoldable pub get_connection : (genid at from : ℕ) → Listening → ℕ × Option Connection
get_connection genid at from l =
    let (genid', id) = next_id genid in
    if is_invalid l.fd then (genid, none) else (
      genid',
      some (record {
        context = none;
        routine =
            some (record {
              data_ptr = at;
              read_handle = none;
              write_handle = none;
              err_handle = none;
            });
        fd = l.fd;
        listening = some from;
        pool = l.pool;
        sockaddr = l.sockaddr;
        addrlen = l.addrlen;
        thread_index = 0;
        id = id;
      }),
    )

module _ (ops : QueueOps ℕ) where
  abbrev pub with_pool :
      Connection → Option (Option ℕ × Manager ops) → Option (Option Connection × Manager ops)
  with_pool c none = none
  with_pool c (some (p, m)) = some (some (record c { pool = p }), m)

  -- agc_free_connection; the connection's memory is still there until pool_thread destroys the pool.
  unfoldable pub free_connection :
      Option Connection → Manager ops → Option (Option Connection × Manager ops)
  free_connection none m = some (none, m)
  free_connection (some c) m = with_pool c (destroy_pool ops c.pool m)
