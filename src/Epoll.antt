-- ===== src/Epoll.antt =====
-- src/mod/drivers/mod_epoll/mod_epoll.c, the driver behind agc_driver_add_connection and its kin. The
-- kernel's epoll sets are a parameter; the threads' descriptors in EPOLLFDS are their indices.
pub mod Kernel
pub mod Connections
pub mod Dispatch
pub mod Tests
use common_framework.Base.{
  ℕ, Bool, true, false, not, Option, none, some, Status, success, generr, if◌then◌else◌,
}
use common_framework.Epoll.Kernel.{Interest, reads, writes, both, EpollOps}

-- AGC_READ_EVENT, and any other value of `event`.
pub data Wanted : Type 0 where
  read_event write_event : Wanted

-- struct agc_connection_s with its routine. A handler is known by its identity; `routine_there` is
-- false where the routine is NULL.
pub record Connection : Type 0 where
  pub fd : ℕ
  pub thread_index : ℕ
  pub routine_there : Bool
  pub active : Bool
  pub read_handle : Option ℕ
  pub write_handle : Option ℕ

abbrev pub interest_of : Wanted → Interest
interest_of read_event = reads
interest_of write_event = writes

-- `prev`: the interest in the other direction.
abbrev pub other_interest : Wanted → Interest
other_interest read_event = writes
other_interest write_event = reads

module _ (ops : EpollOps) where
  open ops use {Kernel, ctl_add, ctl_mod, ctl_del}

  -- The kernel, the connection and the status after an operation.
  abbrev pub Result : Type 0
  Result = Kernel × Connection × Status

  abbrev pub added : Kernel → Connection → ℕ → Option Kernel → Result
  added k c index none = (k, c, generr)
  added k c index (some k') = (k', record c { active = true; thread_index = index }, success)

  -- agc_epoll_add_connection; `random` is what agc_random returns.
  unfoldable pub add_connection : ℕ → Kernel → Connection → Result
  add_connection random k c = added k c random (ctl_add random c.fd reads k)

  abbrev pub removed : Kernel → Connection → Option Kernel → Result
  removed k c none = (k, record c { active = false }, generr)
  removed k c (some k') = (k', record c { active = false }, success)

  -- agc_epoll_del_connection
  unfoldable pub del_connection : Kernel → Connection → Result
  del_connection k c = removed k c (ctl_del c.thread_index c.fd k)

  abbrev pub event_added : Kernel → Connection → Option Kernel → Result
  event_added k c none = (k, record c { active = false }, generr)
  event_added k c (some k') = (k', record c { active = true }, success)

  -- agc_epoll_add_event for a connection that is there.
  unfoldable pub add_event : ℕ → Kernel → Connection → Wanted → Result
  add_event random k c event =
      if not c.routine_there
      then (k, c, generr)
      else if c.active
      then event_added k c (ctl_mod c.thread_index c.fd both k)
      else event_added k c (ctl_add random c.fd (interest_of event) k)

  abbrev pub event_removed : Kernel → Connection → Option Kernel → Result
  event_removed k c none = (k, c, generr)
  event_removed k c (some k') = (k', c, success)

  -- agc_epoll_del_event for a connection that is there.
  unfoldable pub del_event : Kernel → Connection → Wanted → Result
  del_event k c event =
      if not c.routine_there
      then (k, c, generr)
      else if c.active
      then event_removed k c (ctl_mod c.thread_index c.fd (other_interest event) k)
      else (k, c, success)
