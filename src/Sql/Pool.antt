-- ===== src/Sql/Pool.antt =====
-- The pool of database handles in src/agc_sql.c: _agc_sql_get_handle behind its waiting loop,
-- agc_sql_release_handle, add_handle and get_freehandle. A handle is named by its position
-- in the pool at the time.
pub mod Laws
mod Tests
use mathlib.Core.Option
use common_framework.Base.{
  ℕ, suc, ◌+◌, ◌-◌, ◌%◌, ◌^◌, Bool, true, ◌&&◌, Option, none, some, List, [], ◌∷◌, map, ◌==◌,
  if◌then◌else◌, get_elem?, set,
}
use common_framework.Sql.Mutex.{MutexOps}

-- uint32_t counters
abbrev pub increment : ℕ → ℕ
increment n = (n + 1) % 2 ^ 32

abbrev pub decrement : ℕ → ℕ
decrement n = (n + 4294967295) % 2 ^ 32

module _ (ops : MutexOps) where
  open ops use {Mutex, fresh, lock, trylock, unlock}

  -- agc_sql_handle_t; the texts in it are for logging.
  pub record Handle : Type 0 where
    pub thread_hash : ℕ
    pub use_count : ℕ
    pub mutex : Mutex

  pub record Pool : Type 0 where
    pub handle_pool : List Handle
    pub total_handles : ℕ
    pub total_used_handles : ℕ

  unfoldable pub start : Pool
  start = record { handle_pool = []; total_handles = 0; total_used_handles = 0 }

  abbrev pub grabbed : (hash : ℕ) → Handle → Mutex → Handle
  grabbed hash h m = record { thread_hash = hash; use_count = increment h.use_count; mutex = m }

  abbrev pub at_handle :
      (hash : ℕ)
      → Handle
      → List Handle
      → Option Mutex
      → Option (List Handle × ℕ)
      → Option (List Handle × ℕ)
  at_handle hash h rest (some m) later = some (grabbed hash h m ∷ rest, 0)
  at_handle hash h rest none later = Option.map (λ r. (h ∷ r.0, suc r.1)) later

  -- A loop of get_freehandle: the first handle that passes the test and can be locked.
  unfoldable pub lock_first :
      (test : Handle → Bool) (self hash : ℕ) → List Handle → Option (List Handle × ℕ)
  lock_first test self hash [] = none
  lock_first test self hash (h ∷ rest) =
      at_handle hash h rest (if test h then trylock self h.mutex else none)
        (lock_first test self hash rest)

  abbrev pub or_any : Option (List Handle × ℕ) → Option (List Handle × ℕ) → Option (List Handle × ℕ)
  or_any none second = second
  or_any (some r) second = some r

  -- get_freehandle on the list
  unfoldable pub free_handle : (self hash : ℕ) → List Handle → Option (List Handle × ℕ)
  free_handle self hash l =
      or_any (lock_first (λ h. (h.thread_hash == hash) && (h.use_count == 0)) self hash l)
        (lock_first (λ h. true) self hash l)

  -- add_handle on a handle of create_handle
  unfoldable pub add_handle : (self hash : ℕ) → Pool → Pool
  add_handle self hash p = record {
    handle_pool =
        record { thread_hash = hash; use_count = 1; mutex = lock self fresh } ∷ p.handle_pool;
    total_handles = increment p.total_handles;
    total_used_handles = increment p.total_used_handles;
  }

  abbrev pub with_free :
      (connects : Bool) (self hash : ℕ) → Pool → Option (List Handle × ℕ) → Pool × Option ℕ
  with_free connects self hash p (some (l, i)) =
      (record p { handle_pool = l; total_used_handles = increment p.total_used_handles }, some i)
  with_free connects self hash p none =
      if connects then (add_handle self hash p, some 0) else (p, none)

  -- _agc_sql_get_handle: the pool and the handle, none on an error. `connects` tells whether a new
  -- connection of the database and its handle can be made.
  unfoldable pub get_handle : (connects : Bool) (self hash : ℕ) → Pool → Pool × Option ℕ
  get_handle connects self hash p =
      with_free connects self hash p (free_handle self hash p.handle_pool)

  abbrev pub unused : Handle → Handle
  unused h =
      if h.use_count == 0
      then h
      else if h.use_count - 1 == 0
      then record h { use_count = h.use_count - 1; thread_hash = 1 }
      else record h { use_count = h.use_count - 1 }

  abbrev pub let_go : Handle → Handle
  let_go h = record (unused h) { mutex = unlock h.mutex }

  abbrev pub release_found : ℕ → Pool → Option Handle → Pool
  release_found i p none = p
  release_found i p (some h) = record p {
    handle_pool = set p.handle_pool i (let_go h);
    total_used_handles = decrement p.total_used_handles;
  }

  -- agc_sql_release_handle on a handle of the pool
  unfoldable pub release_handle : ℕ → Pool → Pool
  release_handle i p = release_found i p (get_elem? p.handle_pool i)
