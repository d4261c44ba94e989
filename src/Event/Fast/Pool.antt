-- ===== src/Event/Fast/Pool.antt =====
-- FAST_EVENT_QUEUES of src/agc_event.c: one queue of ready events for each type, NULL until
-- agc_event_fast_initial. `none` as a result is an access outside the table or through NULL.
pub mod Circulation
pub mod Filling
use common_framework.Base.{
  ℕ, zero, suc, ◌+◌, ◌≡◌, Option, none, some, List, [], ◌∷◌, ◌++◌, Status, success, status_false,
  generr, if◌then◌else◌, get_elem?, set,
}
use common_framework.Base.CString.{CString}
use common_framework.Base.Int.{ℤ, pos, negsuc, ge_nat}
use common_framework.Event.Queue.{QueueOps}
use common_framework.Event.Fast.{FastEvent, event_fast_types, fast_event_create}

module _ (ops : QueueOps FastEvent) where
  open ops use {Queue, create, trypush, trypop}

  abbrev pub Pools : Type 0
  Pools = List (Option Queue)

  unfoldable pub pool_at : Pools → ℤ → Option (Option Queue)
  pool_at p (pos i) = get_elem? p i
  pool_at p (negsuc i) = none

  abbrev pub set_pool : Pools → ℤ → Queue → Pools
  set_pool p (pos i) q = set p i (some q)
  set_pool p (negsuc i) q = p

  -- The rest of the loop, if the push has succeeded.
  unfoldable pub push_then : Queue → Option Queue → (Queue → Queue × Status) → Queue × Status
  push_then q none rest = (q, generr)
  push_then q (some q') rest = rest q'

  -- The loop of agc_event_fast_initial, where each new event is `e`.
  unfoldable pub fill_pool : ℕ → FastEvent → Queue → Queue × Status
  unfolding push_then
  fill_pool zero e q = (q, success)
  fill_pool (suc n) e q = push_then q (trypush e q) (fill_pool n e)

  -- The queue that agc_event_fast_initial creates and fills, when `made` is what fast_event_create
  -- returns for its arguments.
  unfoldable pub new_pool : ℕ → Option FastEvent → Option (Queue × Status)
  unfolding fill_pool
  new_pool zero made = some (create 10, success)
  new_pool (suc n) none = none
  new_pool (suc n) (some e) = some (fill_pool (suc n) e (create (suc n + 10)))

  unfoldable pub put_pool : Pools → ℤ → Option (Queue × Status) → Option (Pools × Status)
  put_pool p type none = none
  put_pool p type (some (q, s)) = some (set_pool p type q, s)

  unfoldable pub initial_at :
      Pools → ℤ → Option (Option Queue) → Option (Queue × Status) → Option (Pools × Status)
  unfolding put_pool
  initial_at p type none new = none
  initial_at p type (some (some q)) new = some (p, generr)
  initial_at p type (some none) new = put_pool p type new

  abbrev pub type_number : ℤ → ℕ
  type_number (pos n) = n
  type_number (negsuc n) = 0

  -- agc_event_fast_initial
  unfoldable pub fast_initial :
      Pools → ℤ → ℤ → ℕ → List CString → List ℕ → ℕ → Option (Pools × Status)
  unfolding pool_at new_pool initial_at
  fast_initial p type event_id capacity headers valuelengths bodylength =
      if ge_nat type event_fast_types
      then some (p, generr)
      else initial_at p type (pool_at p type) (
          new_pool capacity
            (fast_event_create (type_number type) event_id headers valuelengths bodylength))

  unfoldable pub alloc_from :
      Pools → ℤ → Option (FastEvent × Queue) → Pools × Option FastEvent × Status
  alloc_from p type none = (p, none, generr)
  alloc_from p type (some (e, q)) = (set_pool p type q, some e, success)

  unfoldable pub alloc_at :
      Pools → ℤ → Option (Option Queue) → Option (Pools × Option FastEvent × Status)
  unfolding alloc_from
  alloc_at p type none = none
  alloc_at p type (some none) = some (p, none, generr)
  alloc_at p type (some (some q)) = some (alloc_from p type (trypop q))

  -- agc_event_fast_alloc
  unfoldable pub fast_alloc : Pools → ℤ → Option (Pools × Option FastEvent × Status)
  unfolding pool_at alloc_at
  fast_alloc p type =
      if ge_nat type event_fast_types
      then some (p, none, generr)
      else alloc_at p type (pool_at p type)

  unfoldable pub with_callback :
      ℕ
      → ℕ
      → Option (Pools × Option FastEvent × Status)
      → Option (Pools × Option FastEvent × Status)
  with_callback context callback none = none
  with_callback context callback (some (p, none, s)) = some (p, none, generr)
  with_callback context callback (some (p, some e, s)) =
      some (p, some (record e { call_back = some callback; context = context }), success)

  -- agc_event_fast_create_callback
  unfoldable pub fast_create_callback : Pools → ℕ → ℕ → Option (Pools × Option FastEvent × Status)
  unfolding fast_alloc with_callback
  fast_create_callback p context callback = with_callback context callback (fast_alloc p (pos 0))

  -- A push whose result is not looked at: what does not fit is lost.
  unfoldable pub released : Pools → FastEvent → Queue → Option Queue → Pools
  released p e q none = p
  released p e q (some q') = set p e.type_of (some q')

  unfoldable pub release_at :
      Pools → FastEvent → Option (Option Queue) → Option (Pools × Option FastEvent × Status)
  unfolding released
  release_at p e none = none
  release_at p e (some none) = none
  release_at p e (some (some q)) = some (released p e q (trypush e q), none, success)

  -- agc_event_fast_release: also what `*event` is afterwards.
  unfoldable pub fast_release :
      Pools → Option FastEvent → Option (Pools × Option FastEvent × Status)
  unfolding release_at
  fast_release p none = some (p, none, status_false)
  fast_release p (some e) = release_at p e (get_elem? p e.type_of)

  -- Any sequence of allocations and releases of one type from the given pools on. The second list
  -- is what the callers hold; they may change all of an event but its type.
  pub data Circulates (type : ℕ) (start : Pools) : Pools → List FastEvent → Type 0 where
    begins : Circulates type start start []
    allocates :
        {p p' : Pools} {held : List FastEvent} (e : FastEvent)
        → Circulates type start p held
        → fast_alloc p (pos type) ≡ some (p', some e, success)
        → Circulates type start p' (e ∷ held)
    releases :
        {p p' : Pools} (before after : List FastEvent) (e e' : FastEvent)
        → Circulates type start p (before ++ e ∷ after)
        → e'.type_of ≡ e.type_of
        → fast_release p (some e') ≡ some (p', none, success)
        → Circulates type start p' (before ++ after)
