-- ===== src/Event/Fast/Tests.antt =====
-- A pool of two callback events, and a fast event with one header.
use common_framework.Base.{
  ◌+◌, ◌≡◌, refl, ◌⊎◌, none, some, List, [], ◌∷◌, arith, success, length, get_elem?,
}
use common_framework.Base.CString.{lit}
use common_framework.Base.Int.{pos}
use common_framework.Event.Queue.{QueueOps, Bounded, bounded_queue}
use common_framework.Event.Fast.{
  FastEvent, Slot, lay_out, fill_first, with_slots, fast_event_create,
}
use common_framework.Event.Fast.Pool.{
  Pools, pool_at, push_then, fill_pool, new_pool, put_pool, initial_at, fast_initial, alloc_from,
  alloc_at, fast_alloc, begins, allocates,
}
use common_framework.Event.Fast.Pool.Circulation.{fast_initial-Circulates}

abbrev queue_ops : QueueOps FastEvent
queue_ops = bounded_queue

abbrev event : FastEvent
event = record {
  event_id = pos 0;
  type_of = 0;
  slots = [];
  body_room = 0;
  body = [];
  call_back = none;
  context = 0;
}

abbrev queue_of : List FastEvent → Bounded FastEvent
queue_of l = record { items = l; limit = 12 }

abbrev pools : List FastEvent → Pools queue_ops
pools l = some (queue_of l) ∷ none ∷ []

made :
    fast_initial queue_ops (none ∷ none ∷ []) (pos 0) (pos 0) 2 [] [] 0
    ≡ some (pools (event ∷ event ∷ []), success)
unfolding fast_initial pool_at new_pool initial_at put_pool fill_pool push_then fast_event_create
    lay_out fill_first with_slots
made = refl

taken :
    fast_alloc queue_ops (pools (event ∷ event ∷ [])) (pos 0)
    ≡ some (pools (event ∷ []), some event, success)
unfolding fast_alloc pool_at alloc_at alloc_from
taken = refl

fast_initial-Circulates_example :
    (q : Bounded FastEvent) × (get_elem? (pools (event ∷ [])) 0 ≡ some (some q))
    × (length q.items + length (event ∷ []) ≡ 2)
    × ((length (event ∷ []) ≡ 2)
        ⊎ ((e : FastEvent) × (t' : Pools queue_ops) × (fast_alloc queue_ops
                (pools (event ∷ []))
                (pos 0)
              ≡ some (t', some e, success))))
fast_initial-Circulates_example =
    fast_initial-Circulates queue_ops (none ∷ none ∷ []) (pools (event ∷ event ∷ []))
      (pools (event ∷ [])) 0 2 (pos 0) [] [] 0 (event ∷ []) refl (omega arith) made
      (allocates event begins taken)

abbrev slot : Slot
slot = record { name_room = 4; value_room = 3; name = lit "_t"; value = lit "5" }

abbrev with_slot : FastEvent
with_slot = record event { slots = slot ∷ [] }
