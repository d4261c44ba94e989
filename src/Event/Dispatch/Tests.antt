-- ===== src/Event/Dispatch/Tests.antt =====
-- A run of two threads over bounded lists as queues.
use common_framework.Base.{◌≡◌, refl, true, some, List, [], ◌∷◌, ◌++◌, arith, get_elem?}
use common_framework.Base.Int.{pos}
use common_framework.Event.Types.{Event, create}
use common_framework.Event.Nodes.{Table, deliver_calls, calls_by, nodes_of, calls_from}
use common_framework.Event.Queue.{QueueOps, Bounded, bounded_queue}
use common_framework.Event.Dispatch.{
  State, init, queue_index, queued, push_to, fire, delivered, deliver, pop_from, round_at,
  dispatch_round, Runs, begin, fires, rounds,
}
use common_framework.Event.Dispatch.Order.{Runs-of_source}
use common_framework.Event.Dispatch.Drain.{run_rounds, run_rounds_lem}
use common_framework.Event.Dispatch.Steps.{of_source}

abbrev nodes : Table
nodes = [] ∷ [] ∷ []

abbrev queue_ops : QueueOps Event
queue_ops = bounded_queue

abbrev first : Event
first = create (pos 1) 5

abbrev second : Event
second = create (pos 0) 5

abbrev queue_of : List Event → Bounded Event
queue_of l = record { items = l; limit = 10000 }

abbrev state : List Event → List Event → State queue_ops
state waiting handled = record {
  running = true;
  queues = queue_of [] ∷ queue_of waiting ∷ [];
  nodes = nodes;
  handled = handled;
  calls = [];
}

start : init queue_ops 2 nodes ≡ state [] []
unfolding init
start = refl

first_fired : fire queue_ops (state [] []) (some first) 0 ≡ queued (state (first ∷ []) [])
unfolding fire push_to queue_index create
first_fired = refl

second_fired :
    fire queue_ops (state (first ∷ []) []) (some second) 0 ≡ queued (state (first ∷ second ∷ []) [])
unfolding fire push_to queue_index create
second_fired = refl

round_one :
    dispatch_round queue_ops (state (first ∷ second ∷ []) []) 1
    ≡ delivered (state (second ∷ []) (first ∷ []))
unfolding dispatch_round round_at pop_from deliver deliver_calls calls_by nodes_of calls_from create
round_one = refl

run :
    Runs queue_ops (init queue_ops 2 nodes) (first ∷ second ∷ []) (state (second ∷ []) (first ∷ []))
run = rw start (rounds 1 (fires second 0 (fires first 0 begin first_fired) second_fired) round_one)

Runs-of_source_example :
    (q : Bounded Event) × (get_elem? (queue_of [] ∷ queue_of (second ∷ []) ∷ []) 1 ≡ some q)
    × (of_source 5 (first ∷ []) ++ of_source 5 q.items ≡ of_source 5 (first ∷ second ∷ []))
Runs-of_source_example =
    Runs-of_source queue_ops 2 nodes (first ∷ second ∷ []) (state (second ∷ []) (first ∷ [])) 5 run
      (omega arith) (λ e. cc)

run_rounds_lem_example :
    (u : State queue_ops) × (q' : Bounded Event) × (run_rounds queue_ops 3 1
        (state (first ∷ second ∷ []) [])
      ≡ some u)
    × (get_elem? u.queues 1 ≡ some q')
    × (q'.items ≡ [])
    × (u.handled ≡ first ∷ second ∷ [])
unfolding deliver_calls calls_by nodes_of calls_from create
run_rounds_lem_example =
    run_rounds_lem queue_ops 3 1 (state (first ∷ second ∷ []) []) (queue_of (first ∷ second ∷ []))
      refl refl (omega arith) (([], refl), (([], refl), tt))
