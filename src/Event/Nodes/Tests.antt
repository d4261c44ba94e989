-- ===== src/Event/Nodes/Tests.antt =====
-- The theorems on nodes at small tables, and at the table as it is at the start.
use common_framework.Base.{
  ◌≡◌, refl, none, some, List, [], ◌∷◌, success, status_false, if◌then◌else◌, set, replicate,
}
use common_framework.Base.CString.{lit}
use common_framework.Base.Int.{pos}
use common_framework.Event.Types.{Event, create, event_id_limit}
use common_framework.Event.Nodes.{Node, Table, nodes_of, bind_removable, unbind, unbind_callback}
use common_framework.Event.Nodes.Laws.{
  node, unbind-bind_removable, UnboundAll, some_callback, unbind_callback-UnboundAll,
}

abbrev no_nodes : List Node
no_nodes = []

abbrev at_start : Table
at_start = replicate event_id_limit no_nodes

-- Two ids: one node for all events, and two for the id 1.
abbrev table : Table
table =
    (node 1 (lit "log") (pos 0) 10 ∷ [])
    ∷ (node 2 (lit "x") (pos 1) 11 ∷ node 3 (lit "y") (pos 1) 10 ∷ [])
    ∷ []

abbrev bound : Table
bound =
    set table 1
      (node 4 (lit "z") (pos 1) 12 ∷ node 2 (lit "x") (pos 1) 11 ∷ node 3 (lit "y") (pos 1) 10 ∷ [])

bind_runs :
    bind_removable 4 table (lit "z") (pos 1) 12
    ≡ some (bound, some (node 4 (lit "z") (pos 1) 12), success)
unfolding bind_removable nodes_of
bind_runs = refl

unbind-bind_removable_example :
    unbind bound (some (node 4 (lit "z") (pos 1) 12)) ≡ some (table, none, success)
unbind-bind_removable_example =
    unbind-bind_removable 4 table bound (lit "z") (pos 1) 12 (some (node 4 (lit "z") (pos 1) 12))
      bind_runs

abbrev ones : List Node
ones = node 2 (lit "x") (pos 1) 11 ∷ node 3 (lit "y") (pos 1) 10 ∷ []

abbrev event : Event
event = create (pos 1) 6

abbrev all_nodes : List Node
all_nodes = node 1 (lit "log") (pos 0) 10 ∷ []

unbind_callback-UnboundAll_example :
    UnboundAll 10 table (unbind_callback table 10).0
    × ((unbind_callback table 10).1 ≡ (if some_callback 10 table then success else status_false))
unbind_callback-UnboundAll_example = unbind_callback-UnboundAll table 10
