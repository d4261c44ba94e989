-- ===== src/Event/Nodes.antt =====
-- The table `EVENT_NODES` of src/agc_event.c: for each event id the nodes that are bound to it, the
-- latest first. Each function runs under the table's lock, so a list of nodes stands for the linked
-- list. A node is known by its address. `none` as a result is an access outside the table.
pub mod Laws
pub mod Tests
use common_framework.Base.{
  ℕ, Bool, true, false, Option, none, some, List, [], ◌∷◌, ◌++◌, map, Status, success, status_false,
  generr, ◌==◌, if◌then◌else◌, get_elem?, set,
}
use common_framework.Base.CString.{CString}
use common_framework.Base.Int.{ℤ, pos, negsuc, gt_nat}
use common_framework.Event.Types.{Event, event_id_all, event_id_limit}

-- struct agc_event_node, with its address and the identity of its callback.
pub record Node : Type 0 where
  pub at : ℕ
  pub id : CString
  pub event_id : ℤ
  pub callback : ℕ

abbrev pub Table : Type 0
Table = List (List Node)

-- EVENT_NODES[i]
unfoldable pub nodes_of : Table → ℤ → Option (List Node)
nodes_of t (pos i) = get_elem? t i
nodes_of t (negsuc i) = none

abbrev pub set_nodes : Table → ℤ → List Node → Table
set_nodes t (pos i) l = set t i l
set_nodes t (negsuc i) l = t

-- agc_event_bind_removable, where malloc returns `fresh`; also what it writes through `node`.
unfoldable pub bind_removable : ℕ → Table → CString → ℤ → ℕ → Option (Table × Option Node × Status)
unfolding nodes_of
bind_removable fresh t id event_id callback =
    if gt_nat event_id event_id_limit then some (t, none, generr) else elim (nodes_of t event_id) [
      | none ↦ none
      | some l ↦
          let node : Node = record {
            at = fresh;
            id = id;
            event_id = event_id;
            callback = callback;
          } in
          some (set_nodes t event_id (node ∷ l), some node, success)
    ]

-- agc_event_bind
unfoldable pub bind : ℕ → Table → CString → ℤ → ℕ → Option (Table × Status)
unfolding bind_removable
bind fresh t id event_id callback = elim (bind_removable fresh t id event_id callback) [
  | none ↦ none
  | some (t', _, s) ↦ some (t', s)
]

-- The loop of agc_event_unbind: the list without the node at the address, and whether it was there.
unfoldable pub drop_node : ℕ → List Node → List Node × Bool
drop_node a [] = ([], false)
drop_node a (n ∷ l) =
    let (l', found) = drop_node a l in if n.at == a then (l, true) else (n ∷ l', found)

-- agc_event_unbind from the list of the node's id on.
unfoldable pub unbind_from :
    Table → Node → Option (List Node) → Option (Table × Option Node × Status)
unfolding drop_node
unbind_from t n none = none
unbind_from t n (some l) =
    let (l', found) = drop_node n.at l in
    if found
    then some (set_nodes t n.event_id l', none, success)
    else some (t, some n, status_false)

-- agc_event_unbind: the table, what `*node` is afterwards, and the status.
unfoldable pub unbind : Table → Option Node → Option (Table × Option Node × Status)
unfolding nodes_of unbind_from
unbind t none = some (t, none, generr)
unbind t (some n) = unbind_from t n (nodes_of t n.event_id)

-- The inner loop of agc_event_unbind_callback, which stops at the first node with the callback.
unfoldable pub drop_callback : ℕ → List Node → List Node × Bool
drop_callback f [] = ([], false)
drop_callback f (n ∷ l) =
    let (l', found) = drop_callback f l in if n.callback == f then (l, true) else (n ∷ l', found)

-- agc_event_unbind_callback
unfoldable pub unbind_callback : Table → ℕ → Table × Status
unfolding drop_callback
unbind_callback [] f = ([], status_false)
unbind_callback (l ∷ t) f =
    let (l', found) = drop_callback f l in
    let (t', s) = unbind_callback t f in (l' ∷ t', if found then success else s)

-- A call of a callback, with its argument: the event itself, or the event's `context`.
pub data Call : Type 0 where
  call_event : ℕ → Event → Call
  call_context : ℕ → ℕ → Call

abbrev pub calls_of : Event → List Node → List Call
calls_of e = map (λ n. call_event n.callback e)

-- The calls for the nodes of the event's id, and then for those of EVENT_ID_ALL.
unfoldable pub calls_from : Event → Option (List Node) → Option (List Node) → Option (List Call)
calls_from e none all = none
calls_from e (some l) none = none
calls_from e (some l) (some all) = some (calls_of e l ++ calls_of e all)

-- The calls of a running system for an event, by its `call_back`.
unfoldable pub calls_by : Table → Event → Option ℕ → Option (List Call)
unfolding nodes_of calls_from
calls_by t e (some f) = some (call_context f e.context ∷ [])
calls_by t e none = calls_from e (nodes_of t e.event_id) (nodes_of t (pos event_id_all))

-- The calls that agc_event_deliver makes, in order; it then destroys or releases the event.
unfoldable pub deliver_calls : Bool → Table → Event → Option (List Call)
unfolding calls_by
deliver_calls false t e = some []
deliver_calls true t e = calls_by t e e.call_back
