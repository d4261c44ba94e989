-- ===== src/Event/Dispatch.antt =====
-- agc_event_fire, agc_event_dispatch_thread and agc_event_deliver of src/agc_event.c over the
-- dispatch queues, one for each dispatch thread. agc_queue_push waits while its queue is full.
pub mod Order
pub mod Drain
pub mod Steps
pub mod Tests
use common_framework.Base.{
  ℕ, ◌%◌, ◌≡◌, Bool, true, Option, none, some, List, [], ◌∷◌, ◌++◌, ◌==◌, if◌then◌else◌, length,
  get_elem?, set, replicate,
}
use common_framework.Event.Types.{Event, event_null_sourceid}
use common_framework.Event.Nodes.{Table, Call, deliver_calls}
use common_framework.Event.Queue.{QueueOps}

abbrev pub dispatch_queue_limit : ℕ
dispatch_queue_limit = 10000

module _ (ops : QueueOps Event) where
  open ops use {Queue, create, trypush, trypop}

  -- The static variables that firing and dispatch share; `handled` are the events delivered so far
  -- and `calls` the calls made for them.
  pub record State : Type 0 where
    pub running : Bool
    pub queues : List Queue
    pub nodes : Table
    pub handled : List Event
    pub calls : List Call

  -- The queues and flag as agc_event_init leaves them for `n` dispatch threads.
  unfoldable pub init : ℕ → Table → State
  init n t = record {
    running = true;
    queues = replicate n (create dispatch_queue_limit);
    nodes = t;
    handled = [];
    calls = [];
  }

  -- The queue of an event; `random` is what agc_random returns.
  unfoldable pub queue_index : State → Event → ℕ → ℕ
  queue_index st e random =
      if e.source_id == event_null_sourceid then random else e.source_id % length st.queues

  -- How a call of agc_event_fire ends: an error, the event destroyed because the system has
  -- stopped, the caller waiting, or the event in its queue.
  pub data Fired : Type 0 where
    refused destroyed waits : Fired
    queued : State → Fired

  unfoldable pub push_to : State → ℕ → Event → Option Queue → Fired
  push_to st i e none = refused
  push_to st i e (some q) = elim (trypush e q) [
    | none ↦ waits
    | some q' ↦ queued (record st { queues = set st.queues i q' })
  ]

  -- agc_event_fire
  unfoldable pub fire : State → Option Event → ℕ → Fired
  unfolding push_to queue_index
  fire st none random = refused
  fire st (some e) random =
      let i = queue_index st e random in
      if st.running then push_to st i e (get_elem? st.queues i) else destroyed

  -- How a round of the loop of agc_event_dispatch_thread ends: the loop is left, the queue is empty,
  -- the event's id is outside the table of nodes, or the event has been delivered.
  pub data Round : Type 0 where
    left idle fault : Round
    delivered : State → Round

  -- agc_event_deliver for the event taken from queue `i`, which is `q` afterwards.
  unfoldable pub deliver : State → ℕ → Event → Queue → Round
  deliver st i e q = elim (deliver_calls st.running st.nodes e) [
    | none ↦ fault
    | some cs ↦ delivered (record st {
      queues = set st.queues i q;
      handled = st.handled ++ e ∷ [];
      calls = st.calls ++ cs;
    })
  ]

  unfoldable pub pop_from : State → ℕ → Option (Event × Queue) → Round
  unfolding deliver
  pop_from st i none = idle
  pop_from st i (some (e, q)) = deliver st i e q

  unfoldable pub round_at : State → ℕ → Option Queue → Round
  unfolding pop_from
  round_at st i none = left
  round_at st i (some q) = pop_from st i (trypop q)

  -- One round of thread `i`.
  unfoldable pub dispatch_round : State → ℕ → Round
  unfolding round_at
  dispatch_round st i = if st.running then round_at st i (get_elem? st.queues i) else left

  -- Any interleaving of fired events and rounds of the threads, with the events queued in order.
  pub data Runs (s : State) : List Event → State → Type 0 where
    begin : Runs s [] s
    fires :
        {es : List Event} {t u : State} (e : Event) (random : ℕ)
        → Runs s es t
        → fire t (some e) random ≡ queued u
        → Runs s (es ++ e ∷ []) u
    rounds :
        {es : List Event} {t u : State} (i : ℕ)
        → Runs s es t
        → dispatch_round t i ≡ delivered u
        → Runs s es u
