-- ===== src/Timer.antt =====
-- src/agc_timer.c: agc_timer_add_timer, agc_timer_del_timer and the rounds of the dispatch thread. The
-- result `none` is the deletion of a node that is not in the tree.
pub mod Tree
pub mod Lists
pub mod Adding
pub mod Rounds
pub mod Refinement
mod Tests
use mathlib.Core.Option
use common_framework.Base.{
  ℕ, zero, suc, ◌+◌, ◌-◌, ◌/◌, ◌%◌, ◌^◌, Bool, true, false, ◌||◌, Option, none, some, List, [], ◌∷◌,
  map, leb, ◌==◌, if◌then◌else◌,
}
use common_framework.Timer.Tree.{Timer, TreeOps}

-- agc_time_now() / 1000, where agc_time_now gives microseconds.
abbrev pub milliseconds : ℕ → ℕ
milliseconds now = now / 1000

-- (agc_msec_int_t) (key - current_ms) > 0 does not hold, on 64 bits.
unfoldable pub is_due : (key current_ms : ℕ) → Bool
is_due key current_ms =
    let difference = (key + 2 ^ 64 - current_ms) % 2 ^ 64 in
    (difference == 0) || leb (2 ^ 63) difference

module _ (ops : TreeOps) where
  open ops use {Tree, empty, insert, delete, min}

  -- agc_timer_rbtree and the field timer_set of the events.
  pub record State : Type 0 where
    pub tree : Tree
    pub timer_set : ℕ → Bool

  unfoldable pub init : State
  init = record { tree = empty; timer_set = λ e. false }

  abbrev pub with_tree : State → Option Tree → Option State
  with_tree st none = none
  with_tree st (some t) = some (record st { tree = t })

  -- agc_timer_del_timer. It leaves timer_set.
  unfoldable pub del_timer : ℕ → State → Option State
  del_timer event st = with_tree st (delete event st.tree)

  abbrev pub flag : ℕ → Bool → (ℕ → Bool) → ℕ → Bool
  flag event value flags e = if e == event then value else flags e

  abbrev pub insert_in : (event key : ℕ) → Option State → Option State
  insert_in event key none = none
  insert_in event key (some st) = some (record {
    tree = insert (record { event = event; key = key }) st.tree;
    timer_set = flag event true st.timer_set;
  })

  -- agc_timer_add_timer
  unfoldable pub add_timer : (now event timer : ℕ) → State → Option State
  add_timer now event timer st =
      insert_in event ((milliseconds now + timer) % 2 ^ 64)
        (if st.timer_set event then del_timer event st else some st)

  -- The timer that fires: the flag, the deletion and agc_event_fire.
  abbrev pub fired : ℕ → State → Option (State × Option ℕ)
  fired event st =
      Option.map (λ st'. (st', some event))
        (with_tree (record st { timer_set = flag event false st.timer_set }) (delete event st.tree))

  abbrev pub round_on : (current_ms : ℕ) → State → Option Timer → Option (State × Option ℕ)
  round_on current_ms st none = some (st, none)
  round_on current_ms st (some x) =
      if is_due x.key current_ms then fired x.event st else some (st, none)

  -- A round of agc_timer_dispatch_timer: the state and the event fired, if the round did not wait.
  unfoldable pub round : (now : ℕ) → State → Option (State × Option ℕ)
  round now st = round_on (milliseconds now) st (min st.tree)

  abbrev pub after_round :
      (State → Option (State × List ℕ)) → Option (State × Option ℕ) → Option (State × List ℕ)
  after_round next none = none
  after_round next (some (st, none)) = next st
  after_round next (some (st, some event)) = Option.map (λ r. (r.0, event ∷ r.1)) (next st)

  -- So many rounds at a time, and the events fired.
  unfoldable pub timer_rounds : (now rounds : ℕ) → State → Option (State × List ℕ)
  timer_rounds now zero st = some (st, [])
  timer_rounds now (suc n) st = after_round (timer_rounds now n) (round now st)
