-- ===== src/Timer/Refinement.antt =====
-- Any sequence of calls of agc_timer_add_timer and rounds of agc_timer_dispatch_timer against a machine
-- on a sorted list.
use mathlib.Core.Option
use common_framework.Base.{
  ℕ, ◌+◌, ◌<◌, ◌≡◌, refl, ap, ◌∙◌, inl, inr, Option, none, some, List, [], ◌∷◌, ◌++◌, leb,
  if◌then◌else◌, Bool-cases, All,
}
use common_framework.Timer.Tree.{Timer, insert_sorted, remove_event, TreeOps}
use common_framework.Timer.Adding.{Represents}
use common_framework.Timer.{milliseconds, State, round}
use common_framework.Timer.Rounds.{is_due_lem, round_first, fired-Represents}
use common_framework.Timer.Adding.{init-Represents, add_timer-Represents}
use common_framework.Timer.{init, add_timer}

-- agc_timer_add_timer with the time, the event and the delay, or a round with the time.
pub data Command : Type 0 where
  start : (now event timer : ℕ) → Command
  tick : (now : ℕ) → Command

-- The times of a command are below 2 ^ 63 milliseconds.
abbrev pub InRange : Command → Type 0
InRange (start now event timer) = milliseconds now + timer < 9223372036854775808
InRange (tick now) = milliseconds now < 9223372036854775808

-- The machine on the list: a round fires the first timer if its key is reached.
abbrev pub spec_tick : (ms : ℕ) → List Timer → List Timer × List ℕ
spec_tick ms [] = ([], [])
spec_tick ms (x ∷ l) = if leb x.key ms then (l, x.event ∷ []) else (x ∷ l, [])

abbrev pub spec_step : Command → List Timer → List Timer × List ℕ
spec_step (start now event timer) l = (
  insert_sorted (record { event = event; key = milliseconds now + timer }) (remove_event event l),
  [],
)
spec_step (tick now) l = spec_tick (milliseconds now) l

abbrev pub spec_all : List Command → List Timer → List Timer × List ℕ
spec_all [] l = (l, [])
spec_all (k ∷ ks) l =
    let (l1, fired_now) = spec_step k l in
    let (l2, fired_later) = spec_all ks l1 in (l2, fired_now ++ fired_later)

module _ (ops : TreeOps) where
  open ops use {
    Tree, empty, insert, delete, min, inorder, inorder-empty, inorder-insert, delete_there,
    delete_missing, min-inorder,
  }

  abbrev pub ticked : Option (State ops × Option ℕ) → Option (State ops × List ℕ)
  ticked none = none
  ticked (some (st, none)) = some (st, [])
  ticked (some (st, some event)) = some (st, event ∷ [])

  -- A command on the tree and the flags: the state after it and the events fired.
  abbrev pub step : Command → State ops → Option (State ops × List ℕ)
  step (start now event timer) st = Option.map (λ s. (s, [])) (add_timer ops now event timer st)
  step (tick now) st = ticked (round ops now st)

  abbrev pub then_all :
      (State ops → Option (State ops × List ℕ))
      → Option (State ops × List ℕ)
      → Option (State ops × List ℕ)
  then_all next none = none
  then_all next (some (st, fires)) = Option.map (λ r. (r.0, fires ++ r.1)) (next st)

  abbrev pub step_all : List Command → State ops → Option (State ops × List ℕ)
  step_all [] st = some (st, [])
  step_all (k ∷ ks) st = then_all (step_all ks) (step k st)

  abbrev pub Refines : Option (State ops × List ℕ) → List Timer × List ℕ → Type 0
  Refines o (l, fires) = (st : State ops) × (o ≡ some (st, fires)) × Represents ops st l

  tick_Refines :
      (now : ℕ) (st : State ops) (l : List Timer)
      → Represents ops st l
      → milliseconds now < 9223372036854775808
      → Refines (step (tick now) st) (spec_tick (milliseconds now) l)
  tick_Refines now st [] rep small = (st, ap ticked (round_first ops now st [] rep), rep)
  tick_Refines now st (x ∷ l) rep small =
      let is = is_due_lem x.key (milliseconds now) rep.fits.0 small in
      elim (Bool-cases (leb x.key (milliseconds now))) [
        | inl le ↦
            let (st1, fires, rep1) = fired-Represents ops st x l rep in
            let stepped : round ops now st ≡ some (st1, some x.event) =
              round_first ops now st (x ∷ l) rep ∙ rw (is, le) fires in
            rw le (st1, ap ticked stepped, rep1)
        | inr gt ↦
            let idle : round ops now st ≡ some (st, none) =
              round_first ops now st (x ∷ l) rep ∙ rw (is, gt) refl in
            rw gt (st, ap ticked idle, rep)
      ]

  step-Refines :
      (k : Command) (st : State ops) (l : List Timer)
      → Represents ops st l
      → InRange k
      → Refines (step k st) (spec_step k l)
  step-Refines (start now event timer) st l rep range =
      let (st', added, rep') = add_timer-Represents ops now event timer st l rep range in
      (st', ap (Option.map (λ s. (s, []))) added, rep')
  step-Refines (tick now) st l rep range = tick_Refines now st l rep range

  sequence_refined :
      (ks : List Command) (st : State ops) (l : List Timer)
      → Represents ops st l
      → All InRange ks
      → Refines (step_all ks st) (spec_all ks l)
  sequence_refined [] st l rep range = (st, refl, rep)
  sequence_refined (k ∷ ks) st l rep (range, ranges) =
      let (st1, stepped, rep1) = step-Refines k st l rep range in
      let (st2, ran, rep2) = sequence_refined ks st1 (spec_step k l).0 rep1 ranges in
      (
        st2,
        ap (then_all (step_all ks)) stepped
            ∙ ap (Option.map (λ r. (r.0, (spec_step k l).1 ++ r.1))) ran,
        rep2,
      )

  -- Any sequence of calls of agc_timer_add_timer and rounds of agc_timer_dispatch_timer from the
  -- start on runs without deleting a node that is not in the tree, fires the events that the machine
  -- on a sorted list fires, in the same order, and ends in a state that stands for that machine's
  -- list. All times are below 2 ^ 63 milliseconds.
  pub step_all-Refines :
      (ks : List Command) → All InRange ks → Refines (step_all ks (init ops)) (spec_all ks [])
  step_all-Refines ks ranges = sequence_refined ks (init ops) [] (init-Represents ops) ranges
