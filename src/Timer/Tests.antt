-- ===== src/Timer/Tests.antt =====
-- Timers of two events on a sorted list.
use common_framework.Base.{◌≡◌, refl, none, some, List, [], ◌∷◌, arith}
use common_framework.Timer.Tree.{Timer, has_event, sorted_list}
use common_framework.Timer.Adding.{Represents, del_timer-add_timer}
use common_framework.Timer.Rounds.{timer_rounds-Ran}
use common_framework.Timer.Refinement.{
  Command, start, tick, spec_all, step_all, Refines, step_all-Refines,
}
use common_framework.Timer.{State, init, add_timer, del_timer, timer_rounds}

abbrev two_timers : List Timer
two_timers = record { event = 7; key = 10 } ∷ record { event = 8; key = 30 } ∷ []

abbrev two_set : State sorted_list
two_set = record { tree = two_timers; timer_set = λ e. has_event e two_timers }

two_set-Represents : Represents sorted_list two_set two_timers
two_set-Represents = record {
  content = refl;
  sorted = ((omega arith, tt), (tt, tt));
  distinct = (refl, (refl, tt));
  fits = (omega arith, (omega arith, tt));
  flags = λ e. refl;
}

del_timer-add_timer_example :
    (st' : State sorted_list) × (del_timer sorted_list 7 two_set ≡ some st')
    × (st'.tree ≡ record { event = 8; key = 30 } ∷ [])
    × (add_timer sorted_list 4000 7 2 st' ≡ none)
del_timer-add_timer_example =
    del_timer-add_timer sorted_list 4000 7 2 two_set two_timers two_set-Represents refl

-- After 20 milliseconds the first timer is due.
timer_rounds-Ran_example :
    (st' : State sorted_list) × (timer_rounds sorted_list 20000 2 two_set ≡ some (st', 7 ∷ []))
    × Represents sorted_list st' (record { event = 8; key = 30 } ∷ [])
timer_rounds-Ran_example =
    timer_rounds-Ran sorted_list 20000 2 two_set two_timers two_set-Represents (omega arith)
      (omega arith)

abbrev commands : List Command
commands = start 0 7 20 ∷ start 0 8 10 ∷ tick 5000 ∷ start 6000 7 30 ∷ tick 25000 ∷ tick 40000 ∷ []

commands_spec : spec_all commands [] ≡ ([], 8 ∷ 7 ∷ [])
commands_spec = refl

step_all-Refines_example :
    Refines sorted_list (step_all sorted_list commands (init sorted_list)) (spec_all commands [])
step_all-Refines_example =
    step_all-Refines sorted_list commands
      (omega arith, (omega arith, (omega arith, (omega arith, (omega arith, (omega arith, tt))))))
