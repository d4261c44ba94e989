-- ===== src/Event/Headers/Tests.antt =====
-- Runs of the header functions on an event with the two headers "a" and "B".
use common_framework.Base.{◌≡◌, refl, false, none, some, List, [], ◌∷◌, arith, success}
use common_framework.Base.CString.{lit, tolower, same_nocase}
use common_framework.Base.Int.{pos}
use common_framework.Event.Memory.{
  null, header, Memory, write, load, store, set_next, free, done, Ends,
}
use common_framework.Event.Types.{Event}
use common_framework.Event.Headers.{get_header, add_header_string, del_header, dup, destroy}
use common_framework.Event.Headers.Chain.{Cell, cell, IsEvent}
use common_framework.Event.Headers.Lookup.{get_header_lem}
use common_framework.Event.Headers.Add.{Added, add_header_string-Added}
use common_framework.Event.Headers.Relink.{Cyclic, add_header_string-Cyclic}
use common_framework.Event.Headers.Delete.{Deleted, del_header-Deleted}
use common_framework.Event.Headers.Dup.{Duplicate, Destroyed, dup-Duplicate, destroy-Destroyed}

abbrev cells : List Cell
cells = cell 1 (lit "a") (lit "x") ∷ cell 2 (lit "B") (lit "y") ∷ []

abbrev memory : Memory
memory =
    write (write (λ _. none) 1 (some (header (lit "a") (lit "x") 2))) 2
      (some (header (lit "B") (lit "y") null))

abbrev event : Event
event = record {
  event_id = pos 7;
  source_id = 3;
  headers = 1;
  last_header = 2;
  context = 0;
  body = some (lit "text");
  call_back = none;
  timer_set = false;
}

event-IsEvent : IsEvent memory event cells
unfolding write
event-IsEvent = record {
  chain = (
    record { not_null = omega arith; cell = refl },
    refl,
    (record { not_null = omega arith; cell = refl }, refl, tt),
  );
  first = refl;
  last = refl;
}

get_header_lem_example : get_header 3 event (some (lit "b")) memory ≡ done (some (lit "y")) memory
unfolding same_nocase tolower
get_header_lem_example = get_header_lem memory (lit "b") 3 event cells event-IsEvent (omega arith)

add_header_string-Added_example :
    Ends
      (λ (e', s) g. (s ≡ success) × Added memory event cells (cell 3 (lit "c") (lit "z")) e' g)
      (add_header_string 3 3 event (lit "c") (some (lit "z")) memory)
unfolding write same_nocase tolower
add_header_string-Added_example =
    add_header_string-Added memory event cells event-IsEvent 3 (omega arith) refl 3 (lit "c")
      (lit "z") (omega arith) refl

add_header_string-Cyclic_example :
    Ends
      (λ (e', s) g. (s ≡ success) × Cyclic cells e' g)
      (add_header_string 3 3 event (lit "A") (some (lit "z")) memory)
unfolding same_nocase tolower
add_header_string-Cyclic_example =
    add_header_string-Cyclic memory event cells 3 3 (lit "A") (lit "z") event-IsEvent (omega arith)
      refl

del_header-Deleted_example :
    Ends (Deleted (lit "b") memory cells) (del_header 3 event (lit "b") memory)
del_header-Deleted_example =
    del_header-Deleted (lit "b") 3 memory event cells event-IsEvent (omega arith)

dup-Duplicate_example :
    Ends (Duplicate memory event cells (4 ∷ 5 ∷ [])) (dup 3 (4 ∷ 5 ∷ []) event memory)
unfolding write same_nocase tolower
dup-Duplicate_example =
    dup-Duplicate 3 memory event cells (4 ∷ 5 ∷ []) event-IsEvent (refl, (refl, tt))
      (omega arith, refl, (omega arith, tt), (omega arith, refl, tt, tt)) (omega arith)
      (omega arith)

destroy-Destroyed_example :
    Ends (λ p g. (p ≡ none) × Destroyed cells memory g) (destroy 3 (some event) memory)
destroy-Destroyed_example = destroy-Destroyed 3 memory event cells event-IsEvent (omega arith)

-- The removal of "b", run on the nodes.
del_header_runs :
    Ends (λ e g. (e.last_header ≡ 1) × (g 2 ≡ none)) (del_header 3 event (lit "b") memory)
unfolding del_header load store set_next free write same_nocase tolower
del_header_runs = (refl, refl)
