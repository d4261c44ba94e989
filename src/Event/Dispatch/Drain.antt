-- ===== src/Event/Dispatch/Drain.antt =====
-- Rounds in a row of one thread of agc_event_dispatch_thread in src/agc_event.c.
use common_framework.Base.{
  ℕ, zero, suc, ◌≤◌, ◌≡◌, refl, sym, ap, ◌∙◌, subst, inl, inr, true, Option, none, some, List, [],
  ◌∷◌, ◌++◌, append_assoc, append-nil, arith, Option-cases, length, get_elem?, set,
  get_elem?-set_self, lt_of_get_elem?, All,
}
use common_framework.Event.Types.{Event}
use common_framework.Event.Nodes.{Table, Call, deliver_calls}
use common_framework.Event.Queue.{QueueOps}
use common_framework.Event.Dispatch.{
  State, Round, left, idle, fault, delivered, deliver, pop_from, round_at, dispatch_round,
}
use common_framework.Event.Dispatch.Steps.{dispatch_round_running}

length_zero : (l : List Event) → length l ≤ 0 → l ≡ []
length_zero [] h = refl
length_zero (x ∷ l) h = absurd (omega arith)

module _ (ops : QueueOps Event) where
  open ops use {Queue, trypop, contents, contents-trypop, trypop_none}

  -- The state after a round, unless the loop is left or the table of nodes is exceeded.
  abbrev pub after_round :
      State ops → Round ops → (State ops → Option (State ops)) → Option (State ops)
  after_round t left next = none
  after_round t fault next = none
  after_round t idle next = next t
  after_round t (delivered u) next = next u

  -- So many rounds of thread `i` in a row.
  unfoldable pub run_rounds : ℕ → ℕ → State ops → Option (State ops)
  run_rounds zero i t = some t
  run_rounds (suc n) i t = after_round t (dispatch_round ops t i) (run_rounds n i)

  abbrev pub Deliverable : Table → Event → Type 0
  Deliverable nodes e = (cs : List Call) × (deliver_calls true nodes e ≡ some cs)

  abbrev handed : State ops → ℕ → Event → Queue → List Call → State ops
  handed t i e q cs = record t {
    queues = set t.queues i q;
    handled = t.handled ++ e ∷ [];
    calls = t.calls ++ cs;
  }

  deliver-handed :
      (t : State ops) (i : ℕ) (e : Event) (q : Queue) (cs : List Call)
      → deliver_calls t.running t.nodes e ≡ some cs
      → deliver ops t i e q ≡ delivered (handed t i e q cs)
  unfolding deliver
  deliver-handed t i e q cs h = ground (arith, h)

  round_idle :
      (t : State ops) (i : ℕ) (q : Queue)
      → t.running ≡ true
      → get_elem? t.queues i ≡ some q
      → trypop q ≡ none
      → dispatch_round ops t i ≡ idle
  unfolding round_at pop_from
  round_idle t i q on at empty =
      dispatch_round_running ops t i on ∙ (ap (round_at ops t i) at ∙ ap (pop_from ops t i) empty)

  round_handed :
      (t : State ops) (i : ℕ) (e : Event) (q q' : Queue) (cs : List Call)
      → t.running ≡ true
      → get_elem? t.queues i ≡ some q
      → trypop q ≡ some (e, q')
      → deliver_calls true t.nodes e ≡ some cs
      → dispatch_round ops t i ≡ delivered (handed t i e q' cs)
  unfolding round_at pop_from
  round_handed t i e q q' cs on at popped called =
      dispatch_round_running ops t i on
      ∙ (ap (round_at ops t i) at
          ∙ (ap (pop_from ops t i) popped
              ∙ deliver-handed t i e q' cs (ap (λ b. deliver_calls b t.nodes e) on ∙ called)))

  -- While the system runs and no event in the queue of thread `i` has an id outside the table of
  -- nodes, at least as many rounds of the thread as there are events in the queue all end, leave the
  -- queue empty and deliver exactly these events, in order.
  pub run_rounds_lem :
      (n i : ℕ) (t : State ops) (q : Queue)
      → t.running ≡ true
      → get_elem? t.queues i ≡ some q
      → length (contents q) ≤ n
      → All (Deliverable t.nodes) (contents q)
      → (u : State ops) × (q' : Queue) × (run_rounds n i t ≡ some u)
        × (get_elem? u.queues i ≡ some q')
        × (contents q' ≡ [])
        × (u.handled ≡ t.handled ++ contents q)
  unfolding run_rounds
  run_rounds_lem zero i t q on at l d =
      let empty = length_zero (contents q) l in
      (t, q, refl, at, empty, sym (ap (λ x. t.handled ++ x) empty ∙ append-nil t.handled))
  run_rounds_lem (suc n) i t q on at l d = elim (Option-cases (trypop q)) [
    | inl empty ↦
        let none_left = trypop_none q empty in
        let (u, q', ran, at', done, handled_eq) =
          run_rounds_lem n i t q on at (subst (λ x. length x ≤ n) (sym none_left) (omega arith))
            d in
        (
          u,
          q',
          ap (λ r. after_round t r (run_rounds n i)) (round_idle t i q on at empty) ∙ ran,
          at',
          done,
          handled_eq,
        )
    | inr ((e, q1), popped) ↦
        let c = contents-trypop e q q1 popped in
        let fewer : length (contents q) ≡ suc (length (contents q1)) = ap length c in
        let ((cs, called), ds) = subst (All (Deliverable t.nodes)) c d in
        let (u, q', ran, at', done, handled_eq) =
          run_rounds_lem n i (handed t i e q1 cs) q1 on
            (get_elem?-set_self t.queues i q1 (lt_of_get_elem? t.queues i q at)) (omega arith) ds in
        (
          u,
          q',
          ap (λ r. after_round t r (run_rounds n i))
                (round_handed t i e q q1 cs on at popped called)
              ∙ ran,
          at',
          done,
          handled_eq
              ∙ (append_assoc t.handled (e ∷ []) (contents q1) ∙ ap (λ x. t.handled ++ x) (sym c)),
        )
  ]
