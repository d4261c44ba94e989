-- ===== src/Event/Dispatch/Steps.antt =====
-- What a fired event and a round of a dispatch thread do to the queues.
use common_framework.Base.{
  ℕ, ◌≡◌, refl, sym, ap, ◌∙◌, ◌≢◌, inl, inr, true, Option, none, some, List, [], ◌∷◌, ◌++◌, arith,
  ◌==◌, ne→==, Bool-cases, Option-cases, get_elem?, set, keep,
}
use common_framework.Event.Types.{Event}
use common_framework.Event.Nodes.{deliver_calls}
use common_framework.Event.Queue.{QueueOps}
use common_framework.Event.Dispatch.{
  State, queue_index, queued, push_to, fire, delivered, deliver, pop_from, round_at, dispatch_round,
}

abbrev pub of_source : ℕ → List Event → List Event
of_source s = keep (λ e. e.source_id == s)

pub of_source-append :
    (s : ℕ) (xs ys : List Event) → of_source s (xs ++ ys) ≡ of_source s xs ++ of_source s ys
of_source-append s [] ys = refl
of_source-append s (x ∷ xs) ys = elim (Bool-cases (x.source_id == s)) [
  | inl hit ↦ rw hit (ap (◌∷◌ x) (of_source-append s xs ys))
  | inr miss ↦ rw miss (of_source-append s xs ys)
]

pub of_source_other : (s : ℕ) (e : Event) → e.source_id ≢ s → of_source s (e ∷ []) ≡ []
of_source_other s e ne = rw (ne→== e.source_id s ne) refl

module _ (ops : QueueOps Event) where
  open ops use {
    Queue, create, trypush, trypop, contents, contents-trypush, contents-trypop, contents-create,
  }

  push_to-queued :
      (t u : State ops) (i : ℕ) (e : Event) (o : Option Queue)
      → push_to ops t i e o ≡ queued u
      → (q : Queue) × (q' : Queue) × (o ≡ some q)
        × (trypush e q ≡ some q')
        × (u ≡ record t { queues = set t.queues i q' })
  unfolding push_to
  push_to-queued t u i e none h = cc
  push_to-queued t u i e (some q) h = elim (Option-cases (trypush e q)) [
    | inl full ↦ absurd (ground arith)
    | inr (q', pushed) ↦ (q, q', refl, pushed, ground arith)
  ]

  fire_running :
      (t : State ops) (e : Event) (random : ℕ)
      → t.running ≡ true
      → fire ops t (some e) random
        ≡ push_to ops t
            (queue_index ops t e random)
            e
            (get_elem? t.queues (queue_index ops t e random))
  unfolding fire
  fire_running t e random on = simp on

  pub dispatch_round_running :
      (t : State ops) (i : ℕ)
      → t.running ≡ true
      → dispatch_round ops t i ≡ round_at ops t i (get_elem? t.queues i)
  unfolding dispatch_round
  dispatch_round_running t i on = simp on

  -- What a queued event does to the state.
  pub fire-queued :
      (t u : State ops) (e : Event) (random : ℕ)
      → fire ops t (some e) random ≡ queued u
      → (q : Queue) × (q' : Queue) × (get_elem? t.queues (queue_index ops t e random) ≡ some q)
        × (contents q' ≡ contents q ++ e ∷ [])
        × (u ≡ record t { queues = set t.queues (queue_index ops t e random) q' })
  unfolding fire
  fire-queued t u e random h = elim (Bool-cases t.running) [
    | inl on ↦
        let (q, q', at, pushed, u_eq) =
          push_to-queued t u _ e _ (sym (fire_running t e random on) ∙ h) in
        (q, q', at, contents-trypush e q q' pushed, u_eq)
    | inr off ↦ absurd (ground arith)
  ]

  deliver-delivered :
      (t u : State ops) (i : ℕ) (e : Event) (q : Queue)
      → deliver ops t i e q ≡ delivered u
      → (u.queues ≡ set t.queues i q) × (u.handled ≡ t.handled ++ e ∷ [])
  unfolding deliver
  deliver-delivered t u i e q h = elim (Option-cases (deliver_calls t.running t.nodes e)) [
    | inl bad ↦ absurd (ground arith)
    | inr (cs, calls) ↦ (ground arith, ground arith)
  ]

  pop_from-delivered :
      (t u : State ops) (i : ℕ) (o : Option (Event × Queue))
      → pop_from ops t i o ≡ delivered u
      → (e : Event) × (q' : Queue) × (o ≡ some (e, q')) × (deliver ops t i e q' ≡ delivered u)
  unfolding pop_from
  pop_from-delivered t u i none h = cc
  pop_from-delivered t u i (some (e, q')) h = (e, q', refl, h)

  round_at-delivered :
      (t u : State ops) (i : ℕ) (o : Option Queue)
      → round_at ops t i o ≡ delivered u
      → (q : Queue) × (e : Event) × (q' : Queue) × (o ≡ some q)
        × (trypop q ≡ some (e, q'))
        × (deliver ops t i e q' ≡ delivered u)
  unfolding round_at
  round_at-delivered t u i none h = cc
  round_at-delivered t u i (some q) h =
      let (e, q', popped, d) = pop_from-delivered t u i (trypop q) h in (q, e, q', refl, popped, d)

  -- What a round that delivers an event does to the state.
  pub dispatch_round-delivered :
      (t u : State ops) (i : ℕ)
      → dispatch_round ops t i ≡ delivered u
      → (e : Event) × (q : Queue) × (q' : Queue) × (get_elem? t.queues i ≡ some q)
        × (contents q ≡ e ∷ contents q')
        × (u.queues ≡ set t.queues i q')
        × (u.handled ≡ t.handled ++ e ∷ [])
  unfolding dispatch_round
  dispatch_round-delivered t u i h = elim (Bool-cases t.running) [
    | inl on ↦
        let (q, e, q', at, popped, d) =
          round_at-delivered t u i _ (sym (dispatch_round_running t i on) ∙ h) in
        let (queues_eq, handled_eq) = deliver-delivered t u i e q' d in
        (e, q, q', at, contents-trypop e q q' popped, queues_eq, handled_eq)
    | inr off ↦ absurd (ground arith)
  ]
