-- ===== src/Event/Dispatch/Order.antt =====
-- The order of the events of one source in src/agc_event.c, from agc_event_fire to agc_event_deliver.
use common_framework.Base.{
  ℕ, ◌%◌, ◌<◌, ◌≡◌, refl, sym, ap, ◌∙◌, ◌≢◌, inl, inr, some, List, [], ◌∷◌, ◌++◌, append_assoc,
  append-nil, arith, ne→==, length, get_elem?, set, length-set, get_elem?_lt, length-replicate,
  get_elem?-set_cases, get_elem?-replicate, append-nil_inv,
}
use common_framework.Event.Types.{Event}
use common_framework.Event.Nodes.{Table}
use common_framework.Event.Queue.{QueueOps}
use common_framework.Event.Dispatch.{
  State, init, queue_index, Runs, begin, fires, rounds, dispatch_queue_limit,
}
use common_framework.Event.Dispatch.Steps.{
  of_source-append, of_source_other, fire-queued, dispatch_round-delivered, of_source,
}

module _ (ops : QueueOps Event) where
  open ops use {
    Queue, create, trypush, trypop, contents, contents-trypush, contents-trypop, contents-create,
  }

  -- The fired events of each source are those delivered and those in the source's queue, in order.
  record Ordered (m : ℕ) (es : List Event) (t : State ops) : Type 0 where
    size : length t.queues ≡ m
    order :
        (s : ℕ) (q : Queue)
        → s ≢ 0
        → get_elem? t.queues (s % m) ≡ some q
        → of_source s es ≡ of_source s t.handled ++ of_source s (contents q)
    home :
        (s i : ℕ) (q : Queue)
        → s ≢ 0
        → get_elem? t.queues i ≡ some q
        → s % m ≢ i
        → of_source s (contents q) ≡ []

  init-Ordered : (m : ℕ) (nodes : Table) → Ordered m [] (init ops m nodes)
  unfolding init
  init-Ordered m nodes = record {
    size = length-replicate m _;
    order = λ s q ne at. sym (none_in s q (get_elem?-replicate m (s % m) _ q at));
    home = λ s i q ne at away. none_in s q (get_elem?-replicate m i _ q at);
  }
    where
      none_in :
          (s : ℕ) (q : Queue) → q ≡ create dispatch_queue_limit → of_source s (contents q) ≡ []
      none_in s q e = rw (e, contents-create dispatch_queue_limit) refl

  queue_index_away :
      (t : State ops) (e : Event) (random s : ℕ)
      → s ≢ 0
      → s % length t.queues ≢ queue_index ops t e random
      → of_source s (e ∷ []) ≡ []
  unfolding queue_index
  queue_index_away t e random s ne away =
      of_source_other s e (λ same. away (sym (rw (same, ne→== s 0 ne) refl)))

  push-Ordered :
      (m : ℕ) (es : List Event) (t : State ops) (e : Event) (random : ℕ) (q q' : Queue)
      → Ordered m es t
      → get_elem? t.queues (queue_index ops t e random) ≡ some q
      → contents q' ≡ contents q ++ e ∷ []
      → Ordered m
          (es ++ e ∷ [])
          (record t { queues = set t.queues (queue_index ops t e random) q' })
  push-Ordered m es t e random q q' o at grown = record {
    size = length-set t.queues idx q' ∙ o.size;
    order = λ s r ne found. elim (get_elem?-set_cases t.queues idx (s % m) q' r found) [
      | inl (here, value) ↦ order_here s r ne here value
      | inr (differ, old) ↦ order_away s r ne differ old
    ];
    home = λ s i r ne found away. elim (get_elem?-set_cases t.queues idx i q' r found) [
      | inl (here, value) ↦ home_here s i r ne here value away
      | inr (differ, old) ↦ o.home s i r ne old away
    ];
  }
    where
      idx : ℕ
      idx = queue_index ops t e random

      split :
          (s : ℕ) (r : Queue)
          → r ≡ q'
          → of_source s (contents r) ≡ of_source s (contents q) ++ of_source s (e ∷ [])
      split s r value = rw (value, grown) (of_source-append s (contents q) (e ∷ []))

      away_from : (s : ℕ) → s ≢ 0 → idx ≢ s % m → of_source s (e ∷ []) ≡ []
      away_from s ne differ =
          queue_index_away t e random s ne (λ z. differ (sym z ∙ ap (◌%◌ s) o.size))

      order_here :
          (s : ℕ) (r : Queue)
          → s ≢ 0
          → idx ≡ s % m
          → r ≡ q'
          → of_source s (es ++ e ∷ []) ≡ of_source s t.handled ++ of_source s (contents r)
      order_here s r ne here value =
          rw (split s r value, of_source-append s es (e ∷ []), o.order s q ne (rw (sym here) at))
            (append_assoc (of_source s t.handled) (of_source s (contents q)) (of_source s (e ∷ [])))

      order_away :
          (s : ℕ) (r : Queue)
          → s ≢ 0
          → idx ≢ s % m
          → get_elem? t.queues (s % m) ≡ some r
          → of_source s (es ++ e ∷ []) ≡ of_source s t.handled ++ of_source s (contents r)
      order_away s r ne differ old =
          rw (of_source-append s es (e ∷ []), away_from s ne differ)
            (append-nil (of_source s es) ∙ o.order s r ne old)

      home_here :
          (s i : ℕ) (r : Queue)
          → s ≢ 0
          → idx ≡ i
          → r ≡ q'
          → s % m ≢ i
          → of_source s (contents r) ≡ []
      home_here s i r ne here value away =
          rw
            (
              split s r value,
              away_from s ne (λ z. away (sym z ∙ here)),
              o.home s idx q ne at (λ z. away (z ∙ here)),
            )
            refl

  pop-Ordered :
      (m : ℕ) (es : List Event) (t u : State ops) (i : ℕ) (e : Event) (q q' : Queue)
      → Ordered m es t
      → get_elem? t.queues i ≡ some q
      → contents q ≡ e ∷ contents q'
      → u.queues ≡ set t.queues i q'
      → u.handled ≡ t.handled ++ e ∷ []
      → Ordered m es u
  pop-Ordered m es t u i e q q' o at shrunk queues_eq handled_eq = record {
    size = ap length queues_eq ∙ length-set t.queues i q' ∙ o.size;
    order = λ s r ne found.
        elim (get_elem?-set_cases t.queues i (s % m) q' r (rw queues_eq at found)) [
          | inl (here, value) ↦ order_here s r ne here value
          | inr (differ, old) ↦ order_away s r ne differ old
        ];
    home = λ s j r ne found away.
        elim (get_elem?-set_cases t.queues i j q' r (rw queues_eq at found)) [
          | inl (here, value) ↦ rw value (alone s ne (λ z. away (z ∙ here))).1
          | inr (differ, old) ↦ o.home s j r ne old away
        ];
  }
    where
      split : (s : ℕ) → of_source s (contents q) ≡ of_source s (e ∷ []) ++ of_source s (contents q')
      split s = rw shrunk (of_source-append s (e ∷ []) (contents q'))

      alone :
          (s : ℕ)
          → s ≢ 0
          → s % m ≢ i
          → (of_source s (e ∷ []) ≡ []) × (of_source s (contents q') ≡ [])
      alone s ne away = append-nil_inv _ _ (sym (split s) ∙ o.home s i q ne at away)

      order_here :
          (s : ℕ) (r : Queue)
          → s ≢ 0
          → i ≡ s % m
          → r ≡ q'
          → of_source s es ≡ of_source s u.handled ++ of_source s (contents r)
      order_here s r ne here value =
          rw
            (
              handled_eq,
              value,
              of_source-append s t.handled (e ∷ []),
              o.order s q ne (rw (sym here) at),
              split s,
            )
            (sym (
              append_assoc (of_source s t.handled) (of_source s (e ∷ []))
                (of_source s (contents q'))))

      order_away :
          (s : ℕ) (r : Queue)
          → s ≢ 0
          → i ≢ s % m
          → get_elem? t.queues (s % m) ≡ some r
          → of_source s es ≡ of_source s u.handled ++ of_source s (contents r)
      order_away s r ne differ old =
          rw
            (
              handled_eq,
              of_source-append s t.handled (e ∷ []),
              (alone s ne (λ z. differ (sym z))).0,
              append-nil (of_source s t.handled),
            )
            (o.order s r ne old)

  Runs-Ordered :
      (m : ℕ) (nodes : Table) (es : List Event) (u : State ops)
      → Runs ops (init ops m nodes) es u
      → Ordered m es u
  Runs-Ordered m nodes [] u begin = init-Ordered m nodes
  Runs-Ordered m nodes es u (fires {es = es'} {t = t} e random r f) =
      let (q, q', at, grown, u_eq) = fire-queued ops t u e random f in
      rw u_eq (push-Ordered m es' t e random q q' (Runs-Ordered m nodes es' t r) at grown)
  Runs-Ordered m nodes es u (rounds {t = t} i r d) =
      let (e, q, q', at, shrunk, queues_eq, handled_eq) = dispatch_round-delivered ops t u i d in
      pop-Ordered m es t u i e q q' (Runs-Ordered m nodes es t r) at shrunk queues_eq handled_eq

  -- From the start with `m` dispatch queues, in any interleaving of fired events and rounds of the
  -- threads, the events of a source other than 0 all go through one queue: those delivered, followed
  -- by those still in that queue, are those fired, in the order in which they were fired.
  pub Runs-of_source :
      (m : ℕ) (nodes : Table) (es : List Event) (u : State ops) (s : ℕ)
      → Runs ops (init ops m nodes) es u
      → 0 < m
      → s ≢ 0
      → (q : Queue) × (get_elem? u.queues (s % m) ≡ some q)
        × (of_source s u.handled ++ of_source s (contents q) ≡ of_source s es)
  Runs-of_source m nodes es u s r positive ne =
      let o = Runs-Ordered m nodes es u r in
      let (q, at) = get_elem?_lt u.queues (s % m) (rw o.size (omega arith)) in
      (q, at, sym (o.order s q ne at))
