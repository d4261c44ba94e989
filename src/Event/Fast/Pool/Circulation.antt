-- ===== src/Event/Fast/Pool/Circulation.antt =====
-- The events of one type that go round between their queue and their users.
use common_framework.Base.{
  ℕ, suc, ◌+◌, ◌<◌, ◌≡◌, sym, ap, ◌∙◌, subst, ◌⊎◌, inl, inr, false, Option, none, some, List, [],
  ◌∷◌, ◌++◌, arith, Status, success, leb, Option-cases, some_inj, length, get_elem?, set,
  length-append, get_elem?-set_self, lt_of_get_elem?, All-append,
}
use common_framework.Base.CString.{CString}
use common_framework.Base.Int.{ℤ, pos}
use common_framework.Event.Queue.{QueueOps}
use common_framework.Event.Fast.{FastEvent, event_fast_types, fast_event_create}
use common_framework.Event.Fast.Pool.{
  Pools, pool_at, new_pool, put_pool, initial_at, fast_initial, alloc_from, alloc_at, fast_alloc,
  released, release_at, fast_release, Circulates, begins, allocates, releases,
}
use common_framework.Event.Fast.Pool.Filling.{
  OfType, OfType-append_inv, fast_event_create-type, push_fits, length-snoc, new_pool_cases,
}

module _ (ops : QueueOps FastEvent) where
  open ops use {
    Queue, create, trypush, trypop, contents, capacity, contents-create, capacity-create,
    contents-trypush, capacity-trypush, trypush_room, contents-trypop, capacity-trypop, trypop_none,
  }

  -- Some of the type's events wait in its queue and the others are held; the queue has room for all.
  record Pooled (type n : ℕ) (p : Pools ops) (held : List FastEvent) : Type 0 where
    queue : Queue
    at : get_elem? p type ≡ some (some queue)
    room : capacity queue ≡ n + 10
    balance : length (contents queue) + length held ≡ n
    waiting : OfType type (contents queue)
    out : OfType type held

  fast_initial-put_pool :
      (p : Pools ops) (type n : ℕ) (i : ℤ) (hs : List CString) (ls : List ℕ) (b : ℕ)
      → get_elem? p type ≡ some none
      → type < event_fast_types
      → fast_initial ops p (pos type) i n hs ls b
        ≡ put_pool ops p (pos type) (new_pool ops n (fast_event_create type i hs ls b))
  unfolding fast_initial pool_at initial_at
  fast_initial-put_pool p type n i hs ls b at l =
      let small : leb event_fast_types type ≡ false = ground arith in simp (small, at)

  put_pool-Pooled :
      (p p' : Pools ops) (type n : ℕ) (new : Option (Queue × Status))
      → get_elem? p type ≡ some none
      → (new ≡ none)
        ⊎ ((q : Queue) × (new ≡ some (q, success))
            × (capacity q ≡ n + 10)
            × (length (contents q) ≡ n)
            × OfType type (contents q))
      → put_pool ops p (pos type) new ≡ some (p', success)
      → Pooled type n p' []
  unfolding put_pool
  put_pool-Pooled p p' type n new at (inl bad) h =
      let stuck : put_pool ops p (pos type) new ≡ none = ap (put_pool ops p (pos type)) bad in cc
  put_pool-Pooled p p' type n new at (inr (q, made, s, len, a)) h =
      let step : some (p', success) ≡ some (set p type (some q), success) =
        sym h ∙ ap (put_pool ops p (pos type)) made in
      let p'_eq : p' ≡ set p type (some q) = ap (λ x. x.0) (some_inj step) in
      record {
        queue = q;
        at =
            ap (λ x. get_elem? x type) p'_eq
            ∙ get_elem?-set_self p type (some q) (lt_of_get_elem? p type none at);
        room = s;
        balance = omega arith;
        waiting = a;
        out = tt;
      }

  fast_alloc-alloc_from :
      (p : Pools ops) (type : ℕ) (q : Queue)
      → get_elem? p type ≡ some (some q)
      → type < event_fast_types
      → fast_alloc ops p (pos type) ≡ some (alloc_from ops p (pos type) (trypop q))
  unfolding fast_alloc pool_at alloc_at
  fast_alloc-alloc_from p type q at l =
      let small : leb event_fast_types type ≡ false = ground arith in simp (small, at)

  alloc_from-success :
      (p p' : Pools ops) (type : ℕ) (o : Option (FastEvent × Queue)) (e : FastEvent)
      → alloc_from ops p (pos type) o ≡ (p', some e, success)
      → (q : Queue) × (o ≡ some (e, q)) × (p' ≡ set p type (some q))
  unfolding alloc_from
  alloc_from-success p p' type none e h = cc
  alloc_from-success p p' type (some (e1, q)) e h = (q, ground arith, ground arith)

  fast_alloc-Pooled :
      (p p' : Pools ops) (type n : ℕ) (held : List FastEvent) (e : FastEvent)
      → Pooled type n p held
      → type < event_fast_types
      → fast_alloc ops p (pos type) ≡ some (p', some e, success)
      → Pooled type n p' (e ∷ held)
  fast_alloc-Pooled p p' type n held e o l h =
      let step = some_inj (sym (fast_alloc-alloc_from p type o.queue o.at l) ∙ h) in
      let (q, popped, p'_eq) = alloc_from-success p p' type (trypop o.queue) e step in
      let c = contents-trypop e o.queue q popped in
      let fewer : length (contents o.queue) ≡ suc (length (contents q)) = ap length c in
      let (te, ts) = subst (OfType type) c o.waiting in
      record {
        queue = q;
        at =
            ap (λ x. get_elem? x type) p'_eq
            ∙ get_elem?-set_self p type (some q) (lt_of_get_elem? p type _ o.at);
        room = capacity-trypop e o.queue q popped ∙ o.room;
        balance = omega (arith, o.balance);
        waiting = ts;
        out = (te, o.out);
      }

  -- A release finds room, so the event is behind the others afterwards.
  fast_release-pushed :
      (p : Pools ops) (type : ℕ) (e : FastEvent) (q : Queue)
      → e.type_of ≡ type
      → get_elem? p type ≡ some (some q)
      → length (contents q) < capacity q
      → (q' : Queue) × (trypush e q ≡ some q')
        × (contents q' ≡ contents q ++ e ∷ [])
        × (fast_release ops p (some e) ≡ some (set p type (some q'), none, success))
  unfolding fast_release release_at released
  fast_release-pushed p type e q t at l =
      let (q', h, c, _) = push_fits ops e q l in (q', h, c, simp (t, at, h))

  fast_release-Pooled :
      (p p' : Pools ops) (type n : ℕ) (before after : List FastEvent) (e e' : FastEvent)
      → Pooled type n p (before ++ e ∷ after)
      → e'.type_of ≡ e.type_of
      → fast_release ops p (some e') ≡ some (p', none, success)
      → Pooled type n p' (before ++ after)
  fast_release-Pooled p p' type n before after e e' o t h =
      let (te, ts) = OfType-append_inv type before e after o.out in
      let more : length (before ++ e ∷ after) ≡ suc (length (before ++ after)) =
        omega (arith, length-append before (e ∷ after), length-append before after) in
      let (q', pushed, c, r) =
        fast_release-pushed p type e' o.queue (t ∙ te) o.at (omega (arith, o.balance, o.room)) in
      let p'_eq : p' ≡ set p type (some q') = ap (λ x. x.0) (some_inj (sym h ∙ r)) in
      let grown : length (contents q') ≡ suc (length (contents o.queue)) =
        ap length c ∙ length-snoc ops (contents o.queue) e' in
      record {
        queue = q';
        at =
            ap (λ x. get_elem? x type) p'_eq
            ∙ get_elem?-set_self p type (some q') (lt_of_get_elem? p type _ o.at);
        room = capacity-trypush e' o.queue q' pushed ∙ o.room;
        balance = omega (arith, o.balance);
        waiting = subst (OfType type) (sym c) (
            All-append (λ x. x.type_of ≡ type) (contents o.queue) (e' ∷ []) o.waiting (t ∙ te, tt));
        out = ts;
      }

  Circulates-Pooled :
      (type n : ℕ) (start p : Pools ops) (held : List FastEvent)
      → Pooled type n start []
      → type < event_fast_types
      → Circulates ops type start p held
      → Pooled type n p held
  Circulates-Pooled type n start p held o l begins = o
  Circulates-Pooled type n start p held o l (allocates {p = p1} {held = held1} e c h) =
      fast_alloc-Pooled p1 p type n held1 e (Circulates-Pooled type n start p1 held1 o l c) l h
  Circulates-Pooled type n start p held o l (releases {p = p1} before after e e' c t h) =
      fast_release-Pooled p1 p type n before after e e'
        (Circulates-Pooled type n start p1 (before ++ e ∷ after) o l c) t h

  -- Once agc_event_fast_initial has made `n` events of a type whose queue did not exist, then after any
  -- allocations and releases the events in the type's queue and those held are `n` together; and
  -- all are held or agc_event_fast_alloc succeeds.
  pub fast_initial-Circulates :
      (p start t : Pools ops) (type n : ℕ) (i : ℤ) (hs : List CString) (ls : List ℕ) (b : ℕ)
      (held : List FastEvent)
      → get_elem? p type ≡ some none
      → type < event_fast_types
      → fast_initial ops p (pos type) i n hs ls b ≡ some (start, success)
      → Circulates ops type start t held
      → (q : Queue) × (get_elem? t type ≡ some (some q))
        × (length (contents q) + length held ≡ n)
        × ((length held ≡ n)
            ⊎ ((e : FastEvent) × (t' : Pools ops) × (fast_alloc ops t (pos type)
                  ≡ some (t', some e, success))))
  unfolding alloc_from
  fast_initial-Circulates p start t type n i hs ls b held at l h c =
      let o =
        Circulates-Pooled type n start t held
          (put_pool-Pooled p start type n _ at
            (new_pool_cases ops type n (fast_event_create type i hs ls b)
              (fast_event_create-type type i hs ls b))
            (sym (fast_initial-put_pool p type n i hs ls b at l) ∙ h))
          l c in
      (
        o.queue,
        o.at,
        o.balance,
        elim (Option-cases (trypop o.queue)) [
          | inl empty ↦
              let gone : length (contents o.queue) ≡ 0 = ap length (trypop_none o.queue empty) in
              inl (omega (arith, o.balance))
          | inr ((e, q), popped) ↦ inr (
            e,
            set t type (some q),
            fast_alloc-alloc_from t type o.queue o.at l
                ∙ ap (λ x. some (alloc_from ops t (pos type) x)) popped,
          )
        ],
      )
