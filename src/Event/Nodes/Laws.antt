-- ===== src/Event/Nodes/Laws.antt =====
-- Binding, unbinding and delivery in src/agc_event.c.
use common_framework.Base.{
  ℕ, ◌+◌, ◌-◌, ◌<◌, ◌≡◌, refl, sym, ap, ◌∙◌, ◌≢◌, ◌⊎◌, inl, inr, Bool, true, false, not, ◌||◌,
  Option, none, some, List, [], ◌∷◌, ◌++◌, arith, success, status_false, generr, ltb, ◌==◌,
  if◌then◌else◌, ltb→lt, ==→eq, ==→ne, ne→==, ==_refl, Bool-cases, Option-cases, some_inj, length,
  get_elem?, set, get_elem?-set_self, get_elem?-set_ne, get_elem?_lt, get_elem?_ge, set-set,
  set-get_elem?, lt_of_get_elem?, keep, All,
}
use common_framework.Base.CString.{CString}
use common_framework.Base.Int.{ℤ, pos, negsuc}
use common_framework.Event.Types.{Event, event_id_limit}
use common_framework.Event.Nodes.{
  Call, Node, Table, nodes_of, bind_removable, drop_node, unbind, drop_callback, unbind_callback,
  call_event, calls_of, calls_by, deliver_calls, unbind_from,
}

abbrev pub node : ℕ → CString → ℤ → ℕ → Node
node a id i f = record { at = a; id = id; event_id = i; callback = f }

-- On a table of the declared size agc_event_bind_removable puts the node before the others of its
-- id for the ids 0 to 1023 and refuses ids above 1024, but with the id 1024 or a negative id it
-- passes the check and reaches outside the table.
pub bind_removable_cases :
    (fresh : ℕ) (t : Table) (id : CString) (i : ℤ) (f : ℕ)
    → length t ≡ event_id_limit
    → ((n : ℕ) × (l : List Node) × (i ≡ pos n)
        × (n < event_id_limit)
        × (get_elem? t n ≡ some l)
        × (bind_removable fresh t id i f
            ≡ some (set t n (node fresh id i f ∷ l), some (node fresh id i f), success)))
      ⊎ (((n : ℕ) × (i ≡ pos n)
            × (event_id_limit < n)
            × (bind_removable fresh t id i f ≡ some (t, none, generr)))
          ⊎ (((i ≡ pos event_id_limit) ⊎ ((n : ℕ) × (i ≡ negsuc n)))
              × (bind_removable fresh t id i f ≡ none)))
unfolding bind_removable nodes_of
bind_removable_cases fresh t id (negsuc n) f l = inr (inr (inr (n, refl), refl))
bind_removable_cases fresh t id (pos n) f l = elim (Bool-cases (ltb n event_id_limit)) [
  | inl small ↦
      let lt = ltb→lt n event_id_limit small in
      let (x, e) = get_elem?_lt t n (omega arith) in
      let ok : ltb event_id_limit n ≡ false = ground arith in inl (n, x, refl, lt, e, rw (ok, e))
  | inr big ↦ elim (Bool-cases (ltb event_id_limit n)) [
    | inl over ↦ inr (inl (n, refl, ltb→lt event_id_limit n over, rw over))
    | inr no_over ↦
        let at_limit : n ≡ event_id_limit = ground arith in
        inr (inr (inl (ap pos at_limit), rw (no_over, get_elem?_ge t n (omega arith))))
  ]
]

bind_removable-success :
    (fresh : ℕ) (t t' : Table) (id : CString) (n : ℕ) (f : ℕ) (p : Option Node)
    → bind_removable fresh t id (pos n) f ≡ some (t', p, success)
    → (l : List Node) × (get_elem? t n ≡ some l)
      × (t' ≡ set t n (node fresh id (pos n) f ∷ l))
      × (p ≡ some (node fresh id (pos n) f))
unfolding bind_removable nodes_of
bind_removable-success fresh t t' id n f p e = elim (Option-cases (get_elem? t n)) [
  | inl missing ↦ absurd (ground arith)
  | inr (l, at) ↦ (l, at, ground arith, ground arith)
]

bind_removable-negative :
    (fresh : ℕ) (t : Table) (id : CString) (n : ℕ) (f : ℕ)
    → bind_removable fresh t id (negsuc n) f ≡ none
unfolding bind_removable nodes_of
bind_removable-negative fresh t id n f = refl

unbind_first :
    (t : Table) (n : ℕ) (x : Node) (l : List Node)
    → get_elem? t n ≡ some (x ∷ l)
    → x.event_id ≡ pos n
    → unbind t (some x) ≡ some (set t n l, none, success)
unfolding unbind unbind_from drop_node nodes_of
unbind_first t n x l at i = simp (i, at, ==_refl x.at)

-- A node that has just been bound is unbound again by agc_event_unbind, which leaves the table as it
-- was before and clears the caller's pointer.
pub unbind-bind_removable :
    (fresh : ℕ) (t t' : Table) (id : CString) (i : ℤ) (f : ℕ) (p : Option Node)
    → bind_removable fresh t id i f ≡ some (t', p, success)
    → unbind t' p ≡ some (t, none, success)
unbind-bind_removable fresh t t' id (negsuc n) f p e = cc (bind_removable-negative fresh t id n f)
unbind-bind_removable fresh t t' id (pos n) f p e =
    let (l, at, t'_eq, p_eq) = bind_removable-success fresh t t' id n f p e in
    rw (t'_eq, p_eq) (undo l at)
  where
    new : Node
    new = node fresh id (pos n) f

    undo :
        (l : List Node)
        → get_elem? t n ≡ some l
        → unbind (set t n (new ∷ l)) (some new) ≡ some (t, none, success)
    undo l at =
        unbind_first (set t n (new ∷ l)) n new l
          (get_elem?-set_self t n (new ∷ l) (lt_of_get_elem? t n l at)) refl
        ∙ ap (λ x. some (x, none, success)) (set-set t n (new ∷ l) l ∙ set-get_elem? t n l at)

drop_node_cases :
    (a : ℕ) (l : List Node)
    → ((before after : List Node) × (y : Node) × (l ≡ before ++ y ∷ after)
        × (y.at ≡ a)
        × All (λ z. z.at ≢ a) before
        × (drop_node a l ≡ (before ++ after, true)))
      ⊎ (All (λ z. z.at ≢ a) l × (drop_node a l ≡ (l, false)))
unfolding drop_node
drop_node_cases a [] = inr (tt, refl)
drop_node_cases a (n ∷ l) = elim (Bool-cases (n.at == a)) [
  | inl here ↦ inl ([], l, n, refl, ==→eq n.at a here, tt, rw here)
  | inr away ↦ elim (drop_node_cases a l) [
    | inl (before, after, y, split, same, others, e) ↦
        inl
          (n ∷ before, after, y, ap (◌∷◌ n) split, same, (==→ne n.at a away, others), rw (away, e))
    | inr (others, e) ↦ inr ((==→ne n.at a away, others), rw (away, e))
  ]
]

-- agc_event_unbind takes the node at the given address out of the list of its id and keeps the order
-- of the others; if the node is not there, it changes nothing and reports a failure.
pub unbind_cases :
    (t : Table) (n : ℕ) (x : Node) (l : List Node)
    → get_elem? t n ≡ some l
    → x.event_id ≡ pos n
    → ((before after : List Node) × (y : Node) × (l ≡ before ++ y ∷ after)
        × (y.at ≡ x.at)
        × All (λ z. z.at ≢ x.at) before
        × (unbind t (some x) ≡ some (set t n (before ++ after), none, success)))
      ⊎ (All (λ z. z.at ≢ x.at) l × (unbind t (some x) ≡ some (t, some x, status_false)))
unfolding unbind nodes_of
unbind_cases t n x l at i = elim (drop_node_cases x.at l) [
  | inl (before, after, y, split, same, others, e) ↦
      inl (before, after, y, split, same, others, simp (i, at, e))
  | inr (others, e) ↦ inr (others, simp (i, at, e))
]

deliver_calls-at :
    (t : Table) (e : Event) (m : ℕ) (l all : List Node)
    → e.call_back ≡ none
    → e.event_id ≡ pos m
    → get_elem? t m ≡ some l
    → get_elem? t 0 ≡ some all
    → deliver_calls true t e ≡ some (calls_of e l ++ calls_of e all)
unfolding deliver_calls
deliver_calls-at t e m l all cb i at at0 = simp (cb, calls_by, i, at, at0)

-- The call of the callback `f`, if the node is bound to the id in question.
abbrev pub call_if : Bool → ℕ → Event → List Call
call_if true f e = call_event f e ∷ []
call_if false f e = []

deliver_calls-bind_own :
    (t : Table) (m : ℕ) (x : Node) (e : Event) (l all : List Node)
    → e.call_back ≡ none
    → e.event_id ≡ pos m
    → m ≢ 0
    → get_elem? t m ≡ some l
    → get_elem? t 0 ≡ some all
    → deliver_calls true (set t m (x ∷ l)) e
      ≡ some (call_event x.callback e ∷ calls_of e l ++ calls_of e all)
deliver_calls-bind_own t m x e l all cb i ne at at0 =
    deliver_calls-at _ e m (x ∷ l) all cb i (get_elem?-set_self t m _ (lt_of_get_elem? t m l at))
      (get_elem?-set_ne t m 0 _ ne ∙ at0)

deliver_calls-bind_all :
    (t : Table) (m : ℕ) (x : Node) (e : Event) (l all : List Node)
    → e.call_back ≡ none
    → e.event_id ≡ pos m
    → m ≢ 0
    → get_elem? t m ≡ some l
    → get_elem? t 0 ≡ some all
    → deliver_calls true (set t 0 (x ∷ all)) e
      ≡ some (calls_of e l ++ call_event x.callback e ∷ calls_of e all)
deliver_calls-bind_all t m x e l all cb i ne at at0 =
    deliver_calls-at _ e m l (x ∷ all) cb i (get_elem?-set_ne t 0 m _ (λ z. ne (sym z)) ∙ at)
      (get_elem?-set_self t 0 _ (lt_of_get_elem? t 0 all at0))

deliver_calls-bind_other :
    (t : Table) (n m : ℕ) (k : List Node) (e : Event) (l all : List Node)
    → e.call_back ≡ none
    → e.event_id ≡ pos m
    → n ≢ m
    → n ≢ 0
    → get_elem? t m ≡ some l
    → get_elem? t 0 ≡ some all
    → deliver_calls true (set t n k) e ≡ some (calls_of e l ++ calls_of e all)
deliver_calls-bind_other t n m k e l all cb i ne ne0 at at0 =
    deliver_calls-at _ e m l all cb i (get_elem?-set_ne t n m k ne ∙ at)
      (get_elem?-set_ne t n 0 k ne0 ∙ at0)

-- After a bind to the id `n`, delivery of an event of another id than EVENT_ID_ALL without a callback
-- of its own makes the calls for the event's id, then those for EVENT_ID_ALL; the new callback is
-- called first among those of its own id, and not at all if `n` is neither of the two.
pub deliver_calls-bind :
    (fresh : ℕ) (t t' : Table) (id : CString) (n m : ℕ) (f : ℕ) (p : Option Node) (e : Event)
    (l all : List Node)
    → bind_removable fresh t id (pos n) f ≡ some (t', p, success)
    → e.call_back ≡ none
    → e.event_id ≡ pos m
    → m ≢ 0
    → get_elem? t m ≡ some l
    → get_elem? t 0 ≡ some all
    → deliver_calls true t' e
      ≡ some (call_if (n == m) f e ++ (calls_of e l ++ (call_if (n == 0) f e ++ calls_of e all)))
deliver_calls-bind fresh t t' id n m f p e l all b cb i ne at at0 =
    let (k, at_n, t'_eq, _) = bind_removable-success fresh t t' id n f p b in
    ap (λ x. deliver_calls true x e) t'_eq ∙ elim (Bool-cases (n == m)) [
      | inl own ↦
          let q = ==→eq n m own in
          let k_eq : k ≡ l = some_inj (sym at_n ∙ ap (get_elem? t) q ∙ at) in
          rw (k_eq, q, ==_refl m, ne→== m 0 ne)
            (deliver_calls-bind_own t m (node fresh id (pos m) f) e l all cb i ne at at0)
      | inr away ↦ elim (Bool-cases (n == 0)) [
        | inl every ↦
            let q = ==→eq n 0 every in
            let k_eq : k ≡ all = some_inj (sym at_n ∙ ap (get_elem? t) q ∙ at0) in
            rw (away, every, k_eq, q)
              (deliver_calls-bind_all t m (node fresh id (pos 0) f) e l all cb i ne at at0)
        | inr other ↦
            rw (away, other)
              (deliver_calls-bind_other t n m (node fresh id (pos n) f ∷ k) e l all cb i
                (==→ne n m away) (==→ne n 0 other) at at0)
      ]
    ]

abbrev pub with_callback : ℕ → List Node → ℕ
with_callback f [] = 0
with_callback f (n ∷ l) = (if n.callback == f then 1 else 0) + with_callback f l

abbrev pub others : ℕ → List Node → List Node
others f = keep (λ n. not (n.callback == f))

-- One list before and after agc_event_unbind_callback.
abbrev pub Unbound : ℕ → List Node → List Node → Type 0
Unbound f l l' = (with_callback f l' ≡ with_callback f l - 1) × (others f l' ≡ others f l)

abbrev pub UnboundAll : ℕ → Table → Table → Type 0
UnboundAll f [] [] = Unit {0}
UnboundAll f [] (l' ∷ t') = ⊥
UnboundAll f (l ∷ t) [] = ⊥
UnboundAll f (l ∷ t) (l' ∷ t') = Unbound f l l' × UnboundAll f t t'

drop_callback-Unbound :
    (f : ℕ) (l : List Node)
    → Unbound f l (drop_callback f l).0 × ((drop_callback f l).1 ≡ not (with_callback f l == 0))
unfolding drop_callback
drop_callback-Unbound f [] = ((refl, refl), refl)
drop_callback-Unbound f (n ∷ l) =
    let ((c, o), b) = drop_callback-Unbound f l in
    elim (Bool-cases (n.callback == f)) [
      | inl hit ↦ rw hit ((omega arith, refl), ground arith)
      | inr miss ↦ rw miss (rw miss ((omega arith, ap (◌∷◌ n) o), ground arith))
    ]

abbrev pub some_callback : ℕ → Table → Bool
some_callback f [] = false
some_callback f (l ∷ t) = not (with_callback f l == 0) || some_callback f t

-- agc_event_unbind_callback takes one node with the callback out of the list of every id that has
-- one, keeps the nodes with other callbacks in their order, and succeeds exactly when there was one.
pub unbind_callback-UnboundAll :
    (t : Table) (f : ℕ)
    → UnboundAll f t (unbind_callback t f).0
      × ((unbind_callback t f).1 ≡ (if some_callback f t then success else status_false))
unfolding unbind_callback
unbind_callback-UnboundAll [] f = (tt, refl)
unbind_callback-UnboundAll (l ∷ t) f =
    let (one, found) = drop_callback-Unbound f l in
    let (rest, s) = unbind_callback-UnboundAll t f in ((one, rest), ground arith)
