-- ===== src/Event/Fast/Pool/Filling.antt =====
-- The queue that agc_event_fast_initial fills.
use common_framework.Base.{
  ℕ, zero, suc, ◌+◌, ◌≤◌, ◌<◌, ◌≡◌, refl, sym, ap, ◌∙◌, subst, ◌⊎◌, inl, inr, Option, none, some,
  List, [], ◌∷◌, ◌++◌, arith, success, Option-cases, length, length-append, All, All-append,
}
use common_framework.Base.CString.{CString}
use common_framework.Base.Int.{ℤ}
use common_framework.Event.Queue.{QueueOps}
use common_framework.Event.Fast.{
  FastEvent, Slot, fast_event_create, with_slots, fill_first, lay_out,
}
use common_framework.Event.Fast.Pool.{push_then, fill_pool, new_pool}

abbrev pub OfType : ℕ → List FastEvent → Type 0
OfType type = All (λ e. e.type_of ≡ type)

pub OfType-append_inv :
    (type : ℕ) (xs : List FastEvent) (e : FastEvent) (ys : List FastEvent)
    → OfType type (xs ++ e ∷ ys)
    → (e.type_of ≡ type) × OfType type (xs ++ ys)
OfType-append_inv type [] e ys h = h
OfType-append_inv type (x ∷ xs) e ys (h, hs) =
    let (he, rest) = OfType-append_inv type xs e ys hs in (he, (h, rest))

with_slots-type :
    (type : ℕ) (i : ℤ) (b : ℕ) (o : Option (List Slot)) (e : FastEvent)
    → with_slots type i b o ≡ some e
    → e.type_of ≡ type
unfolding with_slots
with_slots-type type i b none e h = cc
with_slots-type type i b (some l) e h = ground arith

pub fast_event_create-type :
    (type : ℕ) (i : ℤ) (hs : List CString) (ls : List ℕ) (b : ℕ) (e : FastEvent)
    → fast_event_create type i hs ls b ≡ some e
    → e.type_of ≡ type
unfolding fast_event_create
fast_event_create-type type i hs ls b e h =
    with_slots-type type i b (fill_first type (lay_out hs ls)) e h

module _ (ops : QueueOps FastEvent) where
  open ops use {
    Queue, create, trypush, trypop, contents, capacity, contents-create, capacity-create,
    contents-trypush, capacity-trypush, trypush_room, contents-trypop, capacity-trypop, trypop_none,
  }

  pub push_fits :
      (e : FastEvent) (q : Queue)
      → length (contents q) < capacity q
      → (q' : Queue) × (trypush e q ≡ some q')
        × (contents q' ≡ contents q ++ e ∷ [])
        × (capacity q' ≡ capacity q)
  push_fits e q l = elim (Option-cases (trypush e q)) [
    | inl full ↦ absurd (trypush_room e q l full)
    | inr (q', h) ↦ (q', h, contents-trypush e q q' h, capacity-trypush e q q' h)
  ]

  pub length-snoc : (xs : List FastEvent) (e : FastEvent) → length (xs ++ e ∷ []) ≡ suc (length xs)
  length-snoc xs e = omega (arith, length-append xs (e ∷ []))

  fill_pool_pushed :
      (k : ℕ) (e : FastEvent) (q q1 : Queue)
      → trypush e q ≡ some q1
      → fill_pool ops (suc k) e q ≡ fill_pool ops k e q1
  unfolding fill_pool push_then
  fill_pool_pushed k e q q1 h = simp h

  fill_pool_lem :
      (type k : ℕ) (e : FastEvent) (q : Queue)
      → e.type_of ≡ type
      → length (contents q) + k ≤ capacity q
      → OfType type (contents q)
      → (q' : Queue) × (fill_pool ops k e q ≡ (q', success))
        × (capacity q' ≡ capacity q)
        × (length (contents q') ≡ length (contents q) + k)
        × OfType type (contents q')
  unfolding fill_pool
  fill_pool_lem type zero e q t l a = (q, refl, refl, omega arith, a)
  fill_pool_lem type (suc k) e q t l a =
      let (q1, h, c, s) = push_fits e q (omega arith) in
      let grown : length (contents q1) ≡ suc (length (contents q)) =
        ap length c ∙ length-snoc (contents q) e in
      let (q', h', s', l', a') = fill_pool_lem type k e q1 t (omega arith) (
        subst (OfType type) (sym c)
          (All-append (λ x. x.type_of ≡ type) (contents q) (e ∷ []) a (t, tt))) in
      (q', fill_pool_pushed k e q q1 h ∙ h', s' ∙ s, omega arith, a')

  pub new_pool_cases :
      (type n : ℕ) (made : Option FastEvent)
      → ((e : FastEvent) → made ≡ some e → e.type_of ≡ type)
      → (new_pool ops n made ≡ none)
        ⊎ ((q : Queue) × (new_pool ops n made ≡ some (q, success))
            × (capacity q ≡ n + 10)
            × (length (contents q) ≡ n)
            × OfType type (contents q))
  unfolding new_pool
  new_pool_cases type zero made t = inr (
    create 10,
    refl,
    capacity-create 10,
    ap length (contents-create 10),
    subst (OfType type) (sym (contents-create 10)) tt,
  )
  new_pool_cases type (suc n) none t = inl refl
  new_pool_cases type (suc n) (some e) t =
      let empty = contents-create (suc n + 10) in
      let size = capacity-create (suc n + 10) in
      let none_yet : length (contents (create (suc n + 10))) ≡ 0 = ap length empty in
      let (q, h, s, l, a) =
        fill_pool_lem type (suc n) e (create (suc n + 10)) (t e refl) (omega arith)
          (subst (OfType type) (sym empty) tt) in
      inr (q, ap some h, s ∙ size, omega arith, a)
