-- ===== src/Event/Fast/Slots.antt =====
-- Writing and reading the headers of fast events in src/agc_event.c.
use common_framework.Base.{
  ℕ, suc, ◌^◌, ◌≤◌, ◌<◌, ◌≡◌, refl, ap, ◌∙◌, ◌≢◌, ◌⊎◌, inl, inr, Option, none, some, List, [], ◌∷◌,
  arith, success, generr, ltb, ltb→lt, ltb→le, Bool-cases, some_inj, length, get_elem?, set,
  get_elem?-set_self, get_elem?-set_ne, get_elem?_lt, get_elem?_ge,
}
use common_framework.Base.CString.{CString, lit}
use common_framework.Base.Int.{ℤ, pos}
use common_framework.Base.Decimal.{show, atoi-show}
use common_framework.Event.Fast.{
  FastEvent, Slot, fill_slot, fill_head, lay_out, fill_first, with_slots, fast_event_create,
  fast_get_header, put_slot, fill_at, fast_set_strheader, type_in, fast_get_type,
}

fill_slot_cases :
    (name value : CString) (h : Slot)
    → ((length name < h.name_room)
        × (length value < h.value_room)
        × (fill_slot name value h ≡ some (record h { name = name; value = value })))
      ⊎ (((h.name_room ≤ length name) ⊎ (h.value_room ≤ length value))
          × (fill_slot name value h ≡ none))
unfolding fill_slot
fill_slot_cases name value h = elim (Bool-cases (ltb (length name) h.name_room)) [
  | inl a ↦ elim (Bool-cases (ltb (length value) h.value_room)) [
    | inl b ↦
        inl
          (ltb→lt (length name) h.name_room a, ltb→lt (length value) h.value_room b, rw (a, b) refl)
    | inr b ↦ inr (inr (ltb→le (length value) h.value_room b), rw (a, b) refl)
  ]
  | inr a ↦ inr (inl (ltb→le (length name) h.name_room a), rw a refl)
]

-- A header as it is after a successful write: the texts, in the buffers it had.
abbrev pub filled : CString → CString → Slot → Slot
filled name value h = record h { name = name; value = value }

fill_at-at :
    (e : FastEvent) (i : ℕ) (name value : CString) (h : Slot) (o : Option Slot)
    → o ≡ some h
    → fill_at e i name value o ≡ put_slot e i (fill_slot name value h)
unfolding fill_at
fill_at-at e i name value h none at = cc
fill_at-at e i name value h (some g) at =
    ap (λ x. put_slot e i (fill_slot name value x)) (some_inj at)

-- agc_event_fast_set_strheader at an index: the header is not there and the event stays as it is; or
-- both texts fit into the buffers with their final zeros, and the header at the index is found with
-- them while the header at another index `j` is found unchanged; or a text is written past its
-- buffer.
pub fast_set_strheader_cases :
    (e : FastEvent) (i j : ℕ) (name value : CString)
    → i ≢ j
    → ((length e.slots ≤ i) × (fast_set_strheader e (pos i) name value ≡ some (e, generr)))
      ⊎ (((h : Slot) × (e' : FastEvent) × (fast_get_header (some e) (pos i) ≡ some (some h))
            × (length name < h.name_room)
            × (length value < h.value_room)
            × (fast_set_strheader e (pos i) name value ≡ some (e', success))
            × (fast_get_header (some e') (pos i) ≡ some (some (filled name value h)))
            × (fast_get_header (some e') (pos j) ≡ fast_get_header (some e) (pos j)))
          ⊎ ((h : Slot) × (fast_get_header (some e) (pos i) ≡ some (some h))
              × ((h.name_room ≤ length name) ⊎ (h.value_room ≤ length value))
              × (fast_set_strheader e (pos i) name value ≡ none)))
unfolding fast_set_strheader fast_get_header put_slot
fast_set_strheader_cases e i j name value ne = elim (Bool-cases (ltb i (length e.slots))) [
  | inr out ↦
      let le = ltb→le i (length e.slots) out in
      inl (le, ap (fill_at e i name value) (get_elem?_ge e.slots i le))
  | inl inside ↦
      let (h, at) = get_elem?_lt e.slots i (ltb→lt i (length e.slots) inside) in
      let step = fill_at-at e i name value h (get_elem? e.slots i) at in
      elim (fill_slot_cases name value h) [
        | inl (a, b, ok) ↦ inr (
            inl (
              h,
              record e { slots = set e.slots i (filled name value h) },
              ap some at,
              a,
              b,
              step ∙ ap (put_slot e i) ok,
              ap some (
                  get_elem?-set_self e.slots i (filled name value h)
                    (ltb→lt i (length e.slots) inside)),
              ap some (get_elem?-set_ne e.slots i j (filled name value h) ne),
            ))
        | inr (over, bad) ↦ inr (inr (h, ap some at, over, step ∙ ap (put_slot e i) bad))
      ]
]

fill_first-filled :
    (type : ℕ) (h : Slot) (hs : List Slot)
    → fill_slot (lit "_t") (show type) h ≡ some (filled (lit "_t") (show type) h)
    → fill_first type (h ∷ hs) ≡ some (filled (lit "_t") (show type) h ∷ hs)
unfolding fill_first fill_head
fill_first-filled type h hs e = ap (fill_head hs) e

-- A new fast event of a type whose first header has a name of at least two letters and a buffer for
-- the digits of the type: agc_event_fast_get_type reads that type back.
pub fast_get_type-fast_event_create :
    (type : ℕ) (i : ℤ) (n : CString) (ns : List CString) (l : ℕ) (ls : List ℕ) (b : ℕ)
    → type < 2 ^ 32
    → 2 ≤ length n
    → length (show type) < l
    → (e : FastEvent) × (fast_event_create type i (n ∷ ns) (l ∷ ls) b ≡ some e)
      × (e.type_of ≡ type)
      × (fast_get_type e ≡ (success, some type))
unfolding fast_event_create lay_out with_slots fast_get_type type_in
fast_get_type-fast_event_create type i n ns l ls b small long room =
    let h : Slot = record { name_room = suc (length n); value_room = l; name = []; value = [] } in
    elim (fill_slot_cases (lit "_t") (show type) h) [
      | inl (_, _, ok) ↦ (
        record {
          event_id = i;
          type_of = type;
          slots = filled (lit "_t") (show type) h ∷ lay_out ns ls;
          body_room = b;
          body = [];
          call_back = none;
          context = 0;
        },
        ap (with_slots type i b) (fill_first-filled type h (lay_out ns ls) ok),
        refl,
        ap (λ x. (success, some x)) (atoi-show type small),
      )
      | inr (inl over, _) ↦ absurd (omega arith)
      | inr (inr over, _) ↦ absurd (omega arith)
    ]
