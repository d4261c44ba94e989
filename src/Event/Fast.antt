-- ===== src/Event/Fast.antt =====
-- The fast events of src/agc_event.c: events that are allocated once with fixed buffers and go round
-- through one queue for each type. A slot is a header with its two buffers; `none` as a result is a
-- write or read outside a buffer or table.
pub mod Pool
pub mod Slots
pub mod Tests
use common_framework.Base.{
  ℕ, suc, ◌&&◌, Option, none, some, List, [], ◌∷◌, Status, success, status_false, generr, ltb, ◌==◌,
  if◌then◌else◌, length, get_elem?, set,
}
use common_framework.Base.CString.{CString, lit}
use common_framework.Base.Int.{ℤ, pos, negsuc}
use common_framework.Base.Decimal.{show, show_int, atoi}

-- EVENT_FAST_TYPE_Invalid
abbrev pub event_fast_types : ℕ
event_fast_types = 27

pub record Slot : Type 0 where
  pub name_room : ℕ
  pub value_room : ℕ
  pub name : CString
  pub value : CString

-- struct agc_event with its struct fast_event_node. `body` is what has been copied into the buffer of
-- `body_room` bytes; the buffer exists when `body_room` is positive.
pub record FastEvent : Type 0 where
  pub event_id : ℤ
  pub type_of : ℕ
  pub slots : List Slot
  pub body_room : ℕ
  pub body : CString
  pub call_back : Option ℕ
  pub context : ℕ

-- strcpy(header->name, name) and a copy of `value` to header->value.
unfoldable pub fill_slot : CString → CString → Slot → Option Slot
fill_slot name value h =
    if ltb (length name) h.name_room && ltb (length value) h.value_room
    then some (record h { name = name; value = value })
    else none

-- The slots as fast_event_create lays them out for the given header names and value lengths.
unfoldable pub lay_out : List CString → List ℕ → List Slot
lay_out [] lens = []
lay_out (n ∷ ns) [] = []
lay_out (n ∷ ns) (l ∷ lens) =
    record { name_room = suc (length n); value_room = l; name = []; value = [] } ∷ lay_out ns lens

unfoldable pub fill_head : List Slot → Option Slot → Option (List Slot)
fill_head hs none = none
fill_head hs (some h) = some (h ∷ hs)

-- The first header holds the type.
unfoldable pub fill_first : ℕ → List Slot → Option (List Slot)
unfolding fill_slot fill_head
fill_first type [] = some []
fill_first type (h ∷ hs) = fill_head hs (fill_slot (lit "_t") (show type) h)

unfoldable pub with_slots : ℕ → ℤ → ℕ → Option (List Slot) → Option FastEvent
with_slots type event_id bodylength none = none
with_slots type event_id bodylength (some hs) = some record {
  event_id = event_id;
  type_of = type;
  slots = hs;
  body_room = bodylength;
  body = [];
  call_back = none;
  context = 0;
}

-- fast_event_create
unfoldable pub fast_event_create : ℕ → ℤ → List CString → List ℕ → ℕ → Option FastEvent
unfolding lay_out fill_first with_slots
fast_event_create type event_id headers valuelengths bodylength =
    with_slots type event_id bodylength (fill_first type (lay_out headers valuelengths))

-- fast_get_header; the inner option is the NULL it returns.
unfoldable pub fast_get_header : Option FastEvent → ℤ → Option (Option Slot)
fast_get_header none index = some none
fast_get_header (some e) (pos i) = some (get_elem? e.slots i)
fast_get_header (some e) (negsuc i) = none

unfoldable pub put_slot : FastEvent → ℕ → Option Slot → Option (FastEvent × Status)
put_slot e i none = none
put_slot e i (some h) = some (record e { slots = set e.slots i h }, success)

unfoldable pub fill_at :
    FastEvent → ℕ → CString → CString → Option Slot → Option (FastEvent × Status)
unfolding put_slot fill_slot
fill_at e i name value none = some (e, generr)
fill_at e i name value (some h) = put_slot e i (fill_slot name value h)

-- agc_event_fast_set_strheader
unfoldable pub fast_set_strheader : FastEvent → ℤ → CString → CString → Option (FastEvent × Status)
unfolding fill_at
fast_set_strheader e (pos i) name value = fill_at e i name value (get_elem? e.slots i)
fast_set_strheader e (negsuc i) name value = none

-- agc_event_fast_set_intheader
unfoldable pub fast_set_intheader : FastEvent → ℤ → CString → ℤ → Option (FastEvent × Status)
unfolding fast_set_strheader
fast_set_intheader e index name value = fast_set_strheader e index name (show_int value)

-- agc_event_fast_set_uintheader
unfoldable pub fast_set_uintheader : FastEvent → ℤ → CString → ℕ → Option (FastEvent × Status)
unfolding fast_set_strheader
fast_set_uintheader e index name value = fast_set_strheader e index name (show value)

-- agc_event_fast_get_type
unfoldable pub type_in : Option Slot → Status × Option ℕ
type_in none = (generr, none)
type_in (some h) = (success, some (atoi h.value))

unfoldable pub fast_get_type : FastEvent → Status × Option ℕ
unfolding type_in
fast_get_type e = type_in (get_elem? e.slots 0)

-- agc_event_fast_set_body, where `body` has the length that the caller gives.
unfoldable pub fast_set_body : FastEvent → CString → Option (FastEvent × Status)
fast_set_body e body =
    if e.body_room == 0
    then some (e, status_false)
    else if ltb e.body_room (length body)
    then none
    else some (record e { body = body }, success)
