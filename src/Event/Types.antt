-- ===== src/Event/Types.antt =====
-- `struct agc_event` and the event identifiers of src/include/agc_event.h. The field `debug_id`
-- only selects log lines, `timer` is the node that src/agc_timer.c owns, `next` is not used, and events
-- with `fast` are those of Event/Fast.
use common_framework.Base.{
  ℕ, ◌≡◌, refl, ◌∙◌, Bool, false, ◌||◌, Option, none, some, Status, success, generr,
}
use common_framework.Base.CString.{CString}
use common_framework.Base.Int.{ℤ, pos, eq_nat, ge_nat}
use common_framework.Event.Memory.{Ptr, null}

pub record Event : Type 0 where
  pub event_id : ℤ
  pub source_id : ℕ
  pub headers : Ptr
  pub last_header : Ptr
  -- An opaque pointer, as a number.
  pub context : ℕ
  pub body : Option CString
  -- The identity of the function, where there is one.
  pub call_back : Option ℕ
  pub timer_set : Bool

abbrev pub event_id_all : ℕ
event_id_all = 0

abbrev pub event_id_eventsocket : ℕ
event_id_eventsocket = 1

abbrev pub event_id_limit : ℕ
event_id_limit = 1024

abbrev pub event_null_sourceid : ℕ
event_null_sourceid = 0

-- EVENT_ID_IS_INVALID
unfoldable pub event_id_is_invalid : ℤ → Bool
event_id_is_invalid x = eq_nat x event_id_all || ge_nat x event_id_limit

-- agc_event_create
unfoldable pub create : ℤ → ℕ → Event
create event_id source_id = record {
  event_id = event_id;
  source_id = source_id;
  headers = null;
  last_header = null;
  context = 0;
  body = none;
  call_back = none;
  timer_set = false;
}

-- agc_event_create_callback
unfoldable pub create_callback : ℕ → ℕ → ℕ → Event
unfolding create
create_callback source_id context callback = record (create (pos 0) source_id) {
  call_back = some callback;
  context = context;
}

-- agc_event_set_id
unfoldable pub set_id : Event → ℤ → Event
set_id e i = record e { event_id = i }

-- agc_event_set_body and agc_event_add_body; the latter is given the formatted text.
unfoldable pub set_body : Event → Option CString → Event × Status
set_body e none = (e, generr)
set_body e (some body) = (record e { body = some body }, success)

-- The two events differ in their header lists at most.
pub record SameButHeaders (e f : Event) : Type 0 where
  pub event_id : f.event_id ≡ e.event_id
  pub source_id : f.source_id ≡ e.source_id
  pub context : f.context ≡ e.context
  pub body : f.body ≡ e.body
  pub call_back : f.call_back ≡ e.call_back
  pub timer_set : f.timer_set ≡ e.timer_set

pub SameButHeaders-trans :
    (e f g : Event) → SameButHeaders e f → SameButHeaders f g → SameButHeaders e g
SameButHeaders-trans e f g p q = record {
  event_id = q.event_id ∙ p.event_id;
  source_id = q.source_id ∙ p.source_id;
  context = q.context ∙ p.context;
  body = q.body ∙ p.body;
  call_back = q.call_back ∙ p.call_back;
  timer_set = q.timer_set ∙ p.timer_set;
}

pub SameButHeaders-links :
    (e : Event) (p q : Ptr) → SameButHeaders e (record e { headers = p; last_header = q })
SameButHeaders-links e p q = record {
  event_id = refl;
  source_id = refl;
  context = refl;
  body = refl;
  call_back = refl;
  timer_set = refl;
}

pub SameButHeaders-refl : (e : Event) → SameButHeaders e e
SameButHeaders-refl e = SameButHeaders-links e e.headers e.last_header
