-- ===== src/Event/Registry.antt =====
-- The table `event_templates` of src/agc_event.c, which gives an event id its name. `none` as the
-- result of a function means that it reads or writes outside the table.
pub mod Laws
pub mod Tests
use common_framework.Base.{
  ℕ, ◌+◌, ◌-◌, Option, none, some, List, [], ◌∷◌, Status, success, generr, if◌then◌else◌, get_elem?,
  set, replicate,
}
use common_framework.Base.CString.{CString, lit, same_nocase}
use common_framework.Base.Int.{ℤ, pos, negsuc}
use common_framework.Event.Types.{event_id_limit, event_id_is_invalid}

abbrev pub Templates : Type 0
Templates = List (Option CString)

-- init_ids
unfoldable pub init_ids : Templates
init_ids =
    some (lit "all")
    ∷ some (lit "esl")
    ∷ some (lit "api_res")
    ∷ some (lit "sig2media")
    ∷ some (lit "media2sig")
    ∷ some (lit "om_cmd")
    ∷ some (lit "om_alarm")
    ∷ replicate (event_id_limit - 7) none

-- event_templates[i]
unfoldable pub template : Templates → ℤ → Option (Option CString)
template t (pos i) = get_elem? t i
template t (negsuc i) = none

abbrev pub set_template : Templates → ℤ → CString → Templates
set_template t (pos i) name = set t i (some name)
set_template t (negsuc i) name = t

-- agc_event_register
unfoldable pub register : Templates → ℤ → CString → Option (Templates × Status)
unfolding template
register t id name = if event_id_is_invalid id then some (t, generr) else elim (template t id) [
  | none ↦ none
  | some old ↦ elim old [
    | some _ ↦ some (t, generr)
    | none ↦ some (set_template t id name, success)
  ]
]

-- The loop of agc_event_get_id from index `i` on.
unfoldable pub get_id_from : CString → ℕ → Templates → Option ℕ
get_id_from name i [] = none
get_id_from name i (none ∷ t) = get_id_from name (i + 1) t
get_id_from name i (some n ∷ t) =
    let rest = get_id_from name (i + 1) t in if same_nocase name n then some i else rest

-- agc_event_get_id: the status, and what it writes through `event_id`.
unfoldable pub get_id : Templates → Option CString → Status × Option ℕ
unfolding get_id_from
get_id t none = (generr, none)
get_id t (some name) = elim (get_id_from name 0 t) [
  | some i ↦ (success, some i)
  | none ↦ (generr, none)
]

-- agc_event_get_name
unfoldable pub get_name : Templates → ℤ → Option (Option CString)
unfolding template
get_name t id = if event_id_is_invalid id then some none else template t id
