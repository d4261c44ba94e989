-- ===== src/Event/Headers.antt =====
-- The header list of an event in src/agc_event.c: a singly linked list of malloc'ed nodes with the
-- event's `headers` and `last_header` as its ends. A function that updates an event returns it.
-- A loop runs on fuel, and `spin` says that the fuel was used up. `fresh` is what malloc returns.
pub mod Chain
pub mod Lookup
pub mod Add
pub mod Relink
pub mod Delete
pub mod Dup
pub mod Tests
use common_framework.Base.{
  ℕ, zero, suc, ◌||◌, Option, none, some, List, [], ◌∷◌, Status, success, generr, ◌==◌,
  if◌then◌else◌,
}
use common_framework.Base.CString.{CString, same_nocase}
use common_framework.Event.Memory.{
  Ptr, null, header, Cmd, spin, crash, done, pure, ◌>>=◌, ◌>>◌, load, set_next, set_value, free,
  write,
}
use common_framework.Event.Types.{Event, create}

-- new_header: malloc, memset and strdup. The code writes through what malloc returns.
unfoldable pub new_header : Ptr → CString → Cmd Ptr
unfolding write
new_header fresh name m =
    if fresh == null then crash else done fresh (write m fresh (some (header name [] null)))

-- The loop of agc_event_get_header_ptr.
unfoldable pub get_header_loop : ℕ → Ptr → CString → Cmd Ptr
get_header_loop zero hp name = λ _. spin
get_header_loop (suc fuel) hp name = if hp == null then pure null else do
  h ← load hp
  if same_nocase h.name name then pure hp else get_header_loop fuel h.next name

-- agc_event_get_header_ptr: the NULL pointer, or the first node with the name.
unfoldable pub get_header_ptr : ℕ → Event → Option CString → Cmd Ptr
unfolding get_header_loop
get_header_ptr fuel e none = pure null
get_header_ptr fuel e (some name) = get_header_loop fuel e.headers name

-- agc_event_get_header
unfoldable pub get_header : ℕ → Event → Option CString → Cmd (Option CString)
unfolding get_header_ptr
get_header fuel e name = do
  hp ← get_header_ptr fuel e name
  if hp == null then pure none else (do h ← load hp; pure (some h.value))

-- The end of agc_event_base_add_header and agc_event_base_add_header_nocheck: the node is given
-- its value and made the last one.
unfoldable pub link_last : Event → Ptr → CString → Cmd Event
link_last e hp data' = do
  set_value hp data'
  if e.last_header == null
      then (do set_next hp null; pure (record e { headers = hp; last_header = hp }))
      else (do set_next e.last_header hp; pure (record e { last_header = hp }))

-- agc_event_base_add_header_nocheck
unfoldable pub base_add_header_nocheck : Ptr → Event → CString → CString → Cmd Event
unfolding new_header link_last
base_add_header_nocheck fresh e name data' = do hp ← new_header fresh name; link_last e hp data'

-- agc_event_base_add_header
unfoldable pub base_add_header : ℕ → Ptr → Event → CString → CString → Cmd Event
unfolding get_header_ptr new_header link_last
base_add_header fuel fresh e name data' = do
  found ← get_header_ptr fuel e (some name)
  hp ← (if found == null then new_header fresh name else pure found)
  link_last e hp data'

-- agc_event_add_header_string
unfoldable pub add_header_string : ℕ → Ptr → Event → CString → Option CString → Cmd (Event × Status)
unfolding base_add_header
add_header_string fuel fresh e name none = pure (e, generr)
add_header_string fuel fresh e name (some data') = do
  e' ← base_add_header fuel fresh e name data'
  pure (e', success)

-- The event's pointers after one round of agc_event_del_header at a node with the name; `lp` is the
-- last node kept.
unfoldable pub unlinked : Event → (lp hp next : Ptr) → Event
unlinked e lp hp next =
    let e₁ : Event = if lp == null then record e { headers = next } else e in
    if (hp == e₁.last_header) || (next == null) then record e₁ { last_header = lp } else e₁

-- That round's changes of the nodes.
unfoldable pub unlink : (lp hp next : Ptr) → Cmd (Unit {0})
unlink lp hp next = (if lp == null then pure tt else set_next lp next) >> free hp

-- The loop of agc_event_del_header.
unfoldable pub del_header_loop : ℕ → Event → CString → (lp tp : Ptr) → Cmd Event
unfolding unlink unlinked
del_header_loop zero e name lp tp = λ _. spin
del_header_loop (suc fuel) e name lp tp = if tp == null then pure e else do
  h ← load tp
  if same_nocase name h.name
      then (do unlink lp tp h.next; del_header_loop fuel (unlinked e lp tp h.next) name lp h.next)
      else del_header_loop fuel e name tp h.next

-- agc_event_del_header
unfoldable pub del_header : ℕ → Event → CString → Cmd Event
unfolding del_header_loop
del_header fuel e name = del_header_loop fuel e name null e.headers

-- The loop of agc_event_destroy. The node of the event itself is never given to free.
unfoldable pub destroy_loop : ℕ → Ptr → Cmd (Unit {0})
destroy_loop zero hp = λ _. spin
destroy_loop (suc fuel) hp =
    if hp == null then pure tt else do h ← load hp; free hp; destroy_loop fuel h.next

-- agc_event_destroy: the caller's pointer is NULL afterwards.
unfoldable pub destroy : ℕ → Option Event → Cmd (Option Event)
unfolding destroy_loop
destroy fuel none = pure none
destroy fuel (some e) = do destroy_loop fuel e.headers; pure none

-- The loop of agc_event_dup, with what malloc returns in each round; `walk` is the fuel of the
-- search in each round.
unfoldable pub dup_loop : (walk fuel : ℕ) → List Ptr → Event → Ptr → Cmd Event
dup_loop walk zero frees e hp = λ _. spin
dup_loop walk (suc fuel) [] e hp = if hp == null then pure e else λ _. crash
dup_loop walk (suc fuel) (f ∷ frees) e hp = if hp == null then pure e else do
  h ← load hp
  (e', _) ← add_header_string walk f e h.name (some h.value)
  dup_loop walk fuel frees e' h.next

-- agc_event_dup
unfoldable pub dup : ℕ → List Ptr → Event → Cmd Event
unfolding create dup_loop
dup fuel frees todup = do
  e ← dup_loop fuel fuel frees (create todup.event_id todup.source_id) todup.headers
  pure (record e { body = todup.body })
