-- ===== src/Epoll/Dispatch.antt =====
-- The handlers that agc_epoll_dispatch_event of mod_epoll.c calls for what epoll_wait reports.
use common_framework.Base.{
  ℕ, ◌≡◌, refl, Bool, true, false, not, ◌&&◌, ◌||◌, Option, none, some, List, [], ◌∷◌, ◌++◌,
  if◌then◌else◌,
}
use common_framework.Epoll.{Connection}

-- The flags of a report; `error` stands for EPOLLERR or EPOLLHUP.
pub record Flags : Type 0 where
  pub readable : Bool
  pub writable : Bool
  pub error : Bool

abbrev pub handler_call : Bool → Option ℕ → List ℕ
handler_call false h = []
handler_call true none = []
handler_call true (some h) = h ∷ []

-- The calls for a reported connection: `closed` is that its descriptor is -1, `listening` the handler
-- of its listening socket where it has one, and `still` whether the routine is still active after the
-- first call, which may have deleted the connection.
unfoldable pub ready_calls : Connection → Bool → Option (Option ℕ) → Bool → Flags → List ℕ
ready_calls c true listening still f = []
ready_calls c false (some handler) still f = handler_call f.readable handler
ready_calls c false none still f =
    if not c.routine_there || not c.active
    then []
    else handler_call (f.readable || f.error) c.read_handle
      ++ handler_call ((f.writable || f.error) && still) c.write_handle

-- For a connection with a routine and both handlers: an error report calls the read handler, and then
-- the write handler if the connection is still active; an inactive connection, and one whose
-- descriptor is closed, calls nothing.
pub ready_calls_guards :
    (c : Connection) (still : Bool) (f : Flags) (listening : Option (Option ℕ)) (r w : ℕ)
    → c.read_handle ≡ some r
    → c.write_handle ≡ some w
    → c.routine_there ≡ true
    → (ready_calls (record c { active = true }) false none still (record f { error = true })
        ≡ (if still then r ∷ w ∷ [] else r ∷ []))
      × (ready_calls (record c { active = false }) false none still f ≡ [])
      × (ready_calls c true listening still f ≡ [])
unfolding ready_calls
ready_calls_guards c still f listening r w hr hw there =
    (errors still f.readable f.writable, idle, refl)
  where
    idle : ready_calls (record c { active = false }) false none still f ≡ []
    idle = simp there

    errors :
        (b x y : Bool)
        → ready_calls
            (record c { active = true })
            false
            none
            b
            (record { readable = x; writable = y; error = true })
          ≡ (if b then r ∷ w ∷ [] else r ∷ [])
    errors true true true = simp (there, hr, hw)
    errors true true false = simp (there, hr, hw)
    errors true false true = simp (there, hr, hw)
    errors true false false = simp (there, hr, hw)
    errors false true true = simp (there, hr, hw)
    errors false true false = simp (there, hr, hw)
    errors false false true = simp (there, hr, hw)
    errors false false false = simp (there, hr, hw)
