-- ===== src/Conn/Driver.antt =====
-- src/agc_driver.c: the calls that go through the registered routine table, and the table of mod_epoll.c.
use common_framework.Base.{
  ℕ, ◌≡◌, refl, sym, ap, ◌∙◌, subst, inl, inr, true, false, Option, none, some, List, [], ◌∷◌,
  Status, success, generr,
}
use common_framework.Epoll.Kernel.{Interest, reads, both, EpollOps}
use common_framework.Epoll.{
  Wanted, Connection, other_interest, add_connection, del_connection, add_event, del_event,
}
use common_framework.Epoll.Connections.{Watched, Watched-events, add_connection_cases}

module _ (Kernel : Type 0) where
  abbrev pub Result : Type 0
  Result = Kernel × Connection × Status

  -- agc_routine_actions_t
  pub record RoutineActions : Type 0 where
    pub add : Kernel → Connection → Wanted → Result
    pub del : Kernel → Connection → Wanted → Result
    pub add_conn : Kernel → Connection → Result
    pub del_conn : Kernel → Connection → Result

  -- agc_driver_register_routine: the static variable `routine`, which is NULL at first.
  abbrev pub register_routine : RoutineActions → Option RoutineActions
  register_routine r = some r

  -- agc_driver_add_connection
  abbrev pub driver_add_connection : Option RoutineActions → Kernel → Connection → Result
  driver_add_connection none k c = (k, c, generr)
  driver_add_connection (some r) k c = r.add_conn k c

  -- agc_driver_del_connection
  abbrev pub driver_del_connection : Option RoutineActions → Kernel → Connection → Result
  driver_del_connection none k c = (k, c, generr)
  driver_del_connection (some r) k c = r.del_conn k c

  -- agc_driver_add_event
  abbrev pub driver_add_event : Option RoutineActions → Kernel → Connection → Wanted → Result
  driver_add_event none k c event = (k, c, generr)
  driver_add_event (some r) k c event = r.add k c event

  -- agc_driver_del_event
  abbrev pub driver_del_event : Option RoutineActions → Kernel → Connection → Wanted → Result
  driver_del_event none k c event = (k, c, generr)
  driver_del_event (some r) k c event = r.del k c event

  -- A call of agc_driver_add_event or agc_driver_del_event.
  pub data Call : Type 0 where
    adds deletes : Wanted → Call

  abbrev pub call : Option RoutineActions → Kernel → Connection → Call → Result
  call table k c (adds event) = driver_add_event table k c event
  call table k c (deletes event) = driver_del_event table k c event

  abbrev pub succeeded : Result → Option (Kernel × Connection)
  succeeded (k, c, success) = some (k, c)
  succeeded (k, c, s) = none

  abbrev pub then_call :
      (Kernel × Connection → Option (Kernel × Connection))
      → Option (Kernel × Connection)
      → Option (Kernel × Connection)
  then_call f none = none
  then_call f (some s) = f s

  -- Calls one after the other while they succeed.
  unfoldable pub call_all :
      Option RoutineActions → List Call → Kernel × Connection → Option (Kernel × Connection)
  call_all table [] s = some s
  call_all table (x ∷ l) (k, c) = then_call (call_all table l) (succeeded (call table k c x))

module _ (ops : EpollOps) where
  open ops use {Kernel, ctl_add, entry}

  -- agc_epoll_routine; `random` is what agc_random gives.
  abbrev pub epoll_routine : ℕ → RoutineActions Kernel
  epoll_routine random = record {
    add = add_event ops random;
    del = del_event ops;
    add_conn = add_connection ops random;
    del_conn = del_connection ops;
  }

  active_same : (c : Connection) → c.active ≡ true → record c { active = true } ≡ c
  active_same c e = ap (λ b. record c { active = b }) (sym e)

  call_all-Watched :
      (random : ℕ) (calls : List (Call Kernel)) (k : Kernel) (c : Connection) (i : Interest)
      → Watched ops k c i
      → (k' : Kernel) × (i' : Interest) × (call_all Kernel
            (register_routine Kernel (epoll_routine random))
            calls
            (k, c)
          ≡ some (k', c))
        × Watched ops k' c i'
  unfolding call_all
  call_all-Watched random [] k c i w = (k, i, refl, w)
  call_all-Watched random (adds event ∷ l) k c i w =
      let ((k1, e, w1), _, _) = Watched-events ops random k c i event w in
      let same = active_same c w.active in
      let w2 = subst (λ d. Watched ops k1 d both) same w1 in
      let (k', i', rest, there) = call_all-Watched random l k1 c both w2 in
      (k', i', rw (e, same) rest, there)
  call_all-Watched random (deletes event ∷ l) k c i w =
      let (_, (k1, e, w1), _) = Watched-events ops random k c i event w in
      let (k', i', rest, there) = call_all-Watched random l k1 c (other_interest event) w1 in
      (k', i', rw e rest, there)

  -- With the table of mod_epoll registered, for a connection with a routine that the kernel accepts in
  -- the chosen set: agc_driver_add_connection succeeds, then any calls of agc_driver_add_event and
  -- agc_driver_del_event all succeed and leave the connection as it was, and
  -- agc_driver_del_connection succeeds at last and takes it out of its set. With no table registered,
  -- adding the connection fails and changes nothing.
  pub driver_life_cycle :
      (random : ℕ) (calls : List (Call Kernel)) (k k1 : Kernel) (c : Connection)
      → c.routine_there ≡ true
      → ctl_add random c.fd reads k ≡ some k1
      → ((k2 : Kernel) × (c2 : Connection) × (k3 : Kernel) × (k4 : Kernel) × (driver_add_connection
              Kernel
              (register_routine Kernel (epoll_routine random))
              k
              c
            ≡ (k2, c2, success))
          × (call_all Kernel (register_routine Kernel (epoll_routine random)) calls (k2, c2)
              ≡ some (k3, c2))
          × (driver_del_connection Kernel (register_routine Kernel (epoll_routine random)) k3 c2
              ≡ (k4, record c2 { active = false }, success))
          × (c2.fd ≡ c.fd)
          × (entry random c.fd k4 ≡ none))
        × (driver_add_connection Kernel none k c ≡ (k, c, generr))
  driver_life_cycle random calls k k1 c there ok =
      elim (add_connection_cases ops random k c there) [
        | inl (k2, c2, added, index, fd, w) ↦
            let (k3, i, run, w3) = call_all-Watched random calls k2 c2 reads w in
            let (_, _, (k4, gone, out)) = Watched-events ops random k3 c2 i Wanted.read_event w3 in
            (
              (
                k2,
                c2,
                k3,
                k4,
                added,
                run,
                gone,
                fd,
                ap (λ f. entry random f k4) (sym fd) ∙ ap (λ x. entry x c2.fd k4) (sym index) ∙ out,
              ),
              refl,
            )
        | inr (bad, _) ↦ absurd (cc)
      ]
