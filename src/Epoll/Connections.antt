-- ===== src/Epoll/Connections.antt =====
-- Connections of mod_epoll.c and their entries in the epoll sets.
use common_framework.Base.{
  ℕ, ◌≡◌, refl, sym, ap, ◌∙◌, ◌≢◌, ◌⊎◌, inl, inr, true, false, Option, none, some, success, generr,
  Option-cases,
}
use common_framework.Epoll.Kernel.{Interest, reads, both, EpollOps}
use common_framework.Epoll.{
  Wanted, Connection, interest_of, other_interest, added, add_connection, removed, del_connection,
  event_added, add_event, del_event,
}

module _ (ops : EpollOps) where
  open ops use {
    Kernel, ctl_add, ctl_mod, ctl_del, entry, add_self, add_other, mod_there, del_there,
    del_missing,
  }

  -- The connection is active, and the set of its thread has the interest for it.
  pub record Watched (k : Kernel) (c : Connection) (i : Interest) : Type 0 where
    pub routine : c.routine_there ≡ true
    pub active : c.active ≡ true
    pub there : entry c.thread_index c.fd k ≡ some i

  -- agc_epoll_add_connection, if epoll_ctl succeeds, leaves the connection watched for reading in the
  -- chosen set; if not, an error and nothing changed.
  pub add_connection_cases :
      (random : ℕ) (k : Kernel) (c : Connection)
      → c.routine_there ≡ true
      → ((k' : Kernel) × (c' : Connection) × (add_connection ops random k c ≡ (k', c', success))
          × (c'.thread_index ≡ random)
          × (c'.fd ≡ c.fd)
          × Watched k' c' reads)
        ⊎ ((ctl_add random c.fd reads k ≡ none) × (add_connection ops random k c ≡ (k, c, generr)))
  unfolding add_connection
  add_connection_cases random k c there = elim (Option-cases (ctl_add random c.fd reads k)) [
    | inl bad ↦ inr (bad, ap (added ops k c random) bad)
    | inr (k', ok) ↦ inl (
      k',
      record c { active = true; thread_index = random },
      ap (added ops k c random) ok,
      refl,
      refl,
      record { routine = there; active = refl; there = add_self random c.fd reads k k' ok },
    )
  ]

  -- On a watched connection agc_epoll_add_event makes it watched in both directions,
  -- agc_epoll_del_event leaves it watched in the other direction only, and agc_epoll_del_connection
  -- takes it out of the set of its thread and makes it inactive; all three succeed.
  pub Watched-events :
      (random : ℕ) (k : Kernel) (c : Connection) (i : Interest) (event : Wanted)
      → Watched k c i
      → ((k' : Kernel) × (add_event ops random k c event
            ≡ (k', record c { active = true }, success))
          × Watched k' (record c { active = true }) both)
        × ((k' : Kernel) × (del_event ops k c event ≡ (k', c, success))
            × Watched k' c (other_interest event))
        × ((k' : Kernel) × (del_connection ops k c ≡ (k', record c { active = false }, success))
            × (entry c.thread_index c.fd k' ≡ none))
  unfolding add_event del_event del_connection
  Watched-events random k c i event w =
      let (k1, e1, there1) = mod_there c.thread_index c.fd both i k w.there in
      let (k2, e2, there2) = mod_there c.thread_index c.fd (other_interest event) i k w.there in
      let (k3, e3, there3) = del_there c.thread_index c.fd i k w.there in
      (
        (
          k1,
          simp (w.routine, w.active, e1),
          record { routine = w.routine; active = refl; there = there1 },
        ),
        (
          k2,
          simp (w.routine, w.active, e2),
          record { routine = w.routine; active = w.active; there = there2 },
        ),
        (k3, ap (removed ops k c) e3, there3),
      )

  event_added-success :
      (k k' : Kernel) (c c' : Connection) (o : Option Kernel)
      → event_added ops k c o ≡ (k', c', success)
      → (o ≡ some k') × (c' ≡ record c { active = true })
  event_added-success k k' c c' none h = cc
  event_added-success k k' c c' (some k1) h = (ap some (ap (λ x. x.0) h), sym (ap (λ x. x.1) h))

  add_event_idle :
      (random : ℕ) (k : Kernel) (c : Connection) (event : Wanted)
      → c.routine_there ≡ true
      → c.active ≡ false
      → add_event ops random k c event
        ≡ event_added ops k c (ctl_add random c.fd (interest_of event) k)
  unfolding add_event
  add_event_idle random k c event there idle = simp (there, idle)

  -- agc_epoll_add_event on an inactive connection that is in no set, where the random set is not the one
  -- that the connection has stored: if it succeeds, the connection is active and in the random set,
  -- but its stored index is still the old one, so agc_epoll_del_connection fails on it.
  pub add_event-del_connection :
      (random : ℕ) (k k' : Kernel) (c c' : Connection) (event : Wanted)
      → c.routine_there ≡ true
      → c.active ≡ false
      → random ≢ c.thread_index
      → entry c.thread_index c.fd k ≡ none
      → add_event ops random k c event ≡ (k', c', success)
      → (c'.active ≡ true)
        × (entry random c.fd k' ≡ some (interest_of event))
        × (del_connection ops k' c' ≡ (k', record c' { active = false }, generr))
  unfolding del_connection
  add_event-del_connection random k k' c c' event there idle ne missing h =
      let (ok, c'_eq) =
        event_added-success k k' c c' _ (sym (add_event_idle random k c event there idle) ∙ h) in
      let gone : entry c.thread_index c.fd k' ≡ none =
        add_other random c.fd c.thread_index (interest_of event) k k' ok ne ∙ missing in
      rw c'_eq (
        refl,
        add_self random c.fd (interest_of event) k k' ok,
        ap (removed ops k' (record c { active = true })) (del_missing c.thread_index c.fd k' gone),
      )
