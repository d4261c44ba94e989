-- ===== src/Conn/Release.antt =====
-- The end of agc_gtp_open in src/mod/gateways/mod_media/agc_gtp_path.c, as in the other functions there
-- that open sockets: the connection is created in its own pool and given to the driver.
use common_framework.Base.{
  ℕ, ◌≡◌, refl, sym, ap, ◌∙◌, subst, inl, inr, true, Option, none, some, List, [], ◌∷◌, ◌++◌,
  Status, success, status_false, generr, Option-cases, some_inj,
}
use common_framework.Base.Int.{ℤ}
use common_framework.Event.Queue.{QueueOps}
use common_framework.Memory.{Manager, destroy_pool, Run, unchanged, asked, pool_round}
use common_framework.Memory.Laws.{Run-Destroyed}
use common_framework.Conn.{Connection, create_connection, with_pool, free_connection}

module _ (ops : QueueOps ℕ) where
  open ops use {contents}

  abbrev pub destroyed_too :
      ℕ → Option (Option Connection × Manager ops) → Option (Option ℕ × Manager ops)
  destroyed_too pool none = none
  destroyed_too pool (some (c, m)) = destroy_pool ops (some pool) m

  abbrev pub failed : Option (Option ℕ × Manager ops) → Option (Status × Manager ops)
  failed none = none
  failed (some (var, m)) = some (status_false, m)

  abbrev pub add_or_release :
      Status → (pool : ℕ) → Connection → Manager ops → Option (Status × Manager ops)
  add_or_release success pool c m = some (success, m)
  add_or_release s pool c m = failed (destroyed_too pool (free_connection ops (some c) m))

  -- `added` is what agc_driver_add_connection returns. The variable `pool` is not the connection's field,
  -- so it is still set when agc_free_connection returns. The result `none` is a wait in the queue.
  unfoldable pub open_connection :
      (genid at : ℕ) (fd : ℤ) (addr : List ℕ) (addrlen pool : ℕ) (context read write err : Option ℕ)
      (added : Status)
      → Manager ops
      → Option (Status × Manager ops)
  open_connection genid at fd addr addrlen pool context read write err added m =
      add_or_release added pool
        (create_connection genid at fd addr addrlen pool context read write err).1 m

  created_pool :
      (genid at : ℕ) (fd : ℤ) (addr : List ℕ) (addrlen pool : ℕ) (context read write err : Option ℕ)
      → (create_connection genid at fd addr addrlen pool context read write err).1.pool ≡ some pool
  unfolding create_connection
  created_pool genid at fd addr addrlen pool context read write err = refl

  with_pool-some :
      (c : Connection) (o : Option (Option ℕ × Manager ops)) (r : Option Connection × Manager ops)
      → with_pool ops c o ≡ some r
      → (var : Option ℕ) × (o ≡ some (var, r.1))
  with_pool-some c none r h = cc
  with_pool-some c (some (p, m)) r h = (p, ap (λ x. some (p, x.1)) (some_inj h))

  free_connection-asked :
      (c : Connection) (pool : ℕ) (m : Manager ops) (r : Option Connection × Manager ops)
      → c.pool ≡ some pool
      → free_connection ops (some c) m ≡ some r
      → (var : Option ℕ) × (destroy_pool ops (some pool) m ≡ some (var, r.1))
  unfolding free_connection
  free_connection-asked c pool m r e h =
      with_pool-some c (destroy_pool ops (some pool) m) r
        (ap (λ p. with_pool ops c (destroy_pool ops p m)) (sym e) ∙ h)

  failed-asked :
      (pool : ℕ) (c : Connection) (m m' : Manager ops) (s : Status)
      → c.pool ≡ some pool
      → failed (destroyed_too pool (free_connection ops (some c) m)) ≡ some (s, m')
      → (s ≡ status_false) × Run ops (pool ∷ pool ∷ []) m m'
  failed-asked pool c m m' s e h = elim (Option-cases (free_connection ops (some c) m)) [
    | inl waits ↦ let bad = sym (ap (λ o. failed (destroyed_too pool o)) waits) ∙ h in absurd (cc)
    | inr (r, freed) ↦
        let (var, first) = free_connection-asked c pool m r e freed in
        let left = sym (ap (λ o. failed (destroyed_too pool o)) freed) ∙ h in
        elim (Option-cases (destroy_pool ops (some pool) r.1)) [
          | inl waits ↦ let bad = sym (ap failed waits) ∙ left in absurd (cc)
          | inr ((var', m2), second) ↦
              let same = some_inj (sym (ap failed second) ∙ left) in
              (
                sym (ap (λ x. x.0) same),
                subst (Run ops (pool ∷ pool ∷ []) m) (ap (λ x. x.1) same)
                    (asked pool var' (asked pool var unchanged first) second),
              )
        ]
  ]

  -- While pool_thread runs, where agc_driver_add_connection fails and neither call of
  -- agc_memory_destroy_pool waits: agc_gtp_open returns AGC_STATUS_FALSE, and the next round of
  -- pool_thread calls apr_pool_destroy twice on the pool of the connection, after all pools that were
  -- queued before.
  pub open_connection-Twice :
      (genid at : ℕ) (fd : ℤ) (addr : List ℕ) (addrlen pool : ℕ) (context read write err : Option ℕ)
      (s : Status) (m m' : Manager ops)
      → m.pool_thread_running ≡ true
      → open_connection genid at fd addr addrlen pool context read write err generr m ≡ some (s, m')
      → (s ≡ status_false)
        × ((pool_round ops m').destroyed
            ≡ (m.destroyed ++ contents m.pool_queue) ++ pool ∷ pool ∷ [])
  unfolding open_connection
  open_connection-Twice genid at fd addr addrlen pool context read write err s m m' running h =
      let created = created_pool genid at fd addr addrlen pool context read write err in
      let (false_status, run) = failed-asked pool _ m m' s created h in
      (false_status, (Run-Destroyed ops (pool ∷ pool ∷ []) m m' running run).0)
