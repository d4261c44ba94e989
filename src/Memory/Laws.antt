-- ===== src/Memory/Laws.antt =====
-- Pools that are to be destroyed are destroyed once each, in order.
use common_framework.Base.{
  ℕ, zero, suc, ◌≡◌, refl, sym, ap, ◌∙◌, inl, inr, true, Option, none, some, List, [], ◌∷◌, ◌++◌,
  append_assoc, append-nil, Option-cases, some_inj, length,
}
use common_framework.Event.Queue.{QueueOps}
use common_framework.Memory.{
  Manager, queued, destroy_pool, popped, pop_many, pool_round, Run, unchanged, asked, pops,
}

module _ (ops : QueueOps ℕ) where
  open ops use {Queue, trypush, trypop, contents, contents-trypush, contents-trypop, trypop_none}

  -- What was destroyed and what is to be.
  abbrev pub all_pools : Manager ops → List ℕ
  all_pools m = m.destroyed ++ contents m.pool_queue

  popped_keeps :
      (m : Manager ops)
      → (all_pools (popped ops m (trypop m.pool_queue)) ≡ all_pools m)
        × ((popped ops m (trypop m.pool_queue)).pool_thread_running ≡ m.pool_thread_running)
  popped_keeps m = elim (Option-cases (trypop m.pool_queue)) [
    | inl e ↦ rw e (refl, refl)
    | inr ((p, q), e) ↦ rw e (
      append_assoc m.destroyed (p ∷ []) (contents q)
          ∙ ap (λ l. m.destroyed ++ l) (sym (contents-trypop p m.pool_queue q e)),
      refl,
    )
  ]

  pop_many_keeps :
      (x : ℕ) (m : Manager ops)
      → (all_pools (pop_many ops x m) ≡ all_pools m)
        × ((pop_many ops x m).pool_thread_running ≡ m.pool_thread_running)
  unfolding pop_many
  pop_many_keeps zero m = (refl, refl)
  pop_many_keeps (suc x) m =
      let (a, b) = popped_keeps m in
      let (c, d) = pop_many_keeps x (popped ops m (trypop m.pool_queue)) in (c ∙ a, d ∙ b)

  popped_shorter :
      (m : Manager ops) (p : ℕ) (l : List ℕ)
      → contents m.pool_queue ≡ p ∷ l
      → contents (popped ops m (trypop m.pool_queue)).pool_queue ≡ l
  popped_shorter m p l h = elim (Option-cases (trypop m.pool_queue)) [
    | inl e ↦ let bad = trypop_none m.pool_queue e in absurd (cc)
    | inr ((a, q), e) ↦ let same = sym (contents-trypop a m.pool_queue q e) ∙ h in rw e (cc)
  ]

  pop_many_empties :
      (l : List ℕ) (m : Manager ops)
      → contents m.pool_queue ≡ l
      → contents (pop_many ops (length l) m).pool_queue ≡ []
  unfolding pop_many
  pop_many_empties [] m h = h
  pop_many_empties (p ∷ l) m h =
      pop_many_empties l (popped ops m (trypop m.pool_queue)) (popped_shorter m p l h)

  -- A round of pool_thread leaves an empty queue and destroys what was in it, oldest first.
  pub pool_round-Emptied :
      (m : Manager ops)
      → (contents (pool_round ops m).pool_queue ≡ []) × ((pool_round ops m).destroyed ≡ all_pools m)
  unfolding pool_round
  pool_round-Emptied m =
      let empty = pop_many_empties (contents m.pool_queue) m refl in
      let kept = (pop_many_keeps (length (contents m.pool_queue)) m).0 in
      let after = pop_many ops (length (contents m.pool_queue)) m in
      (empty, sym (append-nil after.destroyed) ∙ ap (λ l. after.destroyed ++ l) (sym empty) ∙ kept)

  queued-some :
      (m m' : Manager ops) (o : Option Queue) (var : Option ℕ)
      → queued ops m o ≡ some (var, m')
      → (q : Queue) × (o ≡ some q) × (m' ≡ record m { pool_queue = q })
  queued-some m m' none var h = cc
  queued-some m m' (some q) var h = (q, refl, sym (ap (λ x. x.1) (some_inj h)))

  -- While pool_thread runs, agc_memory_destroy_pool puts the pool behind all others.
  destroy_pool-queued :
      (m m' : Manager ops) (p : ℕ) (var : Option ℕ)
      → m.pool_thread_running ≡ true
      → destroy_pool ops (some p) m ≡ some (var, m')
      → (all_pools m' ≡ all_pools m ++ p ∷ []) × (m'.pool_thread_running ≡ true)
  unfolding destroy_pool
  destroy_pool-queued m m' p var running h =
      let at : destroy_pool ops (some p) m ≡ queued ops m (trypush p m.pool_queue) = simp running in
      let (q, e, same) = queued-some m m' (trypush p m.pool_queue) var (sym at ∙ h) in
      rw same (
        ap (λ l. m.destroyed ++ l) (contents-trypush p m.pool_queue q e)
            ∙ sym (append_assoc m.destroyed (contents m.pool_queue) (p ∷ [])),
        running,
      )

  Run_keeps :
      (pools : List ℕ) (m m' : Manager ops)
      → m.pool_thread_running ≡ true
      → Run ops pools m m'
      → (all_pools m' ≡ all_pools m ++ pools) × (m'.pool_thread_running ≡ true)
  Run_keeps pools m m' running unchanged = (sym (append-nil (all_pools m)), running)
  Run_keeps pools m m' running (asked {pools = before} p var r h) =
      let (a, b) = Run_keeps before m _ running r in
      let (c, d) = destroy_pool-queued _ m' p var b h in
      (c ∙ ap (λ l. l ++ p ∷ []) a ∙ append_assoc (all_pools m) before (p ∷ []), d)
  Run_keeps pools m m' running (pops x r) =
      let (a, b) = Run_keeps pools m _ running r in
      let (c, d) = pop_many_keeps x _ in (c ∙ a, d ∙ b)

  -- While pool_thread runs, after any calls of agc_memory_destroy_pool between any pops of the thread, a
  -- further round of the thread has destroyed just what was destroyed or queued at first and then the
  -- pools of the calls, in the order of the calls, once for each call, and the queue is empty.
  pub Run-Destroyed :
      (pools : List ℕ) (m m' : Manager ops)
      → m.pool_thread_running ≡ true
      → Run ops pools m m'
      → ((pool_round ops m').destroyed ≡ (m.destroyed ++ contents m.pool_queue) ++ pools)
        × (contents (pool_round ops m').pool_queue ≡ [])
  Run-Destroyed pools m m' running r =
      let (empty, all) = pool_round-Emptied m' in (all ∙ (Run_keeps pools m m' running r).0, empty)
