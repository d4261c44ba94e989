-- ===== src/Sql/Pool/Laws.antt =====
-- The counters of the pool in agc_sql.c, and which threads may use a handle.
use common_framework.Base.{
  ℕ, zero, suc, ◌+◌, ◌-◌, ◌≤◌, ◌<◌, ◌≡◌, refl, sym, ap, ◌∙◌, subst, ◌⊎◌, inl, inr, Bool, true,
  false, ◌&&◌, Option, none, some, List, [], ◌∷◌, arith, ◌==◌, if◌then◌else◌, ==→eq, Bool-cases,
  some_inj, length, get_elem?, set, length-set, get_elem?-set_self, lt_of_get_elem?, All,
}
use common_framework.Sql.Mutex.{MutexOps}
use common_framework.Sql.Pool.{
  increment, decrement, Handle, Pool, grabbed, at_handle, lock_first, or_any, free_handle,
  add_handle, with_free, get_handle, unused, let_go, release_found, release_handle,
}

module _ (ops : MutexOps) where
  open ops use {
    Mutex, fresh, lock, trylock, unlock, depth, holder, depth-lock_fresh, holder-lock_fresh,
    depth-trylock, holder-trylock, trylock_free, depth-unlock,
  }

  -- A handle counts how often it is locked.
  abbrev pub HandleOk : Handle ops → Type 0
  HandleOk h = h.use_count ≡ depth h.mutex

  abbrev pub uses : List (Handle ops) → ℕ
  uses [] = 0
  uses (h ∷ l) = h.use_count + uses l

  -- The invariant of the pool.
  pub record PoolOk (p : Pool ops) : Type 0 where
    pub handles : All HandleOk p.handle_pool
    pub total : p.total_handles ≡ length p.handle_pool
    pub used : p.total_used_handles ≡ uses p.handle_pool

  -- The thread has the handle at the place in the second list, which was free or its own in the first.
  abbrev pub Grabbed : ℕ → List (Handle ops) → List (Handle ops) × ℕ → Type 0
  Grabbed self l r =
      (length r.0 ≡ length l)
      × (uses r.0 ≡ suc (uses l))
      × All HandleOk r.0
      × ((old : Handle ops) × (new : Handle ops) × (get_elem? l r.1 ≡ some old)
          × (get_elem? r.0 r.1 ≡ some new)
          × (holder new.mutex ≡ some self)
          × ((old.use_count ≡ 0) ⊎ (holder old.mutex ≡ some self)))

  grabbed-Grabbed :
      (self hash : ℕ) (h : Handle ops) (rest : List (Handle ops)) (m : Mutex)
      → All HandleOk (h ∷ rest)
      → uses (h ∷ rest) < 4294967295
      → trylock self h.mutex ≡ some m
      → Grabbed self (h ∷ rest) (grabbed ops hash h m ∷ rest, 0)
  grabbed-Grabbed self hash h rest m (ok, oks) small locked =
      let deeper = depth-trylock self h.mutex m locked in
      let one_more : increment h.use_count ≡ suc h.use_count = omega arith in
      (
        refl,
        omega (arith, one_more),
        (one_more ∙ (ap suc ok ∙ sym deeper), oks),
        (
          h,
          grabbed ops hash h m,
          refl,
          refl,
          holder-trylock self h.mutex m locked,
          free_or_own (trylock_free self h.mutex m locked),
        ),
      )
    where
      free_or_own :
          (depth h.mutex ≡ 0) ⊎ (holder h.mutex ≡ some self)
          → (h.use_count ≡ 0) ⊎ (holder h.mutex ≡ some self)
      free_or_own (inl free) = inl (ok ∙ free)
      free_or_own (inr own) = inr own

  behind-Grabbed :
      (self : ℕ) (h : Handle ops) (l : List (Handle ops)) (r : List (Handle ops) × ℕ)
      → HandleOk h
      → Grabbed self l r
      → Grabbed self (h ∷ l) (h ∷ r.0, suc r.1)
  behind-Grabbed self h l r ok (len, count, oks, places) =
      (ap suc len, omega (arith, count), (ok, oks), places)

  lock_first-Grabbed :
      (test : Handle ops → Bool) (self hash : ℕ) (l : List (Handle ops)) (r : List (Handle ops) × ℕ)
      → All HandleOk l
      → uses l < 4294967295
      → lock_first ops test self hash l ≡ some r
      → Grabbed self l r
  unfolding lock_first
  lock_first-Grabbed test self hash [] r oks small e = cc
  lock_first-Grabbed test self hash (h ∷ rest) r oks small e =
      at_handle-Grabbed (test h) (trylock self h.mutex) refl (lock_first ops test self hash rest)
        refl (λ s q. lock_first-Grabbed test self hash rest s oks.1 (omega arith) q) e
    where
      later :
          (o : Option (List (Handle ops) × ℕ))
          → lock_first ops test self hash rest ≡ o
          → ((s : List (Handle ops) × ℕ)
              → lock_first ops test self hash rest ≡ some s
              → Grabbed self rest s)
          → at_handle ops hash h rest none o ≡ some r
          → Grabbed self (h ∷ rest) r
      later none q ih e = cc
      later (some s) q ih e =
          subst (Grabbed self (h ∷ rest)) (some_inj e) (behind-Grabbed self h rest s oks.0 (ih s q))

      at_handle-Grabbed :
          (b : Bool) (m : Option Mutex)
          → trylock self h.mutex ≡ m
          → (o : Option (List (Handle ops) × ℕ)) → lock_first ops test self hash rest ≡ o
          → ((s : List (Handle ops) × ℕ)
              → lock_first ops test self hash rest ≡ some s
              → Grabbed self rest s)
          → at_handle ops hash h rest (if b then m else none) o ≡ some r
          → Grabbed self (h ∷ rest) r
      at_handle-Grabbed false m locked o q ih e = later o q ih e
      at_handle-Grabbed true none locked o q ih e = later o q ih e
      at_handle-Grabbed true (some m) locked o q ih e =
          subst (Grabbed self (h ∷ rest)) (some_inj e)
            (grabbed-Grabbed self hash h rest m oks small locked)

  or_any-Grabbed :
      (self : ℕ) (l : List (Handle ops)) (a b : Option (List (Handle ops) × ℕ))
      (r : List (Handle ops) × ℕ)
      → ((s : List (Handle ops) × ℕ) → a ≡ some s → Grabbed self l s)
      → ((s : List (Handle ops) × ℕ) → b ≡ some s → Grabbed self l s)
      → or_any ops a b ≡ some r
      → Grabbed self l r
  or_any-Grabbed self l none b r ha hb e = hb r e
  or_any-Grabbed self l (some s) b r ha hb e = ha r e

  free_handle-Grabbed :
      (self hash : ℕ) (l : List (Handle ops)) (r : List (Handle ops) × ℕ)
      → All HandleOk l
      → uses l < 4294967295
      → free_handle ops self hash l ≡ some r
      → Grabbed self l r
  unfolding free_handle
  free_handle-Grabbed self hash l r oks small e =
      or_any-Grabbed self l
        (lock_first ops (λ h. (h.thread_hash == hash) && (h.use_count == 0)) self hash l)
        (lock_first ops (λ h. true) self hash l) r
        (λ s q. lock_first-Grabbed _ self hash l s oks small q)
        (λ s q. lock_first-Grabbed _ self hash l s oks small q) e

  -- What a thread has from the pool: nothing, a handle that it shares with no other thread, or a new one.
  abbrev pub GetResult : ℕ → Pool ops → Pool ops × Option ℕ → Type 0
  GetResult self p (p', none) = p' ≡ p
  GetResult self p (p', some i) =
      PoolOk p'
      × (p'.total_used_handles ≡ suc p.total_used_handles)
      × ((new : Handle ops) × (get_elem? p'.handle_pool i ≡ some new)
          × (holder new.mutex ≡ some self)
          × ((length p'.handle_pool ≡ suc (length p.handle_pool))
              ⊎ ((old : Handle ops) × (get_elem? p.handle_pool i ≡ some old)
                  × ((old.use_count ≡ 0) ⊎ (holder old.mutex ≡ some self)))))

  with_free-GetResult :
      (connects : Bool) (self hash : ℕ) (p : Pool ops) (o : Option (List (Handle ops) × ℕ))
      → PoolOk p
      → length p.handle_pool < 4294967295
      → uses p.handle_pool < 4294967295
      → ((r : List (Handle ops) × ℕ) → o ≡ some r → Grabbed self p.handle_pool r)
      → GetResult self p (with_free ops connects self hash p o)
  unfolding add_handle
  with_free-GetResult connects self hash p (some (l, i)) ok few small grabs =
      let (len, count, oks, (old, new, was, is, has, free)) = grabs (l, i) refl in
      let (total, used) : (p.total_handles ≡ length p.handle_pool)
          × (p.total_used_handles ≡ uses p.handle_pool) =
        (ok.total, ok.used) in
      (
        record { handles = oks; total = ok.total ∙ sym len; used = omega (arith, count) },
        omega arith,
        (new, is, has, inr (old, was, free)),
      )
  with_free-GetResult false self hash p none ok few small grabs = refl
  with_free-GetResult true self hash p none ok few small grabs =
      let (total, used) : (p.total_handles ≡ length p.handle_pool)
          × (p.total_used_handles ≡ uses p.handle_pool) =
        (ok.total, ok.used) in
      (
        record {
          handles = (sym (depth-lock_fresh self), ok.handles);
          total = omega arith;
          used = omega arith;
        },
        omega arith,
        (_, refl, holder-lock_fresh self, inl refl),
      )

  -- _agc_sql_get_handle on a pool that keeps its invariant, with fewer than 2 ^ 32 - 1 handles and
  -- uses, gives a thread no handle and leaves the pool, or a handle that the thread holds: a new
  -- one, or one that nobody or the thread itself used. The invariant is kept: each handle counts its
  -- locks and the pool its handles and their uses.
  pub get_handle-GetResult :
      (connects : Bool) (self hash : ℕ) (p : Pool ops)
      → PoolOk p
      → length p.handle_pool < 4294967295
      → uses p.handle_pool < 4294967295
      → GetResult self p (get_handle ops connects self hash p)
  unfolding get_handle
  get_handle-GetResult connects self hash p ok few small =
      with_free-GetResult connects self hash p (free_handle ops self hash p.handle_pool) ok few
        small (λ r e. free_handle-Grabbed self hash p.handle_pool r ok.handles small e)

  All-set :
      (P : Handle ops → Type 0) (l : List (Handle ops)) (i : ℕ) (h : Handle ops)
      → All P l
      → P h
      → All P (set l i h)
  All-set P [] i h all ph = tt
  All-set P (x ∷ l) zero h all ph = (ph, all.1)
  All-set P (x ∷ l) (suc i) h all ph = (all.0, All-set P l i h all.1 ph)

  All-get_elem? :
      (P : Handle ops → Type 0) (l : List (Handle ops)) (i : ℕ) (h : Handle ops)
      → All P l
      → get_elem? l i ≡ some h
      → P h
  All-get_elem? P [] i h all e = cc
  All-get_elem? P (x ∷ l) zero h all e = subst P (some_inj e) all.0
  All-get_elem? P (x ∷ l) (suc i) h all e = All-get_elem? P l i h all.1 e

  uses-set :
      (l : List (Handle ops)) (i : ℕ) (h h' : Handle ops)
      → get_elem? l i ≡ some h
      → uses (set l i h') + h.use_count ≡ uses l + h'.use_count
  uses-set [] i h h' e = cc
  uses-set (x ∷ l) zero h h' e = let same = ap (λ k. Handle.use_count k) (some_inj e) in omega arith
  uses-set (x ∷ l) (suc i) h h' e = omega (arith, uses-set l i h h' e)

  use_count-unused : (h : Handle ops) → (unused ops h).use_count ≡ h.use_count - 1
  use_count-unused h = elim (Bool-cases (h.use_count == 0)) [
    | inl idle ↦ let none_left = ==→eq h.use_count 0 idle in rw idle (omega arith)
    | inr busy ↦ elim (Bool-cases (h.use_count - 1 == 0)) [
      | inl last ↦ rw (busy, last) refl
      | inr more ↦ rw (busy, more) refl
    ]
  ]

  -- agc_sql_release_handle on a handle of the pool that is in use, where the pool counts fewer than
  -- 2 ^ 32 uses, keeps the pool's invariant, takes one from the pool's uses and one from the
  -- handle's, and unlocks the handle once.
  pub release_handle-PoolOk :
      (i : ℕ) (p : Pool ops) (h : Handle ops)
      → PoolOk p
      → uses p.handle_pool < 4294967296
      → get_elem? p.handle_pool i ≡ some h
      → 1 ≤ h.use_count
      → (let p' = release_handle ops i p in
          PoolOk p'
          × (suc p'.total_used_handles ≡ p.total_used_handles)
          × ((h' : Handle ops) × (get_elem? p'.handle_pool i ≡ some h')
              × (suc h'.use_count ≡ h.use_count)
              × (suc (depth h'.mutex) ≡ depth h.mutex)))
  unfolding release_handle
  release_handle-PoolOk i p h ok small there busy =
      let own : h.use_count ≡ depth h.mutex =
        All-get_elem? HandleOk p.handle_pool i h ok.handles there in
      let one_less = use_count-unused h in
      let shallower = depth-unlock h.mutex in
      let counted = uses-set p.handle_pool i h (let_go ops h) there in
      let used : p.total_used_handles ≡ uses p.handle_pool = ok.used in
      let kept : PoolOk (release_found ops i p (some h)) = record {
        handles = All-set HandleOk p.handle_pool i (let_go ops h) ok.handles (omega arith);
        total = ok.total ∙ sym (length-set p.handle_pool i (let_go ops h));
        used = omega arith;
      } in
      let fewer : suc (decrement p.total_used_handles) ≡ p.total_used_handles = omega arith in
      rw there (
        kept,
        fewer,
        (
          let_go ops h,
          get_elem?-set_self p.handle_pool i (let_go ops h)
              (lt_of_get_elem? p.handle_pool i h there),
          omega arith,
          omega arith,
        ),
      )
