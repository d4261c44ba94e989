-- ===== src/Sql/Mutex.antt =====
-- The nested mutexes of APR that src/agc_apr.c passes on as agc_mutex_init, agc_mutex_lock,
-- agc_mutex_trylock and agc_mutex_unlock: their clients take them as a parameter.
use common_framework.Base.{
  ℕ, suc, ◌-◌, ◌≡◌, refl, ◌⊎◌, Option, none, some, arith, ◌==◌, if◌then◌else◌,
}

-- `none` is a failed trylock. The laws are the documented ones of a nested mutex: a thread gets it if it is
-- free or the thread holds it already, and each lock wants one unlock.
pub record MutexOps : Type 1 where
  pub Mutex : Type 0
  pub fresh : Mutex
  pub lock : ℕ → Mutex → Mutex
  pub trylock : ℕ → Mutex → Option Mutex
  pub unlock : Mutex → Mutex
  -- How often it is locked, and by which thread.
  pub depth : Mutex → ℕ
  pub holder : Mutex → Option ℕ
  pub depth-lock_fresh : (self : ℕ) → depth (lock self fresh) ≡ 1
  pub holder-lock_fresh : (self : ℕ) → holder (lock self fresh) ≡ some self
  pub depth-trylock :
      (self : ℕ) (m m' : Mutex) → trylock self m ≡ some m' → depth m' ≡ suc (depth m)
  pub holder-trylock : (self : ℕ) (m m' : Mutex) → trylock self m ≡ some m' → holder m' ≡ some self
  pub trylock_free :
      (self : ℕ) (m m' : Mutex) → trylock self m ≡ some m' → (depth m ≡ 0) ⊎ (holder m ≡ some self)
  pub depth-unlock : (m : Mutex) → depth (unlock m) ≡ depth m - 1

-- A holder and a count: the parameter's laws can be met.
pub record Nested : Type 0 where
  pub thread : ℕ
  pub count : ℕ

abbrev pub try_nested : ℕ → Nested → Option Nested
try_nested self m =
    if m.count == 0
    then some (record { thread = self; count = 1 })
    else if m.thread == self
    then some (record m { count = suc m.count })
    else none

abbrev pub holder_of : Nested → Option ℕ
holder_of m = if m.count == 0 then none else some m.thread

pub try_nested-count :
    (self : ℕ) (m m' : Nested) → try_nested self m ≡ some m' → m'.count ≡ suc m.count
try_nested-count self m m' e = ground arith

pub holder_of-try_nested :
    (self : ℕ) (m m' : Nested) → try_nested self m ≡ some m' → holder_of m' ≡ some self
holder_of-try_nested self m m' e = ground arith

pub try_nested_free :
    (self : ℕ) (m m' : Nested)
    → try_nested self m ≡ some m'
    → (m.count ≡ 0) ⊎ (holder_of m ≡ some self)
try_nested_free self m m' e = ground arith

abbrev pub nested_mutex : MutexOps
nested_mutex = record {
  Mutex = Nested;
  fresh = record { thread = 0; count = 0 };
  lock = λ self m. record { thread = self; count = suc m.count };
  trylock = try_nested;
  unlock = λ m. record m { count = m.count - 1 };
  depth = λ m. m.count;
  holder = holder_of;
  depth-lock_fresh = λ self. refl;
  holder-lock_fresh = λ self. refl;
  depth-trylock = try_nested-count;
  holder-trylock = holder_of-try_nested;
  trylock_free = try_nested_free;
  depth-unlock = λ m. refl;
}
