-- ===== src/Event/Memory.antt =====
-- The malloc'ed header nodes of src/agc_event.c: `struct agc_event_header` at addresses, and
-- commands that read, write and free them.
use common_framework.Base.{
  ℕ, ◌≡◌, ◌≢◌, false, Option, none, some, ◌==◌, if◌then◌else◌, ne→==, ==_refl,
}
use common_framework.Base.CString.{CString}

abbrev pub Ptr : Type 0
Ptr = ℕ

abbrev pub null : Ptr
null = 0

pub record Header : Type 0 where
  pub name : CString
  pub value : CString
  pub next : Ptr

abbrev pub header : CString → CString → Ptr → Header
header n v q = record { name = n; value = v; next = q }

-- An address that is not allocated holds `none`.
abbrev pub Memory : Type 0
Memory = Ptr → Option Header

unfoldable pub write : Memory → Ptr → Option Header → Memory
write m p c a = if a == p then c else m a

-- A run ends, or dereferences an address that holds no node, or uses up its fuel in a loop.
pub data Run (A : Type 0) : Type 0 where
  done : A → Memory → Run A
  crash : Run A
  spin : Run A

abbrev pub Cmd : Type 0 → Type 0
Cmd A = Memory → Run A

abbrev pub pure : {A : Type 0} → A → Cmd A
pure a m = done a m

module _ {A B : Type 0} where
  abbrev pub then_run : Run A → (A → Cmd B) → Run B
  then_run (done a m) k = k a m
  then_run crash k = crash
  then_run spin k = spin

  infixl 5 ◌>>=◌ ◌>>◌
  abbrev pub ◌>>=◌ : Cmd A → (A → Cmd B) → Cmd B
  c >>= k = λ m. then_run (c m) k

  abbrev pub ◌>>◌ : Cmd A → Cmd B → Cmd B
  c >> d = c >>= λ _. d

-- Total correctness of a run: it ends, and its result and memory meet the postcondition.
abbrev pub Ends : {A : Type 0} → (A → Memory → Type 0) → Run A → Type 0
Ends P (done a m) = P a m
Ends P crash = ⊥
Ends P spin = ⊥

-- `*p`
unfoldable pub load : Ptr → Cmd Header
load p m = if p == null then crash else elim (m p) [ none ↦ crash | some n ↦ done n m ]

-- `*p = n` at an address that is allocated.
unfoldable pub store : Ptr → Header → Cmd (Unit {0})
unfolding load
store p n = do _ ← load p; λ m. done tt (write m p (some n))

-- `p->next = q`
unfoldable pub set_next : Ptr → Ptr → Cmd (Unit {0})
unfolding store
set_next p q = do n ← load p; store p (record n { next = q })

-- `p->value = v`
unfoldable pub set_value : Ptr → CString → Cmd (Unit {0})
unfolding store
set_value p v = do n ← load p; store p (record n { value = v })

-- `free(p)`: a second `free` is a crash.
unfoldable pub free : Ptr → Cmd (Unit {0})
unfolding load
free p = do _ ← load p; λ m. done tt (write m p none)

-- What a node at `p` gives to the commands above.
pub record Holds (m : Memory) (p : Ptr) (n : Header) : Type 0 where
  pub not_null : p ≢ null
  pub cell : m p ≡ some n

module _ {m : Memory} {p : Ptr} {n : Header} (h : Holds m p n) where
  pub test_null : (p == null) ≡ false
  test_null = ne→== p null h.not_null

  pub load-done : load p m ≡ done n m
  unfolding load
  load-done = rw (test_null, h.cell)

  pub store-done : (k : Header) → store p k m ≡ done tt (write m p (some k))
  unfolding store
  store-done k = rw (test_null, h.cell)

  pub set_next-done :
      (q : Ptr) → set_next p q m ≡ done tt (write m p (some (record n { next = q })))
  unfolding set_next
  set_next-done q = rw (test_null, h.cell) (rw (test_null, h.cell))

  pub set_value-done :
      (v : CString) → set_value p v m ≡ done tt (write m p (some (record n { value = v })))
  unfolding set_value
  set_value-done v = rw (test_null, h.cell) (rw (test_null, h.cell))

  pub free-done : free p m ≡ done tt (write m p none)
  unfolding free
  free-done = rw (test_null, h.cell)

  pub Holds-write_ne : (q : Ptr) (c : Option Header) → p ≢ q → Holds (write m q c) p n
  unfolding write
  Holds-write_ne q c ne = record { not_null = h.not_null; cell = rw (ne→== p q ne) (h.cell) }

pub Holds-write_self :
    (m : Memory) (p : Ptr) (n : Header) → p ≢ null → Holds (write m p (some n)) p n
unfolding write
Holds-write_self m p n ne = record { not_null = ne; cell = rw (==_refl p) }

pub write_ne : (m : Memory) (p a : Ptr) (c : Option Header) → a ≢ p → write m p c a ≡ m a
unfolding write
write_ne m p a c ne = rw (ne→== a p ne)

module _ {A B : Type 0} (P : A → Memory → Type 0) (Q : B → Memory → Type 0) where
  pub Ends-bind :
      (r : Run A) (k : A → Cmd B)
      → Ends P r
      → ((a : A) (m : Memory) → P a m → Ends Q (k a m))
      → Ends Q (then_run r k)
  Ends-bind (done a m) k p next = next a m p
  Ends-bind crash k p next = absurd p
  Ends-bind spin k p next = absurd p

pub Ends-mono :
    {A : Type 0} (P Q : A → Memory → Type 0) (r : Run A)
    → Ends P r
    → ((a : A) (m : Memory) → P a m → Q a m)
    → Ends Q r
Ends-mono P Q (done a m) p weaken = weaken a m p
Ends-mono P Q crash p weaken = absurd p
Ends-mono P Q spin p weaken = absurd p

pub write_self : (m : Memory) (p : Ptr) (c : Option Header) → write m p c p ≡ c
unfolding write
write_self m p c = rw (==_refl p)
