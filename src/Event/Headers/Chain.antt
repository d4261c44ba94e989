-- ===== src/Event/Headers/Chain.antt =====
-- What a header list stands for: the addresses, names and values of its nodes in order.
use common_framework.Base.{
  ◌≡◌, refl, sym, ap, ◌∙◌, ◌≢◌, Bool, true, false, ◌||◌, Option, none, some, List, [], ◌∷◌, ◌++◌,
  arith, ◌==◌, ==_refl,
}
use common_framework.Base.CString.{CString}
use common_framework.Event.Memory.{Ptr, null, Header, header, Memory, write, Holds, Holds-write_ne}
use common_framework.Event.Types.{Event}

pub record Cell : Type 0 where
  pub at : Ptr
  pub name : CString
  pub value : CString

abbrev pub cell : Ptr → CString → CString → Cell
cell p n v = record { at = p; name = n; value = v }

abbrev pub start : Ptr → List Cell → Ptr
start stop [] = stop
start stop (c ∷ cs) = c.at

abbrev pub last_from : Ptr → List Cell → Ptr
last_from p [] = p
last_from p (c ∷ cs) = last_from c.at cs

abbrev pub last_at : List Cell → Ptr
last_at = last_from null

abbrev pub has : Ptr → List Cell → Bool
has a [] = false
has a (c ∷ cs) = (a == c.at) || has a cs

-- From `start stop cs` the `next` pointers lead through the distinct nodes `cs` to `stop`.
abbrev pub Chain : Memory → Ptr → List Cell → Type 0
Chain m stop [] = Unit {0}
Chain m stop (c ∷ cs) =
    Holds m c.at (header c.name c.value (start stop cs)) × (has c.at cs ≡ false) × Chain m stop cs

-- The event's two pointers are the ends of the list `cs`.
pub record IsEvent (m : Memory) (e : Event) (cs : List Cell) : Type 0 where
  pub chain : Chain m null cs
  pub first : e.headers ≡ start null cs
  pub last : e.last_header ≡ last_at cs

-- `g` differs from `m` at most at the addresses of `cs`.
abbrev pub SameOutside : List Cell → Memory → Memory → Type 0
SameOutside cs m g = (a : Ptr) → has a cs ≡ false → g a ≡ m a

pub has-append : (a : Ptr) (cs ds : List Cell) → has a (cs ++ ds) ≡ (has a cs || has a ds)
has-append a [] ds = refl
has-append a (c ∷ cs) ds = ground (arith, has-append a cs ds)

pub has-cons_false :
    (a : Ptr) (c : Cell) (cs : List Cell) → has a (c ∷ cs) ≡ false → (a ≢ c.at) × (has a cs ≡ false)
has-cons_false a c cs e = (ground arith, ground arith)

pub has-snoc_false :
    (a : Ptr) (cs : List Cell) (d : Cell)
    → has a (cs ++ d ∷ []) ≡ false
    → (has a cs ≡ false) × (a ≢ d.at)
has-snoc_false a [] d e = (refl, ground arith)
has-snoc_false a (c ∷ cs) d e = ground (arith, has-snoc_false a cs d)

pub has_of_none :
    (m : Memory) (stop a : Ptr) (cs : List Cell) → Chain m stop cs → m a ≡ none → has a cs ≡ false
has_of_none m stop a [] ch e = refl
has_of_none m stop a (c ∷ cs) (h, _, ch) e = ground (arith, h.cell, has_of_none m stop a cs ch e)

-- A chain survives any change that spares its own nodes.
pub Chain-frame :
    (m g : Memory) (stop : Ptr) (cs : List Cell)
    → Chain m stop cs
    → ((a : Ptr) → has a cs ≡ true → g a ≡ m a)
    → Chain g stop cs
Chain-frame m g stop [] ch same = tt
Chain-frame m g stop (c ∷ cs) (h, out, ch) same = (
  record { not_null = h.not_null; cell = same c.at (rw (==_refl c.at)) ∙ h.cell },
  out,
  Chain-frame m g stop cs ch (λ a i. same a (ground arith)),
)

pub Chain-write :
    (m : Memory) (p : Ptr) (n : Option Header) (stop : Ptr) (cs : List Cell)
    → Chain m stop cs
    → has p cs ≡ false
    → Chain (write m p n) stop cs
unfolding write
Chain-write m p n stop cs ch out = Chain-frame m (write m p n) stop cs ch (ground arith)

-- The last node of a chain that is not empty.
pub last-Holds :
    (m : Memory) (stop : Ptr) (c : Cell) (cs : List Cell)
    → Chain m stop (c ∷ cs)
    → (n : Header) × Holds m (last_from c.at cs) n × (has (last_from c.at cs) (c ∷ cs) ≡ true)
last-Holds m stop c [] (h, _, _) = (header c.name c.value stop, h, rw (==_refl c.at))
last-Holds m stop c (d ∷ cs) (_, _, ch) =
    let (n, h, i) = last-Holds m stop d cs ch in (n, h, ground arith)

-- Its `next` pointer is the end of the chain.
pub last-cell :
    (m : Memory) (stop : Ptr) (c : Cell) (cs : List Cell) (n : Header)
    → Chain m stop (c ∷ cs)
    → m (last_from c.at cs) ≡ some n
    → n.next ≡ stop
last-cell m stop c [] n (h, _, _) e = ground (arith, h.cell)
last-cell m stop c (d ∷ cs) n (_, _, ch) e = last-cell m stop d cs n ch e

pub ne_of_has : (a b : Ptr) (cs : List Cell) → has a cs ≡ false → has b cs ≡ true → a ≢ b
ne_of_has a b cs o i q = let clash : false ≡ true = sym o ∙ ap (λ p. has p cs) q ∙ i in cc

-- A node behind the end, once the last node points at it.
pub Chain-snoc :
    (m : Memory) (new : Cell) (c : Cell) (cs : List Cell) (n : Header)
    → Chain m null (c ∷ cs)
    → Holds m new.at (header new.name new.value null)
    → has new.at (c ∷ cs) ≡ false
    → m (last_from c.at cs) ≡ some n
    → Chain
        (write m (last_from c.at cs) (some (record n { next = new.at })))
        null
        ((c ∷ cs) ++ new ∷ [])
unfolding write
Chain-snoc m new c [] n (h, _, _) hn out e = (
  record { not_null = h.not_null; cell = ground (arith, h.cell) },
  ground arith,
  (record { not_null = hn.not_null; cell = ground (arith, hn.cell) }, refl, tt),
)
Chain-snoc m new c (d ∷ cs) n (h, o, ch) hn out e =
    let (k, _, i) = last-Holds m null d cs ch in
    (
      Holds-write_ne h _ _ (ne_of_has c.at (last_from d.at cs) (d ∷ cs) o i),
      rw (has-append c.at (d ∷ cs) (new ∷ []), o) (ground arith),
      Chain-snoc m new d cs n ch hn (ground arith) e,
    )

pub last-append : (p : Ptr) (cs : List Cell) (d : Cell) → last_from p (cs ++ d ∷ []) ≡ d.at
last-append p [] d = refl
last-append p (c ∷ cs) d = last-append c.at cs d
