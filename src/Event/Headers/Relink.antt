-- ===== src/Event/Headers/Relink.antt =====
-- agc_event_add_header_string of src/agc_event.c on a name that the event has already.
use common_framework.Base.{
  ℕ, zero, suc, ◌<◌, ◌≡◌, refl, ◌⊎◌, inl, inr, true, false, some, List, [], ◌∷◌, arith, success,
  ◌==◌, ==→eq, ==_refl, Bool-cases, length,
}
use common_framework.Base.CString.{CString, same_nocase}
use common_framework.Event.Memory.{
  Ptr, null, Header, header, Memory, write, Holds, spin, pure, Ends, Ends-bind, test_null,
  load-done, set_next-done, set_value-done,
}
use common_framework.Event.Types.{Event}
use common_framework.Event.Headers.{
  get_header_loop, get_header, get_header_ptr, link_last, base_add_header, add_header_string,
}
use common_framework.Event.Headers.Chain.{Cell, start, last_from, Chain, IsEvent, has, last-Holds}
use common_framework.Event.Headers.Lookup.{find_at, named, has-find_at, get_header_ptr-find}

-- What a walk in search of `other` meets at `a`: a node with another name, whose `next` pointer is
-- in the list unless `a` is its last node.
abbrev Linked : Memory → List Cell → Ptr → CString → Ptr → Type 0
Linked m cs last other a =
    (n : Header) × Holds m a n
    × (same_nocase n.name other ≡ false)
    × ((a ≡ last) ⊎ (has n.next cs ≡ true))

-- Every node of the list leads to a node of the list.
abbrev Closed : Memory → List Cell → CString → Type 0
Closed m cs other =
    (a : Ptr)
    → has a cs ≡ true
    → (n : Header) × Holds m a n × (same_nocase n.name other ≡ false) × (has n.next cs ≡ true)

Closed-spin :
    (m : Memory) (cs : List Cell) (other : CString)
    → Closed m cs other
    → (fuel : ℕ) (a : Ptr) → has a cs ≡ true
    → get_header_loop fuel a other m ≡ spin
unfolding get_header_loop
Closed-spin m cs other closed zero a i = refl
Closed-spin m cs other closed (suc fuel) a i =
    let (n, h, miss, next) = closed a i in
    rw (test_null h, load-done h, miss) (Closed-spin m cs other closed fuel n.next next)

has_more : (a : Ptr) (c : Cell) (cs : List Cell) → has a cs ≡ true → has a (c ∷ cs) ≡ true
has_more a c cs i = ground arith

Chain-Linked :
    (m : Memory) (stop : Ptr) (c : Cell) (cs : List Cell) (other : CString) (a : Ptr)
    → Chain m stop (c ∷ cs)
    → named other (c ∷ cs) ≡ false
    → has a (c ∷ cs) ≡ true
    → Linked m (c ∷ cs) (last_from c.at cs) other a
Chain-Linked m stop c [] other a (h, _, _) u i =
    let e : a ≡ c.at = ground arith in (header c.name c.value stop, rw e h, ground arith, inl e)
Chain-Linked m stop c (d ∷ cs) other a (h, _, ch) u i = elim (Bool-cases (a == c.at)) [
  | inl here ↦
      let e : a ≡ c.at = ==→eq a c.at here in
      (header c.name c.value d.at, rw e h, ground arith, inr (ground arith))
  | inr later ↦
      let (n, hn, miss, next) = Chain-Linked m stop d cs other a ch (ground arith) (ground arith) in
      (n, hn, miss, elim next [ inl e ↦ inl e | inr j ↦ inr (has_more n.next c (d ∷ cs) j) ])
]

module _ (m : Memory) (cs : List Cell) (last : Ptr) (other : CString) where
  -- A new value at one node does not change where the nodes lead.
  Linked-value :
      (hp : Ptr) (n : Header) (v : CString)
      → Holds m hp n
      → (a : Ptr) → Linked m cs last other a
      → Linked (write m hp (some (record n { value = v }))) cs last other a
  unfolding write
  Linked-value hp n v h a (k, hk, miss, next) = elim (Bool-cases (a == hp)) [
    | inl here ↦
        let e : a ≡ hp = ==→eq a hp here in
        let same : k ≡ n = ground (arith, hk.cell, h.cell) in
        (
          record n { value = v },
          record { not_null = hk.not_null; cell = rw here },
          rw (← same) miss,
          rw (← same) next,
        )
    | inr other_node ↦
        (k, record { not_null = hk.not_null; cell = rw other_node (hk.cell) }, miss, next)
  ]

  -- Once the last node leads into the list, every node does.
  Linked-Closed :
      (hp : Ptr) (n : Header)
      → ((a : Ptr) → has a cs ≡ true → Linked m cs last other a)
      → Holds m last n
      → has hp cs ≡ true
      → has last cs ≡ true
      → Closed (write m last (some (record n { next = hp }))) cs other
  unfolding write
  Linked-Closed hp n linked h i j a ia = elim (Bool-cases (a == last)) [
    | inl here ↦
        let (k, hk, miss, _) = linked last j in
        let same : k ≡ n = ground (arith, hk.cell, h.cell) in
        (
          record n { next = hp },
          record { not_null = rw (==→eq a last here) (h.not_null); cell = rw here },
          rw (← same) miss,
          i,
        )
    | inr inner ↦
        let (k, hk, miss, next) = linked a ia in
        (
          k,
          record { not_null = hk.not_null; cell = rw inner (hk.cell) },
          miss,
          elim next [ inl e ↦ absurd (ground arith) | inr q ↦ q ],
        )
  ]

Holds-value :
    (m : Memory) (hp a : Ptr) (n k : Header) (v : CString)
    → Holds m hp n
    → Holds m a k
    → (k' : Header) × Holds (write m hp (some (record n { value = v }))) a k'
unfolding write
Holds-value m hp a n k v h ha = elim (Bool-cases (a == hp)) [
  | inl here ↦ (record n { value = v }, record { not_null = ha.not_null; cell = rw here })
  | inr away ↦ (k, record { not_null = ha.not_null; cell = rw away (ha.cell) })
]

has-Holds :
    (m : Memory) (stop a : Ptr) (cs : List Cell)
    → Chain m stop cs
    → has a cs ≡ true
    → (n : Header) × Holds m a n
has-Holds m stop a [] ch i = cc
has-Holds m stop a (c ∷ cs) (h, _, ch) i = elim (Bool-cases (a == c.at)) [
  | inl here ↦ (header c.name c.value (start stop cs), rw (==→eq a c.at here) h)
  | inr later ↦ has-Holds m stop a cs ch (ground arith)
]

-- A search for a name that no header has, on any fuel, runs into the fuel's end, and so does adding a
-- header with such a name.
abbrev pub Cyclic : List Cell → Event → Memory → Type 0
Cyclic cs e g =
    (other : CString)
    → named other cs ≡ false
    → (fuel fresh : ℕ) (value : CString)
    → (get_header fuel e (some other) g ≡ spin)
      × (add_header_string fuel fresh e other (some value) g ≡ spin)

link_last-Cyclic :
    (m : Memory) (e : Event) (hp : Ptr) (v : CString) (c : Cell) (cs : List Cell)
    → IsEvent m e (c ∷ cs)
    → has hp (c ∷ cs) ≡ true
    → Ends (Cyclic (c ∷ cs)) (link_last e hp v m)
unfolding link_last get_header get_header_ptr add_header_string base_add_header
link_last-Cyclic m e hp v c cs is i =
    let (n, h) = has-Holds m null hp (c ∷ cs) is.chain i in
    let (k, hk, j) = last-Holds m null c cs is.chain in
    let (k', hk') = Holds-value m hp (last_from c.at cs) n k v h hk in
    rw (set_value-done h v, is.last, test_null hk', set_next-done hk' hp)
      λ other u fuel fresh value.
        let closed =
          Linked-Closed (write m hp (some (record n { value = v }))) (c ∷ cs) (last_from c.at cs)
            other hp k'
            (λ a ia.
              Linked-value m (c ∷ cs) (last_from c.at cs) other hp n v h a
                (Chain-Linked m null c cs other a is.chain u ia))
            hk' i j in
        let spins = Closed-spin _ (c ∷ cs) other closed fuel c.at (rw (==_refl c.at)) in
        (rw (is.first, spins) refl, rw (is.first, spins) refl)

-- agc_event_add_header_string with a name that a header has already, letter case aside: the call
-- succeeds, and from then on neither a search for a name that no header has nor adding a header with
-- such a name ends, on any fuel.
pub add_header_string-Cyclic :
    (m : Memory) (e : Event) (cs : List Cell) (fuel : ℕ) (fresh : Ptr) (name data' : CString)
    → IsEvent m e cs
    → length cs < fuel
    → named name cs ≡ true
    → Ends
        (λ (e', s) g. (s ≡ success) × Cyclic cs e' g)
        (add_header_string fuel fresh e name (some data') m)
unfolding add_header_string base_add_header
add_header_string-Cyclic m e [] fuel fresh name data' is l u = cc
add_header_string-Cyclic m e (c ∷ cs) fuel fresh name data' is l u =
    let i = has-find_at name (c ∷ cs) u in
    let (n, h) = has-Holds m null (find_at name (c ∷ cs)) (c ∷ cs) is.chain i in
    rw (get_header_ptr-find m name fuel e (c ∷ cs) is l) (
      rw (test_null h) (
        Ends-bind _ _ (link_last e (find_at name (c ∷ cs)) data' m) (λ e'. pure (e', success))
          (link_last-Cyclic m e (find_at name (c ∷ cs)) data' c cs is i)
          λ e' g cyclic. (refl, cyclic)))
