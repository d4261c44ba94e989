-- ===== src/Event/Headers/Delete.antt =====
-- agc_event_del_header of src/agc_event.c on well-formed events.
use common_framework.Base.{
  ℕ, zero, suc, ◌<◌, ◌≡◌, refl, sym, ◌∙◌, ◌≢◌, inl, inr, true, false, not, ◌||◌, none, some, List,
  [], ◌∷◌, arith, ◌==◌, ==→eq, ne→==, Bool-cases, length, keep,
}
use common_framework.Base.CString.{CString, same_nocase}
use common_framework.Event.Memory.{
  Ptr, null, Header, header, Memory, write, write_ne, write_self, Holds, Holds-write_self,
  Holds-write_ne, done, Ends, Ends-mono, test_null, load-done, set_next-done, free-done,
}
use common_framework.Event.Types.{Event}
use common_framework.Event.Headers.{unlinked, unlink, del_header_loop, del_header}
use common_framework.Event.Headers.Chain.{
  Cell, start, last_from, Chain, Chain-write, IsEvent, has, last-Holds, ne_of_has, SameOutside,
  has-cons_false,
}

-- The headers that do not have the name, in their order.
abbrev pub kept : CString → List Cell → List Cell
kept name = keep (λ c. not (same_nocase name c.name))

-- Nodes of `cs` that are not in `ds` are free.
abbrev pub Freed : List Cell → List Cell → Memory → Type 0
Freed cs ds g = (a : Ptr) → has a cs ≡ true → has a ds ≡ false → g a ≡ none

has-kept :
    (name : CString) (a : Ptr) (cs : List Cell) → has a cs ≡ false → has a (kept name cs) ≡ false
has-kept name a [] o = refl
has-kept name a (c ∷ cs) o = elim (Bool-cases (same_nocase name c.name)) [
  | inl hit ↦ ground (arith, has-kept name a cs)
  | inr miss ↦ ground (arith, has-kept name a cs)
]

-- A sweep of the nodes `rest` behind the node `l`.
record Swept (m : Memory) (e : Event) (name : CString) (l : Cell) (rest : List Cell) (e' : Event)
    (g : Memory) : Type 0 where
  first : e'.headers ≡ e.headers
  last : e'.last_header ≡ last_from l.at (kept name rest)
  chain : Chain g null (l ∷ kept name rest)
  freed : Freed rest (kept name rest) g
  same : SameOutside (l ∷ rest) m g

unlinked-last :
    (m : Memory) (e : Event) (lp : Ptr) (c : Cell) (cs : List Cell)
    → lp ≢ null
    → Chain m null (c ∷ cs)
    → e.last_header ≡ last_from c.at cs
    → (unlinked e lp c.at (start null cs)).last_header ≡ last_from lp cs
unfolding unlinked
unlinked-last m e lp c [] ne ch is = ground arith
unlinked-last m e lp c (d ∷ cs) ne (_, out, ch) is =
    let (_, hl, i) = last-Holds m null d cs ch in
    let differ = ne_of_has c.at (last_from d.at cs) (d ∷ cs) out i in
    rw (ne→== lp null ne, is, ne→== c.at _ differ, test_null (ch.0))

unlinked-first :
    (e : Event) (lp hp next : Ptr) → lp ≢ null → (unlinked e lp hp next).headers ≡ e.headers
unfolding unlinked
unlinked-first e lp hp next ne = ground arith

unlink-done :
    (m : Memory) (lp hp next : Ptr) (n k : Header)
    → Holds m lp n
    → Holds m hp k
    → hp ≢ lp
    → unlink lp hp next m ≡ done tt (write (write m lp (some (record n { next = next }))) hp none)
unfolding unlink
unlink-done m lp hp next n k h hk ne = rw (
  test_null h,
  set_next-done h next,
  free-done (Holds-write_ne hk lp (some (record n { next = next })) ne),
)

module _ (name : CString) where
  after_hit :
      (m g : Memory) (e e' : Event) (l c : Cell) (cs : List Cell)
      → same_nocase name c.name ≡ true
      → l.at ≢ null
      → has l.at (c ∷ cs) ≡ false
      → has c.at cs ≡ false
      → Swept
          (write (write m l.at (some (header l.name l.value (start null cs)))) c.at none)
          (unlinked e l.at c.at (start null cs))
          name
          l
          cs
          e'
          g
      → Swept m e name l (c ∷ cs) e' g
  after_hit m g e e' l c cs hit ne out out' s = record {
    first = s.first ∙ unlinked-first e l.at c.at (start null cs) ne;
    last = rw hit (s.last);
    chain = rw hit (s.chain);
    freed = rw hit λ a i o. elim (Bool-cases (a == c.at)) [
      | inl here ↦ rw (==→eq a c.at here) (
          s.same c.at (rw (ne→== c.at l.at (λ q. apart.0 (sym q)), out'))
          ∙ write_self linked c.at none)
      | inr later ↦ s.freed a (ground arith) o
    ];
    same = λ a o.
        let (al, o') = has-cons_false a l (c ∷ cs) o in
        let (ac, ao) = has-cons_false a c cs o' in
        s.same a (rw (ne→== a l.at al, ao))
        ∙ write_ne linked c.at a none ac
        ∙ write_ne m l.at a (some (header l.name l.value (start null cs))) al;
  }
    where
      apart : (l.at ≢ c.at) × (has l.at cs ≡ false)
      apart = has-cons_false l.at c cs out

      linked : Memory
      linked = write m l.at (some (header l.name l.value (start null cs)))

  after_miss :
      (m g : Memory) (e e' : Event) (l c : Cell) (cs : List Cell)
      → same_nocase name c.name ≡ false
      → Holds m l.at (header l.name l.value c.at)
      → has l.at (c ∷ cs) ≡ false
      → Swept m e name c cs e' g
      → Swept m e name l (c ∷ cs) e' g
  after_miss m g e e' l c cs miss h out s = record {
    first = s.first;
    last = rw miss (s.last);
    chain = rw miss (
      record { not_null = h.not_null; cell = s.same l.at out ∙ h.cell },
      ground (arith, has-kept name l.at cs),
      s.chain,
    );
    freed = rw miss (λ a i o. s.freed a (ground arith) (ground arith));
    same = λ a o. s.same a (ground arith);
  }

  -- The sweep behind a node `l` that is kept.
  loop_after :
      (fuel : ℕ) (m : Memory) (e : Event) (l : Cell) (rest : List Cell)
      → Holds m l.at (header l.name l.value (start null rest))
      → has l.at rest ≡ false
      → Chain m null rest
      → e.last_header ≡ last_from l.at rest
      → length rest < fuel
      → Ends (Swept m e name l rest) (del_header_loop fuel e name l.at (start null rest) m)
  unfolding del_header_loop
  loop_after zero m e l rest h out ch is f = absurd (omega arith)
  loop_after (suc fuel) m e l [] h out ch is f = record {
    first = refl;
    last = is;
    chain = (h, refl, tt);
    freed = λ a i o. cc;
    same = λ a o. refl;
  }
  loop_after (suc fuel) m e l (c ∷ cs) h out (hc, out', ch) is f =
      let (apart, out₂) = has-cons_false l.at c cs out in
      let linked = write m l.at (some (header l.name l.value (start null cs))) in
      rw (test_null hc, load-done hc)
        (elim (Bool-cases (same_nocase name c.name)) [
          | inl hit ↦
              rw (hit, unlink-done m l.at c.at (start null cs) _ _ h hc (λ q. apart (sym q)))
                (Ends-mono _ _ _
                  (loop_after fuel (write linked c.at none) (unlinked e l.at c.at (start null cs)) l
                    cs (Holds-write_ne (Holds-write_self m l.at _ h.not_null) c.at none apart) out₂
                    (Chain-write linked c.at none null cs (Chain-write m l.at _ null cs ch out₂)
                      out')
                    (unlinked-last m e l.at c cs h.not_null (hc, out', ch) is) (omega arith))
                  λ e' g. after_hit m g e e' l c cs hit h.not_null out out')
          | inr miss ↦ rw miss (
              Ends-mono _ _ _ (loop_after fuel m e c cs hc out' ch is (omega arith))
                λ e' g. after_miss m g e e' l c cs miss h out)
        ])

  abbrev pub Deleted : Memory → List Cell → Event → Memory → Type 0
  Deleted m cs e g = IsEvent g e (kept name cs) × Freed cs (kept name cs) g × SameOutside cs m g

  unlink_first-done :
      (m : Memory) (hp next : Ptr) (k : Header)
      → Holds m hp k
      → unlink null hp next m ≡ done tt (write m hp none)
  unfolding unlink
  unlink_first-done m hp next k h = free-done h

  unlinked_first-IsEvent :
      (m : Memory) (e : Event) (c : Cell) (cs : List Cell)
      → IsEvent m e (c ∷ cs)
      → IsEvent (write m c.at none) (unlinked e null c.at (start null cs)) cs
  unfolding unlinked
  unlinked_first-IsEvent m e c [] is = record {
    chain = tt;
    first = ground arith;
    last = ground (arith, is.last);
  }
  unlinked_first-IsEvent m e c (d ∷ cs) is =
      let (_, out, ch) = is.chain in
      let (_, _, i) = last-Holds m null d cs ch in
      let differ = ne_of_has c.at (last_from d.at cs) (d ∷ cs) out i in
      let stays : ((c.at == e.last_header) || (d.at == null)) ≡ false =
        rw (is.last, ne→== c.at _ differ, test_null (ch.0)) refl in
      record {
        chain = Chain-write m c.at none null (d ∷ cs) ch out;
        first = rw stays;
        last = rw stays (is.last);
      }

  first_hit :
      (m g : Memory) (c : Cell) (cs : List Cell) (e' : Event)
      → same_nocase name c.name ≡ true
      → has c.at cs ≡ false
      → Deleted (write m c.at none) cs e' g
      → Deleted m (c ∷ cs) e' g
  first_hit m g c cs e' hit out (is, freed, same) = rw hit (
    is,
    (λ a i o. elim (Bool-cases (a == c.at)) [
      | inl here ↦ rw (==→eq a c.at here) (same c.at out ∙ write_self m c.at none)
      | inr later ↦ freed a (ground arith) o
    ]),
    λ a o. let (ac, ao) = has-cons_false a c cs o in same a ao ∙ write_ne m c.at a none ac,
  )

  first_miss :
      (m g : Memory) (e e' : Event) (c : Cell) (cs : List Cell)
      → same_nocase name c.name ≡ false
      → e.headers ≡ c.at
      → Swept m e name c cs e' g
      → Deleted m (c ∷ cs) e' g
  first_miss m g e e' c cs miss first s = rw miss (
    record { chain = s.chain; first = s.first ∙ first; last = s.last },
    (λ a i o. s.freed a (ground arith) (ground arith)),
    s.same,
  )

  loop_first :
      (fuel : ℕ) (m : Memory) (e : Event) (cs : List Cell)
      → IsEvent m e cs
      → length cs < fuel
      → Ends (Deleted m cs) (del_header_loop fuel e name null (start null cs) m)
  unfolding del_header_loop
  loop_first zero m e cs is f = absurd (omega arith)
  loop_first (suc fuel) m e [] is f = (is, (λ a i o. cc), λ a o. refl)
  loop_first (suc fuel) m e (c ∷ cs) is f =
      let (h, out, ch) = is.chain in
      rw (test_null h, load-done h)
        (elim (Bool-cases (same_nocase name c.name)) [
          | inl hit ↦
              rw (hit, unlink_first-done m c.at (start null cs) _ h)
                (Ends-mono _ _ _
                  (loop_first fuel (write m c.at none) (unlinked e null c.at (start null cs)) cs
                    (unlinked_first-IsEvent m e c cs is) (omega arith))
                  λ e' g. first_hit m g c cs e' hit out)
          | inr miss ↦ rw miss (
              Ends-mono _ _ _ (loop_after fuel m e c cs h out ch is.last (omega arith))
                λ e' g. first_miss m g e e' c cs miss is.first)
        ])

  -- On a well-formed event and with fuel for its headers, agc_event_del_header ends, leaves a
  -- well-formed event with the headers of other names in their order, frees the nodes of the ones
  -- removed, and writes to no node outside the list.
  pub del_header-Deleted :
      (fuel : ℕ) (m : Memory) (e : Event) (cs : List Cell)
      → IsEvent m e cs
      → length cs < fuel
      → Ends (Deleted m cs) (del_header fuel e name m)
  unfolding del_header
  del_header-Deleted fuel m e cs is f = simp is.first (loop_first fuel m e cs is f)
