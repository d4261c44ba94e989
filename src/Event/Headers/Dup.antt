-- ===== src/Event/Headers/Dup.antt =====
-- agc_event_dup and agc_event_destroy of src/agc_event.c on well-formed events.
use common_framework.Base.{
  ℕ, zero, suc, ◌+◌, ◌≤◌, ◌<◌, ◌≡◌, refl, sym, ◌∙◌, subst, ◌≢◌, inl, inr, true, false, ◌||◌, none,
  some, List, [], ◌∷◌, ◌++◌, append_assoc, append-nil, arith, ◌==◌, if◌then◌else◌, ==→eq, ==→ne,
  ne→==, Bool-cases, length, length-append, All,
}
use common_framework.Base.CString.{CString, same_nocase, same_nocase_sym}
use common_framework.Base.Int.{ℤ}
use common_framework.Event.Memory.{
  Ptr, null, Header, header, Memory, write, write_ne, write_self, Ends, Ends-bind, Ends-mono,
  test_null, load-done, free-done,
}
use common_framework.Event.Types.{
  Event, create, SameButHeaders, SameButHeaders-refl, SameButHeaders-trans,
}
use common_framework.Event.Headers.{add_header_string, dup_loop, dup, destroy_loop, destroy}
use common_framework.Event.Headers.Chain.{
  Cell, cell, start, Chain, Chain-write, Chain-frame, IsEvent, has, has-append, has_of_none,
  has-cons_false, SameOutside, ne_of_has,
}
use common_framework.Event.Headers.Lookup.{named}
use common_framework.Event.Headers.Add.{Added, add_header_string-Added}

-- No two headers have one name, letter case aside.
abbrev pub Distinct : List Cell → Type 0
Distinct [] = Unit {0}
Distinct (c ∷ cs) = (named c.name cs ≡ false) × Distinct cs

-- What malloc returns in turn: different addresses that are not allocated.
abbrev pub Fresh : Memory → List Ptr → Type 0
Fresh m [] = Unit {0}
Fresh m (f ∷ fs) = (f ≢ null) × (m f ≡ none) × All (λ x. x ≢ f) fs × Fresh m fs

-- The copies of `cs` at the addresses `fs`.
abbrev pub copies : List Ptr → List Cell → List Cell
copies [] cs = []
copies (f ∷ fs) [] = []
copies (f ∷ fs) (c ∷ cs) = cell f c.name c.value ∷ copies fs cs

abbrev Unused : List Cell → List Cell → Type 0
Unused ds = All (λ c. named c.name ds ≡ false)

named-snoc :
    (name : CString) (ds : List Cell) (d : Cell)
    → named name ds ≡ false
    → same_nocase d.name name ≡ false
    → named name (ds ++ d ∷ []) ≡ false
named-snoc name [] d u v = ground arith
named-snoc name (x ∷ ds) d u v = ground (arith, named-snoc name ds d)

Unused-snoc :
    (ds cs : List Cell) (d : Cell)
    → Unused ds cs
    → named d.name cs ≡ false
    → Unused (ds ++ d ∷ []) cs
Unused-snoc ds [] d u v = tt
Unused-snoc ds (c ∷ cs) d (u, us) v = (
  named-snoc c.name ds d u (ground (arith, same_nocase_sym d.name c.name)),
  Unused-snoc ds cs d us (ground arith),
)

Fresh-frame :
    (m g : Memory) (f : Ptr) (fs : List Ptr)
    → Fresh m fs
    → All (λ x. x ≢ f) fs
    → ((a : Ptr) → m a ≡ none → a ≢ f → g a ≡ m a)
    → Fresh g fs
Fresh-frame m g f [] h differ same = tt
Fresh-frame m g f (x ∷ fs) (ne, unused, apart, h) (d, ds) same =
    (ne, same x unused d ∙ unused, apart, Fresh-frame m g f fs h ds same)

has-snoc :
    (a : Ptr) (ds : List Cell) (d : Cell)
    → has a ds ≡ false
    → a ≢ d.at
    → has a (ds ++ d ∷ []) ≡ false
has-snoc a ds d o ne = rw (has-append a ds (d ∷ []), o, ne→== a d.at ne)

has-append_false :
    (a : Ptr) (ds es : List Cell)
    → has a (ds ++ es) ≡ false
    → (has a ds ≡ false) × (has a es ≡ false)
has-append_false a ds es o =
    let e : (has a ds || has a es) ≡ false = sym (has-append a ds es) ∙ o in
    (ground arith, ground arith)

ne_of_has' : (a b : Ptr) (cs : List Cell) → has a cs ≡ false → has b cs ≡ true → b ≢ a
ne_of_has' a b cs o i q = ne_of_has a b cs o i (sym q)

-- What the loop of agc_event_dup leaves: the copies behind the headers that were there.
abbrev Copied : Memory → Event → List Cell → Event → Memory → Type 0
Copied m e ds e' g = IsEvent g e' ds × SameOutside ds m g × SameButHeaders e e'

-- One round and the rounds after it.
Copied-step :
    (m g : Memory) (e e' : Event) (ds es : List Cell) (new : Cell)
    → Added m e ds new e' g
    → (e'' : Event) (g' : Memory) → Copied g e' ((ds ++ new ∷ []) ++ es) e'' g'
    → Copied m e (ds ++ new ∷ es) e'' g'
Copied-step m g e e' ds es new (_, same, only) e'' g' (is, same', only') =
    let assoc = append_assoc ds (new ∷ []) es in
    (
      subst (IsEvent g' e'') assoc is,
      (λ a o.
          let o' = subst (λ l. has a l ≡ false) (sym assoc) o in
          same' a o' ∙ same a (has-append_false a (ds ++ new ∷ []) es o').0),
      SameButHeaders-trans e e' e'' only only',
    )

module _ (walk : ℕ) where
  dup_loop-Copied :
      (fuel : ℕ) (m : Memory) (e : Event) (ds cs : List Cell) (fs : List Ptr)
      → IsEvent m e ds
      → Chain m null cs
      → ((a : Ptr) → has a cs ≡ true → has a ds ≡ false)
      → Unused ds cs
      → Distinct cs
      → Fresh m fs
      → length cs ≤ length fs
      → length cs < fuel
      → length ds + length cs < walk
      → Ends (Copied m e (ds ++ copies fs cs)) (dup_loop walk fuel fs e (start null cs) m)
  unfolding dup_loop
  dup_loop-Copied zero m e ds cs fs is ch apart un di fr len fuel w = absurd (omega arith)
  dup_loop-Copied (suc k) m e ds [] [] is ch apart un di fr len fuel w =
      rw append-nil (is, (λ a o. refl), SameButHeaders-refl e)
  dup_loop-Copied (suc k) m e ds [] (f ∷ fs) is ch apart un di fr len fuel w =
      rw append-nil (is, (λ a o. refl), SameButHeaders-refl e)
  dup_loop-Copied (suc k) m e ds (c ∷ cs) [] is ch apart un di fr len fuel w = absurd (omega arith)
  dup_loop-Copied (suc k) m e ds (c ∷ cs) (f ∷ fs) is (h, out, ch) apart (u, us) (d, di)
        (ne, unused, differ, fr) len fuel w =
      rw (test_null h, load-done h)
        (Ends-bind _ _ (add_header_string walk f e c.name (some c.value) m) _
          (add_header_string-Added m e ds is f ne unused walk c.name c.value (omega arith) u)
          λ (e', s) g (_, added).
            Ends-mono {A = Event} (Copied g e' ((ds ++ copy ∷ []) ++ copies fs cs))
              (Copied m e (ds ++ copies (f ∷ fs) (c ∷ cs))) _
              (dup_loop-Copied k g e' (ds ++ copy ∷ []) cs fs added.0
                (Chain-frame m g null cs ch (λ a i. added.1 a (apart' a i))) apart'
                (Unused-snoc ds cs copy us d) di
                (Fresh-frame m g f fs fr differ λ a free ne'.
                  added.1 a (has-snoc a ds copy (has_of_none m null a ds is.chain free) ne'))
                (omega arith) (omega arith) (omega (arith, length-append {0} ds (copy ∷ []))))
              (Copied-step m g e e' ds (copies fs cs) copy added))
    where
      copy : Cell
      copy = cell f c.name c.value

      apart' : (a : Ptr) → has a cs ≡ true → has a (ds ++ copy ∷ []) ≡ false
      apart' a i = has-snoc a ds copy (apart a (ground arith)) (
          ne_of_has' f a cs
            (has-cons_false f c cs (has_of_none m null f (c ∷ cs) (h, out, ch) unused)).1 i)

create-IsEvent : (m : Memory) (i : ℤ) (s : ℕ) → IsEvent m (create i s) []
unfolding create
create-IsEvent m i s = record { chain = tt; first = refl; last = refl }

-- What agc_event_dup leaves: the copy of `e`, and the original as it was.
abbrev pub Duplicate : Memory → Event → List Cell → List Ptr → Event → Memory → Type 0
Duplicate m e cs fs e' g =
    IsEvent g e' (copies fs cs)
    × IsEvent g e cs
    × (e'.event_id ≡ e.event_id)
    × (e'.source_id ≡ e.source_id)
    × (e'.body ≡ e.body)
    × (e'.call_back ≡ none)

has-copies :
    (m : Memory) (a : Ptr) (n : Header) (fs : List Ptr) (cs : List Cell)
    → Fresh m fs
    → m a ≡ some n
    → has a (copies fs cs) ≡ false
has-copies m a n [] cs fr h = refl
has-copies m a n (f ∷ fs) [] fr h = refl
has-copies m a n (f ∷ fs) (c ∷ cs) (ne, unused, _, fr) h =
    let differ : a ≢ f = λ q. cc in rw (ne→== a f differ, has-copies m a n fs cs fr h)

has-some :
    (m : Memory) (stop a : Ptr) (cs : List Cell)
    → Chain m stop cs
    → has a cs ≡ true
    → (n : Header) × (m a ≡ some n)
has-some m stop a [] ch i = cc
has-some m stop a (c ∷ cs) (h, _, ch) i = elim (Bool-cases (a == c.at)) [
  | inl here ↦ (header c.name c.value (start stop cs), rw (==→eq a c.at here) (h.cell))
  | inr later ↦ has-some m stop a cs ch (ground arith)
]

Unused-nil : (cs : List Cell) → Unused [] cs
Unused-nil [] = tt
Unused-nil (c ∷ cs) = (refl, Unused-nil cs)

-- With different header names, enough fuel and addresses from malloc, agc_event_dup ends with a
-- well-formed event that has the same headers in the same order, the same id, source and body and
-- no callback, at fresh nodes; the original event is as it was.
pub dup-Duplicate :
    (fuel : ℕ) (m : Memory) (e : Event) (cs : List Cell) (fs : List Ptr)
    → IsEvent m e cs
    → Distinct cs
    → Fresh m fs
    → length cs ≤ length fs
    → length cs < fuel
    → Ends (Duplicate m e cs fs) (dup fuel fs e m)
unfolding dup
dup-Duplicate fuel m e cs fs is di fr len l = simp is.first (
    Ends-bind _ (Duplicate m e cs fs)
      (dup_loop fuel fuel fs (create e.event_id e.source_id) (start null cs) m) _
      (dup_loop-Copied fuel fuel m (create e.event_id e.source_id) [] cs fs
        (create-IsEvent m e.event_id e.source_id) is.chain (λ a i. refl) (Unused-nil cs) di fr len l
        (omega arith))
      λ e' g (is', same, only). (
        record { chain = is'.chain; first = is'.first; last = is'.last },
        record {
          chain = Chain-frame m g null cs is.chain λ a i.
              let (n, h) = has-some m null a cs is.chain i in same a (has-copies m a n fs cs fr h);
          first = is.first;
          last = is.last;
        },
        only.event_id,
        only.source_id,
        refl,
        only.call_back,
      ))

abbrev pub Destroyed : List Cell → Memory → Memory → Type 0
Destroyed cs m g = (a : Ptr) → g a ≡ (if has a cs then none else m a)

destroy_loop-Destroyed :
    (fuel : ℕ) (m : Memory) (cs : List Cell)
    → Chain m null cs
    → length cs < fuel
    → Ends (λ _ g. Destroyed cs m g) (destroy_loop fuel (start null cs) m)
unfolding destroy_loop
destroy_loop-Destroyed zero m cs ch l = absurd (omega arith)
destroy_loop-Destroyed (suc fuel) m [] ch l = λ a. refl
destroy_loop-Destroyed (suc fuel) m (c ∷ cs) (h, out, ch) l =
    rw (test_null h, load-done h, free-done h)
      (Ends-mono _ (λ _ g. Destroyed (c ∷ cs) m g) _
        (destroy_loop-Destroyed fuel (write m c.at none) cs (Chain-write m c.at none null cs ch out)
          (omega arith))
        λ _ g gone a. gone a ∙ freed a)
  where
    freed :
        (a : Ptr)
        → (if has a cs then none else write m c.at none a) ≡ (if has a (c ∷ cs) then none else m a)
    freed a = elim (Bool-cases (a == c.at)) [
      | inl here ↦ rw here (rw (==→eq a c.at here) (rw (out, write_self m c.at none)))
      | inr away ↦ rw (away, write_ne m c.at a none (==→ne a c.at away))
    ]

-- On a well-formed event and with fuel for its headers, agc_event_destroy ends, frees exactly the nodes of the event, each once, and clears the pointer.
pub destroy-Destroyed :
    (fuel : ℕ) (m : Memory) (e : Event) (cs : List Cell)
    → IsEvent m e cs
    → length cs < fuel
    → Ends (λ p g. (p ≡ none) × Destroyed cs m g) (destroy fuel (some e) m)
unfolding destroy
destroy-Destroyed fuel m e cs is l = rw is.first (
    Ends-bind _ (λ p g. (p ≡ none) × Destroyed cs m g) (destroy_loop fuel (start null cs) m) _
      (destroy_loop-Destroyed fuel m cs is.chain l) λ _ g gone. (refl, gone))
