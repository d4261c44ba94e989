-- ===== src/Event/Headers/Add.antt =====
-- agc_event_base_add_header_nocheck and agc_event_add_header_string on a name that is new.
use common_framework.Base.{
  ℕ, ◌<◌, ◌≡◌, refl, sym, ◌∙◌, ◌≢◌, false, none, some, List, [], ◌∷◌, ◌++◌, arith, success, ne→==,
  length,
}
use common_framework.Base.CString.{CString}
use common_framework.Event.Memory.{
  Ptr, null, header, Memory, write, Holds, Holds-write_self, Holds-write_ne, Ends, test_null,
  set_next-done, set_value-done, then_run, write_ne, Ends-bind, Ends-mono, pure,
}
use common_framework.Event.Types.{Event, SameButHeaders, SameButHeaders-links}
use common_framework.Event.Headers.{
  new_header, link_last, base_add_header_nocheck, base_add_header, add_header_string,
}
use common_framework.Event.Headers.Chain.{
  Cell, cell, last_from, Chain-write, Chain-snoc, last-Holds, last-append, IsEvent, has,
  has_of_none, has-snoc_false, SameOutside, ne_of_has,
}
use common_framework.Event.Headers.Lookup.{named, find_at-unnamed, get_header_ptr-find}

-- The event after a header has been added behind those of `cs`.
abbrev pub Added : Memory → Event → List Cell → Cell → Event → Memory → Type 0
Added m e cs new e' g =
    IsEvent g e' (cs ++ new ∷ []) × SameOutside (cs ++ new ∷ []) m g × SameButHeaders e e'

module _ (m : Memory) (e : Event) (p : Ptr) (name data' : CString) where
  abbrev valued : Memory
  valued = write m p (some (header name data' null))

  link_last-Added :
      (cs : List Cell)
      → IsEvent m e cs
      → Holds m p (header name [] null)
      → has p cs ≡ false
      → Ends (Added m e cs (cell p name data')) (link_last e p data' m)
  unfolding link_last write
  link_last-Added [] is h out =
      rw
        (
          set_value-done h data',
          is.last,
          set_next-done (Holds-write_self m p (header name data' null) h.not_null) null,
        )
        (
          record {
            chain = (Holds-write_self valued p _ h.not_null, refl, tt);
            first = refl;
            last = refl;
          },
          (λ a o. ground arith),
          SameButHeaders-links (record e { last_header = null }) p p,
        )
  link_last-Added (c ∷ cs) is h out =
      let (n, hn, i) = last-Holds m null c cs is.chain in
      let ne = ne_of_has p (last_from c.at cs) (c ∷ cs) out i in
      let hl = Holds-write_ne hn p (some (header name data' null)) (λ q. ne (sym q)) in
      rw (set_value-done h data', is.last, test_null hl, set_next-done hl p)
        (
          record {
            chain =
                Chain-snoc valued (cell p name data') c cs n
                  (Chain-write m p _ null (c ∷ cs) is.chain out) (Holds-write_self m p _ h.not_null)
                  out hl.cell;
            first = is.first;
            last = sym (last-append c.at cs (cell p name data'));
          },
          (λ a o.
              let (o', fresh) = has-snoc_false a (c ∷ cs) (cell p name data') o in
              write_ne valued _ a _ (ne_of_has a (last_from c.at cs) (c ∷ cs) o' i)
              ∙ write_ne m p a _ fresh),
          SameButHeaders-links (record e { last_header = last_from c.at cs }) e.headers p,
        )

module _ (m : Memory) (e : Event) (cs : List Cell) (is : IsEvent m e cs) where
  module _ (fresh : Ptr) (ne : fresh ≢ null) (unused : m fresh ≡ none) where
    append_new :
        (name data' : CString)
        → Ends
            (Added m e cs (cell fresh name data'))
            (then_run (new_header fresh name m) (λ hp. link_last e hp data'))
    unfolding new_header
    append_new name data' =
        let g = write m fresh (some (header name [] null)) in
        let out = has_of_none m null fresh cs is.chain unused in
        let wf : IsEvent g e cs = record {
          chain = Chain-write m fresh _ null cs is.chain out;
          first = is.first;
          last = is.last;
        } in
        rw (ne→== fresh null ne) (
          Ends-mono _ _ (link_last e fresh data' g)
            (link_last-Added g e fresh name data' cs wf
              (Holds-write_self m fresh (header name [] null) ne) out)
            λ e' g' (wf', same, only). (
              wf',
              (λ a o.
                  same a o
                  ∙ write_ne m fresh a _ (has-snoc_false a cs (cell fresh name data') o).1),
              only,
            ))

    -- agc_event_base_add_header_nocheck puts the header behind the others, whether or not the name
    -- is in use, keeps the event well formed, and writes to no node outside the new list.
    pub base_add_header_nocheck-Added :
        (name data' : CString)
        → Ends (Added m e cs (cell fresh name data')) (base_add_header_nocheck fresh e name data' m)
    unfolding base_add_header_nocheck
    base_add_header_nocheck-Added name data' = append_new name data'

    -- On a well-formed event, with fuel for its headers and a name that no header has,
    -- agc_event_add_header_string succeeds, puts the header behind the others, keeps the event well
    -- formed, and writes to no node outside the new list.
    pub add_header_string-Added :
        (fuel : ℕ) (name data' : CString)
        → length cs < fuel
        → named name cs ≡ false
        → Ends
            (λ (e', s) g. (s ≡ success) × Added m e cs (cell fresh name data') e' g)
            (add_header_string fuel fresh e name (some data') m)
    unfolding add_header_string base_add_header
    add_header_string-Added fuel name data' l unnamed =
        rw (get_header_ptr-find m name fuel e cs is l, find_at-unnamed name cs unnamed)
          (Ends-bind _ _ (then_run (new_header fresh name m) (λ hp. link_last e hp data'))
            (λ e'. pure (e', success)) (append_new name data') λ e' g added. (refl, added))
