-- ===== src/Event/Headers/Lookup.antt =====
-- agc_event_get_header against a search of the list that the nodes stand for.
use common_framework.Base.{
  ℕ, zero, suc, ◌<◌, ◌≡◌, refl, inl, inr, Bool, true, false, ◌||◌, Option, none, some, List, [],
  ◌∷◌, arith, if◌then◌else◌, Bool-cases, length,
}
use common_framework.Base.CString.{CString, same_nocase}
use common_framework.Event.Memory.{
  Ptr, null, Header, header, Memory, Holds, done, test_null, load-done,
}
use common_framework.Event.Types.{Event}
use common_framework.Event.Headers.{get_header_loop, get_header_ptr, get_header}
use common_framework.Event.Headers.Chain.{Cell, start, Chain, IsEvent, has}

-- The address and the value of the first cell with a name, letter case aside.
abbrev pub find_at : CString → List Cell → Ptr
find_at name [] = null
find_at name (c ∷ cs) = if same_nocase c.name name then c.at else find_at name cs

abbrev pub find_value : CString → List Cell → Option CString
find_value name [] = none
find_value name (c ∷ cs) = if same_nocase c.name name then some c.value else find_value name cs

abbrev pub named : CString → List Cell → Bool
named name [] = false
named name (c ∷ cs) = same_nocase c.name name || named name cs

pub find_at-unnamed :
    (name : CString) (cs : List Cell) → named name cs ≡ false → find_at name cs ≡ null
find_at-unnamed name [] e = refl
find_at-unnamed name (c ∷ cs) e = ground (arith, find_at-unnamed name cs)

pub has-find_at :
    (name : CString) (cs : List Cell) → named name cs ≡ true → has (find_at name cs) cs ≡ true
has-find_at name [] e = cc
has-find_at name (c ∷ cs) e = ground (arith, has-find_at name cs)

module _ (m : Memory) (name : CString) where
  pub get_header_loop-find :
      (fuel : ℕ) (cs : List Cell)
      → Chain m null cs
      → length cs < fuel
      → get_header_loop fuel (start null cs) name m ≡ done (find_at name cs) m
  unfolding get_header_loop
  get_header_loop-find zero cs ch l = absurd (omega arith)
  get_header_loop-find (suc fuel) [] ch l = refl
  get_header_loop-find (suc fuel) (c ∷ cs) (h, _, ch) l =
      rw (test_null h, load-done h)
        (elim (Bool-cases (same_nocase c.name name)) [
          | inl hit ↦ rw hit
          | inr miss ↦ rw miss (get_header_loop-find fuel cs ch (omega arith))
        ])

  pub get_header_ptr-find :
      (fuel : ℕ) (e : Event) (cs : List Cell)
      → IsEvent m e cs
      → length cs < fuel
      → get_header_ptr fuel e (some name) m ≡ done (find_at name cs) m
  unfolding get_header_ptr
  get_header_ptr-find fuel e cs is l = rw is.first (get_header_loop-find fuel cs is.chain l)

  find_value-Holds :
      (cs : List Cell)
      → Chain m null cs
      → named name cs ≡ true
      → (n : Header) × Holds m (find_at name cs) n × (find_value name cs ≡ some n.value)
  find_value-Holds [] ch e = cc
  find_value-Holds (c ∷ cs) (h, _, ch) e = elim (Bool-cases (same_nocase c.name name)) [
    | inl hit ↦ rw hit (header c.name c.value (start null cs), h, refl)
    | inr miss ↦ rw miss (find_value-Holds cs ch (ground arith))
  ]

  find_value-unnamed : (cs : List Cell) → named name cs ≡ false → find_value name cs ≡ none
  find_value-unnamed [] e = refl
  find_value-unnamed (c ∷ cs) e = ground (arith, find_value-unnamed cs)

  -- On a well-formed event and with fuel for its headers, agc_event_get_header ends, changes
  -- nothing, and returns the value of the first header with the name, letter case aside, or NULL.
  pub get_header_lem :
      (fuel : ℕ) (e : Event) (cs : List Cell)
      → IsEvent m e cs
      → length cs < fuel
      → get_header fuel e (some name) m ≡ done (find_value name cs) m
  unfolding get_header
  get_header_lem fuel e cs is l =
      rw (get_header_ptr-find fuel e cs is l) (elim (Bool-cases (named name cs)) [
        | inl found ↦
            let (n, h, v) = find_value-Holds cs is.chain found in rw (test_null h, load-done h, v)
        | inr missing ↦ rw (find_at-unnamed name cs missing, find_value-unnamed cs missing)
      ])
