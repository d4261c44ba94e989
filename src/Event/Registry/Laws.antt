-- ===== src/Event/Registry/Laws.antt =====
-- agc_event_register, agc_event_get_id and agc_event_get_name of src/agc_event.c together.
use common_framework.Base.{
  ℕ, zero, suc, ◌+◌, ◌<◌, ◌≡◌, refl, sym, ap, ◌∙◌, ◌≢◌, ◌⊎◌, inl, inr, true, false, Option, none,
  some, [], ◌∷◌, arith, Status, success, generr, ◌==◌, ==→eq, ==→ne, Bool-cases, Option-cases,
  length, get_elem?, set, get_elem?-set_self, get_elem?-set_ne, get_elem?_lt, lt_of_get_elem?,
}
use common_framework.Base.CString.{CString, same_nocase}
use common_framework.Base.Int.{ℤ, pos, negsuc}
use common_framework.Event.Types.{event_id_limit, event_id_is_invalid}
use common_framework.Event.Registry.{Templates, template, register, get_id_from, get_id, get_name}

-- On a table of the size that the program declares, agc_event_register refuses 0 and every id from
-- 1024 on and an id that is taken, enters the name at any other id that is not negative, and with
-- a negative id reads outside the table.
pub register_cases :
    (t : Templates) (id : ℤ) (name : CString)
    → length t ≡ event_id_limit
    → ((event_id_is_invalid id ≡ true) × (register t id name ≡ some (t, generr)))
      ⊎ (((old : CString) × (template t id ≡ some (some old))
            × (register t id name ≡ some (t, generr)))
          ⊎ (((n : ℕ) × (id ≡ pos n)
                × (template t id ≡ some none)
                × (register t id name ≡ some (set t n (some name), success)))
              ⊎ ((n : ℕ) × (id ≡ negsuc n) × (register t id name ≡ none))))
unfolding register event_id_is_invalid template
register_cases t (negsuc n) name l = inr (inr (inr (n, refl, refl)))
register_cases t (pos n) name l = elim (Bool-cases (event_id_is_invalid (pos n))) [
  | inl bad ↦ inl (bad, rw bad)
  | inr good ↦
      let (x, e) = get_elem?_lt t n (ground arith) in
      elim (Option-cases x) [
        | inl free ↦ inr (inr (inl (n, refl, e ∙ ap some free, rw (good, e, free))))
        | inr (old, taken) ↦ inr (inl (old, e ∙ ap some taken, rw (good, e, taken)))
      ]
]

register-negative : (t : Templates) (n : ℕ) (name : CString) → register t (negsuc n) name ≡ none
unfolding register event_id_is_invalid template
register-negative t n name = refl

register-success :
    (t t' : Templates) (n : ℕ) (name : CString)
    → register t (pos n) name ≡ some (t', success)
    → (event_id_is_invalid (pos n) ≡ false)
      × (get_elem? t n ≡ some none)
      × (t' ≡ set t n (some name))
unfolding register template
register-success t t' n name e = ground arith

get_elem?-register :
    (t t' : Templates) (n : ℕ) (name : CString)
    → register t (pos n) name ≡ some (t', success)
    → (get_elem? t' n ≡ some (some name)) × ((k : ℕ) → k ≢ n → get_elem? t' k ≡ get_elem? t k)
get_elem?-register t t' n name e =
    let (_, free, eq) = register-success t t' n name e in
    (
      rw eq (get_elem?-set_self t n (some name) (lt_of_get_elem? t n none free)),
      λ k ne. rw eq (get_elem?-set_ne t n k (some name) (λ q. ne (sym q))),
    )

-- A name that agc_event_register has entered is what agc_event_get_name returns for the id, and
-- any other id keeps what it had.
pub get_name-register :
    (t t' : Templates) (id other : ℤ) (name : CString)
    → register t id name ≡ some (t', success)
    → other ≢ id
    → (get_name t' id ≡ some (some name)) × (get_name t' other ≡ get_name t other)
unfolding get_name template
get_name-register t t' (negsuc n) other name e ne = cc (register-negative t n name)
get_name-register t t' (pos n) (pos k) name e ne =
    let (ok, _, _) = register-success t t' n name e in
    let (self, rest) = get_elem?-register t t' n name e in
    (rw ok self, rw (rest k (λ q. ne (ap pos q))))
get_name-register t t' (pos n) (negsuc k) name e ne =
    let (ok, _, _) = register-success t t' n name e in
    let (self, _) = get_elem?-register t t' n name e in (rw ok self, refl)

-- The id `k` has the name, letter case aside.
abbrev pub Matches : Templates → CString → ℕ → Type 0
Matches t name k = (n : CString) × (get_elem? t k ≡ some (some n)) × (same_nocase name n ≡ true)

abbrev Least : Templates → CString → ℕ → Option ℕ → Type 0
Least t name i none = (k : ℕ) → ¬ Matches t name k
Least t name i (some j) =
    (k : ℕ) × (j ≡ i + k) × Matches t name k × ((l : ℕ) → l < k → ¬ Matches t name l)

Least-skip :
    (t : Templates) (x : Option CString) (name : CString) (i : ℕ) (r : Option ℕ)
    → ¬ Matches (x ∷ t) name 0
    → Least t name (i + 1) r
    → Least (x ∷ t) name i r
Least-skip t x name i none miss least = elim [ zero ↦ miss | suc k ↦ least k ]
Least-skip t x name i (some j) miss (k, e, hit, first) =
    (suc k, omega arith, hit, elim [ zero ↦ λ l. miss | suc l ↦ λ lt. first l (omega arith) ])

get_id_from-Least : (name : CString) (i : ℕ) (t : Templates) → Least t name i (get_id_from name i t)
unfolding get_id_from
get_id_from-Least name i [] = λ k (n, e, _). cc
get_id_from-Least name i (none ∷ t) =
    Least-skip t none name i (get_id_from name (i + 1) t) (λ (n, e, _). cc)
      (get_id_from-Least name (i + 1) t)
get_id_from-Least name i (some n ∷ t) = elim (Bool-cases (same_nocase name n)) [
  | inl hit ↦ rw hit (0, omega arith, (n, refl, hit), λ l lt. absurd (omega arith))
  | inr miss ↦ rw miss (
      Least-skip t (some n) name i (get_id_from name (i + 1) t) (λ (m, e, same). cc)
        (get_id_from-Least name (i + 1) t))
]

abbrev pub Found : Templates → CString → Status × Option ℕ → Type 0
Found t name (s, none) = (s ≡ generr) × ((k : ℕ) → ¬ Matches t name k)
Found t name (s, some j) = (s ≡ success) × Matches t name j × ((l : ℕ) → l < j → ¬ Matches t name l)

-- agc_event_get_id succeeds exactly when some id has the name, letter case aside, and then returns
-- the least such id; a NULL name is refused.
pub get_id-Found :
    (t : Templates) (name : CString)
    → Found t name (get_id t (some name)) × (get_id t none ≡ (generr, none))
unfolding get_id
get_id-Found t name = (found (get_id_from name 0 t) refl (get_id_from-Least name 0 t), refl)
  where
    found :
        (r : Option ℕ)
        → get_id_from name 0 t ≡ r
        → Least t name 0 r
        → Found t name (get_id t (some name))
    found none e least = rw (e, get_id) (refl, least)
    found (some j) e (k, q, hit, first) =
        let q' : k ≡ j = omega arith in
        rw (e, get_id) (refl, rw q' at hit, λ l lt. first l (omega arith))

-- Where agc_event_register succeeds with an id and a name that, letter case aside, no id had,
-- agc_event_get_id finds this id by the name in any letter case.
pub get_id-register :
    (t t' : Templates) (n : ℕ) (name asked : CString)
    → register t (pos n) name ≡ some (t', success)
    → same_nocase asked name ≡ true
    → ((k : ℕ) → ¬ Matches t asked k)
    → get_id t' (some asked) ≡ (success, some n)
get_id-register t t' n name asked e same fresh =
    only (get_id t' (some asked)) (get_id-Found t' asked).0
  where
    self : get_elem? t' n ≡ some (some name)
    self = (get_elem?-register t t' n name e).0

    unique : (k : ℕ) → Matches t' asked k → k ≡ n
    unique k (m, at, hit) = elim (Bool-cases (k == n)) [
      | inl here ↦ ==→eq k n here
      | inr away ↦
          absurd
            (fresh k (m, sym ((get_elem?-register t t' n name e).1 k (==→ne k n away)) ∙ at, hit))
    ]

    only : (r : Status × Option ℕ) → Found t' asked r → r ≡ (success, some n)
    only (s, none) (_, missing) = absurd (missing n (name, self, same))
    only (s, some j) (ok, hit, _) = let q = unique j hit in cc
