-- ===== src/Timer/Lists.antt =====
-- Sorted lists of timers under insertion and removal.
use common_framework.Base.{
  ℕ, ◌≤◌, ◌≡◌, refl, sym, ap, ◌∙◌, subst, inl, inr, Bool, true, false, ◌||◌, List, [], ◌∷◌, arith,
  ltb, ◌==◌, if◌then◌else◌, ltb→lt, ltb→le, ==→eq, ==→ne, ne→==, Bool-cases, All,
}
use common_framework.Timer.Tree.{Timer, insert_sorted, remove_event, has_event, Sorted}

-- No event has two timers.
abbrev pub Distinct : List Timer → Type 0
Distinct [] = Unit
Distinct (x ∷ l) = (has_event x.event l ≡ false) × Distinct l

or_swap : (a b c : Bool) → a || (b || c) ≡ b || (a || c)
or_swap true true c = refl
or_swap true false c = refl
or_swap false b c = refl

module _ (x : Timer) where
  pub All-insert_sorted {κ} :
      (P : Timer → Type κ) (l : List Timer) → P x → All P l → All P (insert_sorted x l)
  All-insert_sorted P [] px h = (px, tt)
  All-insert_sorted P (y ∷ l) px (py, h) = elim (Bool-cases (ltb x.key y.key)) [
    | inl lt ↦ rw lt (px, (py, h))
    | inr ge ↦ rw ge (py, All-insert_sorted P l px h)
  ]

  above_trans :
      (y : Timer) (l : List Timer)
      → x.key ≤ y.key
      → All (λ z. y.key ≤ z.key) l
      → All (λ z. x.key ≤ z.key) l
  above_trans y [] le h = tt
  above_trans y (z ∷ l) le (h, rest) = (omega arith, above_trans y l le rest)

  pub Sorted-insert_sorted : (l : List Timer) → Sorted l → Sorted (insert_sorted x l)
  Sorted-insert_sorted [] s = (tt, tt)
  Sorted-insert_sorted (y ∷ l) (above, s) = elim (Bool-cases (ltb x.key y.key)) [
    | inl lt ↦
        let le : x.key ≤ y.key = omega (arith, ltb→lt x.key y.key lt) in
        rw lt ((le, above_trans y l le above), (above, s))
    | inr ge ↦ rw ge (
      All-insert_sorted (λ z. y.key ≤ z.key) l (ltb→le x.key y.key ge) above,
      Sorted-insert_sorted l s,
    )
  ]

  pub has_event-insert_sorted :
      (e : ℕ) (l : List Timer) → has_event e (insert_sorted x l) ≡ (e == x.event) || has_event e l
  has_event-insert_sorted e [] = refl
  has_event-insert_sorted e (y ∷ l) = elim (Bool-cases (ltb x.key y.key)) [
    | inl lt ↦ rw lt refl
    | inr ge ↦ rw ge (
        ap (λ b. (e == y.event) || b) (has_event-insert_sorted e l)
        ∙ or_swap (e == y.event) (e == x.event) (has_event e l))
  ]

  pub Distinct-insert_sorted :
      (l : List Timer) → has_event x.event l ≡ false → Distinct l → Distinct (insert_sorted x l)
  Distinct-insert_sorted [] new d = (refl, tt)
  Distinct-insert_sorted (y ∷ l) new (here, d) = elim (Bool-cases (ltb x.key y.key)) [
    | inl lt ↦ rw lt (new, (here, d))
    | inr ge ↦
        let (other, new') = or_false (x.event == y.event) (has_event x.event l) new in
        let ne = ==→ne x.event y.event other in
        let other' : (y.event == x.event) ≡ false = ne→== y.event x.event (λ e. ne (sym e)) in
        rw ge (
          has_event-insert_sorted y.event l ∙ rw (other', here) refl,
          Distinct-insert_sorted l new' d,
        )
  ]
    where
      or_false : (a b : Bool) → a || b ≡ false → (a ≡ false) × (b ≡ false)
      or_false true b e = cc
      or_false false b e = (refl, e)

module _ (event : ℕ) where
  pub All-remove_event {κ} :
      (P : Timer → Type κ) (l : List Timer) → All P l → All P (remove_event event l)
  All-remove_event P [] h = tt
  All-remove_event P (y ∷ l) (py, h) = elim (Bool-cases (event == y.event)) [
    | inl same ↦ rw same h
    | inr other ↦ rw other (py, All-remove_event P l h)
  ]

  pub Sorted-remove_event : (l : List Timer) → Sorted l → Sorted (remove_event event l)
  Sorted-remove_event [] s = tt
  Sorted-remove_event (y ∷ l) (above, s) = elim (Bool-cases (event == y.event)) [
    | inl same ↦ rw same s
    | inr other ↦ rw other (All-remove_event (λ z. y.key ≤ z.key) l above, Sorted-remove_event l s)
  ]

  pub remove_event_missing : (l : List Timer) → has_event event l ≡ false → remove_event event l ≡ l
  remove_event_missing [] missing = refl
  remove_event_missing (y ∷ l) missing = elim (Bool-cases (event == y.event)) [
    | inl same ↦ let m = rw same at missing in cc
    | inr other ↦ let m = rw other at missing in rw other (ap (◌∷◌ y) (remove_event_missing l m))
  ]

  pub has_event-remove_event :
      (e : ℕ) (l : List Timer)
      → Distinct l
      → has_event e (remove_event event l) ≡ (if e == event then false else has_event e l)
  has_event-remove_event e [] d = constant (e == event)
    where
      constant : (b : Bool) → false ≡ (if b then false else false)
      constant true = refl
      constant false = refl
  has_event-remove_event e (y ∷ l) (here, d) = elim (Bool-cases (event == y.event)) [
    | inl same ↦ elim (Bool-cases (e == event)) [
      | inl is ↦
          let e_eq : y.event ≡ e = sym (==→eq e event is ∙ ==→eq event y.event same) in
          rw (same, is) (subst (λ k. has_event k l ≡ false) e_eq here)
      | inr is_not ↦
          let apart : (e == y.event) ≡ false =
            ne→== e y.event (λ q. ==→ne e event is_not (q ∙ sym (==→eq event y.event same))) in
          rw (same, is_not, apart) refl
    ]
    | inr other ↦ elim (Bool-cases (e == event)) [
      | inl is ↦
          let apart : (e == y.event) ≡ false =
            ne→== e y.event (λ q. ==→ne event y.event other (sym (==→eq e event is) ∙ q)) in
          let ih = rw is at (has_event-remove_event e l d) in rw (other, is, apart) ih
      | inr is_not ↦
          let ih = rw is_not at (has_event-remove_event e l d) in
          rw (other, is_not) (ap (λ b. (e == y.event) || b) ih)
    ]
  ]

  pub Distinct-remove_event : (l : List Timer) → Distinct l → Distinct (remove_event event l)
  Distinct-remove_event [] d = tt
  Distinct-remove_event (y ∷ l) (here, d) = elim (Bool-cases (event == y.event)) [
    | inl same ↦ rw same d
    | inr other ↦
        let gone = has_event-remove_event y.event l d in
        rw other (gone ∙ both_false (y.event == event) here, Distinct-remove_event l d)
  ]
    where
      both_false : {h : Bool} (b : Bool) → h ≡ false → (if b then false else h) ≡ false
      both_false true e = refl
      both_false false e = e
