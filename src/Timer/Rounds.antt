-- ===== src/Timer/Rounds.antt =====
-- The rounds of agc_timer_dispatch_timer of agc_timer.c on a sorted list of timers.
use mathlib.Core.Option
use common_framework.Base.{
  ℕ, zero, suc, ◌+◌, ◌-◌, ◌%◌, ◌^◌, ◌≤◌, ◌<◌, ◌≡◌, refl, sym, ap, ◌∙◌, subst, ◌⊎◌, inl, inr, Bool,
  true, false, ◌||◌, none, some, List, [], ◌∷◌, map, arith, ltb, leb, ◌==◌, if◌then◌else◌, leb→le,
  leb→lt, ==→eq, ==→ne, ==_refl, Bool-cases, length, keep, All,
}
use common_framework.Timer.Tree.{Timer, remove_event, has_event, first_timer, TreeOps}
use common_framework.Timer.Adding.{Represents}
use common_framework.Timer.{
  milliseconds, is_due, State, flag, fired, round_on, round, after_round, timer_rounds,
}

-- The timers whose key is reached, and the others.
abbrev pub due : ℕ → List Timer → List Timer
due ms l = keep (λ x. leb x.key ms) l

abbrev pub not_due : ℕ → List Timer → List Timer
not_due ms l = keep (λ x. ltb ms x.key) l

signed_due : (d : ℕ) → (d ≡ 0) ⊎ (9223372036854775808 ≤ d) → (d == 0) || leb (2 ^ 63) d ≡ true
signed_due d (inl zero_difference) = rw zero_difference refl
signed_due d (inr negative) = ground arith

signed_wait : (d : ℕ) → 1 ≤ d → d < 9223372036854775808 → (d == 0) || leb (2 ^ 63) d ≡ false
signed_wait d positive low = ground arith

pub is_due_lem :
    (key ms : ℕ) → key < 9223372036854775808 → ms < 9223372036854775808 → is_due key ms ≡ leb key ms
unfolding is_due
is_due_lem key ms fits small = elim (Bool-cases (leb key ms)) [
  | inl le ↦
      let l = leb→le key ms le in
      signed_due ((key + 2 ^ 64 - ms) % 2 ^ 64) (elim (Bool-cases (key == ms)) [
        | inl same ↦ let e = ==→eq key ms same in inl (omega arith)
        | inr differ ↦ let ne = ==→ne key ms differ in inr (omega arith)
      ])
      ∙ sym le
  | inr gt ↦
      let l = leb→lt key ms gt in
      let d : (key + 2 ^ 64 - ms) % 2 ^ 64 ≡ key - ms = omega arith in
      signed_wait ((key + 2 ^ 64 - ms) % 2 ^ 64) (omega arith) (omega arith) ∙ sym gt
]

due_above :
    (ms k : ℕ) (l : List Timer)
    → ms < k
    → All (λ y. k ≤ y.key) l
    → (due ms l ≡ []) × (not_due ms l ≡ l)
due_above ms k [] lt h = (refl, refl)
due_above ms k (y ∷ l) lt (le, h) =
    let (none_due, all_later) = due_above ms k l lt h in
    let not_yet : leb y.key ms ≡ false = ground arith in
    let later : ltb ms y.key ≡ true = ground arith in
    (rw not_yet none_due, rw later (ap (◌∷◌ y) all_later))

module _ (ops : TreeOps) where
  open ops use {
    Tree, empty, insert, delete, min, inorder, inorder-empty, inorder-insert, delete_there,
    delete_missing, min-inorder,
  }

  pub round_first :
      (now : ℕ) (st : State ops) (l : List Timer)
      → Represents ops st l
      → round ops now st ≡ round_on ops (milliseconds now) st (first_timer l)
  unfolding round
  round_first now st l rep =
      ap (round_on ops (milliseconds now) st) (min-inorder st.tree ∙ ap first_timer rep.content)

  pub fired-Represents :
      (st : State ops) (x : Timer) (l : List Timer)
      → Represents ops st (x ∷ l)
      → (st' : State ops) × (fired ops x.event st ≡ some (st', some x.event)) × Represents ops st' l
  fired-Represents st x l rep =
      let there : has_event x.event (inorder st.tree) ≡ true =
        ap (has_event x.event) rep.content ∙ rw (==_refl x.event) refl in
      let (t', deleted, content) = delete_there x.event st.tree there in
      (
        record { tree = t'; timer_set = flag ops x.event false st.timer_set },
        rw deleted refl,
        record {
          content = content ∙ (ap (remove_event x.event) rep.content ∙ rw (==_refl x.event) refl);
          sorted = rep.sorted.1;
          distinct = rep.distinct.1;
          fits = rep.fits.1;
          flags = λ e. cleared x.event e l (st.timer_set e) rep.distinct.0 (rep.flags e);
        },
      )
    where
      cleared :
          (event e : ℕ) (l : List Timer) (t : Bool)
          → has_event event l ≡ false
          → t ≡ (e == event) || has_event e l
          → (if e == event then false else t) ≡ has_event e l
      cleared event e l t gone was = elim (Bool-cases (e == event)) [
        | inl same ↦
            rw same (sym (subst (λ k. has_event k l ≡ false) (sym (==→eq e event same)) gone))
        | inr other ↦ let was' = rw other at was in rw other was'
      ]

  idle_rounds :
      (now n : ℕ) (st : State ops)
      → round ops now st ≡ some (st, none)
      → timer_rounds ops now n st ≡ some (st, [])
  unfolding timer_rounds
  idle_rounds now zero st idle = refl
  idle_rounds now (suc n) st idle =
      ap (after_round ops (timer_rounds ops now n)) idle ∙ idle_rounds now n st idle

  -- What so many rounds make of a state that stands for the list.
  abbrev pub Ran : (now n : ℕ) → State ops → List Timer → Type 0
  Ran now n st l =
      (st' : State ops) × (timer_rounds ops now n st
        ≡ some (st', map (λ x. x.event) (due (milliseconds now) l)))
      × Represents ops st' (not_due (milliseconds now) l)

  ran_step :
      (now n : ℕ) (st st1 : State ops) (x : Timer) (l : List Timer)
      → leb x.key (milliseconds now) ≡ true
      → round ops now st ≡ some (st1, some x.event)
      → Ran now n st1 l
      → Ran now (suc n) st (x ∷ l)
  unfolding timer_rounds
  ran_step now n st st1 x l le stepped (st', ran, rep') =
      let now_due = leb→le x.key (milliseconds now) le in
      let not_later : ltb (milliseconds now) x.key ≡ false = ground arith in
      rw (le, not_later)
        (
          st',
          ap (after_round ops (timer_rounds ops now n)) stepped
              ∙ ap (Option.map (λ r. (r.0, x.event ∷ r.1))) ran,
          rep',
        )

  -- On a state that stands for a sorted list of timers, as many rounds of agc_timer_dispatch_timer at
  -- one time as there are timers, or more, fire the events of exactly those timers whose key is
  -- reached, in the order of their keys, and the state stands for the list of the others. The time
  -- in milliseconds is below 2 ^ 63.
  pub timer_rounds-Ran :
      (now n : ℕ) (st : State ops) (l : List Timer)
      → Represents ops st l
      → length l ≤ n
      → milliseconds now < 9223372036854775808
      → Ran now n st l
  timer_rounds-Ran now n st [] rep enough small =
      (st, idle_rounds now n st (round_first now st [] rep), rep)
  timer_rounds-Ran now zero st (x ∷ l) rep enough small = absurd (omega arith)
  timer_rounds-Ran now (suc n) st (x ∷ l) rep enough small =
      let ms = milliseconds now in
      let is = is_due_lem x.key ms rep.fits.0 small in
      elim (Bool-cases (leb x.key ms)) [
        | inl le ↦
            let (st1, fires, rep1) = fired-Represents st x l rep in
            let stepped : round ops now st ≡ some (st1, some x.event) =
              round_first now st (x ∷ l) rep ∙ rw (is, le) fires in
            ran_step now n st st1 x l le stepped
              (timer_rounds-Ran now n st1 l rep1 (omega arith) small)
        | inr gt ↦
            let idle : round ops now st ≡ some (st, none) =
              round_first now st (x ∷ l) rep ∙ rw (is, gt) refl in
            let (none_due, all_later) =
              due_above ms x.key (x ∷ l) (leb→lt x.key ms gt) (omega arith, rep.sorted.0) in
            (
              st,
              idle_rounds now (suc n) st idle
                  ∙ ap (λ d. some (st, map (λ y. y.event) d)) (sym none_due),
              subst (Represents ops st) (sym all_later) rep,
            )
      ]
