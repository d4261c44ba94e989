-- ===== src/Sql/Chunks/Laws.antt =====
-- What agc_sql_execute_sql executes of a long text, and what it leaves out.
use common_framework.Base.{
  ℕ, zero, suc, ◌-◌, ◌≤◌, ◌<◌, ◌≡◌, refl, sym, ap, ◌∙◌, subst, ◌≢◌, ◌⊎◌, inl, inr, Bool, true,
  false, ◌&&◌, none, some, List, [], ◌∷◌, ◌++◌, append_assoc, arith, Status, status_false, ltb,
  ◌==◌, ltb→le, ==→eq, ==→ne, Bool-cases, Option-cases, some_inj, length, take, All,
}
use common_framework.Base.CString.{CString}
use common_framework.Sql.Chunks.{
  drop, semicolon, newline, ends_statement, find_end, window, Outcome, before, went_well,
  execute_chunks, execute_sql,
}

-- The chunks, each with its semicolon and newline.
abbrev pub joined : List CString → CString
joined [] = []
joined (c ∷ cs) = c ++ (59 ∷ 10 ∷ joined cs)

cut_at :
    (s : CString) (i : ℕ)
    → ends_statement s i ≡ true
    → s ≡ take i s ++ (semicolon ∷ newline ∷ drop (suc (suc i)) s)
cut_at [] i e = cc
cut_at (c ∷ []) zero e = cc
cut_at (c ∷ d ∷ s) zero e = ground arith
cut_at (c ∷ s) (suc i) e = ap (◌∷◌ c) (cut_at s i e)

find_end-some :
    (s : CString) (n i : ℕ) → find_end s n ≡ some i → (i < n) × (ends_statement s i ≡ true)
unfolding find_end
find_end-some s zero i e = cc
find_end-some s (suc n) i e = elim (Bool-cases (ends_statement s n)) [
  | inl here ↦
      let e' = rw here at e in
      let is = some_inj e' in (omega arith, subst (λ k. ends_statement s k ≡ true) is here)
  | inr other ↦
      let e' = rw other at e in let (lt, found) = find_end-some s n i e' in (omega arith, found)
]

-- None of the first `n` bytes of the text is a semicolon (59) with a newline (10) behind it.
abbrev pub NoEnd : ℕ → CString → Type 0
NoEnd zero s = Unit
NoEnd (suc n) [] = Unit
NoEnd (suc n) (c ∷ []) = Unit
NoEnd (suc n) (c ∷ d ∷ s) = ((c ≢ 59) ⊎ (d ≢ 10)) × NoEnd n (d ∷ s)

find_end-none : (s : CString) (n i : ℕ) → find_end s n ≡ none → i < n → ends_statement s i ≡ false
unfolding find_end
find_end-none s zero i e l = absurd (omega arith)
find_end-none s (suc n) i e l = elim (Bool-cases (ends_statement s n)) [
  | inl here ↦ let bad = rw here at e in absurd (cc)
  | inr other ↦
      let lower : find_end s n ≡ none = rw other at e in
      elim (Bool-cases (i == n)) [
        | inl last ↦ rw (==→eq i n last) other
        | inr before_last ↦
            let ne = ==→ne i n before_last in find_end-none s n i lower (omega arith)
      ]
]

pair_differs : (c d : ℕ) → ((10 == d) && (59 == c)) ≡ false → (c ≢ 59) ⊎ (d ≢ 10)
pair_differs c d e = ground arith

NoEnd-from :
    (n : ℕ) (s : CString)
    → ((i : ℕ) → suc i < length s → i < n → ends_statement s i ≡ false)
    → NoEnd n s
NoEnd-from zero s h = tt
NoEnd-from (suc n) [] h = tt
NoEnd-from (suc n) (c ∷ []) h = tt
NoEnd-from (suc n) (c ∷ d ∷ s) h = (
  pair_differs c d (h 0 (omega arith) (omega arith)),
  NoEnd-from n (d ∷ s) (λ i l m. h (suc i) (omega arith) (omega arith)),
)

below_window : (max_len i : ℕ) (s : CString) → suc i < length s → i < max_len → i < window max_len s
below_window max_len i s l m = ground arith

-- Where every execution goes well, the chunks with their semicolons and newlines and what is left are
-- the text, and what is left is one byte at most or has no end of a statement at its first bytes.
abbrev pub Splits : (max_len : ℕ) → CString → Outcome → Type 0
Splits max_len s (executed, status) =
    (rest : CString) × (s ≡ joined executed ++ rest)
    × ((length rest ≤ 1) ⊎ NoEnd max_len rest)
    × All (λ c. length c < max_len) executed

length-take : (i : ℕ) (s : CString) → length (take i s) ≤ i
length-take zero s = omega arith
length-take (suc i) [] = omega arith
length-take (suc i) (c ∷ s) = omega (arith, length-take i s)

length-drop : (i : ℕ) (s : CString) → length (drop (suc i) s) ≤ length s - 1
length-drop i [] = omega arith
length-drop zero (c ∷ s) = omega arith
length-drop (suc i) (c ∷ s) = omega (arith, length-drop i s)

window_le : (max_len : ℕ) (s : CString) → window max_len s ≤ max_len
window_le max_len s = ground arith

module _ (max_len : ℕ) (exec : CString → Status × Bool) where
  before-Splits :
      (s : CString) (i : ℕ) (o : Outcome)
      → i < max_len
      → ends_statement s i ≡ true
      → Splits max_len (drop (suc (suc i)) s) o
      → Splits max_len s (before (take i s) o)
  before-Splits s i (executed, status) lt ends (rest, e, stop, small) = (
    rest,
    cut_at s i ends
        ∙ (ap (λ t. take i s ++ (semicolon ∷ newline ∷ t)) e
            ∙ sym (append_assoc (take i s) (semicolon ∷ newline ∷ joined executed) rest)),
    stop,
    (omega (arith, length-take i s), small),
  )

  execute_chunks-Splits :
      (fuel : ℕ) (status : Status) (s : CString)
      → ((c : CString) → went_well (exec c) ≡ true)
      → length s ≤ fuel
      → Splits max_len s (execute_chunks max_len exec fuel status s)
  unfolding execute_chunks
  execute_chunks-Splits zero status s well enough = (s, refl, inl (omega arith), tt)
  execute_chunks-Splits (suc fuel) status s well enough = elim (Bool-cases (ltb 1 (length s))) [
    | inr short ↦ rw short (s, refl, inl (ltb→le 1 (length s) short), tt)
    | inl long ↦ elim (Option-cases (find_end s (window max_len s))) [
      | inl uncut ↦
          rw (long, uncut)
            (
              s,
              refl,
              inr (
                  NoEnd-from max_len s (λ i l m.
                    find_end-none s (window max_len s) i uncut (below_window max_len i s l m))),
              tt,
            )
      | inr (i, cut) ↦
          let (lt, ends) = find_end-some s (window max_len s) i cut in
          let below : i < max_len = omega (arith, window_le max_len s) in
          let shorter : length (drop (suc (suc i)) s) ≤ fuel =
            omega (arith, length-drop (suc i) s) in
          rw (long, cut, well (take i s))
            (before-Splits s i
              (execute_chunks max_len exec fuel (exec (take i s)).0 (drop (suc (suc i)) s)) below
              ends
              (execute_chunks-Splits fuel (exec (take i s)).0 (drop (suc (suc i)) s) well shorter))
    ]
  ]

  -- Where every execution goes well, agc_sql_execute_sql on a text of AGC_MAX_SQL_LEN bytes or more
  -- executes chunks of the text in order, each shorter than that and cut where a semicolon and a
  -- newline follow it, and leaves out no more than a rest of the text that is one byte at most or has
  -- no semicolon with a newline behind it among its first AGC_MAX_SQL_LEN bytes.
  pub execute_sql-Splits :
      (sql : CString)
      → ((c : CString) → went_well (exec c) ≡ true)
      → max_len ≤ length sql
      → Splits max_len sql (execute_sql max_len exec sql)
  unfolding execute_sql
  execute_sql-Splits sql well long =
      let not_short : ltb (length sql) max_len ≡ false = ground arith in
      rw not_short (execute_chunks-Splits (length sql) status_false sql well (omega arith))
