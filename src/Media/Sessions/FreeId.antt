-- ===== src/Media/Sessions/FreeId.antt =====
-- The search for a free session identifier in media_add_media_sig_sess of media_context.c.
use common_framework.Base.{
  ℕ, zero, suc, ◌+◌, ◌-◌, ◌*◌, ◌%◌, ◌^◌, ◌≤◌, ◌<◌, ◌≡◌, refl, ap, ◌∙◌, ◌⊎◌, inl, inr, Option, none,
  some, List, arith, ltb, ◌==◌, ltb→lt, ltb→le, ==→eq, ==→ne, Bool-cases, length, get_elem?,
  get_elem?_lt,
}
use common_framework.Media.Types.{SigSess}
use common_framework.Media.Sessions.{Search, free, full, outside, next_id, search_at, search_id}

module _ (max : ℕ) (several : 2 ≤ max) (small : max * 4 ≤ 4294967296) where
  next_id_cases :
      (id : ℕ)
      → id < max
      → ((id ≡ max - 1) × (next_id max id ≡ 1)) ⊎ ((suc id < max) × (next_id max id ≡ suc id))
  unfolding next_id
  next_id_cases id below = elim (Bool-cases (id == max - 1)) [
    | inl last ↦ inl (==→eq id (max - 1) last, rw last refl)
    | inr more ↦
        let ne = ==→ne id (max - 1) more in
        let fits : (id + 1) % 2 ^ 32 ≡ suc id = omega arith in inr (omega arith, rw more fits)
  ]

  pub next_id_bounds : (id : ℕ) → id < max → (1 ≤ next_id max id) × (next_id max id < max)
  next_id_bounds id below = elim (next_id_cases id below) [
    | inl (last, e) ↦ (omega arith, omega arith)
    | inr (more, e) ↦ (omega arith, omega arith)
  ]

  -- So many steps of next_id from the first identifier reach the second.
  abbrev Within : (rounds id j : ℕ) → Type 0
  Within rounds id j = ((id < j) × (j ≤ id + rounds)) ⊎ ((j ≤ id) × (max - 1 + j ≤ id + rounds))

  next_id-Within :
      (rounds id j : ℕ)
      → id < max
      → 1 ≤ j
      → j < max
      → Within (suc rounds) id j
      → (j ≡ next_id max id) ⊎ Within rounds (next_id max id) j
  next_id-Within rounds id j below l u w = elim (Bool-cases (j == next_id max id)) [
    | inl same ↦ inl (==→eq j (next_id max id) same)
    | inr differ ↦
        let ne = ==→ne j (next_id max id) differ in
        inr (elim (next_id_cases id below) [
          | inl (last, e) ↦ elim w [
            | inl (lt, le) ↦ absurd (omega arith)
            | inr (le, turn) ↦ inl (omega arith, omega arith)
          ]
          | inr (more, e) ↦ elim w [
            | inl (lt, le) ↦ inl (omega arith, omega arith)
            | inr (le, turn) ↦ inr (omega arith, omega arith)
          ]
        ])
  ]

  no_steps_left : (id j : ℕ) → id < max → 1 ≤ j → Within 0 id j → ⊥
  no_steps_left id j below l (inl (lt, le)) = omega arith
  no_steps_left id j below l (inr (le, turn)) = omega arith

  -- What the search has found after its rounds.
  abbrev Outcome : (rounds id : ℕ) → List (Option SigSess) → Search → Type 0
  Outcome rounds id table (free found) =
      ((1 ≤ found) × (found < max)) × (get_elem? table found ≡ some none)
  Outcome rounds id table (full last) =
      (last < max)
      × ((j : ℕ)
          → 1 ≤ j
          → j < max
          → Within rounds id j
          → (sess : SigSess) × (get_elem? table j ≡ some (some sess)))
  Outcome rounds id table outside = ⊥

  later_round :
      (rounds id : ℕ) (table : List (Option SigSess)) (sess : SigSess) (r : Search)
      → id < max
      → get_elem? table (next_id max id) ≡ some (some sess)
      → Outcome rounds (next_id max id) table r
      → Outcome (suc rounds) id table r
  later_round rounds id table sess (free found) below e h = h
  later_round rounds id table sess (full last) below e (bound, seen) = (
    bound,
    λ j l u w. elim (next_id-Within rounds id j below l u w) [
      | inl same ↦ (sess, ap (get_elem? table) same ∙ e)
      | inr more ↦ seen j l u more
    ],
  )
  later_round rounds id table sess outside below e h = h

  search_at-Outcome :
      (rounds id : ℕ) (table : List (Option SigSess)) (o : Option (Option SigSess)) (r : Search)
      → length table ≡ max
      → id < max
      → get_elem? table (next_id max id) ≡ o
      → Outcome rounds (next_id max id) table r
      → Outcome (suc rounds) id table (search_at max (next_id max id) o r)
  search_at-Outcome rounds id table none r size below e h =
      let (l, u) = next_id_bounds id below in
      let (x, there) = get_elem?_lt table (next_id max id) (omega arith) in cc
  search_at-Outcome rounds id table (some none) r size below e h = (next_id_bounds id below, e)
  search_at-Outcome rounds id table (some (some sess)) r size below e h =
      later_round rounds id table sess r below e h

  search_id-Outcome :
      (rounds id : ℕ) (table : List (Option SigSess))
      → length table ≡ max
      → id < max
      → Outcome rounds id table (search_id max rounds table id)
  unfolding search_id
  search_id-Outcome zero id table size below =
      (below, λ j l u w. absurd (no_steps_left id j below l w))
  search_id-Outcome (suc rounds) id table size below =
      let below' = (next_id_bounds id below).1 in
      search_at-Outcome rounds id table (get_elem? table (next_id max id))
        (search_id max rounds table (next_id max id)) size below refl
        (search_id-Outcome rounds (next_id max id) table size below')

  -- How the search ends, where `j` is any identifier that may be given out.
  abbrev pub SearchResult : ℕ → List (Option SigSess) → Search → Type 0
  SearchResult j table (free found) =
      ((1 ≤ found) × (found < max)) × (get_elem? table found ≡ some none)
  SearchResult j table (full last) =
      (last < max) × ((sess : SigSess) × (get_elem? table j ≡ some (some sess)))
  SearchResult j table outside = ⊥

  search_result :
      (id j : ℕ) (table : List (Option SigSess)) (r : Search)
      → id < max
      → 1 ≤ j
      → j < max
      → Outcome max id table r
      → SearchResult j table r
  search_result id j table (free found) below l u h = h
  search_result id j table (full last) below l u (bound, seen) = (
    bound,
    seen j l u (elim (Bool-cases (ltb id j)) [
      | inl lt ↦ let lt' = ltb→lt id j lt in inl (omega arith, omega arith)
      | inr ge ↦ let ge' = ltb→le id j ge in inr (omega arith, omega arith)
    ]),
  )
  search_result id j table outside below l u h = h

  -- From any identifier of the table on, within MAX_MEDIA_SESSIONS rounds and without an access outside
  -- the table, the search ends with a free identifier between 1 and MAX_MEDIA_SESSIONS - 1, or it
  -- ends without one, and then any identifier `j` between these bounds has a session. The table has
  -- MAX_MEDIA_SESSIONS entries, at least two, and four times as many identifiers fit into 32 bits.
  pub search_id-SearchResult :
      (id j : ℕ) (table : List (Option SigSess))
      → length table ≡ max
      → id < max
      → 1 ≤ j
      → j < max
      → SearchResult j table (search_id max max table id)
  search_id-SearchResult id j table size below l u =
      search_result id j table _ below l u (search_id-Outcome max id table size below)
