-- ===== src/Event/Source.antt =====
-- agc_event_alloc_source of src/agc_event.c with the counter EVENT_SOURCE_ID, a uint32_t.
use common_framework.Base.{
  ℕ, zero, suc, ◌+◌, ◌%◌, ◌^◌, ◌<◌, ◌≡◌, refl, sym, ap, ◌∙◌, ◌≢◌, inl, inr, false, arith, ◌==◌,
  if◌then◌else◌, ==→eq, ==→ne, ne→==, Bool-cases,
}

abbrev pub uint32_max : ℕ
uint32_max = 4294967295

-- agc_event_alloc_source: the counter and the identifier after the call.
unfoldable pub alloc_source : ℕ → ℕ × ℕ
alloc_source counter =
    let source_id = (counter + 1) % 2 ^ 32 in
    (if source_id == uint32_max then 0 else source_id, source_id)

-- The counter after so many calls from the start on.
unfoldable pub counter_after : ℕ → ℕ
counter_after zero = 0
counter_after (suc n) = (alloc_source (counter_after n)).0

mod_step_wrap : (n : ℕ) → n % 4294967295 ≡ 4294967294 → suc n % 4294967295 ≡ 0
mod_step_wrap n e = omega arith

mod_step : (n : ℕ) → n % 4294967295 ≢ 4294967294 → suc n % 4294967295 ≡ suc (n % 4294967295)
mod_step n e = omega arith

alloc_source-wrap : alloc_source 4294967294 ≡ (0, 4294967295)
unfolding alloc_source
alloc_source-wrap = refl

alloc_source_below : (c : ℕ) → c < 4294967294 → alloc_source c ≡ (suc c, suc c)
unfolding alloc_source
alloc_source_below c l =
    let small : (c + 1) % 2 ^ 32 ≡ suc c = omega arith in
    let not_max : (suc c == uint32_max) ≡ false = ne→== (suc c) uint32_max (omega arith) in
    rw (small, not_max) refl

counter_after_lem : (n : ℕ) → counter_after n ≡ n % uint32_max
unfolding counter_after
counter_after_lem zero = refl
counter_after_lem (suc n) = elim (Bool-cases (n % uint32_max == 4294967294)) [
  | inl last ↦
      let e = ==→eq (n % uint32_max) 4294967294 last in
      ap (λ c. (alloc_source c).0) (counter_after_lem n ∙ e)
      ∙ (ap (λ x. x.0) alloc_source-wrap ∙ sym (mod_step_wrap n e))
  | inr more ↦
      let ne = ==→ne (n % uint32_max) 4294967294 more in
      ap (λ c. (alloc_source c).0) (counter_after_lem n)
      ∙ (ap (λ x. x.0) (alloc_source_below (n % uint32_max) (omega arith)) ∙ sym (mod_step n ne))
]

-- After `n` calls from the start on, agc_event_alloc_source returns n % UINT32_MAX + 1: the
-- identifiers run from 1 to UINT32_MAX and start again.
pub alloc_source_lem : (n : ℕ) → (alloc_source (counter_after n)).1 ≡ suc (n % uint32_max)
unfolding counter_after alloc_source
alloc_source_lem n = elim (Bool-cases (n % uint32_max == 4294967294)) [
  | inl last ↦
      let e = ==→eq (n % uint32_max) 4294967294 last in
      ap (λ c. (alloc_source c).1) (counter_after_lem n ∙ e) ∙ sym (ap suc e)
  | inr more ↦
      let ne = ==→ne (n % uint32_max) 4294967294 more in
      ap (λ c. (alloc_source c).1) (counter_after_lem n)
      ∙ ap (λ x. x.1) (alloc_source_below (n % uint32_max) (omega arith))
]
