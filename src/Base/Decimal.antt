-- ===== src/Base/Decimal.antt =====
-- Decimal numerals as sprintf prints them with "%d" and "%u", and as atoi reads them.
use common_framework.Base.{
  ℕ, zero, suc, ◌+◌, ◌-◌, ◌*◌, ◌/◌, ◌%◌, ◌^◌, ◌<◌, ◌≡◌, sym, ap, ◌∙◌, inl, inr, ◌||◌, [], ◌∷◌,
  arith, ltb, if◌then◌else◌, ltb→lt, Bool-cases,
}
use common_framework.Base.CString.{CString}
use common_framework.Base.Int.{ℤ, pos, negsuc}

-- The digits of `n` before those of `acc`; `fuel` bounds their number.
abbrev pub digits : ℕ → ℕ → CString → CString
digits zero n acc = acc
digits (suc fuel) n acc =
    let rest = digits fuel (n / 10) ((48 + n % 10) ∷ acc) in
    if ltb n 10 then (48 + n) ∷ acc else rest

-- Ten digits print every number below 2 ^ 32.
abbrev pub show : ℕ → CString
show n = digits 10 n []

abbrev pub show_int : ℤ → CString
show_int (pos n) = show n
show_int (negsuc n) = b'-' ∷ show (suc n)

-- The value of the leading digits, after `n`.
abbrev pub read_digits : ℕ → CString → ℕ
read_digits n [] = n
read_digits n (c ∷ s) =
    let rest = read_digits (10 * n + (c - 48)) s in if ltb c 48 || ltb 57 c then n else rest

-- atoi on a text that starts with a digit.
abbrev pub atoi : CString → ℕ
atoi = read_digits 0

read_digits_digit :
    (k d : ℕ) (acc : CString)
    → d < 10
    → read_digits k ((48 + d) ∷ acc) ≡ read_digits (10 * k + d) acc
read_digits_digit k d acc l = ground arith

div_bound : (n m : ℕ) → n < 10 * m → n / 10 < m
div_bound n m l = omega arith

div_mod : (n : ℕ) → 10 * (n / 10) + n % 10 ≡ n
div_mod n = omega arith

mod_bound : (n : ℕ) → n % 10 < 10
mod_bound n = omega arith

read_digits-digits :
    (fuel n : ℕ) (acc : CString)
    → n < 10 ^ fuel
    → read_digits 0 (digits fuel n acc) ≡ read_digits n acc
read_digits-digits zero n acc l =
    let n_zero : n ≡ 0 = omega arith in ap (λ k. read_digits k acc) (sym n_zero)
read_digits-digits (suc fuel) n acc l = elim (Bool-cases (ltb n 10)) [
  | inl small ↦
      let zero_plus : 10 * 0 + n ≡ n = omega arith in
      rw small
        (read_digits_digit 0 n acc (ltb→lt n 10 small) ∙ ap (λ k. read_digits k acc) zero_plus)
  | inr big ↦ rw big (
      read_digits-digits fuel (n / 10) ((48 + n % 10) ∷ acc) (div_bound n (10 ^ fuel) (omega arith))
      ∙ (read_digits_digit (n / 10) (n % 10) acc (mod_bound n)
          ∙ ap (λ k. read_digits k acc) (div_mod n)))
]

-- What "%u" prints is read back, for 32-bit numbers.
pub atoi-show : (n : ℕ) → n < 2 ^ 32 → atoi (show n) ≡ n
atoi-show n l = read_digits-digits 10 n [] (omega arith)
