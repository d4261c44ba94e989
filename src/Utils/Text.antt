-- ===== src/Utils/Text.antt =====
-- agc_cut_path and agc_is_number of src/agc_utils.c.
use common_framework.Base.{
  ℕ, zero, suc, ◌+◌, ◌/◌, ◌%◌, ◌<◌, ◌≡◌, refl, ap, ◌⊎◌, inl, inr, Bool, true, false, ◌&&◌, ◌||◌,
  Option, none, some, [], ◌∷◌, ◌++◌, arith, ltb, ◌==◌, if◌then◌else◌, ltb→lt, ==→eq, Bool-cases,
  replicate,
}
use common_framework.Base.CString.{CString}
use common_framework.Base.Int.{ℤ, pos, negsuc}
use common_framework.Base.Decimal.{digits, show, show_int}
use common_framework.Utils.Separate.{backslash, has_char}

abbrev pub slash : ℕ
slash = b'/'

abbrev pub or_else : Option CString → CString → Option CString
or_else none s = some s
or_else (some t) s = some t

-- The text behind the last `c`, as repeated strchr finds it.
unfoldable pub behind_last : ℕ → CString → Option CString
behind_last c [] = none
behind_last c (x ∷ s) = let rest = behind_last c s in if x == c then or_else rest s else rest

abbrev pub get_or : CString → Option CString → CString
get_or s none = s
get_or s (some t) = t

-- agc_cut_path: the later loop, for the backslash, has the last word.
unfoldable pub cut_path : CString → CString
cut_path s = get_or (get_or s (behind_last slash s)) (behind_last backslash s)

-- The text is cut behind its last `c`: it is a suffix without `c`.
abbrev pub Behind : ℕ → CString → Option CString → Type 0
Behind c s none = has_char c s ≡ false
Behind c s (some t) = (front : CString) × (s ≡ front ++ c ∷ t) × (has_char c t ≡ false)

Behind-or_else :
    (c : ℕ) (s : CString) (o : Option CString) → Behind c s o → Behind c (c ∷ s) (or_else o s)
Behind-or_else c s none h = ([], refl, h)
Behind-or_else c s (some t) (front, split, clean) = (c ∷ front, ap (◌∷◌ c) split, clean)

Behind-cons :
    (c x : ℕ) (s : CString) (o : Option CString)
    → (x == c) ≡ false
    → Behind c s o
    → Behind c (x ∷ s) o
Behind-cons c x s none ne h = rw ne h
Behind-cons c x s (some t) ne (front, split, clean) = (x ∷ front, ap (◌∷◌ x) split, clean)

behind_last-Behind : (c : ℕ) (s : CString) → Behind c s (behind_last c s)
unfolding behind_last
behind_last-Behind c [] = refl
behind_last-Behind c (x ∷ s) = elim (Bool-cases (x == c)) [
  | inl e ↦ rw (e, ==→eq x c e) (Behind-or_else c s (behind_last c s) (behind_last-Behind c s))
  | inr e ↦ rw e (Behind-cons c x s (behind_last c s) e (behind_last-Behind c s))
]

-- agc_cut_path returns the text behind the last backslash if there is a backslash, though slashes may
-- follow in it; else the text behind the last slash if there is one; else the whole text.
pub cut_path_cases :
    (s : CString)
    → ((front : CString) × (s ≡ front ++ backslash ∷ cut_path s)
        × (has_char backslash (cut_path s) ≡ false))
      ⊎ (((has_char backslash s ≡ false)
            × (front : CString) × (s ≡ front ++ slash ∷ cut_path s)
            × (has_char slash (cut_path s) ≡ false))
          ⊎ ((has_char backslash s ≡ false) × (has_char slash s ≡ false) × (cut_path s ≡ s)))
unfolding cut_path
cut_path_cases s =
    choose (behind_last backslash s) (behind_last slash s) (behind_last-Behind backslash s)
      (behind_last-Behind slash s)
  where
    choose :
        (o p : Option CString)
        → Behind backslash s o
        → Behind slash s p
        → ((front : CString) × (s ≡ front ++ backslash ∷ get_or (get_or s p) o)
            × (has_char backslash (get_or (get_or s p) o) ≡ false))
          ⊎ (((has_char backslash s ≡ false)
                × (front : CString) × (s ≡ front ++ slash ∷ get_or (get_or s p) o)
                × (has_char slash (get_or (get_or s p) o) ≡ false))
              ⊎ ((has_char backslash s ≡ false)
                  × (has_char slash s ≡ false)
                  × (get_or (get_or s p) o ≡ s)))
    choose (some t) p h k = inl h
    choose none (some t) h (front, split, clean) = inr (inl (h, front, split, clean))
    choose none none h k = inr (inr (h, k, refl))

-- The loop of agc_is_number.
abbrev pub number_chars : CString → Bool
number_chars [] = true
number_chars (c ∷ s) = ((c == b'.') || (ltb 47 c && ltb c 58)) && number_chars s

-- agc_is_number: a sign in front is skipped.
unfoldable pub is_number : CString → Bool
is_number [] = true
is_number (c ∷ s) = if (c == b'-') || (c == b'+') then number_chars s else number_chars (c ∷ s)

digit_char : (d : ℕ) → d < 10 → ((48 + d == b'.') || (ltb 47 (48 + d) && ltb (48 + d) 58)) ≡ true
digit_char d l = ground arith

number_chars-digits :
    (fuel n : ℕ) (acc : CString) → number_chars acc ≡ true → number_chars (digits fuel n acc) ≡ true
number_chars-digits zero n acc h = h
number_chars-digits (suc fuel) n acc h = elim (Bool-cases (ltb n 10)) [
  | inl small ↦ rw (small, digit_char n (ltb→lt n 10 small)) h
  | inr big ↦ rw big (
      number_chars-digits fuel (n / 10) ((48 + n % 10) ∷ acc)
        (rw (digit_char (n % 10) (omega arith)) h))
]

is_number-number_chars : (s : CString) → number_chars s ≡ true → is_number s ≡ true
unfolding is_number
is_number-number_chars [] h = refl
is_number-number_chars (c ∷ s) h = ground arith

number_chars-dots : (n : ℕ) → number_chars (replicate n b'.') ≡ true
number_chars-dots zero = refl
number_chars-dots (suc n) = number_chars-dots n

-- agc_is_number holds of every integer that sprintf prints with "%d", of the empty text, and of a
-- sign or any number of dots alone.
pub is_number-show_int :
    (z : ℤ) (n : ℕ)
    → (is_number (show_int z) ≡ true)
      × (is_number [] ≡ true)
      × (is_number (b'-' ∷ []) ≡ true)
      × (is_number (replicate n b'.') ≡ true)
unfolding is_number
is_number-show_int (pos k) n = (
  is_number-number_chars (show k) (number_chars-digits 10 k [] refl),
  refl,
  refl,
  is_number-number_chars (replicate n b'.') (number_chars-dots n),
)
is_number-show_int (negsuc k) n = (
  number_chars-digits 10 (suc k) [] refl,
  refl,
  refl,
  is_number-number_chars (replicate n b'.') (number_chars-dots n),
)
