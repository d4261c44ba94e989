-- ===== src/Utils/Separate/Bounds.antt =====
-- The tokenizers of src/agc_utils.c, the room of `array` and the end of the text.
use mathlib.Core.Option
use common_framework.Base.{
  ℕ, zero, suc, ◌≤◌, ◌≡◌, refl, sym, ap, ◌∙◌, inl, inr, false, Option, none, some, List, [], ◌∷◌,
  ◌++◌, map, arith, ◌==◌, Bool-cases, some_inj, length, All,
}
use common_framework.Base.CString.{CString}
use common_framework.Utils.Separate.{
  space, backslash, skip_spaces, cleanup_separated_string, move_char, move_blank, Cut, in_front,
  find_by, find_delim, tokens_after, tokens_char, tokens_blank, separate_string_char_delim,
  separate_string_blank_delim, redirect, separate_by, separate_string,
}
use common_framework.Utils.Separate.Join.{Plain, find_delim-by}

map-some_inv {ℓ κ} :
    {A : Type ℓ} {B : Type κ} (f : A → B) (o : Option A) (b : B)
    → Option.map f o ≡ some b
    → (a : A) × (o ≡ some a) × (b ≡ f a)
map-some_inv f none b e = cc
map-some_inv f (some a) b e = (a, refl, sym (some_inj e))

length-map_clean :
    (d : ℕ) (l : List CString) → length (map (cleanup_separated_string d) l) ≡ length l
length-map_clean d [] = refl
length-map_clean d (x ∷ l) = ap suc (length-map_clean d l)

tokens_after-length :
    (cut : Cut) (next : CString → Option (List CString)) (room : ℕ) (l : List CString)
    → ((s : CString) (k : List CString) → next s ≡ some k → length k ≤ room)
    → tokens_after cut next ≡ some l
    → length l ≤ suc room
tokens_after-length none next room l h e = cc
tokens_after-length (some (t, none)) next room l h e =
    let len : length l ≡ 1 = ap length (sym (some_inj e)) in omega arith
tokens_after-length (some (t, some rest)) next room l h e =
    let (k, at, l_eq) = map-some_inv (◌∷◌ t) (next rest) l e in
    let len : length l ≡ suc (length k) = ap length l_eq in omega (arith, h rest k at)

length-tokens_char :
    (d room : ℕ) (s : CString) (l : List CString) → tokens_char d room s ≡ some l → length l ≤ room
unfolding tokens_char
length-tokens_char d zero s l e =
    let len : length l ≡ 0 = ap length (sym (some_inj e)) in omega arith
length-tokens_char d (suc room) [] l e =
    let len : length l ≡ 0 = ap length (sym (some_inj e)) in omega arith
length-tokens_char d (suc zero) (c ∷ s) l e =
    let len : length l ≡ 1 = ap length (sym (some_inj e)) in omega arith
length-tokens_char d (suc (suc room)) (c ∷ s) l e =
    tokens_after-length (find_delim (move_char d) (c ∷ s) false) (tokens_char d (suc room))
      (suc room) l (length-tokens_char d (suc room)) e

length-tokens_blank :
    (room : ℕ) (s : CString) (l : List CString) → tokens_blank room s ≡ some l → length l ≤ room
unfolding tokens_blank
length-tokens_blank zero s l e =
    let len : length l ≡ 0 = ap length (sym (some_inj e)) in omega arith
length-tokens_blank (suc room) [] l e =
    let len : length l ≡ 0 = ap length (sym (some_inj e)) in omega arith
length-tokens_blank (suc zero) (c ∷ s) l e =
    let len : length l ≡ 1 = ap length (sym (some_inj e)) in omega arith
length-tokens_blank (suc (suc room)) (c ∷ s) l e =
    tokens_after-length (find_delim move_blank (skip_spaces (c ∷ s)) false)
      (λ rest. tokens_blank (suc room) (skip_spaces rest)) (suc room) l
      (λ rest. length-tokens_blank (suc room) (skip_spaces rest)) e

separate_by-length :
    (d : ℕ) (buf : CString) (arraylen : ℕ) (l : List CString)
    → separate_by (d, buf) arraylen ≡ some l
    → length l ≤ arraylen
unfolding separate_by separate_string_char_delim separate_string_blank_delim
separate_by-length d buf arraylen l e = elim (Bool-cases (d == space)) [
  | inl b ↦
      let e' : separate_string_blank_delim buf arraylen ≡ some l = rw b at e in
      let (k, at, l_eq) =
        map-some_inv (map (cleanup_separated_string 0)) (tokens_blank arraylen buf) l e' in
      omega (arith, ap length l_eq ∙ length-map_clean 0 k, length-tokens_blank arraylen buf k at)
  | inr b ↦
      let e' : separate_string_char_delim buf d arraylen ≡ some l = rw b at e in
      let (k, at, l_eq) =
        map-some_inv (map (cleanup_separated_string d)) (tokens_char d arraylen buf) l e' in
      omega (arith, ap length l_eq ∙ length-map_clean d k, length-tokens_char d arraylen buf k at)
]

-- Whatever the text and the delimiter: if agc_separate_string returns, the number of pointers it has
-- written, its result, is at most `arraylen`.
pub separate_string-length :
    (buf : Option CString) (delim arraylen : ℕ) (l : List CString)
    → separate_string buf delim arraylen ≡ some l
    → length l ≤ arraylen
unfolding separate_string
separate_string-length none delim arraylen l e =
    let len : length l ≡ 0 = ap length (sym (some_inj e)) in omega arith
separate_string-length (some buf) delim arraylen l e =
    separate_by-length (redirect delim buf).0 (redirect delim buf).1 arraylen l e

find_delim-backslash :
    (d : ℕ) (t : CString)
    → All (Plain d) t
    → find_delim (move_char d) (t ++ backslash ∷ []) false ≡ none
unfolding find_delim find_by move_char
find_delim-backslash d [] h = refl
find_delim-backslash d (c ∷ t) (h, hs) =
    find_delim-by d c (t ++ backslash ∷ []) h ∙ ap (in_front (c ∷ [])) (find_delim-backslash d t hs)

-- A text without delimiters, quotes and backslashes but with one backslash at its end: with room for
-- at least two tokens, separate_string_char_delim reads on behind the end of the text.
pub separate_string_char_delim-backslash :
    (d room : ℕ) (t : CString)
    → All (Plain d) t
    → separate_string_char_delim (t ++ backslash ∷ []) d (suc (suc room)) ≡ none
unfolding separate_string_char_delim tokens_char
separate_string_char_delim-backslash d room [] h =
    ap
      (λ x.
        Option.map (map (cleanup_separated_string d)) (tokens_after x (tokens_char d (suc room))))
      (find_delim-backslash d [] h)
separate_string_char_delim-backslash d room (c ∷ t) h =
    ap
      (λ x.
        Option.map (map (cleanup_separated_string d)) (tokens_after x (tokens_char d (suc room))))
      (find_delim-backslash d (c ∷ t) h)
