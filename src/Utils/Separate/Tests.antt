-- ===== src/Utils/Separate/Tests.antt =====
-- The tokenizers on small texts.
use common_framework.Base.{ℕ, ◌<◌, ◌≡◌, refl, ◌≢◌, ◌⊎◌, inl, inr, some, List, [], ◌∷◌, arith, All}
use common_framework.Base.CString.{CString, lit}
use common_framework.Utils.Separate.{
  caret, separate_string, separate_by, redirect, separate_string_char_delim, tokens_char,
  find_delim, find_by, move_char, cleanup_separated_string, clean_loop, clean_by, action, escaped,
  unescape_char, emit, upto_end,
}
use common_framework.Utils.Separate.Join.{Plain, separate_string-join}

separate_runs :
    separate_string (some (lit "a ; b'x;y' ;c")) b';' 10
    ≡ some (lit "a" ∷ lit "bx;y" ∷ lit "c" ∷ [])
unfolding separate_string separate_by redirect separate_string_char_delim tokens_char find_delim
    find_by move_char cleanup_separated_string clean_loop clean_by action escaped unescape_char emit
    upto_end
separate_runs = refl

abbrev pieces : List CString
pieces = lit " a " ∷ [] ∷ []

separate_string-join_example :
    (separate_string (some (lit " a ;;b c ")) b';' 3 ≡ some (lit "a" ∷ [] ∷ lit "b c" ∷ []))
    × (separate_string (some (caret ∷ caret ∷ b';' ∷ lit " a ;;b c ")) b',' 3
        ≡ some (lit "a" ∷ [] ∷ lit "b c" ∷ []))
separate_string-join_example =
    separate_string-join b';' b',' 3 pieces b'b' (lit " c ") b' ' (lit "a ;;b c ") (omega arith)
      (omega arith) (omega arith) plain_pieces plain_last (omega arith) refl (omega arith)
  where
    char : (c : ℕ) → c < 59 ⊎ 92 < c → 39 ≢ c → Plain b';' c
    char c (inl l) q = (omega arith, omega arith, omega arith)
    char c (inr l) q = (omega arith, omega arith, omega arith)

    plain_pieces : All (All (Plain b';')) pieces
    plain_pieces = (
      (
        char 32 (inl (omega arith)) (omega arith),
        (
          char 97 (inr (omega arith)) (omega arith),
          (char 32 (inl (omega arith)) (omega arith), tt),
        ),
      ),
      (tt, tt),
    )

    plain_last : All (Plain b';') (lit "b c ")
    plain_last = (
      char 98 (inr (omega arith)) (omega arith),
      (
        char 32 (inl (omega arith)) (omega arith),
        (
          char 99 (inr (omega arith)) (omega arith),
          (char 32 (inl (omega arith)) (omega arith), tt),
        ),
      ),
    )
