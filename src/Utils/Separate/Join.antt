-- ===== src/Utils/Separate/Join.antt =====
-- agc_separate_string of src/agc_utils.c on texts without quotes and backslashes.
use mathlib.Core.Option
use common_framework.Base.{
  ℕ, zero, suc, ◌<◌, ◌≡◌, refl, sym, ap, ◌∙◌, ◌≢◌, inl, inr, Bool, true, false, not, ◌&&◌, none,
  some, List, [], ◌∷◌, ◌++◌, map, arith, ◌==◌, if◌then◌else◌, ==→eq, ne→==, ==_refl, Bool-cases,
  length, All, All-append,
}
use common_framework.Base.CString.{CString}
use common_framework.Utils.Separate.{
  space, quote, backslash, caret, action, Out, kept, blank, emit, clean_by, clean_loop, sets_end,
  upto_end, skip_spaces, cleanup_separated_string, stop, pass, move_char, in_front, find_by,
  find_delim, tokens_after, tokens_char, separate_string_char_delim, redirect, separate_by,
  separate_string,
}

-- Neither the delimiter nor a character that the tokenizer treats in its own way.
abbrev pub Plain : ℕ → ℕ → Type 0
Plain d c = (c ≢ backslash) × (c ≢ quote) × (c ≢ d)

abbrev pub all_spaces : CString → Bool
all_spaces [] = true
all_spaces (c ∷ s) = (c == space) && all_spaces s

abbrev pub strip_end : CString → CString
strip_end [] = []
strip_end (c ∷ s) = let rest = strip_end s in if (c == space) && all_spaces s then [] else c ∷ rest

-- A text without its leading and trailing spaces.
abbrev pub strip : CString → CString
strip s = strip_end (skip_spaces s)

-- The pieces `ps` and `last` with the delimiter between them.
abbrev pub join : ℕ → List CString → CString → CString
join d [] last = last
join d (p ∷ ps) last = p ++ d ∷ join d ps last

move_char-pass : (d c : ℕ) (rest : CString) → Plain d c → move_char d false c rest ≡ pass
unfolding move_char
move_char-pass d c rest (b, q, e) = rw (ne→== c backslash b, ne→== c quote q, ne→== c d e) refl

move_char-stop :
    (d : ℕ) (rest : CString) → d ≢ backslash → d ≢ quote → move_char d false d rest ≡ stop
unfolding move_char
move_char-stop d rest b q = rw (ne→== d backslash b, ne→== d quote q, ==_refl d) refl

pub find_delim-by :
    (d c : ℕ) (s : CString)
    → Plain d c
    → find_delim (move_char d) (c ∷ s) false ≡ in_front (c ∷ []) (find_delim (move_char d) s false)
unfolding find_delim find_by
find_delim-by d c [] h = rw (move_char-pass d c [] h) refl
find_delim-by d c (e ∷ s) h = rw (move_char-pass d c (e ∷ s) h) refl

find_delim-at :
    (d : ℕ) (s : CString)
    → d ≢ backslash
    → d ≢ quote
    → find_delim (move_char d) (d ∷ s) false ≡ some ([], some s)
unfolding find_delim find_by
find_delim-at d [] b q = rw (move_char-stop d [] b q) refl
find_delim-at d (e ∷ s) b q = rw (move_char-stop d (e ∷ s) b q) refl

find_delim_last :
    (d : ℕ) (t : CString) → All (Plain d) t → find_delim (move_char d) t false ≡ some (t, none)
unfolding find_delim
find_delim_last d [] h = refl
find_delim_last d (c ∷ t) (h, hs) =
    find_delim-by d c t h ∙ ap (in_front (c ∷ [])) (find_delim_last d t hs)

find_delim_next :
    (d : ℕ) (t s : CString)
    → d ≢ backslash
    → d ≢ quote
    → All (Plain d) t
    → find_delim (move_char d) (t ++ d ∷ s) false ≡ some (t, some s)
find_delim_next d [] s b q h = find_delim-at d s b q
find_delim_next d (c ∷ t) s b q (h, hs) =
    find_delim-by d c (t ++ d ∷ s) h ∙ ap (in_front (c ∷ [])) (find_delim_next d t s b q hs)

tokens_char-step :
    (d room : ℕ) (p s : CString)
    → d ≢ backslash
    → d ≢ quote
    → All (Plain d) p
    → tokens_char d (suc (suc room)) (p ++ d ∷ s) ≡ Option.map (◌∷◌ p) (tokens_char d (suc room) s)
unfolding tokens_char
tokens_char-step d room [] s b q h =
    ap (λ x. tokens_after x (tokens_char d (suc room))) (find_delim_next d [] s b q h)
tokens_char-step d room (c ∷ p) s b q h =
    ap (λ x. tokens_after x (tokens_char d (suc room))) (find_delim_next d (c ∷ p) s b q h)

tokens_char-join :
    (d room : ℕ) (ps : List CString) (c : ℕ) (t : CString)
    → d ≢ backslash
    → d ≢ quote
    → All (All (Plain d)) ps
    → All (Plain d) (c ∷ t)
    → length ps < room
    → tokens_char d room (join d ps (c ∷ t)) ≡ some (ps ++ (c ∷ t) ∷ [])
unfolding tokens_char
tokens_char-join d zero ps c t b q hs h l = absurd (omega arith)
tokens_char-join d (suc zero) [] c t b q hs h l = refl
tokens_char-join d (suc zero) (p ∷ ps) c t b q hs h l = absurd (omega arith)
tokens_char-join d (suc (suc room)) [] c t b q hs h l =
    ap (λ x. tokens_after x (tokens_char d (suc room))) (find_delim_last d (c ∷ t) h)
tokens_char-join d (suc (suc room)) (p ∷ ps) c t b q (hp, hs) h l =
    tokens_char-step d room p (join d ps (c ∷ t)) b q hp
    ∙ ap (Option.map (◌∷◌ p)) (tokens_char-join d (suc room) ps c t b q hs h (omega arith))

clean_loop-by :
    (d c : ℕ) (s : CString)
    → Plain d c
    → clean_loop d (c ∷ s) false ≡ emit false c ∷ clean_loop d s false
unfolding clean_loop clean_by action
clean_loop-by d c [] (b, q, e) = rw (ne→== c backslash b, ne→== c quote q) refl
clean_loop-by d c (x ∷ s) (b, q, e) = rw (ne→== c backslash b, ne→== c quote q) refl

emit-space : (c : ℕ) → (c == space) ≡ true → emit false c ≡ blank
unfolding emit
emit-space c e = rw e refl

emit-kept : (c : ℕ) → (c == space) ≡ false → emit false c ≡ kept c
unfolding emit
emit-kept c e = rw e refl

sets_end-clean_loop :
    (d : ℕ) (t : CString) → All (Plain d) t → sets_end (clean_loop d t false) ≡ not (all_spaces t)
unfolding clean_loop
sets_end-clean_loop d [] h = refl
sets_end-clean_loop d (c ∷ t) (h, hs) = elim (Bool-cases (c == space)) [
  | inl e ↦ rw (clean_loop-by d c t h, emit-space c e, e) (sets_end-clean_loop d t hs)
  | inr e ↦ rw (clean_loop-by d c t h, emit-kept c e, e) refl
]

upto_end-blank :
    (l : List Out) (b : Bool) (t : CString)
    → sets_end l ≡ not b
    → upto_end l ≡ t
    → upto_end (blank ∷ l) ≡ (if b then [] else space ∷ t)
unfolding upto_end
upto_end-blank l true t s u = rw s refl
upto_end-blank l false t s u = rw s (ap (◌∷◌ space) u)

upto_end-clean_loop :
    (d : ℕ) (t : CString) → All (Plain d) t → upto_end (clean_loop d t false) ≡ strip_end t
unfolding clean_loop upto_end
upto_end-clean_loop d [] h = refl
upto_end-clean_loop d (c ∷ t) (h, hs) = elim (Bool-cases (c == space)) [
  | inl e ↦
      rw (clean_loop-by d c t h, emit-space c e, e)
        (upto_end-blank (clean_loop d t false) (all_spaces t) (strip_end t)
            (sets_end-clean_loop d t hs) (upto_end-clean_loop d t hs)
          ∙ ap (λ x. if all_spaces t then [] else x ∷ strip_end t) (sym (==→eq c space e)))
  | inr e ↦ rw (clean_loop-by d c t h, emit-kept c e, e) (ap (◌∷◌ c) (upto_end-clean_loop d t hs))
]

All-skip_spaces {κ} : (P : ℕ → Type κ) (t : CString) → All P t → All P (skip_spaces t)
All-skip_spaces P [] h = tt
All-skip_spaces P (c ∷ t) h = elim (Bool-cases (c == space)) [
  | inl e ↦ rw e (All-skip_spaces P t h.1)
  | inr e ↦ rw e h
]

cleanup_separated_string-strip :
    (d : ℕ) (t : CString) → All (Plain d) t → cleanup_separated_string d t ≡ strip t
unfolding cleanup_separated_string
cleanup_separated_string-strip d t h =
    upto_end-clean_loop d (skip_spaces t) (All-skip_spaces (Plain d) t h)

map-strip :
    (d : ℕ) (ps : List CString)
    → All (All (Plain d)) ps
    → map (cleanup_separated_string d) ps ≡ map strip ps
map-strip d [] h = refl
map-strip d (p ∷ ps) (h, hs) =
    ap (λ x. x ∷ map (cleanup_separated_string d) ps) (cleanup_separated_string-strip d p h)
    ∙ ap (◌∷◌ (strip p)) (map-strip d ps hs)

separate_string_char_delim-join :
    (d room : ℕ) (ps : List CString) (c : ℕ) (t : CString)
    → d ≢ backslash
    → d ≢ quote
    → All (All (Plain d)) ps
    → All (Plain d) (c ∷ t)
    → length ps < room
    → separate_string_char_delim (join d ps (c ∷ t)) d room ≡ some (map strip (ps ++ (c ∷ t) ∷ []))
unfolding separate_string_char_delim
separate_string_char_delim-join d room ps c t b q hs h l =
    ap (Option.map (map (cleanup_separated_string d))) (tokens_char-join d room ps c t b q hs h l)
    ∙ ap some
        (map-strip d (ps ++ (c ∷ t) ∷ []) (All-append (All (Plain d)) ps ((c ∷ t) ∷ []) hs (h, tt)))

separate_by-char :
    (d room : ℕ) (s : CString)
    → d ≢ space
    → separate_by (d, s) room ≡ separate_string_char_delim s d room
unfolding separate_by
separate_by-char d room s ne = rw (ne→== d space ne) refl

redirect-caret :
    (other d c : ℕ) (s : CString) → redirect other (caret ∷ caret ∷ d ∷ c ∷ s) ≡ (d, c ∷ s)
unfolding redirect
redirect-caret other d c s = refl

redirect-plain : (other c : ℕ) (s : CString) → c ≢ caret → redirect other (c ∷ s) ≡ (other, c ∷ s)
unfolding redirect
redirect-plain other c [] ne = refl
redirect-plain other c (x ∷ []) ne = refl
redirect-plain other c (x ∷ y ∷ []) ne = refl
redirect-plain other c (x ∷ y ∷ z ∷ s) ne = rw (ne→== c caret ne) refl

redirect-join :
    (other d : ℕ) (ps : List CString) (c : ℕ) (t : CString)
    → redirect other (caret ∷ caret ∷ d ∷ join d ps (c ∷ t)) ≡ (d, join d ps (c ∷ t))
redirect-join other d [] c t = redirect-caret other d c t
redirect-join other d ([] ∷ ps) c t = redirect-caret other d d (join d ps (c ∷ t))
redirect-join other d ((x ∷ p) ∷ ps) c t = redirect-caret other d x (p ++ d ∷ join d ps (c ∷ t))

redirect-join_plain :
    (d x : ℕ) (text s : CString) → text ≡ x ∷ s → x ≢ caret → redirect d text ≡ (d, text)
redirect-join_plain d x text s e ne =
    ap (redirect d) e ∙ (redirect-plain d x s ne ∙ ap (λ y. (d, y)) (sym e))

-- For a delimiter that is no space, quote or backslash, pieces free of the delimiter, quotes and
-- backslashes with a last piece that is not empty, room for them all, and a text of the pieces with
-- delimiters between them that does not begin with '^': agc_separate_string finds in the text
-- exactly the pieces, in order and without their outer spaces, and the same behind the prefix "^^"
-- and the delimiter, with any other delimiter as its argument.
pub separate_string-join :
    (d other room : ℕ) (ps : List CString) (c : ℕ) (t : CString) (x : ℕ) (s : CString)
    → d ≢ space
    → d ≢ backslash
    → d ≢ quote
    → All (All (Plain d)) ps
    → All (Plain d) (c ∷ t)
    → length ps < room
    → join d ps (c ∷ t) ≡ x ∷ s
    → x ≢ caret
    → (separate_string (some (join d ps (c ∷ t))) d room ≡ some (map strip (ps ++ (c ∷ t) ∷ [])))
      × (separate_string (some (caret ∷ caret ∷ d ∷ join d ps (c ∷ t))) other room
          ≡ some (map strip (ps ++ (c ∷ t) ∷ [])))
unfolding separate_string
separate_string-join d other room ps c t x s sp b q hs h l e ne =
    let found =
      separate_by-char d room (join d ps (c ∷ t)) sp
      ∙ separate_string_char_delim-join d room ps c t b q hs h l in
    (
      ap (λ y. separate_by y room) (redirect-join_plain d x (join d ps (c ∷ t)) s e ne) ∙ found,
      ap (λ y. separate_by y room) (redirect-join other d ps c t) ∙ found,
    )
