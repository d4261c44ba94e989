-- ===== src/Utils/Separate.antt =====
-- agc_separate_string of src/agc_utils.c. It cuts the text in place; the model returns the texts that
-- the pointers in `array` then point to. `none` as a result is a read behind the end of the text.
pub mod Join
pub mod Bounds
pub mod Tests
use mathlib.Core.Option
use common_framework.Base.{
  ℕ, zero, suc, Bool, true, false, not, ◌&&◌, ◌||◌, Option, none, some, List, [], ◌∷◌, ◌++◌, map,
  ◌==◌, if◌then◌else◌,
}
use common_framework.Base.CString.{CString}

abbrev pub space : ℕ
space = b' '

abbrev pub quote : ℕ
quote = 39

abbrev pub backslash : ℕ
backslash = 92

-- strchr(s, c) is not NULL, for c other than 0.
abbrev pub has_char : ℕ → CString → Bool
has_char c [] = false
has_char c (x ∷ s) = (x == c) || has_char c s

-- unescape_char
unfoldable pub unescape_char : ℕ → ℕ
unescape_char c =
    if c == b'n'
    then 10
    else if c == b'r'
    then 13
    else if c == b't'
    then 9
    else if c == b's'
    then space
    else c

-- What `e` behind a backslash stands for, if cleanup_separated_string takes it for an escape.
unfoldable pub escaped : ℕ → ℕ → Option ℕ
unfolding unescape_char
escaped delim e =
    if (e == quote) || (e == b'"') || (not (delim == 0) && (e == delim)) || (e == backslash)
    then some e
    else if unescape_char e == e
    then none
    else some (unescape_char e)

abbrev pub escape_in : ℕ → CString → Option ℕ
escape_in delim [] = none
escape_in delim (e ∷ s) = escaped delim e

-- What the loop of cleanup_separated_string does with a character.
pub data Action : Type 0 where
  escape : ℕ → Action
  toggle copy : Action

abbrev pub escape_or_copy : Option ℕ → Action
escape_or_copy none = copy
escape_or_copy (some e) = escape e

unfoldable pub action : ℕ → Bool → ℕ → CString → Action
unfolding escaped
action delim inside c rest =
    if c == backslash
    then escape_or_copy (escape_in delim rest)
    else if (c == quote) && (inside || has_char quote rest)
    then toggle
    else copy

-- What is written to `dest`, and whether `end` is set to it: a character with `end` behind it, a
-- space without, and `end` set without a character.
pub data Out : Type 0 where
  kept : ℕ → Out
  blank mark : Out

unfoldable pub emit : Bool → ℕ → Out
emit inside c = if (c == space) && not inside then blank else kept c

unfoldable pub clean_by : Action → Bool → ℕ → (rest skip : Bool → List Out) → List Out
unfolding emit
clean_by (escape e) inside c rest skip = kept e ∷ skip inside
clean_by toggle true c rest skip = rest false
clean_by toggle false c rest skip = mark ∷ rest true
clean_by copy inside c rest skip = emit inside c ∷ rest inside

unfoldable pub clean_loop : ℕ → CString → Bool → List Out
unfolding action clean_by
clean_loop delim [] inside = []
clean_loop delim (c ∷ []) inside = clean_by (action delim inside c []) inside c (λ q. []) (λ q. [])
clean_loop delim (c ∷ e ∷ s) inside =
    clean_by (action delim inside c (e ∷ s)) inside c (clean_loop delim (e ∷ s))
      (clean_loop delim s)

abbrev pub sets_end : List Out → Bool
sets_end [] = false
sets_end (kept c ∷ l) = true
sets_end (blank ∷ l) = sets_end l
sets_end (mark ∷ l) = true

-- The text from `start` up to `end`.
unfoldable pub upto_end : List Out → CString
upto_end [] = []
upto_end (kept c ∷ l) = c ∷ upto_end l
upto_end (blank ∷ l) = let rest = upto_end l in if sets_end l then space ∷ rest else []
upto_end (mark ∷ l) = upto_end l

abbrev pub skip_spaces : CString → CString
skip_spaces [] = []
skip_spaces (c ∷ s) = let rest = skip_spaces s in if c == space then rest else c ∷ s

-- cleanup_separated_string
unfoldable pub cleanup_separated_string : ℕ → CString → CString
unfolding clean_loop upto_end
cleanup_separated_string delim s = upto_end (clean_loop delim (skip_spaces s) false)

-- What the state FIND_DELIM does with a character.
pub data Move : Type 0 where
  skip_next flip stop pass : Move

unfoldable pub move_char : ℕ → Bool → ℕ → CString → Move
move_char delim inside c rest =
    if c == backslash
    then skip_next
    else if (c == quote) && (inside || has_char quote rest)
    then flip
    else if (c == delim) && not inside
    then stop
    else pass

unfoldable pub move_blank : Bool → ℕ → CString → Move
move_blank inside c rest =
    if c == backslash
    then skip_next
    else if c == quote
    then flip
    else if (c == space) && not inside
    then stop
    else pass

-- A token, and the text behind its delimiter.
abbrev pub Cut : Type 0
Cut = Option (CString × Option CString)

abbrev pub in_front : CString → Cut → Cut
in_front s none = none
in_front s (some (t, rest)) = some (s ++ t, rest)

unfoldable pub find_by : Move → Bool → ℕ → CString → (next : Bool → Cut) → (skip : Cut) → Cut
find_by skip_next inside c s next skip = skip
find_by flip inside c s next skip = in_front (c ∷ []) (next (not inside))
find_by stop inside c s next skip = some ([], some s)
find_by pass inside c s next skip = in_front (c ∷ []) (next inside)

-- The state FIND_DELIM up to the next delimiter, for each tokenizer's move.
unfoldable pub find_delim : (Bool → ℕ → CString → Move) → CString → Bool → Cut
unfolding find_by
find_delim move [] inside = some ([], none)
find_delim move (c ∷ []) inside = find_by (move inside c []) inside c [] (find_delim move []) none
find_delim move (c ∷ e ∷ s) inside =
    find_by (move inside c (e ∷ s)) inside c (e ∷ s) (find_delim move (e ∷ s))
      (in_front (c ∷ e ∷ []) (find_delim move s inside))

abbrev pub tokens_after : Cut → (CString → Option (List CString)) → Option (List CString)
tokens_after none next = none
tokens_after (some (t, none)) next = some (t ∷ [])
tokens_after (some (t, some rest)) next = Option.map (◌∷◌ t) (next rest)

-- The tokens, when `array` has the given room. The last slot takes all that is left.
unfoldable pub tokens_char : ℕ → ℕ → CString → Option (List CString)
unfolding find_delim move_char
tokens_char delim zero s = some []
tokens_char delim (suc room) [] = some []
tokens_char delim (suc zero) (c ∷ s) = some ((c ∷ s) ∷ [])
tokens_char delim (suc (suc room)) (c ∷ s) =
    tokens_after (find_delim (move_char delim) (c ∷ s) false) (tokens_char delim (suc room))

-- separate_string_char_delim
unfoldable pub separate_string_char_delim : CString → ℕ → ℕ → Option (List CString)
unfolding tokens_char cleanup_separated_string
separate_string_char_delim buf delim arraylen =
    Option.map (map (cleanup_separated_string delim)) (tokens_char delim arraylen buf)

-- The leading spaces of a token are left out: cleanup_separated_string skips them.
unfoldable pub tokens_blank : ℕ → CString → Option (List CString)
unfolding find_delim move_blank
tokens_blank zero s = some []
tokens_blank (suc room) [] = some []
tokens_blank (suc zero) (c ∷ s) = some ((c ∷ s) ∷ [])
tokens_blank (suc (suc room)) (c ∷ s) =
    tokens_after (find_delim move_blank (skip_spaces (c ∷ s)) false)
      (λ rest. tokens_blank (suc room) (skip_spaces rest))

-- separate_string_blank_delim
unfoldable pub separate_string_blank_delim : CString → ℕ → Option (List CString)
unfolding tokens_blank cleanup_separated_string
separate_string_blank_delim buf arraylen =
    Option.map (map (cleanup_separated_string 0)) (tokens_blank arraylen buf)

abbrev pub caret : ℕ
caret = b'^'

-- The delimiter and the text behind a prefix "^^" with a delimiter.
unfoldable pub redirect : ℕ → CString → ℕ × CString
redirect delim [] = (delim, [])
redirect delim (a ∷ []) = (delim, a ∷ [])
redirect delim (a ∷ b ∷ []) = (delim, a ∷ b ∷ [])
redirect delim (a ∷ b ∷ d ∷ []) = (delim, a ∷ b ∷ d ∷ [])
redirect delim (a ∷ b ∷ d ∷ c ∷ s) =
    if (a == caret) && (b == caret) then (d, c ∷ s) else (delim, a ∷ b ∷ d ∷ c ∷ s)

unfoldable pub separate_by : ℕ × CString → ℕ → Option (List CString)
unfolding separate_string_blank_delim separate_string_char_delim
separate_by (delim, buf) arraylen =
    if delim == space
    then separate_string_blank_delim buf arraylen
    else separate_string_char_delim buf delim arraylen

-- agc_separate_string
unfoldable pub separate_string : Option CString → ℕ → ℕ → Option (List CString)
unfolding redirect separate_by
separate_string none delim arraylen = some []
separate_string (some buf) delim arraylen = separate_by (redirect delim buf) arraylen
