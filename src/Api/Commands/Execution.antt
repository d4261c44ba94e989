-- ===== src/Api/Commands/Execution.antt =====
-- From a line of commands to their execution in src/agc_api.c.
use common_framework.Base.{
  ℕ, suc, ◌<◌, ◌≡◌, refl, sym, ap, ◌∙◌, ◌≢◌, inl, inr, Bool, true, false, not, ◌||◌, Option, none,
  some, List, [], ◌∷◌, ◌++◌, map, append_assoc, arith, Status, success, ◌==◌, ne→==, ==_refl,
  Bool-cases, length, All, All-append,
}
use common_framework.Base.CString.{CString}
use common_framework.Utils.Separate.{space, caret, separate_string}
use common_framework.Utils.Separate.Join.{
  Plain, all_spaces, strip_end, strip, join, separate_string-join,
}
use common_framework.Api.Stream.{Stream, stand_stream}
use common_framework.Api.Commands.{
  Api, execute, split_at, first_line, exec_words, exec_line, parse_and_exec, exec_all, exec_tokens,
  parse_execute,
}

-- Characters without a meaning of their own in a line of commands.
abbrev pub is_word : ℕ → Bool
is_word c =
    not ((c == 92) || (c == 39) || (c == 59) || (c == 32) || (c == 13) || (c == 10) || (c == 94))

abbrev pub Word : ℕ → Type 0
Word c = is_word c ≡ true

Word-ne : (c k : ℕ) → is_word k ≡ false → Word c → c ≢ k
Word-ne c k out w e = let clash : false ≡ true = sym out ∙ (ap is_word (sym e) ∙ w) in cc

-- A command with the identifier in front of it and the argument behind it.
pub record Line : Type 0 where
  pub first : ℕ
  pub more : CString
  pub cmd : CString
  pub arg : CString

abbrev pub uuid_of : Line → CString
uuid_of l = l.first ∷ l.more

abbrev pub words_of : Line → CString
words_of l = l.cmd ++ 32 ∷ l.arg

abbrev pub text_of : Line → CString
text_of l = l.first ∷ (l.more ++ 32 ∷ words_of l)

pub record IsLine (l : Line) : Type 0 where
  pub first_word : Word l.first
  pub more_word : All Word l.more
  pub cmd_word : All Word l.cmd
  pub arg_word : All Word l.arg
  pub arg_there : l.arg ≢ []

All-map {ℓ κ μ} :
    {A : Type ℓ} (P : A → Type κ) (Q : A → Type μ) (l : List A)
    → ((a : A) → P a → Q a)
    → All P l
    → All Q l
All-map P Q [] f h = tt
All-map P Q (x ∷ l) f (h, hs) = (f x h, All-map P Q l f hs)

split_at_first :
    (c : ℕ) (s t : CString) → All (λ x. x ≢ c) s → split_at c (s ++ c ∷ t) ≡ (s, some t)
unfolding split_at
split_at_first c [] t h = rw (==_refl c) refl
split_at_first c (x ∷ s) t (h, hs) = rw (ne→== x c h, split_at_first c s t hs) refl

split_at-none : (c : ℕ) (s : CString) → All (λ x. x ≢ c) s → split_at c s ≡ (s, none)
unfolding split_at
split_at-none c [] h = refl
split_at-none c (x ∷ s) (h, hs) = rw (ne→== x c h, split_at-none c s hs) refl

first_line_lem : (s : CString) → All (λ x. x ≢ 13) s → All (λ x. x ≢ 10) s → first_line s ≡ s
unfolding first_line
first_line_lem s a b = rw (split_at-none 13 s a, split_at-none 10 s b) refl

-- A property of all word characters and of the space holds of all characters of a line.
All-text_of {κ} :
    (P : ℕ → Type κ) (l : Line) → IsLine l → ((c : ℕ) → Word c → P c) → P 32 → All P (text_of l)
All-text_of P l o f sp = (
  f l.first o.first_word,
  All-append P l.more (32 ∷ words_of l) (All-map Word P l.more f o.more_word) (
    sp,
    All-append P l.cmd (32 ∷ l.arg) (All-map Word P l.cmd f o.cmd_word)
        (sp, All-map Word P l.arg f o.arg_word),
  ),
)

-- What the command of a line leaves in its stream, and its status.
abbrev pub ran : Bool → List Api → Line → Status × Option (Stream × Status)
ran grow apis l = (
  success,
  some (
      execute grow apis (some l.cmd) (some l.arg)
        (record stand_stream { uuid = some (uuid_of l) })),
)

parse_and_exec-ran :
    (grow : Bool) (apis : List Api) (l : Line)
    → IsLine l
    → parse_and_exec grow apis (some (text_of l)) ≡ some (ran grow apis l)
unfolding parse_and_exec exec_line exec_words
parse_and_exec-ran grow apis l o =
    let keep_all =
      first_line_lem (text_of l) (All-text_of (λ x. x ≢ 13) l o (λ c. Word-ne c 13 refl) (λ e. cc))
        (All-text_of (λ x. x ≢ 10) l o (λ c. Word-ne c 10 refl) (λ e. cc)) in
    let uuid_eq = split_at_first 32 (uuid_of l) (words_of l) (
      Word-ne l.first 32 refl o.first_word,
      All-map Word (λ x. x ≢ 32) l.more (λ c. Word-ne c 32 refl) o.more_word,
    ) in
    let words_eq =
      split_at_first 32 l.cmd l.arg
        (All-map Word (λ x. x ≢ 32) l.cmd (λ c. Word-ne c 32 refl) o.cmd_word) in
    rw (keep_all, uuid_eq, words_eq) refl

exec_all-ran :
    (grow : Bool) (apis : List Api) (ls : List Line)
    → All IsLine ls
    → exec_all grow apis (map text_of ls) ≡ some (map (ran grow apis) ls)
unfolding exec_all
exec_all-ran grow apis [] h = refl
exec_all-ran grow apis (l ∷ ls) (h, hs) =
    rw (parse_and_exec-ran grow apis l h, exec_all-ran grow apis ls hs) refl

all_spaces-append : (s t : CString) → all_spaces t ≡ false → all_spaces (s ++ t) ≡ false
all_spaces-append [] t h = h
all_spaces-append (c ∷ s) t h = ground (arith, all_spaces-append s t h)

strip_end-append :
    (s t : CString) → all_spaces t ≡ false → strip_end t ≡ t → strip_end (s ++ t) ≡ s ++ t
strip_end-append [] t h e = e
strip_end-append (c ∷ s) t h e = elim (Bool-cases (c == space)) [
  | inl b ↦ rw (b, all_spaces-append s t h) (ap (◌∷◌ c) (strip_end-append s t h e))
  | inr b ↦ rw b (ap (◌∷◌ c) (strip_end-append s t h e))
]

strip_end-Word : (t : CString) → All Word t → strip_end t ≡ t
strip_end-Word [] h = refl
strip_end-Word (c ∷ t) (h, hs) =
    rw (ne→== c space (Word-ne c 32 refl h)) (ap (◌∷◌ c) (strip_end-Word t hs))

not_spaces : (t : CString) → All Word t → t ≢ [] → all_spaces t ≡ false
not_spaces [] h ne = absurd (ne refl)
not_spaces (c ∷ t) (h, hs) ne = rw (ne→== c space (Word-ne c 32 refl h)) refl

strip-text_of : (l : Line) → IsLine l → strip (text_of l) ≡ text_of l
strip-text_of l o = rw (ne→== l.first space (Word-ne l.first 32 refl o.first_word)) (
    ap strip_end (sym whole)
    ∙ (strip_end-append front l.arg (not_spaces l.arg o.arg_word o.arg_there)
          (strip_end-Word l.arg o.arg_word)
        ∙ whole))
  where
    front : CString
    front = l.first ∷ (l.more ++ 32 ∷ (l.cmd ++ 32 ∷ []))

    whole : front ++ l.arg ≡ text_of l
    whole = ap (◌∷◌ l.first) (
        append_assoc l.more (32 ∷ (l.cmd ++ 32 ∷ [])) l.arg
        ∙ ap (λ x. l.more ++ 32 ∷ x) (append_assoc l.cmd (32 ∷ []) l.arg))

strip_lines_lem : (ls : List Line) → All IsLine ls → map strip (map text_of ls) ≡ map text_of ls
strip_lines_lem [] h = refl
strip_lines_lem (l ∷ ls) (h, hs) =
    ap (λ x. x ∷ map strip (map text_of ls)) (strip-text_of l h)
    ∙ ap (◌∷◌ (text_of l)) (strip_lines_lem ls hs)

map_snoc :
    (ls : List Line) (l : Line) → map text_of ls ++ text_of l ∷ [] ≡ map text_of (ls ++ l ∷ [])
map_snoc [] l = refl
map_snoc (x ∷ ls) l = ap (◌∷◌ (text_of x)) (map_snoc ls l)

length-map_text : (ls : List Line) → length (map text_of ls) ≡ length ls
length-map_text [] = refl
length-map_text (l ∷ ls) = ap suc (length-map_text ls)

Plain-text_of : (l : Line) → IsLine l → All (Plain b';') (text_of l)
Plain-text_of l o =
    All-text_of (Plain b';') l o
      (λ c w. (Word-ne c 92 refl w, Word-ne c 39 refl w, Word-ne c 59 refl w))
      (omega arith, omega arith, omega arith)

Plain-map : (ls : List Line) → All IsLine ls → All (All (Plain b';')) (map text_of ls)
Plain-map [] h = tt
Plain-map (l ∷ ls) (h, hs) = (Plain-text_of l h, Plain-map ls hs)

join_head :
    (ls : List Line) (l : Line)
    → All IsLine ls
    → IsLine l
    → (x : ℕ) × (s : CString) × (join b';' (map text_of ls) (text_of l) ≡ x ∷ s) × (x ≢ caret)
join_head [] l h o =
    (l.first, l.more ++ 32 ∷ words_of l, refl, Word-ne l.first 94 refl o.first_word)
join_head (y ∷ ls) l (h, hs) o = (
  y.first,
  (y.more ++ 32 ∷ words_of y) ++ b';' ∷ join b';' (map text_of ls) (text_of l),
  refl,
  Word-ne y.first 94 refl h.first_word,
)

-- The text of the lines with semicolons between them.
abbrev pub command_line : List Line → Line → CString
command_line ls l = join b';' (map text_of ls) (text_of l)

separate_string-command_line :
    (ls : List Line) (l : Line)
    → All IsLine ls
    → IsLine l
    → length ls < 100
    → separate_string (some (command_line ls l)) b';' 100 ≡ some (map text_of (ls ++ l ∷ []))
separate_string-command_line ls l h o few =
    let (x, s, e, ne) = join_head ls l h o in
    (separate_string-join b';' b';' 100 (map text_of ls) l.first (l.more ++ 32 ∷ words_of l) x s
      (omega arith) (omega arith) (omega arith) (Plain-map ls h) (Plain-text_of l o)
      (omega (arith, length-map_text ls)) e ne).0
    ∙ ap some (
        ap (map strip) (map_snoc ls l)
        ∙ strip_lines_lem (ls ++ l ∷ []) (All-append IsLine ls (l ∷ []) h (o, tt)))

-- For up to 100 lines "uuid command argument" of plain words with semicolons between them,
-- agc_parse_execute runs all the commands in order, each through agc_api_execute with its argument
-- and a fresh stream that carries its uuid.
pub parse_execute-ran :
    (grow : Bool) (apis : List Api) (ls : List Line) (l : Line)
    → All IsLine ls
    → IsLine l
    → length ls < 100
    → parse_execute grow apis (some (command_line ls l)) ≡ some (map (ran grow apis) (ls ++ l ∷ []))
unfolding parse_execute
parse_execute-ran grow apis ls l h o few =
    ap (exec_tokens grow apis) (separate_string-command_line ls l h o few)
    ∙ exec_all-ran grow apis (ls ++ l ∷ []) (All-append IsLine ls (l ∷ []) h (o, tt))

-- A line without a space makes parse_and_exec search for a space behind a null pointer.
pub parse_and_exec-no_space :
    (grow : Bool) (apis : List Api) (s : CString)
    → All (λ x. x ≢ 32) (first_line s)
    → parse_and_exec grow apis (some s) ≡ none
unfolding parse_and_exec exec_line
parse_and_exec-no_space grow apis s h = rw (split_at-none 32 (first_line s) h) refl
