-- ===== src/Api/Commands/Laws.antt =====
-- Registration and lookup of commands in src/agc_api.c.
use common_framework.Base.{
  ◌≡◌, refl, ap, inl, inr, Bool, true, false, Option, none, some, List, [], ◌∷◌, ◌++◌, success,
  status_false, if◌then◌else◌, Bool-cases, All,
}
use common_framework.Base.CString.{CString, same_nocase, same_nocase_sym}
use common_framework.Api.Commands.{Function, Api, register, find}

abbrev pub named : CString → Api → Bool
named cmd api = same_nocase api.name cmd

-- Where agc_api_find finds a command: before it in the list no command has the name.
abbrev pub Found : CString → List Api → Option Api → Type 0
Found cmd apis none = All (λ api. named cmd api ≡ false) apis
Found cmd apis (some api) =
    (before : List Api) × (after : List Api) × (apis ≡ before ++ api ∷ after)
    × (named cmd api ≡ true)
    × All (λ x. named cmd x ≡ false) before

Found-cons :
    (cmd : CString) (api : Api) (apis : List Api) (o : Option Api)
    → named cmd api ≡ false
    → Found cmd apis o
    → Found cmd (api ∷ apis) o
Found-cons cmd api apis none miss h = (miss, h)
Found-cons cmd api apis (some x) miss (before, after, split, hit, others) =
    (api ∷ before, after, ap (◌∷◌ api) split, hit, (miss, others))

-- agc_api_find returns the first command of the list whose name is the given one, letter case aside,
-- and NULL exactly if no command has it.
pub find-Found : (apis : List Api) (cmd : CString) → Found cmd apis (find apis cmd)
unfolding find
find-Found [] cmd = tt
find-Found (api ∷ apis) cmd = elim (Bool-cases (named cmd api)) [
  | inl hit ↦ rw hit ([], apis, refl, hit, tt)
  | inr miss ↦ rw miss (Found-cons cmd api apis (find apis cmd) miss (find-Found apis cmd))
]

-- agc_api_register refuses a missing name or function and then changes nothing. Otherwise the new
-- command is found under its name in any letter case, in place of older commands of that name, and
-- every other name finds what it found before.
pub find-register :
    (apis : List Api) (name cmd : CString) (desc syntax : Option CString) (f : Function)
    (any_name : Option CString) (any_func : Option Function)
    → (register apis none desc syntax any_func ≡ (apis, status_false))
      × (register apis any_name desc syntax none ≡ (apis, status_false))
      × ((register apis (some name) desc syntax (some f)).1 ≡ success)
      × (find (register apis (some name) desc syntax (some f)).0 cmd ≡ (
          if same_nocase cmd name
          then some record { name = name; desc = desc; syntax = syntax; function = f }
          else find apis cmd))
unfolding register find
find-register apis name cmd desc syntax f none any_func =
    (refl, refl, refl, rw (same_nocase_sym cmd name) refl)
find-register apis name cmd desc syntax f (some n) any_func =
    (refl, refl, refl, rw (same_nocase_sym cmd name) refl)
