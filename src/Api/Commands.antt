-- ===== src/Api/Commands.antt =====
-- The commands of src/agc_api.c. A command's function maps its argument and a stream to the stream and
-- a status. `none` as a result is a read through a null pointer; `grow` says whether realloc succeeds.
pub mod Laws
pub mod Execution
pub mod Tests
use mathlib.Core.Option
use common_framework.Base.{
  ℕ, Bool, Option, none, some, List, [], ◌∷◌, map, Status, success, status_false, ◌==◌,
  if◌then◌else◌,
}
use common_framework.Base.CString.{CString, lit, same_nocase}
use common_framework.Utils.Separate.{separate_string}
use common_framework.Api.Stream.{Stream, stand_stream, stream_write}

abbrev pub Function : Type 0
Function = Option CString → Stream → Stream × Status

-- struct agc_api_interface_s
pub record Api : Type 0 where
  pub name : CString
  pub desc : Option CString
  pub syntax : Option CString
  pub function : Function

-- agc_api_register on the list APIS.
unfoldable pub register :
    List Api
    → Option CString
    → Option CString
    → Option CString
    → Option Function
    → List Api × Status
register apis none desc syntax func = (apis, status_false)
register apis (some name) desc syntax none = (apis, status_false)
register apis (some name) desc syntax (some func) =
    (record { name = name; desc = desc; syntax = syntax; function = func } ∷ apis, success)

-- agc_api_find
unfoldable pub find : List Api → CString → Option Api
find [] cmd = none
find (api ∷ apis) cmd =
    let rest = find apis cmd in if same_nocase api.name cmd then some api else rest

-- The stream after a call of a command's function, with the text for a failure.
unfoldable pub finish : Bool → Stream × Status → Stream × Status
finish grow (h, success) = (h, success)
finish grow (h, s) = ((stream_write grow h (some (lit "COMMAND RETURN ERROR!\n"))).0, s)

unfoldable pub run_api : Bool → Option Api → Option CString → Stream → Stream × Status
run_api grow none arg h = ((stream_write grow h (some (lit "INVALID COMMAND!\n"))).0, status_false)
run_api grow (some api) arg h = finish grow (api.function arg h)

-- agc_api_execute
unfoldable pub execute :
    Bool → List Api → Option CString → Option CString → Stream → Stream × Status
execute grow apis none arg h = run_api grow none arg h
execute grow apis (some cmd) arg h = run_api grow (find apis cmd) arg h

-- The text before the first `c` and the text behind it, if there is one.
abbrev pub put_front : ℕ → CString × Option CString → CString × Option CString
put_front x (s, rest) = (x ∷ s, rest)

unfoldable pub split_at : ℕ → CString → CString × Option CString
split_at c [] = ([], none)
split_at c (x ∷ s) = let rest = split_at c s in if x == c then ([], some s) else put_front x rest

-- The text up to the first '\r', or if there is none up to the first '\n'.
abbrev pub cut_at : CString → Option CString → CString × Option CString → CString
cut_at s none (line, rest) = line
cut_at s (some rest) other = s

unfoldable pub first_line : CString → CString
first_line s = cut_at (split_at 13 s).0 (split_at 13 s).1 (split_at 10 s)

unfoldable pub exec_words : Bool → List Api → CString → CString × Option CString → Stream × Status
exec_words grow apis uuid (cmd, arg) =
    execute grow apis (some cmd) arg (record stand_stream { uuid = some uuid })

unfoldable pub exec_line : Bool → List Api → CString × Option CString → Option (Stream × Status)
exec_line grow apis (uuid, none) = none
exec_line grow apis (uuid, some words) = some (exec_words grow apis uuid (split_at 32 words))

-- parse_and_exec: what the command leaves in its stream and its status, which are dropped; the
-- function itself returns the first component.
unfoldable pub parse_and_exec :
    Bool → List Api → Option CString → Option (Status × Option (Stream × Status))
parse_and_exec grow apis none = some (status_false, none)
parse_and_exec grow apis (some xcmd) =
    Option.map (λ r. (success, some r)) (exec_line grow apis (split_at 32 (first_line xcmd)))

abbrev pub Ran : Type 0
Ran = List (Status × Option (Stream × Status))

abbrev pub ran_next : Option (Status × Option (Stream × Status)) → Option Ran → Option Ran
ran_next none rest = none
ran_next (some r) none = none
ran_next (some r) (some rs) = some (r ∷ rs)

unfoldable pub exec_all : Bool → List Api → List CString → Option Ran
exec_all grow apis [] = some []
exec_all grow apis (s ∷ ss) = ran_next (parse_and_exec grow apis (some s)) (exec_all grow apis ss)

abbrev pub exec_tokens : Bool → List Api → Option (List CString) → Option Ran
exec_tokens grow apis none = none
exec_tokens grow apis (some ss) = exec_all grow apis ss

-- agc_parse_execute: at most 100 commands, separated by semicolons.
unfoldable pub parse_execute : Bool → List Api → Option CString → Option Ran
parse_execute grow apis none = some []
parse_execute grow apis (some xcmd) = exec_tokens grow apis (separate_string (some xcmd) b';' 100)
