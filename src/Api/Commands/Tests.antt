-- ===== src/Api/Commands/Tests.antt =====
-- A table with one command, and a line of two commands.
use common_framework.Base.{◌≡◌, refl, true, none, some, [], ◌∷◌, arith}
use common_framework.Base.CString.{lit}
use common_framework.Api.Stream.{stream_write}
use common_framework.Api.Commands.{Function, Api, parse_execute}
use common_framework.Api.Commands.Execution.{Line, IsLine, ran, parse_execute-ran}

abbrev echo : Function
echo arg h = stream_write true h arg

abbrev api : Api
api = record { name = lit "Echo"; desc = none; syntax = none; function = echo }

abbrev line : Line
line = record { first = b'1'; more = []; cmd = lit "echo"; arg = lit "a" }

line-IsLine : IsLine line
line-IsLine = record {
  first_word = refl;
  more_word = tt;
  cmd_word = (refl, (refl, (refl, (refl, tt))));
  arg_word = (refl, tt);
  arg_there = λ e. cc;
}

parse_execute-ran_example :
    parse_execute true (api ∷ []) (some (lit "1 echo a;1 echo a"))
    ≡ some (ran true (api ∷ []) line ∷ ran true (api ∷ []) line ∷ [])
parse_execute-ran_example =
    parse_execute-ran true (api ∷ []) (line ∷ []) line (line-IsLine, tt) line-IsLine (omega arith)
