-- ===== src/Event/Registry/Tests.antt =====
-- The registry's theorems at the table that init_ids fills.
use common_framework.Base.{
  ℕ, zero, suc, ◌≡◌, refl, ap, Option, none, some, [], ◌∷◌, success, length, set,
}
use common_framework.Base.CString.{CString, lit, tolower, same_nocase}
use common_framework.Base.Int.{pos}
use common_framework.Event.Types.{event_id_limit, event_id_is_invalid}
use common_framework.Event.Registry.{Templates, init_ids, register, get_id}
use common_framework.Event.Registry.Laws.{Matches, get_id-register}

register_length : length init_ids ≡ event_id_limit
unfolding init_ids
register_length = refl

abbrev with_nine : Templates
with_nine = set init_ids 9 (some (lit "Nine"))

registered : register init_ids (pos 9) (lit "Nine") ≡ some (with_nine, success)
unfolding register init_ids event_id_is_invalid
registered = refl

get_id_runs : get_id init_ids (some (lit "ESL")) ≡ (success, some 1)
unfolding get_id init_ids same_nocase tolower
get_id_runs = refl

-- In a table with one free id, no id has the name.
abbrev two : Templates
two = some (lit "all") ∷ none ∷ []

two_fresh : (k : ℕ) → ¬ Matches two (lit "sip") k
unfolding same_nocase tolower
two_fresh zero (n, at, hit) = cc (ap (λ (x : Option (Option CString)). x) at)
two_fresh (suc zero) (n, at, hit) = cc
two_fresh (suc (suc k)) (n, at, hit) = cc

get_id-register_example :
    get_id (some (lit "all") ∷ some (lit "SIP") ∷ []) (some (lit "sip")) ≡ (success, some 1)
unfolding register event_id_is_invalid same_nocase tolower
get_id-register_example =
    get_id-register two (some (lit "all") ∷ some (lit "SIP") ∷ []) 1 (lit "SIP") (lit "sip") refl
      refl two_fresh
