-- ===== src/Media/Echo/Tests.antt =====
-- An echo request with a sequence number.
use common_framework.Base.{ℕ, ◌≡◌, refl, some, List}
use common_framework.Media.Echo.{flag_pn, flag_s, build_response, handle_echo_req}
use common_framework.Media.Echo.Laws.{CutShort, handle_echo_req-Cut}

handle_echo_req-Cut_example :
    (sent : List ℕ) × (handle_echo_req (λ i. 170) 50 1 ≡ some sent)
    × CutShort (build_response (λ i. 170) (flag_pn 50) (flag_s 50)).0 sent
handle_echo_req-Cut_example = handle_echo_req-Cut (λ i. 170) 50 refl
