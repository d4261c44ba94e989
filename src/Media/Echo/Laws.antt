-- ===== src/Media/Echo/Laws.antt =====
-- The echo response that is built in media_gtp_path.c and what is sent of it.
use common_framework.Base.{
  ℕ, ◌+◌, ◌/◌, ◌<◌, ◌≡◌, refl, Bool, true, false, some, List, ◌++◌, arith, length, get_elem?,
}
use common_framework.Media.Echo.{
  flag_pn, flag_s, optional_part, build_response, first_bytes, handle_echo_req,
}

-- GTPV1U_HEADER_LEN
abbrev pub header_len : ℕ
header_len = 8

-- A message that is built with a length field, and the bytes of it that are sent: the message has a
-- header and as many bytes behind it as the field says; only as many are sent, the first ones, and
-- they are fewer than the header has.
pub record CutShort (message sent : List ℕ) : Type 0 where
  pub unsent : List ℕ
  pub parts : message ≡ sent ++ unsent
  pub field : (get_elem? message 2 ≡ some 0) × (get_elem? message 3 ≡ some (length sent))
  pub whole : length message ≡ header_len + length sent
  pub less : length sent < header_len

build_response-CutShort :
    (stale : ℕ → ℕ) (pn s : Bool)
    → CutShort (build_response stale pn s).0 (first_bytes (build_response stale pn s))
unfolding build_response optional_part
build_response-CutShort stale true true = record {
  unsent = _;
  parts = refl;
  field = (refl, refl);
  whole = refl;
  less = omega arith;
}
build_response-CutShort stale true false = record {
  unsent = _;
  parts = refl;
  field = (refl, refl);
  whole = refl;
  less = omega arith;
}
build_response-CutShort stale false true = record {
  unsent = _;
  parts = refl;
  field = (refl, refl);
  whole = refl;
  less = omega arith;
}
build_response-CutShort stale false false = record {
  unsent = _;
  parts = refl;
  field = (refl, refl);
  whole = refl;
  less = omega arith;
}

-- For an echo request of GTP version 1, some bytes are sent: the first ones of the response that is
-- built, as many as its length field says. But that field does not count the header of 8 bytes, so
-- these are fewer bytes than the header has, and the rest of the response is not sent.
pub handle_echo_req-Cut :
    (stale : ℕ → ℕ) (flags : ℕ)
    → flags / 32 ≡ 1
    → (sent : List ℕ) × (handle_echo_req stale flags 1 ≡ some sent)
      × CutShort (build_response stale (flag_pn flags) (flag_s flags)).0 sent
unfolding handle_echo_req
handle_echo_req-Cut stale flags version = (
  first_bytes (build_response stale (flag_pn flags) (flag_s flags)),
  rw version refl,
  build_response-CutShort stale (flag_pn flags) (flag_s flags),
)

-- Where the request has a sequence number, the response's sequence number is what the uninitialised
-- buffer held, whatever the request says.
pub build_response_stale :
    (stale : ℕ → ℕ) (pn : Bool)
    → (get_elem? (build_response stale pn true).0 8 ≡ some (stale 8))
      × (get_elem? (build_response stale pn true).0 9 ≡ some (stale 9))
unfolding build_response optional_part
build_response_stale stale true = (refl, refl)
build_response_stale stale false = (refl, refl)
