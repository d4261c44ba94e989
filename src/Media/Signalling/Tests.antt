-- ===== src/Media/Signalling/Tests.antt =====
-- Requests for the session 2, which the signalling gateway knows as 77.
use common_framework.Base.{ℕ, ◌+◌, ◌≡◌, refl, true, false, none, some, List, [], ◌∷◌, arith}
use common_framework.Base.CString.{CString}
use common_framework.Base.Int.{ℤ, pos}
use common_framework.Media.Types.{Context}
use common_framework.Media.Sessions.{find_media_sig_sess_by_id}
use common_framework.Media.Signalling.{
  type, media_sessid, sig_sessid, upf_teid, upf_ipaddr, upf_teid_v6, upf_ipaddr_v6, gnb_teid,
  gnb_ipaddr, Request, World, Message, done,
}
use common_framework.Media.Sessions.{gtp_node_n3_v4_first}
use common_framework.Media.Signalling.Handlers.{handle_gnb_setup_req, event_callback}
use common_framework.Media.Sockets.Counts.{refs}
use common_framework.Media.Sessions.Removal.{held}
use common_framework.Media.Sample.{
  blank, node, raw, sess, context, context-TableOk, context-Counted,
}
use common_framework.Media.Signalling.Requests.{AsksUpdate}
use common_framework.Media.Signalling.Invariant.{event_callback-KeepsTable}
use common_framework.Media.Signalling.Changes.{KeepsTable}
use common_framework.Media.Signalling.References.{AsksGnbSetup, handle_gnb_setup_req-refs}

-- The texts of numbers in these requests are one byte.
abbrev world : World
world = record {
  atol = first_byte;
  to_addr4 = λ s i. 30;
  to_addr6 = λ s i. 31;
  sent = true;
  raw = raw;
  now = 123;
  stale = blank;
  created_sock = some 600;
  created_sock_v6 = none;
}
  where
    first_byte : CString → ℤ
    first_byte [] = pos 0
    first_byte (c ∷ s) = pos c

-- A request of the given type for a session, complete but for the host name.
abbrev request : (kind id : ℕ) → Request
request kind id type = some (kind ∷ [])
request kind id sig_sessid = some (77 ∷ [])
request kind id media_sessid = some (id ∷ [])
request kind id upf_teid = some (40 ∷ [])
request kind id upf_teid_v6 = some (41 ∷ [])
request kind id upf_ipaddr = some []
request kind id upf_ipaddr_v6 = some []
request kind id gnb_teid = some (42 ∷ [])
request kind id gnb_ipaddr = some []
request kind id name = none

event_callback-KeepsTable_example : KeepsTable 4 (event_callback 4 world (request 2 2) context)
unfolding gtp_node_n3_v4_first
event_callback-KeepsTable_example =
    event_callback-KeepsTable 4 world (omega arith) (omega arith) (request 2 2) context node
      context-TableOk refl

asks_gnb : AsksGnbSetup 4 world (request 2 2) context sess
unfolding find_media_sig_sess_by_id
asks_gnb = record {
  sig_text = 77 ∷ [];
  media_text = 2 ∷ [];
  addr_text = [];
  teid_text = 42 ∷ [];
  sig_there = refl;
  media_there = refl;
  addr_there = refl;
  teid_there = refl;
  known = refl;
  same_id = refl;
}

-- The session held the socket 500 for its gNB: a reference is left over.
handle_gnb_setup_req-refs_example :
    (c' : Context) × (ms : List Message) × (handle_gnb_setup_req 4 world (request 2 2) context
      ≡ done c' ms false)
    × (refs 500 c'.server_list_v2 ≡ held 500 c'.session_list + (1 + 0))
handle_gnb_setup_req-refs_example =
    handle_gnb_setup_req-refs 4 world 500 (request 2 2) context sess asks_gnb context-TableOk
      context-Counted refl (omega arith)

asks_update : AsksUpdate 4 world (request 9 2) context sess
unfolding find_media_sig_sess_by_id
asks_update = record {
  sig_text = 77 ∷ [];
  media_text = 2 ∷ [];
  addr_text = [];
  teid_text = 40 ∷ [];
  addr6_text = [];
  sig_there = refl;
  media_there = refl;
  addr_there = refl;
  teid_there = refl;
  addr6_there = refl;
  known = refl;
}
